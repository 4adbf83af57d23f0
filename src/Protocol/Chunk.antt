-- ===== src/Protocol/Chunk.antt =====
-- crates/protocol/src/chunk.rs: subchunks with their palettes, and the LevelChunk packet. The
-- bits of a block are added to a u32, as the source means it; a place in a palette is found and
-- added as in crates/world.
pub mod Decode
mod Packing
pub mod RoundTrip
pub mod Uneven
pub mod Height
mod Tests
use rust_mine.Base.{
  ℕ, zero, suc, ◌+◌, ◌-◌, ◌*◌, ◌/◌, ◌%◌, ◌^◌, max, bit_or, ltb, leb, ◌==◌, ◌&&◌, if◌then◌else◌,
  Bool, true, false, List, [], ◌∷◌, ◌++◌, length, get_or, get_elem?, set, replicate, Option, none,
  some,
}
use rust_mine.Base.Int.{ℤ, pos, negsuc, sub_ℕ, ltz, eqz}
use rust_mine.Base.Bytes.{to_le_bytes}
use rust_mine.Nbt.Varint.{write_var_u32, write_var_i32}
use rust_mine.Protocol.{write_packet}
use rust_mine.Protocol.Id
use rust_mine.World.{place_in, local_to_index, for_range}

pub record SubChunk : Type 0 where
  pub palette : List ℕ
  pub blocks : List ℕ

-- `SubChunk::new`, and `filled`.
abbrev pub new_subchunk : SubChunk
new_subchunk = record { palette = 0 ∷ []; blocks = replicate 4096 0 }

abbrev pub filled : ℕ → SubChunk
filled runtime_id = record { palette = runtime_id ∷ []; blocks = replicate 4096 0 }

-- `SubChunk::set_block`.
unfoldable pub set_runtime_id : ℕ → ℕ → ℕ → ℕ → SubChunk → SubChunk
set_runtime_id lx ly lz runtime_id s =
    let (palette', index) = place_in s.palette runtime_id in
    record { palette = palette'; blocks = set s.blocks (local_to_index lx ly lz) (index % 2 ^ 16) }

-- The three loops over the coordinates.
unfoldable pub fill_blocks : (ℕ → ℕ → ℕ → ℕ) → SubChunk → SubChunk
unfolding for_range set_runtime_id
fill_blocks block =
    for_range 16 0
      λ lx. for_range 16 0 λ lz. for_range 16 0 λ ly s. set_runtime_id lx ly lz (block lx ly lz) s

-- `base_y * 16 + ly`, where `base_y` is the surface height divided by 16 towards zero.
abbrev pub block_world_y : ℤ → ℕ → ℤ
block_world_y (pos n) ly = pos (n / 16 * 16 + ly)
block_world_y (negsuc n) ly = sub_ℕ ly ((n + 1) / 16 * 16)

-- `surface_world_y % 16 - k`, with the sign of the height.
abbrev pub local_surface_less : ℤ → ℕ → ℤ
local_surface_less (pos n) k = sub_ℕ (n % 16) k
local_surface_less (negsuc n) k = sub_ℕ 0 ((n + 1) % 16 + k)

abbrev pub terrain_id : ℤ → ℕ → ℕ
terrain_id surface_world_y ly =
    let world_y = block_world_y surface_world_y ly in
    if eqz world_y (pos 0)
    then 10
    else if ltz world_y (local_surface_less surface_world_y 5)
    then 1
    else if ltz world_y (local_surface_less surface_world_y 0)
    then 3
    else if eqz world_y (local_surface_less surface_world_y 0)
    then 2
    else 0

unfoldable pub with_terrain : ℤ → SubChunk
unfolding fill_blocks
with_terrain surface_world_y = fill_blocks (λ lx ly lz. terrain_id surface_world_y ly) new_subchunk

-- One subchunk for each of sixteen arrays of 4096 ids, an id missing where the array is short.
unfoldable pub build_chunk_subchunks : List (List ℕ) → List SubChunk
unfolding fill_blocks
build_chunk_subchunks [] = []
build_chunk_subchunks (ids ∷ blocks) =
    fill_blocks (λ lx ly lz. get_or ids (local_to_index lx ly lz) 0) new_subchunk
    ∷ build_chunk_subchunks blocks

unfoldable pub calculate_bits_per_block : ℕ → ℕ
calculate_bits_per_block palette_size =
    if leb palette_size 1
    then 1
    else if leb palette_size 2
    then 1
    else if leb palette_size 4
    then 2
    else if leb palette_size 8
    then 3
    else if leb palette_size 16
    then 4
    else if leb palette_size 32
    then 5
    else if leb palette_size 64
    then 6
    else if leb palette_size 128
    then 7
    else if leb palette_size 256
    then 8
    else 16

-- The loop over the blocks with the word so far and its bits, and the rest behind it.
unfoldable pub pack_blocks : ℕ → List ℕ → ℕ → ℕ → List ℕ
pack_blocks bits [] word used = if ltb 0 used then to_le_bytes 4 word else []
pack_blocks bits (b ∷ bs) word used =
    let word' = bit_or word (b * 2 ^ used % 2 ^ 32) in
    let full = to_le_bytes 4 word' ++ pack_blocks bits bs 0 0 in
    let more = pack_blocks bits bs word' (used + bits) in
    if leb 32 (used + bits) then full else more

unfoldable pub write_ids : List ℕ → List ℕ → List ℕ
write_ids buf [] = buf
write_ids buf (id ∷ ids) = write_ids (write_var_u32 buf id) ids

unfoldable pub encode_subchunk : SubChunk → List ℕ
unfolding calculate_bits_per_block pack_blocks write_ids
encode_subchunk s =
    let size = length s.palette in
    let bits = calculate_bits_per_block size in
    let head = write_var_u32 (8 ∷ 1 ∷ []) bits in
    write_ids (write_var_u32 (head ++ pack_blocks bits s.blocks 0 0) (size % 2 ^ 32)) s.palette

-- The loop of `encode_empty_subchunk`.
unfoldable pub zero_words : ℕ → List ℕ
zero_words zero = []
zero_words (suc n) = to_le_bytes 4 0 ++ zero_words n

unfoldable pub encode_empty_subchunk : List ℕ
unfolding zero_words
encode_empty_subchunk = write_var_u32 (write_var_u32 (8 ∷ 1 ∷ 1 ∷ zero_words 128) 1) 0

-- `blocks.iter().all(|&idx| idx == 0)`; the palette is not looked at.
unfoldable pub all_zero : List ℕ → Bool
all_zero [] = true
all_zero (b ∷ bs) = b == 0 && all_zero bs

abbrev pub is_subchunk_empty : SubChunk → Bool
is_subchunk_empty s = all_zero s.blocks

-- The last index whose subchunk is not empty, plus one: the loop goes downwards.
unfoldable pub highest : List SubChunk → ℕ
unfolding all_zero
highest [] = 0
highest (s ∷ ss) =
    let above = highest ss in
    if ltb 0 above then suc above else if is_subchunk_empty s then 0 else 1

unfoldable pub calculate_needed_height : List SubChunk → ℕ
unfolding highest
calculate_needed_height subchunks =
    let height = highest subchunks in if ltb 0 height then height else 1

abbrev pub sized : List ℕ → List ℕ
sized sub_data = to_le_bytes 4 (length sub_data % 2 ^ 32) ++ sub_data

-- The subchunk at an index, or an empty one past the end.
abbrev pub encode_at : List SubChunk → ℕ → List ℕ
encode_at subchunks i = elim (get_elem? subchunks i) [
  | some s ↦ encode_subchunk s
  | none ↦ encode_empty_subchunk
]

unfoldable pub encode_levels : List SubChunk → ℕ → ℕ → List ℕ
unfolding encode_subchunk encode_empty_subchunk
encode_levels subchunks zero i = []
encode_levels subchunks (suc n) i =
    sized (encode_at subchunks i) ++ encode_levels subchunks n (i + 1)

unfoldable pub encode_chunk_column : ℤ → ℤ → List SubChunk → Bool → List ℕ
unfolding calculate_needed_height encode_levels
encode_chunk_column chunk_x chunk_z subchunks cache_enabled =
    let needed_height = max (calculate_needed_height subchunks) 1 in
    write_packet Id.level_chunk (
      write_var_i32 (write_var_i32 [] chunk_x) chunk_z
      ++ to_le_bytes 4 (needed_height % 2 ^ 32)
      ++ (if cache_enabled then 1 else 0) ∷ encode_levels subchunks needed_height 0
      ++ to_le_bytes 8 0
      ++ to_le_bytes 4 0
      ++ 0 ∷ [])

-- The other packets about chunks that the file writes.
unfoldable pub network_chunk_publisher_update : ℤ × ℤ × ℤ → ℕ → List ℕ
network_chunk_publisher_update coords radius = write_packet Id.network_chunk_publisher_update (
    write_var_i32 (write_var_i32 (write_var_i32 [] coords.0) coords.1) coords.2
    ++ to_le_bytes 4 radius
    ++ to_le_bytes 4 0)

unfoldable pub chunk_radius_updated : ℤ → List ℕ
chunk_radius_updated radius = write_packet Id.chunk_radius_updated (write_var_i32 [] radius)
