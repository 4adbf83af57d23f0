-- ===== src/World.antt =====
-- Blocks, subchunks and chunks of crates/world/src/lib.rs. An index out of bounds, where the source
-- panics, reads a default and writes nothing; the theorems keep to indices in bounds.
pub mod Blocks
pub mod Columns
pub mod Palettes
pub mod Terrain
pub mod Store
pub mod Noise
mod Tests
use rust_mine.Base.{
  ℕ, zero, suc, ◌+◌, ◌-◌, ◌*◌, ◌/◌, ◌%◌, ◌^◌, ltb, ◌==◌, if◌then◌else◌, Bool, List, [], ◌∷◌, ◌++◌,
  length, get_or, get_elem?, set, replicate, Option, none, some,
}
use rust_mine.Base.Int.{ℤ, pos, negsuc, ltz, eqz}

pub data BlockState : Type 0 where
  air stone grass dirt cobblestone oak_log oak_planks oak_leaves : BlockState
  water sand bedrock coal_ore iron_ore gold_ore diamond_ore glass : BlockState
  runtime : ℕ → BlockState

abbrev pub runtime_id : BlockState → ℕ
runtime_id air = 0
runtime_id stone = 1
runtime_id grass = 2
runtime_id dirt = 3
runtime_id cobblestone = 4
runtime_id oak_log = 5
runtime_id oak_planks = 6
runtime_id oak_leaves = 7
runtime_id water = 8
runtime_id sand = 9
runtime_id bedrock = 10
runtime_id coal_ore = 11
runtime_id iron_ore = 12
runtime_id gold_ore = 13
runtime_id diamond_ore = 14
runtime_id glass = 15
runtime_id (runtime id) = id

-- The blocks by their ids from 0 on.
abbrev pub named_blocks : List BlockState
named_blocks =
    air ∷ stone ∷ grass ∷ dirt ∷ cobblestone ∷ oak_log ∷ oak_planks ∷ oak_leaves ∷ water ∷ sand
    ∷ bedrock ∷ coal_ore ∷ iron_ore ∷ gold_ore ∷ diamond_ore ∷ glass ∷ []

-- The `match` on the id: a table, and `Runtime(n)` for every id that is not in it.
unfoldable pub from_runtime_id : ℕ → BlockState
from_runtime_id id = get_or named_blocks id (runtime id)

pub record SubChunk : Type 0 where
  pub palette : List ℕ
  pub blocks : List ℕ

-- `SubChunk::new`, and `filled`.
abbrev pub new_subchunk : SubChunk
new_subchunk = record { palette = 0 ∷ []; blocks = replicate 4096 0 }

abbrev pub filled : BlockState → SubChunk
filled state = record { palette = runtime_id state ∷ []; blocks = replicate 4096 0 }

abbrev pub local_to_index : ℕ → ℕ → ℕ → ℕ
local_to_index lx ly lz = ly * 16 * 16 + lz * 16 + lx

-- `iter().position(|&id| id == runtime_id)`.
abbrev pub position : List ℕ → ℕ → Option ℕ
position [] id = none
position (x ∷ xs) id =
    let rest = position xs id in
    if x == id then some 0 else elim rest [ none ↦ none | some i ↦ some (suc i) ]

-- The palette with the id in it, and the id's place there.
abbrev pub place_in : List ℕ → ℕ → List ℕ × ℕ
place_in palette id = elim (position palette id) [
  | some i ↦ (palette, i)
  | none ↦ (palette ++ id ∷ [], length palette)
]

unfoldable pub set_local : SubChunk → ℕ → ℕ → ℕ → BlockState → SubChunk
set_local s lx ly lz state =
    let (palette', index) = place_in s.palette (runtime_id state) in
    record { palette = palette'; blocks = set s.blocks (local_to_index lx ly lz) (index % 2 ^ 16) }

unfoldable pub get_local : SubChunk → ℕ → ℕ → ℕ → BlockState
get_local s lx ly lz =
    from_runtime_id (get_or s.palette (get_or s.blocks (local_to_index lx ly lz) 0) 0)

pub record Chunk : Type 0 where
  pub x : ℤ
  pub z : ℤ
  pub subchunks : List SubChunk

abbrev pub new_chunk : ℤ → ℤ → Chunk
new_chunk x z = record { x = x; z = z; subchunks = replicate 16 new_subchunk }

unfoldable pub chunk_set_block : Chunk → ℕ → ℕ → ℕ → BlockState → Chunk
chunk_set_block c lx ly lz state = elim (get_elem? c.subchunks (ly / 16)) [
  | none ↦ c
  | some s ↦ record c { subchunks = set c.subchunks (ly / 16) (set_local s lx (ly % 16) lz state) }
]

unfoldable pub chunk_get_block : Chunk → ℕ → ℕ → ℕ → BlockState
chunk_get_block c lx ly lz = elim (get_elem? c.subchunks (ly / 16)) [
  | none ↦ air
  | some s ↦ get_local s lx (ly % 16) lz
]

-- `for i in i..i + rounds`.
unfoldable pub for_range {ℓ} : {S : Type ℓ} → ℕ → ℕ → (ℕ → S → S) → S → S
for_range zero i step s = s
for_range (suc rounds) i step s = for_range rounds (i + 1) step (step i s)

-- The blocks of `SubChunk::with_terrain` and `Chunk::with_terrain` at a height.
abbrev pub hill_block : ℕ → ℕ → BlockState
hill_block height world_y =
    if world_y == 0
    then bedrock
    else if ltb (world_y + 5) height
    then stone
    else if ltb world_y height
    then dirt
    else if world_y == height
    then grass
    else air

-- The loops of `SubChunk::with_terrain`; the block depends on the height in the subchunk alone.
unfoldable pub fill_local : (ℕ → BlockState) → SubChunk → SubChunk
fill_local block =
    for_range 16 0 λ lx. for_range 16 0 λ lz. for_range 16 0 λ ly s. set_local s lx ly lz (block ly)

unfoldable pub subchunk_with_terrain : ℕ → SubChunk
subchunk_with_terrain height = fill_local (hill_block height) new_subchunk

-- `world_y < surface_height - k` for an i32 surface height, which is taken not to overflow.
abbrev pub below : ℕ → ℤ → ℕ → Bool
below world_y surface_height k = ltz (pos (world_y + k)) surface_height

abbrev pub terrain_block : ℤ → ℕ → BlockState
terrain_block surface_height world_y =
    if world_y == 0
    then bedrock
    else if below world_y surface_height 5
    then stone
    else if below world_y surface_height 1
    then dirt
    else if eqz (pos (world_y + 1)) surface_height
    then grass
    else if ltb world_y 10
    then water
    else air

unfoldable pub chunk_with_terrain : ℤ → ℤ → ℤ → Chunk
chunk_with_terrain x z surface_height =
    for_range 16 0
      (λ sub_y c. record c {
        subchunks = set c.subchunks sub_y (
            fill_local (λ ly. terrain_block surface_height (sub_y * 16 + ly))
              (get_or c.subchunks sub_y new_subchunk));
      })
      (new_chunk x z)
