-- ===== src/World/Store.antt =====
-- `World` of crates/world/src/lib.rs. The generator is the trait `WorldGenerator`, a parameter.
pub mod Placing
use rust_mine.Base.{
  ℕ, ◌+◌, ◌≤◌, ltb, leb, ◌==◌, ◌||◌, ◌&&◌, not, if◌then◌else◌, Bool, true, false, List, [], ◌∷◌,
  Option, none, some, ap, ◌∙◌, arith, ◌≡◌,
}
use rust_mine.Base.Int.{ℤ, pos, negsuc, sar, low_bits, ltz}
use rust_mine.Base.Result.{Result, ok, err}
use rust_mine.Base.Assoc.{Assoc, lookup, insert, pair_eq, int_eq}
use rust_mine.World.{BlockState, air, Chunk, chunk_set_block, chunk_get_block, chunk_with_terrain}

pub record BlockPos : Type 0 where
  pub x : ℤ
  pub y : ℤ
  pub z : ℤ

abbrev pub to_chunk : BlockPos → ℤ × ℤ
to_chunk p = (sar p.x 4, sar p.z 4)

-- `ChunkPos::from_block`.
abbrev pub from_block : ℤ → ℤ → ℤ × ℤ
from_block x z = (sar x 4, sar z 4)

-- The three coordinates of `local()`.
abbrev pub local_x : BlockPos → ℕ
local_x p = low_bits p.x 4

abbrev pub local_y : BlockPos → ℕ
local_y p = low_bits p.y 8

abbrev pub local_z : BlockPos → ℕ
local_z p = low_bits p.z 4

pub record WorldGenerator : Type 0 where
  pub get_height : ℤ → ℤ → ℤ
  pub generate_chunk : ℤ → ℤ → Chunk

-- `FlatGenerator`; its sea level is not read.
abbrev pub flat_generator : ℤ → WorldGenerator
flat_generator surface_height = record {
  get_height = λ x z. surface_height;
  generate_chunk = λ x z. chunk_with_terrain x z surface_height;
}

pub record World : Type 0 where
  pub name : List ℕ
  pub seed : ℤ
  pub chunks : Assoc (ℤ × ℤ) Chunk
  pub generator : WorldGenerator
  pub spawn_position : BlockPos

abbrev pub new_world : List ℕ → ℤ → WorldGenerator → World
new_world name seed generator = record {
  name = name;
  seed = seed;
  chunks = [];
  generator = generator;
  spawn_position = record { x = pos 0; y = generator.get_height (pos 0) (pos 0); z = pos 0 };
}

-- Its other errors are those of files.
pub data WorldError : Type 0 where
  chunk_out_of_bounds : ℤ → ℤ → WorldError
  block_out_of_bounds : ℤ → ℤ → ℤ → WorldError

-- The chunk at a key, generated when there is none.
abbrev pub chunk_or_new : WorldGenerator → ℤ × ℤ → Option Chunk → Chunk
chunk_or_new generator (x, z) none = generator.generate_chunk x z
chunk_or_new generator (x, z) (some c) = c

-- `get_chunk` and `get_chunk_mut`: the chunk is in the world from then on.
unfoldable pub get_chunk : World → ℤ × ℤ → World × Chunk
get_chunk w key =
    let c = chunk_or_new w.generator key (lookup key w.chunks) in
    (record w { chunks = insert key c w.chunks }, c)

-- `pos.y < 0 || pos.y >= 256`.
abbrev pub out_of_bounds : BlockPos → Bool
out_of_bounds p = ltz p.y (pos 0) || not (ltz p.y (pos 256))

unfoldable pub set_block : World → BlockPos → BlockState → Result WorldError World
set_block w p state =
    let (w', chunk) = get_chunk w (to_chunk p) in
    let chunk' = chunk_set_block chunk (local_x p) (local_y p) (local_z p) state in
    if out_of_bounds p
    then err (block_out_of_bounds p.x p.y p.z)
    else ok (record w' { chunks = insert (to_chunk p) chunk' w'.chunks })

unfoldable pub get_block : World → BlockPos → BlockState
get_block w p = if out_of_bounds p then air else elim (lookup (to_chunk p) w.chunks) [
  | none ↦ air
  | some chunk ↦ chunk_get_block chunk (local_x p) (local_y p) (local_z p)
]
