-- ===== src/World/Tests.antt =====
-- Runs of crates/world, and the theorems at concrete inputs.
use rust_mine.Base.{◌≡◌, refl, false, ◌&&◌, ◌==◌, if◌then◌else◌, [], arith}
use rust_mine.Base.Int.{pos, negsuc, IsI32}
use rust_mine.Base.Result.{ok, err}
use rust_mine.World.{
  from_runtime_id, air, stone, runtime, new_chunk, chunk_set_block, chunk_get_block,
}
use rust_mine.World.Blocks.{named}
use rust_mine.World.Columns.{chunk_get_block-set, new_chunk-IsChunk}
use rust_mine.World.Store.{
  BlockPos, WorldGenerator, World, new_world, get_chunk, set_block, get_block, to_chunk,
  block_out_of_bounds, out_of_bounds,
}
use rust_mine.World.Store.Placing.{get_block-set_block, same_pos, same_chunk}
use rust_mine.World.Noise.{NoiseOps, NoiseGenerator, noise_generator}
use rust_mine.World.Noise.Building.{generated, get_block-set_block_noise}

abbrev empty_generator : WorldGenerator
empty_generator = record { get_height = λ x z. pos 64; generate_chunk = λ x z. new_chunk x z }

abbrev spawn_world : World
spawn_world = new_world [] (pos 7) empty_generator

-- x = -1, y = 64, z = 20.
abbrev corner : BlockPos
corner = record { x = negsuc 0; y = pos 64; z = pos 20 }

chunk_get_block-set_example :
    chunk_get_block (chunk_set_block (new_chunk (pos 0) (pos 0)) 3 70 5 stone) 3 71 5 ≡ (
      if 3 == 3 && 70 == 71 && 5 == 5
      then named stone
      else chunk_get_block (new_chunk (pos 0) (pos 0)) 3 71 5)
chunk_get_block-set_example =
    chunk_get_block-set (new_chunk (pos 0) (pos 0)) stone (new_chunk-IsChunk (pos 0) (pos 0)).0 3 70
      5 (omega arith, omega arith, omega arith) 3 71 5 (new_chunk-IsChunk (pos 0) (pos 0)).1
      (omega arith, omega arith, omega arith)

get_block-set_block_example :
    (w' : World) × (set_block spawn_world corner stone ≡ ok w')
    × ((q : BlockPos)
        → get_block w' q ≡ (
            if same_pos corner q
            then named stone
            else get_block (get_chunk spawn_world (to_chunk corner)).0 q))
get_block-set_block_example =
    get_block-set_block spawn_world corner stone refl (new_chunk-IsChunk (negsuc 0) (pos 1)).0
      (new_chunk-IsChunk (negsuc 0) (pos 1)).1

-- Floats that are all zero, and cast to zero.
abbrev still : NoiseOps
still = record {
  of_i32 = λ v. 0;
  of_i64 = λ v. 0;
  to_i32 = λ x. pos 0;
  floor = λ x. 0;
  add = λ x y. 0;
  sub = λ x y. 0;
  mul = λ x y. 0;
  div = λ x y. 0;
  greater = λ x y. false;
}

abbrev hills : NoiseGenerator
hills = record { seed = pos 7; surface_height = pos 70; amplitude = pos 8; frequency = 0 }

get_block-set_block_noise_example :
    (w : World) × (set_block (new_world [] (pos 7) (noise_generator still hills)) corner stone
      ≡ ok w)
    × ((q : BlockPos)
        → out_of_bounds q ≡ false
        → IsI32 q.x
        → IsI32 q.z
        → get_block w q ≡ (
            if same_pos corner q
            then named stone
            else if same_chunk corner q
            then generated still hills q
            else air))
get_block-set_block_noise_example =
    get_block-set_block_noise still hills [] (pos 7) corner stone refl

negative_coordinates :
    to_chunk (record { x = negsuc 16; y = pos 0; z = pos 31 }) ≡ (negsuc 1, pos 1)
negative_coordinates = refl

too_high :
    set_block spawn_world (record { x = pos 0; y = pos 256; z = pos 0 }) stone
    ≡ err (block_out_of_bounds (pos 0) (pos 256) (pos 0))
unfolding set_block
too_high = refl

-- A block by a named id is read back as the named one.
stone_by_id : named (runtime 1) ≡ stone
unfolding from_runtime_id
stone_by_id = refl
