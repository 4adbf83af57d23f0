-- ===== src/World/Noise/Blocks.antt =====
-- What a chunk of `NoiseGenerator` of crates/world/src/lib.rs reads as.
use rust_mine.Base.{ℕ, ◌≡◌, arith}
use rust_mine.Base.Int.{ℤ, pos}
use rust_mine.World.{BlockState, from_runtime_id, chunk_get_block, new_chunk, for_range}
use rust_mine.World.Columns.{IsColumn}
use rust_mine.World.Palettes.{IsNamed, IsTerrain, new_chunk-IsTerrain}
use rust_mine.World.Terrain.{Body, Reads, column-Body, columns-Body}
use rust_mine.World.Noise.{
  NoiseOps, NoiseGenerator, add_i32, mul_i32, noise_block, noise_height, fill_column,
  generate_noise_chunk,
}

module _ (f : NoiseOps) (g : NoiseGenerator) (x z : ℤ) where
  -- The block of the column with these coordinates in the chunk, at a height.
  abbrev pub column_block : ℕ → ℕ → ℕ → BlockState
  column_block lx ly lz =
      let world_x = add_i32 (mul_i32 x (pos 16)) (pos lx) in
      let world_z = add_i32 (mul_i32 z (pos 16)) (pos lz) in
      noise_block f g world_x world_z (noise_height f g world_x world_z) ly

  column_block-IsNamed : (lx ly lz : ℕ) → IsNamed (column_block lx ly lz)
  unfolding noise_block from_runtime_id
  column_block-IsNamed lx ly lz = ground arith

  generate_noise_chunk-Body :
      (mx my mz : ℕ) (q : IsColumn mx my mz)
      → Body IsTerrain
          (Reads column_block column_block-IsNamed mx my mz q)
          (λ c.
            for_range 16 0
              (λ lx. for_range 16 0 λ lz.
                fill_column f g
                  (add_i32 (mul_i32 x (pos 16)) (pos lx))
                  (add_i32 (mul_i32 z (pos 16)) (pos lz))
                  lx
                  lz)
              c)
          (Unit {0})
  unfolding fill_column
  generate_noise_chunk-Body mx my mz q =
      columns-Body column_block column_block-IsNamed mx my mz q _
        (λ lx lz hx hz. column-Body column_block column_block-IsNamed mx my mz q lx lz hx hz)

  pub generate_noise_chunk-IsTerrain : IsTerrain (generate_noise_chunk f g x z)
  unfolding generate_noise_chunk
  generate_noise_chunk-IsTerrain =
      (generate_noise_chunk-Body 0 0 0 (omega arith, omega arith, omega arith)).keeps
        (new_chunk x z) (new_chunk-IsTerrain x z)

  pub chunk_get_block-generate :
      (mx my mz : ℕ)
      → IsColumn mx my mz
      → chunk_get_block (generate_noise_chunk f g x z) mx my mz ≡ column_block mx my mz
  unfolding generate_noise_chunk
  chunk_get_block-generate mx my mz q =
      (generate_noise_chunk-Body mx my mz q).hit (new_chunk x z) tt (new_chunk-IsTerrain x z)
