-- ===== src/World/Noise/Building.antt =====
-- Blocks set in a new world of `NoiseGenerator`, crates/world/src/lib.rs.
use rust_mine.Base.{
  ℕ, if◌then◌else◌, Bool-cases, false, ◌≡◌, refl, ap, ◌∙◌, inl, inr, List, none, some, arith,
}
use rust_mine.Base.Int.{ℤ, pos, negsuc, sar, low_bits, IsI32}
use rust_mine.Base.Result.{ok}
use rust_mine.Base.Assoc.{lookup, pair_eq, int_eq}
use rust_mine.World.{BlockState, air}
use rust_mine.World.Blocks.{named}
use rust_mine.World.Palettes.{IsTerrain-room}
use rust_mine.World.Store.{
  BlockPos, World, new_world, to_chunk, local_x, local_y, local_z, get_chunk, set_block, get_block,
  out_of_bounds,
}
use rust_mine.World.Store.Placing.{
  same_pos, same_chunk, local-IsColumn, get-in, get_block-set_block,
}
use rust_mine.World.Noise.{
  NoiseOps, NoiseGenerator, add_i32, mul_i32, noise_block, noise_height, generate_noise_chunk,
  noise_generator,
}
use rust_mine.World.Noise.Blocks.{generate_noise_chunk-IsTerrain, chunk_get_block-generate}

-- A coordinate is made again of its chunk's and its own in it.
coordinate-eq : (v : ℤ) → IsI32 v → add_i32 (mul_i32 (sar v 4) (pos 16)) (pos (low_bits v 4)) ≡ v
coordinate-eq (pos n) h = ground arith
coordinate-eq (negsuc n) h = ground arith

nothing-read :
    (w : World) (q : BlockPos)
    → out_of_bounds q ≡ false
    → lookup (to_chunk q) w.chunks ≡ none
    → get_block w q ≡ air
unfolding get_block
nothing-read w q inside gone = rw (inside, gone) refl

module _ (f : NoiseOps) (g : NoiseGenerator) where
  -- The block that was generated at a position.
  abbrev pub generated : BlockPos → BlockState
  generated q = noise_block f g q.x q.z (noise_height f g q.x q.z) (local_y q)

  generated-read :
      (w : World) (q : BlockPos)
      → out_of_bounds q ≡ false
      → IsI32 q.x
      → IsI32 q.z
      → lookup (to_chunk q) w.chunks ≡ some (generate_noise_chunk f g (sar q.x 4) (sar q.z 4))
      → get_block w q ≡ generated q
  generated-read w q inside hx hz found =
      let wide = add_i32 (mul_i32 (sar q.z 4) (pos 16)) (pos (low_bits q.z 4)) in
      get-in w q (generate_noise_chunk f g (sar q.x 4) (sar q.z 4)) inside found
      ∙ chunk_get_block-generate f g (sar q.x 4) (sar q.z 4) (local_x q) (local_y q) (local_z q)
          (local-IsColumn q)
      ∙ ap (λ x. noise_block f g x wide (noise_height f g x wide) (local_y q))
          (coordinate-eq q.x hx)
      ∙ ap (λ z. noise_block f g q.x z (noise_height f g q.x z) (local_y q)) (coordinate-eq q.z hz)

  -- What a new world of noise is, with the chunk of a position in it.
  visited-read :
      (name : List ℕ) (seed : ℤ) (p q : BlockPos)
      → out_of_bounds q ≡ false
      → IsI32 q.x
      → IsI32 q.z
      → get_block (get_chunk (new_world name seed (noise_generator f g)) (to_chunk p)).0 q
        ≡ (if same_chunk p q then generated q else air)
  unfolding get_chunk
  visited-read name seed p q inside hx hz =
      let w = (get_chunk (new_world name seed (noise_generator f g)) (to_chunk p)).0 in
      elim (Bool-cases (same_chunk p q)) [
        | inl e ↦
            let same : to_chunk p ≡ to_chunk q = (pair_eq.same_iff (to_chunk p) (to_chunk q)).0 e in
            generated-read w q inside hx hz
              (rw e (ap (λ (k : ℤ × ℤ). some (generate_noise_chunk f g k.0 k.1)) same))
            ∙ rw e refl
        | inr e ↦ nothing-read w q inside (rw e refl) ∙ rw e refl
      ]

-- In a new world of the noise generator, set_block within the height bounds succeeds; among the
-- positions within those bounds and of 32-bit coordinates, that position then reads as the block,
-- the others in its chunk as the block that the generator gives for their own coordinates, and all
-- others as air.
pub get_block-set_block_noise :
    (f : NoiseOps) (g : NoiseGenerator) (name : List ℕ) (seed : ℤ) (p : BlockPos)
    (state : BlockState)
    → out_of_bounds p ≡ false
    → (w : World) × (set_block (new_world name seed (noise_generator f g)) p state ≡ ok w)
      × ((q : BlockPos)
          → out_of_bounds q ≡ false
          → IsI32 q.x
          → IsI32 q.z
          → get_block w q ≡ (
              if same_pos p q
              then named state
              else if same_chunk p q
              then generated f g q
              else air))
get_block-set_block_noise f g name seed p state inside =
    let terrain = generate_noise_chunk-IsTerrain f g (sar p.x 4) (sar p.z 4) in
    let (w, placed, reads) =
      get_block-set_block (new_world name seed (noise_generator f g)) p state inside terrain.sound
        (IsTerrain-room _ terrain) in
    (
      w,
      placed,
      λ q in_ hx hz.
          reads q
          ∙ ap (λ b. if same_pos p q then named state else b)
              (visited-read f g name seed p q in_ hx hz),
    )
