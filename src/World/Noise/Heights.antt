-- ===== src/World/Noise/Heights.antt =====
-- The heights that `NoiseGenerator` of crates/world/src/lib.rs gives.
use rust_mine.Base.{ℕ, ◌≤◌, ◌≡◌, false, List, dec_lt, arith}
use rust_mine.Base.Int.{ℤ, pos, negsuc}
use rust_mine.World.Store.{out_of_bounds, new_world}
use rust_mine.World.Noise.{
  NoiseOps, NoiseGenerator, clamp_height, free_height, noise_height, noise_generator,
}

-- From 1 to 254, so that no sum or difference with a surface overflows.
abbrev IsHeight : ℤ → Type 0
IsHeight (pos h) = (1 ≤ h) × (h ≤ 254)
IsHeight (negsuc h) = ⊥

clamp_height-IsHeight : (h : ℤ) → IsHeight (clamp_height h)
clamp_height-IsHeight (pos h) = elim (dec_lt h 1) [
  | yes p ↦ ground (arith, p)
  | no p ↦ ground (arith, p)
]
clamp_height-IsHeight (negsuc h) = (omega arith, omega arith)

-- Whatever the floats are, a height is from 1 to 254.
noise_height-IsHeight :
    (f : NoiseOps) (g : NoiseGenerator) (x z : ℤ) → IsHeight (noise_height f g x z)
unfolding noise_height
noise_height-IsHeight f g x z = clamp_height-IsHeight (free_height f g x z)

in_bounds : (x h z : ℤ) → IsHeight h → out_of_bounds (record { x = x; y = h; z = z }) ≡ false
in_bounds x (pos h) z p = ground arith
in_bounds x (negsuc h) z p = absurd p

-- The spawn position of a new world of noise is within the height bounds.
new_world-in_bounds :
    (f : NoiseOps) (g : NoiseGenerator) (name : List ℕ) (seed : ℤ)
    → out_of_bounds (new_world name seed (noise_generator f g)).spawn_position ≡ false
new_world-in_bounds f g name seed =
    in_bounds (pos 0) (noise_height f g (pos 0) (pos 0)) (pos 0)
      (noise_height-IsHeight f g (pos 0) (pos 0))
