-- ===== src/World/Noise.antt =====
-- `NoiseGenerator` of crates/world/src/lib.rs. An f64 is its bit pattern, and what the code does with
-- floats is a parameter. An i64 inside `noise2d` is its two's complement. The source adds an i64 to
-- an i32 there, which does not compile; here the i32 is widened.
pub mod Heights
pub mod Blocks
pub mod Building
use rust_mine.Base.{
  ℕ, zero, suc, ◌+◌, ◌-◌, ◌*◌, ◌/◌, ◌%◌, ◌^◌, ◌<◌, ◌≤◌, ltb, ◌==◌, ◌&&◌, not, if◌then◌else◌, Bool,
  ◌≡◌, bit_xor, Option, none, some, arith, List, [], ◌∷◌,
}
use rust_mine.Base.Int.{ℤ, pos, negsuc, to_bits, of_bits, sar, ◌+ℤ◌, ltz, eqz}
use rust_mine.World.{
  BlockState, air, stone, grass, dirt, oak_log, oak_leaves, water, bedrock, Chunk, new_chunk, below,
  for_range, chunk_set_block,
}
use rust_mine.World.Store.{WorldGenerator}

pub record NoiseOps : Type 0 where
  pub of_i32 : ℤ → ℕ
  pub of_i64 : ℤ → ℕ
  -- The cast that stops at the ends of the range.
  pub to_i32 : ℕ → ℤ
  pub floor : ℕ → ℕ
  pub add : ℕ → ℕ → ℕ
  pub sub : ℕ → ℕ → ℕ
  pub mul : ℕ → ℕ → ℕ
  pub div : ℕ → ℕ → ℕ
  -- `a > b`.
  pub greater : ℕ → ℕ → Bool

-- 0.3, 2.0, 3.0 and 256.0.
abbrev log_limit : ℕ
log_limit = 0x3fd3333333333333

abbrev two : ℕ
two = 0x4000000000000000

abbrev three : ℕ
three = 0x4008000000000000

abbrev chunk_scale : ℕ
chunk_scale = 0x4070000000000000

-- Sum and product of two i32, which wrap around.
abbrev pub add_i32 : ℤ → ℤ → ℤ
add_i32 a b = of_bits (2 ^ 31) ((to_bits (2 ^ 31) a + to_bits (2 ^ 31) b) % 2 ^ 32)

abbrev pub mul_i32 : ℤ → ℤ → ℤ
mul_i32 a b = of_bits (2 ^ 31) (to_bits (2 ^ 31) a * to_bits (2 ^ 31) b % 2 ^ 32)

-- `n ^ (n >> k)` of an i64.
abbrev pub xor_shifted : ℕ → ℕ → ℕ
xor_shifted k n = bit_xor n (to_bits (2 ^ 63) (sar (of_bits (2 ^ 63) n) k))

-- The steps of `noise2d` on the number behind the cast.
unfoldable pub mix : ℕ → ℕ
mix n =
    let n1 = bit_xor (n * 2 ^ 13 % 2 ^ 64) n in
    let n2 = n1 * ((n1 * 747796405 + 2891336453) % 2 ^ 64) % 2 ^ 64 in
    let n3 = xor_shifted 15 n2 * 2246822519 % 2 ^ 64 in
    let n4 = xor_shifted 13 n3 * 3266489917 % 2 ^ 64 in xor_shifted 16 n4

pub record NoiseGenerator : Type 0 where
  pub seed : ℤ
  pub surface_height : ℤ
  pub amplitude : ℤ
  pub frequency : ℕ

-- `.max(1).min(254)`.
abbrev pub clamp_height : ℤ → ℤ
clamp_height h = if ltz h (pos 1) then pos 1 else if ltz (pos 254) h then pos 254 else h

module _ (f : NoiseOps) (g : NoiseGenerator) where
  unfoldable pub noise2d : ℤ → ℤ → ℕ
  unfolding mix
  noise2d x z =
      let sum = add_i32 (mul_i32 x (pos 374761393)) (mul_i32 z (pos 668265263)) in
      let n = mix ((to_bits (2 ^ 63) sum + to_bits (2 ^ 63) g.seed) % 2 ^ 64) in
      f.div (f.of_i64 (of_bits (2 ^ 63) n)) (f.of_i32 (pos (2 ^ 31 - 1)))

  -- `fx * fx * (3.0 - 2.0 * fx)`, and `a + s * (b - a)`.
  abbrev pub smoothstep : ℕ → ℕ
  smoothstep t = f.mul (f.mul t t) (f.sub three (f.mul two t))

  abbrev pub lerp : ℕ → ℕ → ℕ → ℕ
  lerp s a b = f.add a (f.mul s (f.sub b a))

  unfoldable pub smooth_noise : ℕ → ℕ → ℕ
  unfolding noise2d
  smooth_noise x z =
      let ix = f.to_i32 (f.floor x) in
      let iz = f.to_i32 (f.floor z) in
      let sx = smoothstep (f.sub x (f.of_i32 ix)) in
      let sz = smoothstep (f.sub z (f.of_i32 iz)) in
      let n00 = noise2d ix iz in
      let n10 = noise2d (add_i32 ix (pos 1)) iz in
      let n01 = noise2d ix (add_i32 iz (pos 1)) in
      let n11 = noise2d (add_i32 ix (pos 1)) (add_i32 iz (pos 1)) in
      lerp sz (lerp sx n00 n10) (lerp sx n01 n11)

  unfoldable pub free_height : ℤ → ℤ → ℤ
  unfolding smooth_noise
  free_height x z =
      let nx = f.div (f.mul (f.of_i32 x) g.frequency) chunk_scale in
      let nz = f.div (f.mul (f.of_i32 z) g.frequency) chunk_scale in
      let height_offset = f.to_i32 (f.mul (smooth_noise nx nz) (f.of_i32 g.amplitude)) in
      add_i32 g.surface_height height_offset

  unfoldable pub noise_height : ℤ → ℤ → ℤ
  unfolding free_height
  noise_height x z = clamp_height (free_height x z)

  -- The block of a column with its surface, at a height.
  unfoldable pub noise_block : ℤ → ℤ → ℤ → ℕ → BlockState
  unfolding noise2d
  noise_block world_x world_z surface_height world_y =
      if world_y == 0
      then bedrock
      else if below world_y surface_height 5
      then stone
      else if below world_y surface_height 1
      then dirt
      else if eqz (pos (world_y + 1)) surface_height
      then (if f.greater (noise2d world_x world_z) log_limit then oak_log else grass)
      else if ltz (pos world_y) (surface_height +ℤ pos 4) && not (ltz (pos world_y) surface_height)
      then oak_leaves
      else if ltb world_y 62
      then water
      else air

  -- The loops over `sub_y` and `ly_in_sub`.
  unfoldable pub fill_column : ℤ → ℤ → ℕ → ℕ → Chunk → Chunk
  unfolding noise_block noise_height chunk_set_block for_range
  fill_column world_x world_z lx lz =
      let surface_height = noise_height world_x world_z in
      for_range 16 0 λ sub_y. for_range 16 0 λ ly c.
        chunk_set_block c lx (sub_y * 16 + ly) lz
          (noise_block world_x world_z surface_height (sub_y * 16 + ly))

  unfoldable pub generate_noise_chunk : ℤ → ℤ → Chunk
  unfolding fill_column for_range
  generate_noise_chunk x z =
      for_range 16 0
        (λ lx. for_range 16 0 λ lz.
          fill_column (add_i32 (mul_i32 x (pos 16)) (pos lx))
            (add_i32 (mul_i32 z (pos 16)) (pos lz)) lx lz)
        (new_chunk x z)

  abbrev pub noise_generator : WorldGenerator
  noise_generator = record { get_height = noise_height; generate_chunk = generate_noise_chunk }
