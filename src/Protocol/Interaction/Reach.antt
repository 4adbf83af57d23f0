-- ===== src/Protocol/Interaction/Reach.antt =====
-- `within_reach` of crates/protocol/src/interaction.rs. The float operations that the code uses are
-- a parameter; a float is its bit pattern.
use rust_mine.Base.{ℕ, Bool}
use rust_mine.Base.Int.{ℤ}

pub record FloatOps : Type 0 where
  -- The casts from and to an i32.
  pub of_i32 : ℤ → ℕ
  pub to_i32 : ℕ → ℤ
  pub add : ℕ → ℕ → ℕ
  pub sub : ℕ → ℕ → ℕ
  pub mul : ℕ → ℕ → ℕ
  pub abs : ℕ → ℕ
  pub sqrt : ℕ → ℕ
  -- `a <= b`.
  pub at_most : ℕ → ℕ → Bool

unfoldable pub within_reach : FloatOps → ℕ × ℕ × ℕ → ℤ × ℤ × ℤ → ℕ → Bool
within_reach f player block max_reach =
    let dx = f.abs (f.sub player.0 (f.of_i32 block.0)) in
    let dy = f.abs (f.sub player.1 (f.of_i32 block.1)) in
    let dz = f.abs (f.sub player.2 (f.of_i32 block.2)) in
    f.at_most (f.sqrt (f.add (f.add (f.mul dx dx) (f.mul dy dy)) (f.mul dz dz))) max_reach
