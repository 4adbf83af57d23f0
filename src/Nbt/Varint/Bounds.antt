-- ===== src/Nbt/Varint/Bounds.antt =====
-- What the loops of crates/nbt/src/varint.rs read and write: ranges and numbers of bytes.
use rust_mine.Base.{
  ℕ, zero, suc, ◌+◌, ◌*◌, ◌/◌, ◌%◌, ◌^◌, ◌≤◌, ◌<◌, bit_and, bit_or, ◌≡◌, refl, List, [], drop,
  leb-true, leb-false, ◌==◌, Bool-cases, inl, inr, ◌∷◌, length, All, arith,
}
use rust_mine.Base.Bits.{bit_and-mask, bit_or-lt, set_byte_top}
use rust_mine.Base.Bytes.{IsByte}
use rust_mine.Base.Order.{lt_wf}
use rust_mine.Base.Result.{Result, ok, err}
use rust_mine.Nbt.Varint.{
  NbtError, read_loop, write_loop, read_var_u32, read_var_u64, write_var_u32, write_var_u64,
}
use mathlib.Core.WellFounded.{Acc}
use native.Mathlib.Nat.{pow-suc, mod-lt, one-le-pow}
use native.Mathlib.Numerals.{towards_suc}

pub pow_seven : (s : ℕ) → 2 ^ (s + 7) ≡ 128 * 2 ^ s
pow_seven s = simp towards_suc (omega arith)

-- The low seven bits, and the byte with its continuation bit.
pub low_group : (v : ℕ) → bit_and v 0x7f % 256 ≡ v % 128
low_group v = omega (arith, bit_and-mask 7 v)

pub more_group : (v : ℕ) → bit_or (bit_and v 0x7f % 256) 0x80 ≡ v % 128 + 128
more_group v = omega (arith, low_group v, set_byte_top (bit_and v 0x7f % 256))

write_loop_shape :
    (k v : ℕ) (w : Acc ◌<◌ v)
    → v < 128 ^ suc k
    → All IsByte (write_loop v w)
      × (1 ≤ length (write_loop v w))
      × (length (write_loop v w) ≤ k + 1)
unfolding write_loop
write_loop_shape zero v (Acc.intro _ smaller) h = ground (arith, low_group v)
write_loop_shape (suc k) v (Acc.intro _ smaller) h = grind (
  arith,
  low_group v,
  more_group v,
  λ (w : Acc ◌<◌ (v / 2 ^ 7)).
      write_loop_shape k (v / 2 ^ 7) w (omega (arith, pow-suc 128 (suc k))),
)

-- `write_var_u32` pushes one to five bytes.
pub write_var_u32_shape :
    (v : ℕ)
    → v < 2 ^ 32
    → All IsByte (write_var_u32 [] v)
      × (1 ≤ length (write_var_u32 [] v))
      × (length (write_var_u32 [] v) ≤ 5)
unfolding write_var_u32
write_var_u32_shape v h = write_loop_shape 4 v (lt_wf.apply v) (omega arith)

-- `write_var_u64` pushes one to ten bytes.
pub write_var_u64_shape :
    (v : ℕ)
    → v < 2 ^ 64
    → All IsByte (write_var_u64 [] v)
      × (1 ≤ length (write_var_u64 [] v))
      × (length (write_var_u64 [] v) ≤ 10)
unfolding write_var_u64
write_var_u64_shape v h = write_loop_shape 9 v (lt_wf.apply v) (omega arith)

-- A reader that stops `n` bytes further on, with a value in range if it succeeds.
abbrev pub Reads : ℕ → ℕ → List ℕ → Result NbtError ℕ × List ℕ → Type 0
Reads width most buf (ok v, rest) =
    (v < 2 ^ width) × (n : ℕ) × (1 ≤ n) × (n ≤ most) × (n ≤ length buf) × (rest ≡ drop n buf)
Reads width most buf (err e, rest) = (n : ℕ) × (n ≤ most) × (n ≤ length buf) × (rest ≡ drop n buf)

Reads-later :
    (width most b : ℕ) (buf : List ℕ) (r : Result NbtError ℕ × List ℕ)
    → Reads width most buf r
    → Reads width (suc most) (b ∷ buf) r
Reads-later width most b buf (ok v, rest) (h, n, p, q, l, e) =
    (h, suc n, omega arith, omega arith, omega arith, e)
Reads-later width most b buf (err x, rest) (n, q, l, e) = (suc n, omega arith, omega arith, e)

read_loop-Reads :
    (width limit k : ℕ) (buf : List ℕ) (acc shift : ℕ)
    → shift + 7 * k ≡ limit
    → acc < 2 ^ width
    → Reads width k buf (read_loop width limit buf acc shift)
unfolding read_loop
read_loop-Reads width limit k [] acc shift h fits = (0, omega arith, omega arith, refl)
read_loop-Reads width limit zero (b ∷ buf) acc shift h fits =
    rw (leb-true limit shift (omega arith)) (0, omega arith, omega arith, refl)
read_loop-Reads width limit (suc k) (b ∷ buf) acc shift h fits =
    rw (leb-false limit shift (omega arith)) (elim (Bool-cases (bit_and b 0x80 == 0)) [
      | inl last ↦ rw last (acc'-lt, 1, omega arith, omega arith, omega arith, refl)
      | inr more ↦ rw more (
          Reads-later width k b buf _
            (read_loop-Reads width limit k buf _ (shift + 7) (omega arith) acc'-lt))
    ])
  where
    acc'-lt : bit_or acc (bit_and b 0x7f * 2 ^ shift % 2 ^ width) < 2 ^ width
    acc'-lt =
        bit_or-lt width acc _ fits
          (mod-lt (bit_and b 0x7f * 2 ^ shift) (one-le-pow width 2 (omega arith)))

-- `read_var_u32` never takes more than five bytes, nor more than there are; on success it takes at
-- least one, and the value fits a u32.
read_var_u32-Reads : (buf : List ℕ) → Reads 32 5 buf (read_var_u32 buf)
unfolding read_var_u32
read_var_u32-Reads buf = read_loop-Reads 32 35 5 buf 0 0 (omega arith) (omega arith)

-- `read_var_u64` likewise takes at most ten bytes.
pub read_var_u64-Reads : (buf : List ℕ) → Reads 64 10 buf (read_var_u64 buf)
unfolding read_var_u64
read_var_u64-Reads buf = read_loop-Reads 64 70 10 buf 0 0 (omega arith) (omega arith)
