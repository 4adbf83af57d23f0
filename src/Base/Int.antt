-- ===== src/Base/Int.antt =====
-- Signed integers. An `i32` or `i64` of the source is the integer that it stands for, with a
-- predicate for its range; `to_bits` and `of_bits` are the casts to and from the unsigned type.
use Prim.Native.Nat.{ℕ, ◌+◌, ◌-◌, ◌*◌, ◌/◌, ◌%◌, ◌^◌, ◌<◌}
use mathlib.Core.Path.{◌≡◌}
use mathlib.Core.Bool.{Bool, true, false}
use mathlib.Core.Logic.{◌↔◌}
use native.Mathlib.Omega.{arith}
use package.rust_mine.Base.Tests.{ltb, leb, ◌==◌, if◌then◌else◌}

-- `negsuc n` is -(n + 1).
pub data ℤ : Type 0 where
  pos : ℕ → ℤ
  negsuc : ℕ → ℤ

-- Two's complement: `half` is 2 ^ (w - 1).
abbrev pub InRange : ℕ → ℤ → Type 0
InRange half (pos n) = n < half
InRange half (negsuc n) = n < half

abbrev pub IsI32 : ℤ → Type 0
IsI32 = InRange (2 ^ 31)

abbrev pub IsI64 : ℤ → Type 0
IsI64 = InRange (2 ^ 63)

-- `v as u32` and `w as i32` for half = 2 ^ 31; `v as u64` and `w as i64` for half = 2 ^ 63.
abbrev pub to_bits : ℕ → ℤ → ℕ
to_bits half (pos n) = n % (2 * half)
to_bits half (negsuc n) = 2 * half - 1 - n % (2 * half)

abbrev pub of_bits : ℕ → ℕ → ℤ
of_bits half w = if ltb w half then pos w else negsuc (2 * half - 1 - w)

-- `v >> k`, the arithmetic shift, and `v & (2 ^ k - 1)`.
abbrev pub sar : ℤ → ℕ → ℤ
sar (pos n) k = pos (n / 2 ^ k)
sar (negsuc n) k = negsuc (n / 2 ^ k)

abbrev pub low_bits : ℤ → ℕ → ℕ
low_bits (pos n) k = n % 2 ^ k
low_bits (negsuc n) k = 2 ^ k - 1 - n % 2 ^ k

-- `a - b` of two numbers, and the sum.
abbrev pub sub_ℕ : ℕ → ℕ → ℤ
sub_ℕ a b = if leb b a then pos (a - b) else negsuc (b - a - 1)

infixl 65 ◌+ℤ◌
abbrev pub ◌+ℤ◌ : ℤ → ℤ → ℤ
pos a +ℤ pos b = pos (a + b)
pos a +ℤ negsuc b = sub_ℕ a (b + 1)
negsuc a +ℤ pos b = sub_ℕ b (a + 1)
negsuc a +ℤ negsuc b = negsuc (a + b + 1)

-- Comparison.
abbrev pub ltz : ℤ → ℤ → Bool
ltz (pos a) (pos b) = ltb a b
ltz (pos a) (negsuc b) = false
ltz (negsuc a) (pos b) = true
ltz (negsuc a) (negsuc b) = ltb b a

abbrev pub eqz : ℤ → ℤ → Bool
eqz (pos a) (pos b) = a == b
eqz (pos a) (negsuc b) = false
eqz (negsuc a) (pos b) = false
eqz (negsuc a) (negsuc b) = a == b

pub eqz_iff : (a b : ℤ) → (eqz a b ≡ true) ↔ (a ≡ b)
eqz_iff (pos a) (pos b) = (λ h. ground arith, λ h. ground arith)
eqz_iff (pos a) (negsuc b) = (λ h. ground arith, λ h. ground arith)
eqz_iff (negsuc a) (pos b) = (λ h. ground arith, λ h. ground arith)
eqz_iff (negsuc a) (negsuc b) = (λ h. ground arith, λ h. ground arith)

pub of_bits-to_bits32 : (v : ℤ) → IsI32 v → of_bits (2 ^ 31) (to_bits (2 ^ 31) v) ≡ v
of_bits-to_bits32 (pos n) h = ground arith
of_bits-to_bits32 (negsuc n) h = ground arith

pub of_bits-to_bits64 : (v : ℤ) → IsI64 v → of_bits (2 ^ 63) (to_bits (2 ^ 63) v) ≡ v
of_bits-to_bits64 (pos n) h = ground arith
of_bits-to_bits64 (negsuc n) h = ground arith

pub to_bits64-lt : (v : ℤ) → IsI64 v → to_bits (2 ^ 63) v < 2 ^ 64
to_bits64-lt (pos n) h = omega arith
to_bits64-lt (negsuc n) h = omega arith

pub to_bits32-lt : (v : ℤ) → to_bits (2 ^ 31) v < 2 ^ 32
to_bits32-lt (pos n) = omega arith
to_bits32-lt (negsuc n) = omega arith
