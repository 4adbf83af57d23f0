-- ===== src/Base/Bits.antt =====
-- The bit operations as arithmetic: the equation for the lowest digit, then masks, disjoint
-- fields and complements.
use Prim.Native.Nat.{
  ℕ, zero, suc, ◌+◌, ◌-◌, ◌*◌, ◌/◌, ◌%◌, ◌^◌, ◌≤◌, ◌<◌, min, max, differ, digits, bitwise, bit_and,
  bit_or, bit_xor, bit_and-bitwise, bit_or-bitwise, bit_xor-bitwise,
}
use mathlib.Core.Path.{◌≡◌, refl, ap, ◌∙◌}
use mathlib.Core.Bool.{Bool, true, false}
use native.Mathlib.Nat.{
  pow-suc, one-le-pow, le_refl, mod-lt, mod-eq_of_lt, div-add-mod, mul-add-mod_self_right,
}
use native.Mathlib.Omega.{arith}
use rust_mine.Base.Tests.{◌==◌}

-- The fuel of the digit recursion does not matter once it covers the first argument.
module _ (z : ℕ → ℕ) (f : ℕ → ℕ → ℕ) where
  digits-fuel : (k l a b : ℕ) → a ≤ k → a ≤ l → digits z f k a b ≡ digits z f l a b
  digits-fuel k l zero b p q = end k l
    where
      end : (k l : ℕ) → digits z f k zero b ≡ digits z f l zero b
      end zero zero = refl
      end zero (suc l) = refl
      end (suc k) zero = refl
      end (suc k) (suc l) = refl
  digits-fuel zero l (suc a) b p q = absurd (omega arith)
  digits-fuel (suc k) zero (suc a) b p q = absurd (omega arith)
  digits-fuel (suc k) (suc l) (suc a) b p q =
      omega (arith, digits-fuel k l (suc a / 2) (b / 2) (omega arith) (omega arith))

  bitwise_step :
      (a b : ℕ)
      → bitwise z f (suc a) b ≡ bitwise z f (suc a / 2) (b / 2) * 2 + f (suc a % 2) (b % 2)
  bitwise_step a b =
      omega (arith, digits-fuel a (suc a / 2) (suc a / 2) (b / 2) (omega arith) (le_refl _))

-- An operation whose lowest binary digit is `f` of the operands' lowest digits.
abbrev ByDigits : (ℕ → ℕ → ℕ) → (ℕ → ℕ → ℕ) → Type 0
ByDigits op f = (a b : ℕ) → op a b ≡ op (a / 2) (b / 2) * 2 + f (a % 2) (b % 2)

pub bit_or_step : ByDigits bit_or max
bit_or_step (suc a) b = simp bit_or-bitwise (bitwise_step (λ y. y) max a b)
bit_or_step zero b = simp bit_or-bitwise (omega arith)

pub bit_xor_step : ByDigits bit_xor differ
bit_xor_step (suc a) b = simp bit_xor-bitwise (bitwise_step (λ y. y) differ a b)
bit_xor_step zero b = simp bit_xor-bitwise (omega arith)

pub bit_and_step : ByDigits bit_and min
bit_and_step (suc a) b = simp bit_and-bitwise (bitwise_step (λ _. 0) min a b)
bit_and_step zero b = simp bit_and-bitwise (omega arith)

zero-bit_xor : (b : ℕ) → bit_xor 0 b ≡ b
zero-bit_xor b = bit_xor-bitwise 0 b

zero-bit_and : (b : ℕ) → bit_and 0 b ≡ 0
zero-bit_and b = bit_and-bitwise 0 b

zero-bit_or : (b : ℕ) → bit_or 0 b ≡ b
zero-bit_or b = bit_or-bitwise 0 b

-- `op a 0` is `a` or 0, as its digits say; `keep` is 1 or 0.
module _ (op f : ℕ → ℕ → ℕ) (keep : ℕ) (digits_of : ByDigits op f) where
  right_zero :
      (op 0 0 ≡ 0) → ((x : ℕ) → x < 2 → f x 0 ≡ x * keep) → (n a : ℕ) → a < n → op a 0 ≡ a * keep
  right_zero e h zero a below = absurd (omega arith)
  right_zero e h (suc n) zero below = rw e (omega arith)
  right_zero e h (suc n) (suc a) below = omega (
    arith,
    digits_of (suc a) 0,
    h (suc a % 2) (omega arith),
    right_zero e h n (suc a / 2) (omega arith),
    ap (λ (t : ℕ). t * keep) halves,
  )
    where
      halves : suc a / 2 * 2 + suc a % 2 ≡ suc a
      halves = omega arith

double-pow : (q k : ℕ) → q * 2 ^ suc k ≡ 2 * (q * 2 ^ k)
double-pow q k = omega (arith, ap (λ (t : ℕ). q * t) (pow-suc 2 k))

-- `acc | (g << k)` is a sum when `acc` fits `k` bits.
pub bit_or_fields : (k acc g : ℕ) → acc < 2 ^ k → bit_or acc (g * 2 ^ k) ≡ acc + g * 2 ^ k
bit_or_fields zero acc g fits =
    let e : acc ≡ 0 = omega arith in rw (e, zero-bit_or (g * 2 ^ 0)) (omega arith)
bit_or_fields (suc k) acc g fits = ground (
  arith,
  bit_or_step acc (g * 2 ^ suc k),
  double-pow g k,
  double-pow 1 k,
  bit_or_fields k (acc / 2) g,
)

bit_and-zero : (a : ℕ) → bit_and a 0 ≡ 0
bit_and-zero a =
    omega (
      arith,
      right_zero bit_and min 0 bit_and_step refl (λ x h. omega arith) (suc a) a (omega arith),
    )

-- Halving a mask of ones.
ones_half : (k : ℕ) → (2 ^ suc k - 1) / 2 ≡ 2 ^ k - 1
ones_half k = omega (arith, double-pow 1 k, one-le-pow k 2 (omega arith))

ones_odd : (k : ℕ) → (2 ^ suc k - 1) % 2 ≡ 1
ones_odd k = omega (arith, double-pow 1 k, one-le-pow k 2 (omega arith))

mod_double : (a m : ℕ) → 0 < m → a % (2 * m) ≡ a / 2 % m * 2 + a % 2
mod_double a m h =
    ap (λ (t : ℕ). t % (2 * m)) whole
    ∙ mul-add-mod_self_right (a / 2 / m) (2 * m) (a / 2 % m * 2 + a % 2)
    ∙ mod-eq_of_lt (omega (arith, mod-lt (a / 2) h))
  where
    whole : a ≡ a / 2 / m * (2 * m) + (a / 2 % m * 2 + a % 2)
    whole = omega (arith, div-add-mod (a / 2) m)

-- `a & (2 ^ k - 1)` is the remainder by `2 ^ k`.
pub bit_and-mask : (k a : ℕ) → bit_and a (2 ^ k - 1) ≡ a % 2 ^ k
bit_and-mask zero a = omega (arith, bit_and-zero a)
bit_and-mask (suc k) a =
    let two : 2 ^ suc k ≡ 2 * 2 ^ k = omega (arith, double-pow 1 k) in
    bit_and_step a (2 ^ suc k - 1)
    ∙ rw (ones_half k, ones_odd k, bit_and-mask k (a / 2), two)
        (omega (arith, mod_double a (2 ^ k) (one-le-pow k 2 (omega arith))))

differ-zero : (x : ℕ) → differ x 0 ≡ x
differ-zero zero = refl
differ-zero (suc x) = refl

differ-one : (x y : ℕ) → x < 2 → y ≡ 1 → differ x y ≡ 1 - x
differ-one zero y h e = rw e refl
differ-one (suc zero) y h e = rw e refl
differ-one (suc (suc x)) y h e = absurd (omega arith)

pub bit_xor-zero : (a : ℕ) → bit_xor a 0 ≡ a
bit_xor-zero a =
    omega (arith, right_zero bit_xor differ 1 bit_xor_step refl digit (suc a) a (omega arith))
  where
    digit : (x : ℕ) → x < 2 → differ x 0 ≡ x * 1
    digit x h = omega (arith, differ-zero x)

-- `a ^ (2 ^ k - 1)` is the complement within `k` bits.
pub bit_xor-ones : (k a : ℕ) → a < 2 ^ k → bit_xor a (2 ^ k - 1) ≡ 2 ^ k - 1 - a
bit_xor-ones zero a fits =
    let e : a ≡ 0 = omega arith in rw e (omega (arith, zero-bit_xor (2 ^ 0 - 1)))
bit_xor-ones (suc k) a fits = ground (
  arith,
  bit_xor_step a (2 ^ suc k - 1),
  double-pow 1 k,
  one-le-pow k 2,
  ones_half k,
  ones_odd k,
  differ-one (a % 2) ((2 ^ suc k - 1) % 2),
  bit_xor-ones k (a / 2),
)

-- Masks on one byte, by a table of its values.
module _ (f g : ℕ → ℕ) where
  same_below : ℕ → Bool
  same_below zero = true
  same_below (suc n) = elim (f n == g n) [ true ↦ same_below n | false ↦ false ]

  same_below-eq : (n : ℕ) → same_below n ≡ true → (i : ℕ) → i < n → f i ≡ g i
  unfolding same_below
  same_below-eq zero e i h = absurd (omega arith)
  same_below-eq (suc n) e i h = ground (arith, same_below-eq n (ground arith) i)

pub byte_low3 : (b : ℕ) → b < 256 → bit_and b 0x07 ≡ b % 8
byte_low3 b h = bit_and-mask 3 b

pub byte_low7 : (b : ℕ) → b < 256 → bit_and b 0x7f ≡ b % 128
byte_low7 b h = bit_and-mask 7 b

pub byte_top : (b : ℕ) → b < 256 → bit_and b 0x80 ≡ b / 128 * 128
unfolding same_below
byte_top = same_below-eq (λ b. bit_and b 0x80) (λ b. b / 128 * 128) 256 refl

pub set_byte_top : (b : ℕ) → b < 128 → bit_or b 0x80 ≡ b + 128
unfolding same_below
set_byte_top = same_below-eq (λ b. bit_or b 0x80) (λ b. b + 128) 128 refl

pub byte_bit4 : (b : ℕ) → b < 256 → bit_and b 0x10 ≡ b / 16 % 2 * 16
unfolding same_below
byte_bit4 = same_below-eq (λ b. bit_and b 0x10) (λ b. b / 16 % 2 * 16) 256 refl

pub set_bit4 : (b : ℕ) → b < 16 → bit_or b 0x10 ≡ b + 16
unfolding same_below
set_bit4 = same_below-eq (λ b. bit_or b 0x10) (λ b. b + 16) 16 refl

pub byte_high3 : (b : ℕ) → b < 256 → bit_and b 0xe0 ≡ b / 32 * 32
unfolding same_below
byte_high3 = same_below-eq (λ b. bit_and b 0xe0) (λ b. b / 32 * 32) 256 refl

-- `|` stays within the width of its operands.
pub bit_or-lt : (k a b : ℕ) → a < 2 ^ k → b < 2 ^ k → bit_or a b < 2 ^ k
bit_or-lt zero a b h l = let e : a ≡ 0 = omega arith in rw (e, zero-bit_or b) l
bit_or-lt (suc k) a b h l = omega (
  arith,
  bit_or_step a b,
  double-pow 1 k,
  bit_or-lt k (a / 2) (b / 2) (omega (arith, double-pow 1 k)) (omega (arith, double-pow 1 k)),
)
