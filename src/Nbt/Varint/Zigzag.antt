-- ===== src/Nbt/Varint/Zigzag.antt =====
-- The ZigZag helpers of crates/nbt/src/varint.rs as arithmetic.
use rust_mine.Base.{ℕ, ◌+◌, ◌-◌, ◌*◌, ◌%◌, ◌^◌, ◌<◌, bit_and, bit_xor, ◌≡◌, ap, ◌∙◌, arith}
use rust_mine.Base.Int.{ℤ, pos, negsuc, IsI32, IsI64, of_bits}
use rust_mine.Base.Bits.{bit_xor-zero, bit_xor-ones, bit_and-mask}
use rust_mine.Nbt.Varint.{
  zigzag_encode_i32, zigzag_decode_i32, zigzag_encode_i64, zigzag_decode_i64,
}

-- 0, -1, 1, -2, 2, … are numbered 0, 1, 2, 3, 4, …
abbrev pub zigzag : ℤ → ℕ
zigzag (pos n) = 2 * n
zigzag (negsuc n) = 2 * n + 1

-- `^` with all sign bits: nothing changes for 0, and every bit flips for -1.
xor_zero : (a b : ℕ) → b ≡ 0 → bit_xor a b ≡ a
xor_zero a b e = rw e (bit_xor-zero a)

xor_ones : (k a b : ℕ) → b ≡ 2 ^ k - 1 → a < 2 ^ k → bit_xor a b ≡ 2 ^ k - 1 - a
xor_ones k a b e h = rw e (bit_xor-ones k a h)

pub encode_i32-zigzag : (v : ℤ) → IsI32 v → zigzag_encode_i32 v ≡ zigzag v
unfolding zigzag_encode_i32
encode_i32-zigzag (pos n) h = xor_zero _ _ (omega arith) ∙ omega arith
encode_i32-zigzag (negsuc n) h = xor_ones 32 _ _ (omega arith) (omega arith) ∙ omega arith

pub encode_i64-zigzag : (v : ℤ) → IsI64 v → zigzag_encode_i64 v ≡ zigzag v
unfolding zigzag_encode_i64
encode_i64-zigzag (pos n) h = xor_zero _ _ (omega arith) ∙ omega arith
encode_i64-zigzag (negsuc n) h = xor_ones 64 _ _ (omega arith) (omega arith) ∙ omega arith

pub zigzag32-lt : (v : ℤ) → IsI32 v → zigzag v < 2 ^ 32
zigzag32-lt (pos n) h = omega arith
zigzag32-lt (negsuc n) h = omega arith

pub zigzag64-lt : (v : ℤ) → IsI64 v → zigzag v < 2 ^ 64
zigzag64-lt (pos n) h = omega arith
zigzag64-lt (negsuc n) h = omega arith

last_bit : (v : ℕ) → bit_and v 1 ≡ v % 2
last_bit v = bit_and-mask 1 v

pub decode_i32-zigzag : (v : ℤ) → IsI32 v → zigzag_decode_i32 (zigzag v) ≡ v
unfolding zigzag_decode_i32
decode_i32-zigzag (pos n) h =
    ap (of_bits (2 ^ 31)) (xor_zero _ _ (omega (arith, last_bit (2 * n)))) ∙ ground arith
decode_i32-zigzag (negsuc n) h =
    ap (of_bits (2 ^ 31)) (xor_ones 32 _ _ (omega (arith, last_bit (2 * n + 1))) (omega arith))
    ∙ ground arith

pub decode_i64-zigzag : (v : ℤ) → IsI64 v → zigzag_decode_i64 (zigzag v) ≡ v
unfolding zigzag_decode_i64
decode_i64-zigzag (pos n) h =
    ap (of_bits (2 ^ 63)) (xor_zero _ _ (omega (arith, last_bit (2 * n)))) ∙ ground arith
decode_i64-zigzag (negsuc n) h =
    ap (of_bits (2 ^ 63)) (xor_ones 64 _ _ (omega (arith, last_bit (2 * n + 1))) (omega arith))
    ∙ ground arith

-- The encoder numbers 0, -1, 1, -2, 2, … in this order, and the decoder undoes it.
pub zigzag_i32 :
    (v : ℤ)
    → IsI32 v
    → (zigzag_decode_i32 (zigzag_encode_i32 v) ≡ v) × (zigzag_encode_i32 v ≡ zigzag v)
zigzag_i32 v h = (rw (encode_i32-zigzag v h) (decode_i32-zigzag v h), encode_i32-zigzag v h)
