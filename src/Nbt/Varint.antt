-- ===== src/Nbt/Varint.antt =====
-- crates/nbt/src/varint.rs. A buffer with its cursor `pos` is the list of the bytes from `pos` on;
-- a reader returns its result and the bytes that its cursor has not passed, also on an error.
pub mod Bounds
pub mod Zigzag
pub mod RoundTrip
mod Tests
use rust_mine.Base.{
  ℕ, zero, suc, ◌+◌, ◌-◌, ◌*◌, ◌/◌, ◌%◌, ◌^◌, ◌<◌, bit_and, bit_or, bit_xor, leb, ◌==◌,
  if◌then◌else◌, List, [], ◌∷◌, ◌++◌, dec_lt, arith,
}
use rust_mine.Base.Int.{ℤ, to_bits, of_bits, sar}
use rust_mine.Base.Order.{lt_wf}
use rust_mine.Base.Result.{Result, ok, err}
use mathlib.Core.Logic.{dite}
use mathlib.Core.WellFounded.{Acc}

-- The errors that the readers return; `Io`, `Other` and `InvalidTagId` come from elsewhere.
pub data NbtError : Type 0 where
  unexpected_eof var_int_too_long : NbtError
  invalid_tag_id : ℕ → NbtError

-- The loop of `read_var_u32` (width 32, limit 35) and of `read_var_u64` (width 64, limit 70).
unfoldable pub read_loop : ℕ → ℕ → List ℕ → ℕ → ℕ → Result NbtError ℕ × List ℕ
read_loop width limit [] result shift = (err unexpected_eof, [])
read_loop width limit (b ∷ rest) result shift =
    let result' = bit_or result (bit_and b 0x7f * 2 ^ shift % 2 ^ width) in
    let more = read_loop width limit rest result' (shift + 7) in
    if leb limit shift
    then (err var_int_too_long, b ∷ rest)
    else if bit_and b 0x80 == 0
    then (ok result', rest)
    else more

unfoldable pub read_var_u32 : List ℕ → Result NbtError ℕ × List ℕ
read_var_u32 buf = read_loop 32 35 buf 0 0

unfoldable pub read_var_u64 : List ℕ → Result NbtError ℕ × List ℕ
read_var_u64 buf = read_loop 64 70 buf 0 0

pub rest_shrinks : (v : ℕ) → 0 < v / 2 ^ 7 → v / 2 ^ 7 < v
rest_shrinks v h = omega arith

-- The bytes that the loop of `write_var_u32` and `write_var_u64` pushes.
unfoldable pub write_loop : (value : ℕ) → Acc ◌<◌ value → List ℕ
write_loop value (Acc.intro _ smaller) =
    let b = bit_and value 0x7f % 256 in
    dite (dec_lt 0 (value / 2 ^ 7))
      (λ more. bit_or b 0x80 ∷ write_loop (value / 2 ^ 7) (smaller _ (rest_shrinks value more)))
      (λ _. b ∷ [])

unfoldable pub write_var_u32 : List ℕ → ℕ → List ℕ
write_var_u32 buf value = buf ++ write_loop value (lt_wf.apply value)

unfoldable pub write_var_u64 : List ℕ → ℕ → List ℕ
write_var_u64 buf value = buf ++ write_loop value (lt_wf.apply value)

-- `(v << 1) ^ (v >> 31)`, with 63 for an `i64`: `last` is the index of the sign bit.
unfoldable pub zigzag_encode : ℕ → ℤ → ℕ
zigzag_encode last v =
    bit_xor (to_bits (2 ^ last) v * 2 % 2 ^ (last + 1)) (to_bits (2 ^ last) (sar v last))

-- `(v >> 1) ^ -(v & 1)`: the negation is that of two's complement.
unfoldable pub zigzag_decode : ℕ → ℕ → ℤ
zigzag_decode last v =
    of_bits (2 ^ last) (bit_xor (v / 2 ^ 1) ((2 ^ (last + 1) - bit_and v 1) % 2 ^ (last + 1)))

unfoldable pub zigzag_encode_i32 : ℤ → ℕ
unfolding zigzag_encode
zigzag_encode_i32 = zigzag_encode 31

unfoldable pub zigzag_decode_i32 : ℕ → ℤ
unfolding zigzag_decode
zigzag_decode_i32 = zigzag_decode 31

unfoldable pub zigzag_encode_i64 : ℤ → ℕ
unfolding zigzag_encode
zigzag_encode_i64 = zigzag_encode 63

unfoldable pub zigzag_decode_i64 : ℕ → ℤ
unfolding zigzag_decode
zigzag_decode_i64 = zigzag_decode 63

-- `Ok(f(read(buf, pos)?))`.
abbrev pub map_read : (ℕ → ℤ) → Result NbtError ℕ × List ℕ → Result NbtError ℤ × List ℕ
map_read f (ok raw, rest) = (ok (f raw), rest)
map_read f (err e, rest) = (err e, rest)

unfoldable pub read_var_i32 : List ℕ → Result NbtError ℤ × List ℕ
read_var_i32 buf = map_read zigzag_decode_i32 (read_var_u32 buf)

unfoldable pub read_var_i64 : List ℕ → Result NbtError ℤ × List ℕ
read_var_i64 buf = map_read zigzag_decode_i64 (read_var_u64 buf)

unfoldable pub write_var_i32 : List ℕ → ℤ → List ℕ
write_var_i32 buf value = write_var_u32 buf (zigzag_encode_i32 value)

unfoldable pub write_var_i64 : List ℕ → ℤ → List ℕ
write_var_i64 buf value = write_var_u64 buf (zigzag_encode_i64 value)
