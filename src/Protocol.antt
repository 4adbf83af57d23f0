-- ===== src/Protocol.antt =====
-- crates/protocol: batches, packet headers and strings, block interaction.
pub mod Batch
pub mod Interaction
pub mod Chunk
pub mod Id
pub mod Login
mod Tests
use rust_mine.Base.{
  ℕ, zero, suc, ◌+◌, ◌-◌, ◌%◌, ◌^◌, ltb, leb, ◌==◌, ◌&&◌, not, if◌then◌else◌, Bool, true, false,
  List, [], ◌∷◌, ◌++◌, length, take, drop,
}
use rust_mine.Base.Result.{Result, ok, err}
use rust_mine.Nbt.Varint.{NbtError, read_var_u32, write_var_u32}

-- The errors of codec.rs; `Other` is that of a string that is no UTF-8.
pub data CodecError : Type 0 where
  too_short var_int other : CodecError

-- A reader's result, and the bytes that its cursor has not passed.
abbrev pub read_packet_header : List ℕ → Result CodecError ℕ × List ℕ
read_packet_header [] = (err too_short, [])
read_packet_header (id ∷ buf) = (ok id, buf)

abbrev pub write_packet : ℕ → List ℕ → List ℕ
write_packet id payload = id ∷ payload

-- `String::from_utf8` succeeds. `need` more bytes of a character are to come, the next one from
-- `low` to `high`.
abbrev pub utf8_from : ℕ → ℕ → ℕ → List ℕ → Bool
utf8_from need low high [] = need == 0
utf8_from (suc need) low high (b ∷ bs) = leb low b && leb b high && utf8_from need 0x80 0xbf bs
utf8_from zero low high (b ∷ bs) =
    let one = utf8_from 0 0x80 0xbf bs in
    let two = utf8_from 1 0x80 0xbf bs in
    let three = utf8_from 2 0x80 0xbf bs in
    let four = utf8_from 3 0x80 0xbf bs in
    let after_e0 = utf8_from 2 0xa0 0xbf bs in
    let after_ed = utf8_from 2 0x80 0x9f bs in
    let after_f0 = utf8_from 3 0x90 0xbf bs in
    let after_f4 = utf8_from 3 0x80 0x8f bs in
    if ltb b 0x80
    then one
    else if leb 0xc2 b && leb b 0xdf
    then two
    else if b == 0xe0
    then after_e0
    else if b == 0xed
    then after_ed
    else if leb 0xe1 b && leb b 0xef
    then three
    else if b == 0xf0
    then after_f0
    else if leb 0xf1 b && leb b 0xf3
    then four
    else b == 0xf4 && after_f4

abbrev pub is_utf8 : List ℕ → Bool
is_utf8 = utf8_from 0 0x80 0xbf

-- The string behind a length that was read.
abbrev pub take_string : Result NbtError ℕ × List ℕ → Result CodecError (List ℕ) × List ℕ
take_string (err e, rest) = (err var_int, rest)
take_string (ok len, rest) =
    if ltb (length rest) len
    then (err too_short, rest)
    else (if is_utf8 (take len rest) then ok (take len rest) else err other, drop len rest)

unfoldable pub read_string : List ℕ → Result CodecError (List ℕ) × List ℕ
read_string buf = take_string (read_var_u32 buf)

unfoldable pub write_string : List ℕ → List ℕ → List ℕ
write_string buf s = write_var_u32 buf (length s % 2 ^ 32) ++ s
