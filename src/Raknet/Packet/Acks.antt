-- ===== src/Raknet/Packet/Acks.antt =====
-- ACK and NACK records of crates/raknet/src/packet.rs.
pub mod RoundTrip
use rust_mine.Base.{
  ℕ, zero, suc, ◌+◌, ◌%◌, ◌^◌, ◌==◌, not, if◌then◌else◌, Bool, true, false, List, [], ◌∷◌, ◌++◌,
  length,
}
use rust_mine.Base.Result.{Result, ok, err, ◌>>=◌}
use rust_mine.Raknet.Packet.{SequenceRange, PacketError, buffer_too_short}
use rust_mine.Raknet.Packet.Wire.{
  Read, read_u8, read_u16_be, read_u24_le, write_u8, write_u16_be, write_u24_le,
}

-- `if single { start } else { read_u24_le(..)? }`.
abbrev pub read_end : Bool → ℕ → List ℕ → Read ℕ
read_end true start buf = ok (start, buf)
read_end false start buf = read_u24_le buf

-- `for _ in 0..count`.
unfoldable pub decode_ranges : ℕ → List ℕ → Result PacketError (List SequenceRange)
decode_ranges zero buf = ok []
decode_ranges (suc count) buf = do
  (single, buf) ← read_u8 buf
  (start, buf) ← read_u24_le buf
  (end, buf) ← read_end (not (single == 0)) start buf
  ranges ← decode_ranges count buf
  ok (record { start = start; end = end } ∷ ranges)

-- The first byte, the id, is skipped.
unfoldable pub decode_ack : List ℕ → Result PacketError (List SequenceRange)
decode_ack [] = err buffer_too_short
decode_ack (id ∷ buf) = do (count, buf) ← read_u16_be buf; decode_ranges count buf

unfoldable pub decode_nack : List ℕ → Result PacketError (List SequenceRange)
decode_nack buf = do sequences ← decode_ack buf; ok sequences

abbrev pub encode_range : List ℕ → SequenceRange → List ℕ
encode_range buf range =
    let single = range.start == range.end in
    let buf₁ = write_u24_le (write_u8 buf (if single then 1 else 0)) range.start in
    if not single then write_u24_le buf₁ range.end else buf₁

abbrev pub encode_ranges : List ℕ → List SequenceRange → List ℕ
encode_ranges buf [] = buf
encode_ranges buf (range ∷ ranges) = encode_ranges (encode_range buf range) ranges

unfoldable pub encode_ack : List SequenceRange → Bool → List ℕ
encode_ack sequences is_nack =
    let id = if is_nack then 0xa0 else 0xc0 in
    encode_ranges (write_u16_be (write_u8 [] id) (length sequences % 2 ^ 16)) sequences
