-- ===== src/Protocol/Batch.antt =====
-- crates/protocol/src/batch.rs.
pub mod RoundTrip
use rust_mine.Base.{
  ℕ, zero, suc, ◌%◌, ◌^◌, ltb, ◌==◌, not, if◌then◌else◌, Bool, List, [], ◌∷◌, ◌++◌, length, take,
  drop,
}
use rust_mine.Base.Result.{Result, ok, err, ◌>>=◌}
use rust_mine.Nbt.Varint.{NbtError, read_var_u32, write_var_u32}

pub data BatchError : Type 0 where
  empty truncated : BatchError
  bad_magic : ℕ → BatchError

unfoldable pub append_packets : List ℕ → List (List ℕ) → List ℕ
append_packets body [] = body
append_packets body (pkt ∷ packets) =
    append_packets (write_var_u32 body (length pkt % 2 ^ 32) ++ pkt) packets

unfoldable pub encode_batch : List (List ℕ) → List ℕ
encode_batch packets = 0xfe ∷ append_packets [] packets

-- The packet behind a length that was read, and what is left.
abbrev pub take_packet : Result NbtError ℕ × List ℕ → Result BatchError (List ℕ × List ℕ)
take_packet (err e, rest) = err truncated
take_packet (ok len, rest) =
    if ltb (length rest) len then err truncated else ok (take len rest, drop len rest)

-- One round of the loop.
unfoldable pub decode_one : List ℕ → Result BatchError (List ℕ × List ℕ)
decode_one buf = take_packet (read_var_u32 buf)

-- `while pos < raw.len()`; every round takes a byte at least, so as many rounds as there are bytes
-- are enough.
unfoldable pub decode_packets : ℕ → List ℕ → Result BatchError (List (List ℕ))
decode_packets zero buf = ok []
decode_packets (suc rounds) [] = ok []
decode_packets (suc rounds) (b ∷ buf) = do
  (packet, rest) ← decode_one (b ∷ buf)
  packets ← decode_packets rounds rest
  ok (packet ∷ packets)

unfoldable pub decode_batch : List ℕ → Result BatchError (List (List ℕ))
decode_batch [] = err empty
decode_batch (b ∷ buf) =
    if not (b == 0xfe) then err (bad_magic b) else decode_packets (length buf) buf
