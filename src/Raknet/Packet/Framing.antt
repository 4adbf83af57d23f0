-- ===== src/Raknet/Packet/Framing.antt =====
-- Frames, datagrams and splitting of crates/raknet/src/packet.rs.
pub mod Layout
pub mod RoundTrip
pub mod Totality
use rust_mine.Base.{
  ℕ, zero, suc, ◌+◌, ◌-◌, ◌*◌, ◌/◌, ◌%◌, ◌^◌, max, bit_and, bit_or, ltb, ◌==◌, not, if◌then◌else◌,
  Bool, true, false, List, [], ◌∷◌, ◌++◌, length, take, drop, chunks, Option, none, some, unwrap_or,
}
use rust_mine.Base.Result.{Result, ok, err, ◌>>=◌, ◌>>◌, ok_or, fail_if}
use rust_mine.Raknet.Packet.{
  Reliability, Frame, FrameSetEntry, PacketError, buffer_too_short, invalid_reliability,
  unknown_packet_id, expected_frame_set, reliability_code, from_raw, is_reliable, is_sequenced,
  is_ordered, FrameType, from_byte, frame_set_start,
}
use rust_mine.Raknet.Packet.Wire.{
  Read, read_u8, read_u16_be, read_u24_le, read_u32_be, write_u8, write_u16_be, write_u24_le,
  write_u32_be,
}

-- `if c { Some(read_u24_le(..)?) } else { None }`.
abbrev pub read_index : Bool → List ℕ → Read (Option ℕ)
read_index true buf = do (v, buf) ← read_u24_le buf; ok (some v, buf)
read_index false buf = ok (none, buf)

abbrev pub read_order : Bool → List ℕ → Read (Option ℕ × ℕ)
read_order true buf = do
  (v, buf) ← read_u24_le buf
  (channel, buf) ← read_u8 buf
  ok ((some v, channel), buf)
read_order false buf = ok ((none, 0), buf)

abbrev pub read_split : Bool → List ℕ → Read (Option ℕ × Option ℕ × Option ℕ)
read_split true buf = do
  (count, buf) ← read_u32_be buf
  (id, buf) ← read_u16_be buf
  (index, buf) ← read_u32_be buf
  ok ((some count, some id, some index), buf)
read_split false buf = ok ((none, none, none), buf)

-- The frame and the number of bytes taken; `div_ceil(8)` is `(n + 7) / 8`.
unfoldable pub decode_frame : List ℕ → Result PacketError (Frame × ℕ)
decode_frame buf = do
  (flags, rest) ← read_u8 buf
  reliability ← ok_or (from_raw (bit_and flags 0x07)) (invalid_reliability (bit_and flags 0x07))
  let is_split = not (bit_and flags 0x10 == 0)
  (length_bits, rest) ← read_u16_be rest
  let body_len = (length_bits + 7) / 8
  (reliable_index, rest) ← read_index (is_reliable reliability) rest
  (sequence_index, rest) ← read_index (is_sequenced reliability) rest
  ((order_index, order_channel), rest) ← read_order (is_ordered reliability) rest
  ((split_count, split_id, split_index), rest) ← read_split is_split rest
  let pos = length buf - length rest
  fail_if (ltb (length buf) (pos + body_len)) buffer_too_short
  ok (
    record {
      reliability = reliability;
      is_split = is_split;
      reliable_index = reliable_index;
      sequence_index = sequence_index;
      order_index = order_index;
      order_channel = order_channel;
      split_count = split_count;
      split_id = split_id;
      split_index = split_index;
      body = take body_len rest;
    },
    pos + body_len,
  )

abbrev pub write_index : Bool → List ℕ → Option ℕ → List ℕ
write_index true buf index = write_u24_le buf (unwrap_or index 0)
write_index false buf index = buf

abbrev pub write_order : Bool → List ℕ → Option ℕ → ℕ → List ℕ
write_order true buf index channel = write_u8 (write_u24_le buf (unwrap_or index 0)) channel
write_order false buf index channel = buf

abbrev pub write_split : Bool → List ℕ → Option ℕ → Option ℕ → Option ℕ → List ℕ
write_split true buf count id index =
    let buf₁ = write_u16_be (write_u32_be buf (unwrap_or count 0)) (unwrap_or id 0) in
    write_u32_be buf₁ (unwrap_or index 0)
write_split false buf count id index = buf

unfoldable pub encode_frame : Frame → List ℕ
encode_frame frame =
    let flags = reliability_code frame.reliability in
    let flags' = if frame.is_split then bit_or flags 0x10 else flags in
    let buf₁ = write_u16_be (write_u8 [] flags') (length frame.body * 8 % 2 ^ 16) in
    let buf₂ = write_index (is_reliable frame.reliability) buf₁ frame.reliable_index in
    let buf₃ = write_index (is_sequenced frame.reliability) buf₂ frame.sequence_index in
    let buf₄ =
      write_order (is_ordered frame.reliability) buf₃ frame.order_index frame.order_channel in
    write_split frame.is_split buf₄ frame.split_count frame.split_id frame.split_index ++ frame.body

-- The `while` loop of `decode_datagram`, with the rounds that are left as its first argument.
unfoldable pub decode_frames : ℕ → List ℕ → Result PacketError (List Frame)
decode_frames zero buf = ok []
decode_frames (suc rounds) [] = ok []
decode_frames (suc rounds) (b ∷ buf) = do
  (frame, consumed) ← decode_frame (b ∷ buf)
  let others = decode_frames rounds (drop consumed (b ∷ buf))
  if consumed == 0 then ok (frame ∷ []) else do frames ← others; ok (frame ∷ frames)

abbrev pub is_frame_set : FrameType → Bool
is_frame_set FrameType.frame_set = true
is_frame_set _ = false

-- Each round takes a byte at least, so `length buf` rounds are enough.
unfoldable pub decode_datagram : List ℕ → Result PacketError FrameSetEntry
decode_datagram buf = do
  (header, rest) ← read_u8 buf
  (sequence_number, rest) ← read_u24_le rest
  frame_type ← ok_or (from_byte header) (unknown_packet_id header)
  fail_if (not (is_frame_set frame_type)) expected_frame_set
  frames ← decode_frames (length rest) rest
  ok (record { sequence_number = sequence_number; frames = frames })

abbrev pub append_frames : List ℕ → List Frame → List ℕ
append_frames buf [] = buf
append_frames buf (frame ∷ frames) = append_frames (buf ++ encode_frame frame) frames

unfoldable pub encode_datagram : FrameSetEntry → List ℕ
encode_datagram entry =
    append_frames (write_u24_le (write_u8 [] frame_set_start) entry.sequence_number) entry.frames

-- The frames of the pieces, numbered from `i`.
abbrev split_frames : ℕ → ℕ → Reliability → ℕ → ℕ → List (List ℕ) → List Frame
split_frames count id reliability channel i [] = []
split_frames count id reliability channel i (piece ∷ pieces) =
    record {
      reliability = reliability;
      is_split = true;
      reliable_index = none;
      sequence_index = none;
      order_index = none;
      order_channel = channel;
      split_count = some count;
      split_id = some id;
      split_index = some (i % 2 ^ 32);
      body = piece;
    }
    ∷ split_frames count id reliability channel (i + 1) pieces

abbrev pub frame_overhead : Reliability → ℕ
frame_overhead reliability =
    1
    + 2
    + (if is_reliable reliability then 3 else 0)
    + (if is_sequenced reliability then 3 else 0)
    + (if is_ordered reliability then 4 else 0)
    + 4
    + 2
    + 4

-- `saturating_sub` is `-` on ℕ.
unfoldable pub split_into_frames : List ℕ → ℕ → ℕ → Reliability → ℕ → List Frame
split_into_frames body mtu id reliability channel =
    let max_chunk = max (mtu - 4 - frame_overhead reliability) 16 in
    let count = max ((length body + max_chunk - 1) / max_chunk) 1 % 2 ^ 32 in
    split_frames count id reliability channel 0 (chunks max_chunk body)
