-- ===== src/Raknet/Packet/Dispatch/Numbers.antt =====
-- The sequence numbers that crates/raknet/src/packet.rs reads.
use rust_mine.Base.{
  ℕ, ◌<◌, ◌^◌, ltb, not, Bool-cases, inl, inr, List, [], ◌∷◌, length, drop, Option, none, some,
  arith,
}
use rust_mine.Base.Result.{Result, ok, err, ◌>>=◌, ok_or, fail_if}
use rust_mine.Raknet.Packet.{
  FrameSetEntry, FrameType, from_byte, RaknetPacket, PacketError, unknown_packet_id,
  expected_frame_set,
}
use rust_mine.Raknet.Packet.Wire.{read_u8, read_u24_le}
use rust_mine.Raknet.Packet.Offline.{decode_offline}
use rust_mine.Raknet.Packet.Acks.{decode_ack, decode_nack}
use rust_mine.Raknet.Packet.Framing.{is_frame_set, decode_frames, decode_datagram}
use rust_mine.Raknet.Packet.Dispatch.{is_offline_id, parse_as, parse_packet}

-- A result, if it is no error, is as said.
abbrev pub OnOk {ℓ} : {A : Type ℓ} → (A → Type 0) → Result PacketError A → Type 0
OnOk P (ok a) = P a
OnOk P (err e) = Unit

bind-OnOk {ℓ κ} :
    {A : Type ℓ} {B : Type κ} (P : B → Type 0) (r : Result PacketError A)
    (f : A → Result PacketError B)
    → ((a : A) → OnOk P (f a))
    → OnOk P (r >>= f)
bind-OnOk P (ok a) f h = h a
bind-OnOk P (err e) f h = tt

abbrev IsSmall : FrameSetEntry → Type 0
IsSmall entry = entry.sequence_number < 2 ^ 24

decode_datagram-IsSmall : (buf : List ℕ) → OnOk IsSmall (decode_datagram buf)
unfolding decode_datagram read_u8 read_u24_le
decode_datagram-IsSmall [] = tt
decode_datagram-IsSmall (header ∷ rest) = elim (Bool-cases (ltb (length rest) 3)) [
  | inl short ↦ rw short tt
  | inr long ↦ rw long (
      bind-OnOk IsSmall (ok_or (from_byte header) (unknown_packet_id header)) _ λ t.
        bind-OnOk IsSmall (fail_if (not (is_frame_set t)) expected_frame_set) _ λ u.
          bind-OnOk IsSmall (decode_frames (length (drop 3 rest)) (drop 3 rest)) _
            λ fs. omega arith)
]

-- The number of a frame set has 24 bits.
abbrev pub IsNumbered : RaknetPacket → Type 0
IsNumbered (RaknetPacket.frame_set seq fs) = seq < 2 ^ 24
IsNumbered _ = Unit

entry-IsNumbered :
    (r : Result PacketError FrameSetEntry)
    → OnOk IsSmall r
    → OnOk IsNumbered
        (r >>= λ entry. ok (RaknetPacket.frame_set entry.sequence_number entry.frames))
entry-IsNumbered (ok entry) h = h
entry-IsNumbered (err e) h = tt

parse_as-IsNumbered :
    (t : Option FrameType) (id : ℕ) (buf : List ℕ) → OnOk IsNumbered (parse_as t id buf)
parse_as-IsNumbered none id buf = elim (Bool-cases (is_offline_id id)) [
  | inl e ↦ rw e (bind-OnOk IsNumbered (decode_offline buf) _ λ p. tt)
  | inr e ↦ rw e tt
]
parse_as-IsNumbered (some FrameType.ack) id buf =
    bind-OnOk IsNumbered (decode_ack buf) (λ rs. ok (RaknetPacket.ack rs)) λ rs. tt
parse_as-IsNumbered (some FrameType.nack) id buf =
    bind-OnOk IsNumbered (decode_nack buf) (λ rs. ok (RaknetPacket.nack rs)) λ rs. tt
parse_as-IsNumbered (some FrameType.frame_set) id buf =
    entry-IsNumbered (decode_datagram buf) (decode_datagram-IsSmall buf)

pub parse_packet-IsNumbered : (buf : List ℕ) → OnOk IsNumbered (parse_packet buf)
unfolding parse_packet
parse_packet-IsNumbered [] = tt
parse_packet-IsNumbered (id ∷ buf) = parse_as-IsNumbered (from_byte id) id (id ∷ buf)
