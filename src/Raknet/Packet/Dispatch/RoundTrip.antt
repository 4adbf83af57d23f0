-- ===== src/Raknet/Packet/Dispatch/RoundTrip.antt =====
-- `parse_packet` of crates/raknet/src/packet.rs on what the encoders write, and on other bytes.
use rust_mine.Base.{
  ℕ, ◌^◌, ◌<◌, leb, ◌&&◌, if◌then◌else◌, ◌≡◌, ◌∙◌, Bool, true, false, List, [], ◌∷◌, length, All,
  arith, some, none, Option,
}
use rust_mine.Base.Int.{ℤ, pos, IsI64}
use rust_mine.Base.Bits.{byte_high3}
use rust_mine.Base.Result.{ok}
use rust_mine.Raknet.Packet.{
  RaknetPacket, SequenceRange, FrameSetEntry, FrameType, from_byte, unconnected_ping,
}
use rust_mine.Raknet.Packet.Wire.{write_u8, write_i64_be, write_magic}
use rust_mine.Raknet.Packet.Wire.Fields.{read-i64_be, read-magic}
use rust_mine.Raknet.Packet.Acks.{encode_ack, decode_nack}
use rust_mine.Raknet.Packet.Acks.RoundTrip.{IsRange, encode_ack-eq, decode-encode_ack}
use rust_mine.Raknet.Packet.Offline.{encode_offline, decode_offline}
use rust_mine.Raknet.Packet.Framing.{encode_datagram}
use rust_mine.Raknet.Packet.Framing.Layout.{IsFrame}
use rust_mine.Raknet.Packet.Framing.RoundTrip.{decode-encode_datagram, encode_datagram-eq}
use rust_mine.Raknet.Packet.Dispatch.{parse_packet, parse_as}

parse_packet-eq :
    (id : ℕ) (buf rest : List ℕ)
    → buf ≡ id ∷ rest
    → parse_packet buf ≡ parse_as (from_byte id) id buf
unfolding parse_packet
parse_packet-eq id buf rest e = rw e

-- An ACK or NACK of at most 65,535 ranges of 24-bit numbers is parsed back to its ranges.
pub parse-encode_ack :
    (rs : List SequenceRange) (is_nack : Bool)
    → All IsRange rs
    → length rs < 2 ^ 16
    → parse_packet (encode_ack rs is_nack)
      ≡ ok (if is_nack then RaknetPacket.nack rs else RaknetPacket.ack rs)
unfolding from_byte decode_nack
parse-encode_ack rs true h fits =
    parse_packet-eq _ _ _ (encode_ack-eq rs true) ∙ rw (decode-encode_ack rs true h fits)
parse-encode_ack rs false h fits =
    parse_packet-eq _ _ _ (encode_ack-eq rs false) ∙ rw (decode-encode_ack rs false h fits)

-- A datagram of well-formed frames with a 24-bit number is parsed as a frame set with its number
-- and frames.
pub parse-encode_datagram :
    (e : FrameSetEntry)
    → All IsFrame e.frames
    → e.sequence_number < 2 ^ 24
    → parse_packet (encode_datagram e) ≡ ok (RaknetPacket.frame_set e.sequence_number e.frames)
unfolding from_byte
parse-encode_datagram e h fits =
    parse_packet-eq _ _ _ (encode_datagram-eq e) ∙ rw (decode-encode_datagram e h fits)

-- The kind of a datagram by its first byte, as ranges of bytes.
abbrev pub kind_of_byte : ℕ → Option FrameType
kind_of_byte b =
    if leb 0xc0 b && leb b 0xdf
    then some FrameType.ack
    else if leb 0xa0 b && leb b 0xbf
    then some FrameType.nack
    else if leb 0x80 b && leb b 0x8f
    then some FrameType.frame_set
    else none

-- For every first byte, from_byte gives the kind that the ranges of bytes say: 0xc0 to 0xdf an
-- ACK, 0xa0 to 0xbf a NACK, 0x80 to 0x8f a frame set.
pub from_byte-kind : (b : ℕ) → b < 256 → from_byte b ≡ kind_of_byte b
unfolding from_byte
from_byte-kind b h = ground (arith, byte_high3 b)

-- A ping that encode_offline wrote is parsed back with its 64-bit time and with the client GUID 0,
-- whatever it was.
pub parse-encode_ping :
    (time client_guid : ℤ)
    → IsI64 time
    → parse_packet (encode_offline (unconnected_ping time client_guid))
      ≡ ok (RaknetPacket.offline (unconnected_ping time (pos 0)))
unfolding parse_packet from_byte decode_offline encode_offline write_u8 write_i64_be write_magic
parse-encode_ping time client_guid h =
    rw (read-i64_be time _ h, read-magic _, read-i64_be (pos 0) [] (omega arith))
