-- ===== src/Raknet/Packet/Dispatch.antt =====
-- `parse_packet` of crates/raknet/src/packet.rs.
pub mod RoundTrip
pub mod Numbers
use rust_mine.Base.{ℕ, ◌==◌, ◌||◌, if◌then◌else◌, Bool, List, [], ◌∷◌, Option, none, some}
use rust_mine.Base.Result.{Result, ok, err, ◌>>=◌}
use rust_mine.Raknet.Packet.{
  RaknetPacket, PacketError, buffer_too_short, unknown_packet_id, FrameType, from_byte,
  unconnected_ping_id, open_connection_request_1_id, open_connection_request_2_id,
}
use rust_mine.Raknet.Packet.Acks.{decode_ack, decode_nack}
use rust_mine.Raknet.Packet.Offline.{decode_offline}
use rust_mine.Raknet.Packet.Framing.{decode_datagram}

-- The three ids that the server takes from a client.
abbrev pub is_offline_id : ℕ → Bool
is_offline_id id =
    id == unconnected_ping_id
    || id == open_connection_request_1_id
    || id == open_connection_request_2_id

-- The `match` on the frame type of the first byte `id` of `buf`.
abbrev pub parse_as : Option FrameType → ℕ → List ℕ → Result PacketError RaknetPacket
parse_as none id buf =
    if is_offline_id id
    then (do packet ← decode_offline buf; ok (RaknetPacket.offline packet))
    else err (unknown_packet_id id)
parse_as (some FrameType.ack) id buf = do
  sequences ← decode_ack buf
  ok (RaknetPacket.ack sequences)
parse_as (some FrameType.nack) id buf = do
  sequences ← decode_nack buf
  ok (RaknetPacket.nack sequences)
parse_as (some FrameType.frame_set) id buf = do
  entry ← decode_datagram buf
  ok (RaknetPacket.frame_set entry.sequence_number entry.frames)

unfoldable pub parse_packet : List ℕ → Result PacketError RaknetPacket
parse_packet [] = err buffer_too_short
parse_packet (id ∷ buf) = parse_as (from_byte id) id (id ∷ buf)
