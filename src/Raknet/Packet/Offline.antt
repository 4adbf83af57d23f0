-- ===== src/Raknet/Packet/Offline.antt =====
-- The offline messages of crates/raknet/src/packet.rs.
use rust_mine.Base.{
  ℕ, ◌+◌, ◌%◌, ◌^◌, min, ◌==◌, if◌then◌else◌, Bool, List, [], ◌∷◌, ◌++◌, length, take,
}
use rust_mine.Base.Int.{pos}
use rust_mine.Base.Result.{Result, ok, err, ◌>>=◌}
use rust_mine.Raknet.Packet.{
  OfflinePacket, PacketError, buffer_too_short, unknown_packet_id, unconnected_ping,
  unconnected_pong, open_connection_request1, open_connection_reply1, open_connection_request2,
  open_connection_reply2, incompatible_protocol, unconnected_ping_id, unconnected_pong_id,
  open_connection_request_1_id, open_connection_reply_1_id, open_connection_request_2_id,
  open_connection_reply_2_id, disconnection_id, max_mtu,
}
use rust_mine.Raknet.Packet.Wire.{
  read_u8, read_u16_be, read_i64_be, read_magic, read_address, write_u8, write_u16_be, write_i64_be,
  write_magic, write_address,
}

abbrev pub decode_unconnected_ping : List ℕ → Result PacketError OfflinePacket
decode_unconnected_ping buf = do
  (time, buf) ← read_i64_be buf
  (_, buf) ← read_magic buf
  (client_guid, buf) ← read_i64_be buf
  ok (unconnected_ping time client_guid)

-- The MTU is what is left of the datagram and 28 bytes of headers, as a u16, and at most `MAX_MTU`.
abbrev pub decode_request1 : List ℕ → Result PacketError OfflinePacket
decode_request1 buf = do
  (_, buf) ← read_magic buf
  (protocol_version, buf) ← read_u8 buf
  let mtu = (length buf + 28) % 2 ^ 16
  ok (open_connection_request1 protocol_version (min mtu max_mtu))

abbrev pub decode_request2 : List ℕ → Result PacketError OfflinePacket
decode_request2 buf = do
  (_, buf) ← read_magic buf
  (server_address, buf) ← read_address buf
  (mtu, buf) ← read_u16_be buf
  (client_guid, buf) ← read_i64_be buf
  ok (open_connection_request2 server_address mtu client_guid)

unfoldable pub decode_offline : List ℕ → Result PacketError OfflinePacket
decode_offline [] = err buffer_too_short
decode_offline (id ∷ buf) =
    if id == unconnected_ping_id
    then decode_unconnected_ping buf
    else if id == open_connection_request_1_id
    then decode_request1 buf
    else if id == open_connection_request_2_id
    then decode_request2 buf
    else err (unknown_packet_id id)

-- `b as u8`.
abbrev pub bool_byte : Bool → ℕ
bool_byte b = if b then 1 else 0

-- `motd` is cut to 65535 bytes.
unfoldable pub encode_offline : OfflinePacket → List ℕ
encode_offline (unconnected_ping time client_guid) =
    write_i64_be (write_magic (write_i64_be (write_u8 [] unconnected_ping_id) time)) (pos 0)
encode_offline (unconnected_pong time server_guid motd) =
    let buf₁ = write_i64_be (write_i64_be (write_u8 [] unconnected_pong_id) time) server_guid in
    let len = min (length motd) 65535 % 2 ^ 16 in
    write_u16_be (write_magic buf₁) len ++ take len motd
encode_offline (open_connection_reply1 server_guid use_encryption mtu) =
    let buf₁ = write_magic (write_u8 [] open_connection_reply_1_id) in
    write_u16_be (write_u8 (write_i64_be buf₁ server_guid) (bool_byte use_encryption)) mtu
encode_offline (open_connection_reply2 server_guid client_address mtu encryption_enabled) =
    let buf₁ = write_magic (write_u8 [] open_connection_reply_2_id) in
    let buf₂ = write_address (write_i64_be buf₁ server_guid) client_address in
    write_u8 (write_u16_be buf₂ mtu) (bool_byte encryption_enabled)
encode_offline (incompatible_protocol server_protocol server_guid) =
    write_i64_be (write_magic (write_u8 (write_u8 [] disconnection_id) server_protocol)) server_guid
encode_offline (open_connection_request1 protocol_version mtu) = []
encode_offline (open_connection_request2 server_address mtu client_guid) = []
