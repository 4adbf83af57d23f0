-- ===== src/Raknet/Server/Inbound.antt =====
-- The inbound handlers of crates/raknet/src/server.rs.
pub mod Acked
pub mod Duplicates
pub mod Delivery
pub mod Streams
pub mod Awaiting
use rust_mine.Base.{
  ℕ, zero, suc, ◌+◌, ◌-◌, min, ltb, leb, ◌==◌, not, if◌then◌else◌, Bool, true, false, List, [], ◌∷◌,
  ◌++◌, length, map, retain, Option, none, some,
}
use rust_mine.Base.Int.{ℤ}
use rust_mine.Base.Result.{ok, err}
use rust_mine.Base.Assoc.{lookup, insert, adjust}
use rust_mine.Raknet.Packet.{
  SocketAddr, OfflinePacket, unconnected_ping, unconnected_pong, open_connection_request1,
  open_connection_reply1, open_connection_request2, open_connection_reply2, incompatible_protocol,
  Frame, SequenceRange, RaknetPacket, max_mtu,
}
use rust_mine.Raknet.Packet.Acks.{encode_ack}
use rust_mine.Raknet.Packet.Offline.{encode_offline}
use rust_mine.Raknet.Packet.Dispatch.{parse_packet}
use rust_mine.Raknet.Connection.{
  Connection, ConnectionState, unconnected, handshaking, connected, disconnected, PendingFrame,
  RecvRanges, push, contains, new_connection, feed_split, expire_split_packets,
}
use rust_mine.Raknet.Server.{
  Inner, Effect, send_to, event, ServerEvent, addr_eq, max_connections, max_retries,
  raknet_protocol_version, pong_motd,
}

abbrev pub is_connected : ConnectionState → Bool
is_connected connected = true
is_connected _ = false

-- `state` after `get(&src).map(|c| c.state)`, compared with `Some(Connected)`.
abbrev pub was_connected : Option Connection → Bool
was_connected none = false
was_connected (some c) = is_connected c.state

-- A handler's result.
abbrev pub Step : Type 0
Step = Inner × List Effect

abbrev pub put_connection : Inner → SocketAddr → Connection → Inner
put_connection g src c = record g { connections = insert src c g.connections }

abbrev pub handle_ping : Inner → SocketAddr → ℕ → ℤ → ℤ → Step
handle_ping g src now time client_guid =
    let raw = encode_offline (unconnected_pong time g.guid (pong_motd g)) in
    (
      elim (lookup src g.connections) [
        | none ↦ put_connection g src (new_connection src client_guid max_mtu now)
        | some c ↦ g
      ],
      send_to raw src ∷ [],
    )

abbrev pub start_handshake : ℕ → ℕ → Connection → Connection
start_handshake now mtu c = record c {
  mtu = min mtu max_mtu;
  mtu_size = min mtu max_mtu;
  state = handshaking;
  last_recv = now;
}

-- `sent` says whether the socket took the reply.
abbrev pub handle_request1 : Inner → SocketAddr → ℕ → Bool → ℕ → ℕ → Step
handle_request1 g src now sent protocol_version mtu =
    if leb max_connections (length g.connections)
    then (g, [])
    else if not (protocol_version == raknet_protocol_version)
    then (
      g,
      send_to (encode_offline (incompatible_protocol raknet_protocol_version g.guid)) src ∷ [],
    )
    else (
      if sent
          then record g { connections = adjust src (start_handshake now mtu) g.connections }
          else g,
      send_to (encode_offline (open_connection_reply1 g.guid g.online_mode (min mtu max_mtu))) src
          ∷ [],
    )

abbrev pub connect : Option Connection → SocketAddr → ℕ → ℕ → ℤ → Connection
connect none src now mtu client_guid =
    record (new_connection src client_guid (min mtu max_mtu) now) { state = connected }
connect (some c) src now mtu client_guid = record c {
  mtu = min mtu max_mtu;
  mtu_size = min mtu max_mtu;
  client_guid = client_guid;
  state = connected;
  last_recv = now;
}

abbrev pub handle_request2 : Inner → SocketAddr → ℕ → ℕ → ℤ → Step
handle_request2 g src now mtu client_guid =
    let old = lookup src g.connections in
    let reply = open_connection_reply2 g.guid src (min mtu max_mtu) g.online_mode in
    (
      put_connection g src (connect old src now mtu client_guid),
      send_to (encode_offline reply) src
          ∷ (if not (was_connected old) then event (ServerEvent.connected src) ∷ [] else []),
    )

unfoldable pub handle_offline : Inner → SocketAddr → ℕ → Bool → OfflinePacket → Step
handle_offline g src now sent (unconnected_ping time client_guid) =
    handle_ping g src now time client_guid
handle_offline g src now sent (open_connection_request1 protocol_version mtu) =
    handle_request1 g src now sent protocol_version mtu
handle_offline g src now sent (open_connection_request2 server_address mtu client_guid) =
    handle_request2 g src now mtu client_guid
handle_offline g src now sent _ = (g, [])

-- How many numbers `start..=end` has.
abbrev pub range_size : SequenceRange → ℕ
range_size r = r.end + 1 - r.start

-- `for s in s..s + rounds { pending_frames.retain(..) }`.
unfoldable pub ack_numbers : ℕ → ℕ → List PendingFrame → List PendingFrame
ack_numbers zero s pending = pending
ack_numbers (suc rounds) s pending =
    ack_numbers rounds (s + 1) (retain (λ f. not (f.sequence_number == s)) pending)

unfoldable pub ack_ranges : List SequenceRange → List PendingFrame → List PendingFrame
ack_ranges [] pending = pending
ack_ranges (r ∷ rs) pending = ack_ranges rs (ack_numbers (range_size r) r.start pending)

unfoldable pub handle_ack : Inner → SocketAddr → List SequenceRange → Inner
handle_ack g src sequences = record g {
  connections =
      adjust src (λ c. record c { pending_frames = ack_ranges sequences c.pending_frames })
        g.connections;
}

-- The first pending frame with this number, and what `out` gets from it.
unfoldable pub nack_number : ℕ → ℕ → List PendingFrame → List PendingFrame × List (List ℕ)
nack_number now s [] = ([], [])
nack_number now s (p ∷ pending) =
    let (pending', out) = nack_number now s pending in
    if p.sequence_number == s
    then (if ltb p.retries max_retries
        then (record p { retries = p.retries + 1; send_time = now } ∷ pending, p.raw_data ∷ [])
        else (p ∷ pending, []))
    else (p ∷ pending', out)

unfoldable pub nack_numbers : ℕ → ℕ → ℕ → List PendingFrame → List PendingFrame × List (List ℕ)
nack_numbers now zero s pending = (pending, [])
nack_numbers now (suc rounds) s pending =
    let (pending₁, out₁) = nack_number now s pending in
    let (pending₂, out₂) = nack_numbers now rounds (s + 1) pending₁ in (pending₂, out₁ ++ out₂)

unfoldable pub nack_ranges :
    ℕ → List SequenceRange → List PendingFrame → List PendingFrame × List (List ℕ)
nack_ranges now [] pending = (pending, [])
nack_ranges now (r ∷ rs) pending =
    let (pending₁, out₁) = nack_numbers now (range_size r) r.start pending in
    let (pending₂, out₂) = nack_ranges now rs pending₁ in (pending₂, out₁ ++ out₂)

unfoldable pub handle_nack : Inner → SocketAddr → ℕ → List SequenceRange → Step
handle_nack g src now sequences = elim (lookup src g.connections) [
  | none ↦ (g, [])
  | some c ↦
      let (pending, resend) = nack_ranges now sequences c.pending_frames in
      (
        put_connection g src (record c { pending_frames = pending }),
        map (λ raw. send_to raw src) resend,
      )
]

-- The split case of one frame; it is left out when one of the three fields is missing.
abbrev pub feed_piece :
    Connection → Option ℕ → Option ℕ → Option ℕ → List ℕ → ℕ → Connection × Option (List ℕ)
feed_piece c (some id) (some index) (some count) body now = feed_split c id index count body now
feed_piece c _ _ _ body now = (c, none)

abbrev pub option_list : Option (List ℕ) → List (List ℕ)
option_list none = []
option_list (some a) = a ∷ []

-- `for f in frames`: the connection, and `completed`.
unfoldable pub feed_frames : Connection → List Frame → ℕ → Connection × List (List ℕ)
feed_frames c [] now = (c, [])
feed_frames c (f ∷ fs) now =
    let (c₁, done) = feed_piece c f.split_id f.split_index f.split_count f.body now in
    let (c₂, completed) = feed_frames (if f.is_split then c₁ else c) fs now in
    (c₂, (if f.is_split then option_list done else f.body ∷ []) ++ completed)

abbrev pub ack_of : RecvRanges → List ℕ
ack_of ranges = encode_ack (map (λ r. record { start = r.0; end = r.1 }) ranges) false

-- The connection after the frames, and the payloads that are whole now.
unfoldable pub receive : Connection → ℕ → ℕ → List Frame → Connection × List (List ℕ)
receive c now seq frames =
    let c₁ = record c { last_recv = now; recv_queue = push c.recv_queue seq } in
    let (c₂, completed) = feed_frames c₁ frames now in (expire_split_packets c₂ now, completed)

unfoldable pub handle_frames : Inner → SocketAddr → ℕ → ℕ → List Frame → Step
handle_frames g src now seq frames = elim (lookup src g.connections) [
  | none ↦ (g, [])
  | some c ↦
      let (c', completed) = receive c now seq frames in
      if not (is_connected c.state)
      then (g, [])
      else if contains c.recv_queue seq
      then (put_connection g src (record c { last_recv = now }), [])
      else (
        put_connection g src c',
        send_to (ack_of (push c.recv_queue seq)) src
            ∷ map (λ payload. event (ServerEvent.game_packet src payload)) completed,
      )
]

abbrev pub handle_packet : Inner → SocketAddr → ℕ → Bool → RaknetPacket → Step
handle_packet g src now sent (RaknetPacket.offline packet) = handle_offline g src now sent packet
handle_packet g src now sent (RaknetPacket.ack sequences) = (handle_ack g src sequences, [])
handle_packet g src now sent (RaknetPacket.nack sequences) = handle_nack g src now sequences
handle_packet g src now sent (RaknetPacket.frame_set seq frames) =
    handle_frames g src now seq frames

unfoldable pub handle_inbound : Inner → SocketAddr → ℕ → Bool → List ℕ → Step
handle_inbound g src now sent data_ = elim (parse_packet data_) [
  | err e ↦ (g, [])
  | ok packet ↦ handle_packet g src now sent packet
]
