-- ===== src/Raknet/Server/Outbound.antt =====
-- The sending half of crates/raknet/src/server.rs: a payload becomes frames, and those datagrams.
pub mod Batches
pub mod Pieces
pub mod Messages
use rust_mine.Base.{
  ℕ, zero, suc, ◌+◌, ◌-◌, ◌/◌, ◌%◌, ◌^◌, max, ltb, leb, not, if◌then◌else◌, Bool, true, false, ◌&&◌,
  List, [], ◌∷◌, ◌++◌, length, map, chunks, get_or, set, Option, none, some,
}
use rust_mine.Base.Assoc.{lookup}
use rust_mine.Raknet.Packet.{SocketAddr, Reliability, reliable_ordered, Frame}
use rust_mine.Raknet.Packet.Framing.{encode_frame, encode_datagram}
use rust_mine.Raknet.Connection.{Connection, PendingFrame}
use rust_mine.Raknet.Server.{Inner, Effect, send_to, addr_eq}
use rust_mine.Raknet.Server.Inbound.{is_connected, put_connection, Step}

-- The frames of the pieces, numbered from `i`.
unfoldable pub piece_frames : ℕ → ℕ → Reliability → ℕ → ℕ → ℕ → ℕ → List (List ℕ) → List Frame
piece_frames count split_id reliability ch rel_idx ord_idx i [] = []
piece_frames count split_id reliability ch rel_idx ord_idx i (piece ∷ pieces) =
    record {
      reliability = reliability;
      is_split = true;
      reliable_index = some rel_idx;
      sequence_index = none;
      order_index = some ord_idx;
      order_channel = ch;
      split_count = some count;
      split_id = some split_id;
      split_index = some (i % 2 ^ 32);
      body = piece;
    }
    ∷ piece_frames count split_id reliability ch rel_idx ord_idx (i + 1) pieces

-- The size of a piece: the MTU less 24 bytes, and 16 at least.
abbrev pub chunk_size : ℕ → ℕ
chunk_size mtu = max (mtu - (4 + 1 + 2 + 3 + 4 + 4 + 2 + 4)) 16

unfoldable pub split_payload : List ℕ → ℕ → ℕ → Reliability → ℕ → ℕ → ℕ → List Frame
split_payload body mtu split_id reliability ch rel_idx ord_idx =
    let chunk = chunk_size mtu in
    let count = max ((length body + chunk - 1) / chunk) 1 % 2 ^ 32 in
    piece_frames count split_id reliability ch rel_idx ord_idx 0 (chunks chunk body)

abbrev pub single_frame : Reliability → ℕ → ℕ → ℕ → List ℕ → Frame
single_frame reliability ch rel_idx ord_idx payload = record {
  reliability = reliability;
  is_split = false;
  reliable_index = some rel_idx;
  sequence_index = none;
  order_index = some ord_idx;
  order_channel = ch;
  split_count = none;
  split_id = none;
  split_index = none;
  body = payload;
}

-- The inner loop: the frames that go in this datagram, and those that are left.
unfoldable pub fill : ℕ → ℕ → Bool → List Frame → List Frame × List Frame
fill mtu size started [] = ([], [])
fill mtu size started (next ∷ frames) =
    let enc = length (encode_frame next) in
    let (taken, left) = fill mtu (size + enc) true frames in
    if ltb mtu (size + enc) && started then ([], next ∷ frames) else (next ∷ taken, left)

abbrev pub datagram : ℕ → List Frame → List ℕ
datagram seq frames = encode_datagram (record { sequence_number = seq; frames = frames })

-- One datagram: its number is used up and it is kept as pending.
abbrev pub send_datagram : Connection → ℕ → ℕ → List Frame → Connection × List ℕ
send_datagram c rel_idx now taken =
    let raw = datagram c.send_seq taken in
    let pending : PendingFrame = record {
      sequence_number = c.send_seq;
      reliable_index = rel_idx;
      raw_data = raw;
      send_time = now;
      retries = 0;
    } in
    (
      record c {
        send_seq = (c.send_seq + 1) % 2 ^ 32;
        pending_frames = c.pending_frames ++ pending ∷ [];
      },
      raw,
    )

-- `while !frames.is_empty()`; each round takes a frame, so `length frames` rounds are enough.
unfoldable pub send_frames : ℕ → ℕ → Connection → ℕ → ℕ → List Frame → Connection × List (List ℕ)
send_frames zero mtu c rel_idx now frames = (c, [])
send_frames (suc rounds) mtu c rel_idx now [] = (c, [])
send_frames (suc rounds) mtu c rel_idx now (frame ∷ frames) =
    let (taken, left) = fill mtu 4 false (frame ∷ frames) in
    let (c₁, raw) = send_datagram c rel_idx now taken in
    let (c₂, raws) = send_frames rounds mtu c₁ rel_idx now left in (c₂, raw ∷ raws)

-- The indices of the next reliable and ordered message on channel 0 are used up.
abbrev pub take_indices : Connection → Connection
take_indices c = record c {
  reliable_index = (c.reliable_index + 1) % 2 ^ 32;
  order_indices = set c.order_indices 0 ((get_or c.order_indices 0 0 + 1) % 2 ^ 32);
}

abbrev pub message_frames : Connection → ℕ → List ℕ → Connection × List Frame
message_frames c mtu payload =
    let rel_idx = c.reliable_index in
    let ord_idx = get_or c.order_indices 0 0 in
    let c₁ = take_indices c in
    if leb (length payload) (mtu - (4 + 1 + 2 + 3 + 4))
    then (c₁, single_frame reliable_ordered 0 rel_idx ord_idx payload ∷ [])
    else (
      record c₁ { next_split_id = (c.next_split_id + 1) % 2 ^ 16 },
      split_payload payload mtu c.next_split_id reliable_ordered 0 rel_idx ord_idx,
    )

-- The body of `build_datagrams` for a connected client.
unfoldable pub send_message : Connection → ℕ → List ℕ → Connection × List (List ℕ)
send_message c now payload =
    let mtu = max c.mtu_size 576 in
    let (c₁, frames) = message_frames c mtu payload in
    send_frames (length frames) mtu c₁ c.reliable_index now frames

unfoldable pub build_datagrams : Inner → SocketAddr → ℕ → List ℕ → Inner × List (List ℕ)
build_datagrams g dest now payload = elim (lookup dest g.connections) [
  | none ↦ (g, [])
  | some c ↦
      let (c', datagrams) = send_message c now payload in
      if not (is_connected c.state) then (g, []) else (put_connection g dest c', datagrams)
]

-- One round of `outbound_loop`.
abbrev pub outbound_round : Inner → ℕ → SocketAddr × List ℕ → Step
outbound_round g now (dest, payload) =
    let (g', datagrams) = build_datagrams g dest now payload in
    (g', map (λ raw. send_to raw dest) datagrams)
