-- ===== src/Raknet/Server/Outbound/Messages.antt =====
-- A message from `build_datagrams` of crates/raknet/src/server.rs to the payload on the other side.
use rust_mine.Base.{
  ℕ, suc, ◌+◌, ◌-◌, ◌/◌, ◌%◌, ◌^◌, ◌≤◌, ◌<◌, max, leb, ◌≡◌, refl, sym, ap, Bool-cases, true, false,
  inl, inr, List, [], ◌∷◌, length, chunks, get_or, All, All-map, none, arith,
}
use mathlib.Core.Path.{subst}
use rust_mine.Base.Assoc.{lookup, nat_eq}
use rust_mine.Raknet.Packet.{Frame, reliable_ordered, max_mtu}
use rust_mine.Raknet.Packet.Framing.Layout.{IsFrame}
use rust_mine.Raknet.Connection.{Connection}
use rust_mine.Raknet.Server.Inbound.{feed_frames}
use rust_mine.Raknet.Server.Inbound.Delivery.{feed_frames-split_payload}
use rust_mine.Raknet.Server.Outbound.{
  piece_frames, split_payload, chunk_size, single_frame, message_frames, take_indices, send_message,
}
use rust_mine.Raknet.Server.Outbound.Batches.{Sent, send_frames-Sent}
use rust_mine.Raknet.Server.Outbound.Pieces.{length-chunks_le, length-chunks_bounds}

module _ (count split_id rel_idx ord_idx : ℕ) (count_fits : count < 2 ^ 32)
    (id_fits : split_id < 2 ^ 16) (rel_fits : rel_idx < 2 ^ 24) (ord_fits : ord_idx < 2 ^ 24) where
  piece_frames-IsFrame :
      (i : ℕ) (pieces : List (List ℕ))
      → All (λ piece. length piece ≤ max_mtu) pieces
      → All IsFrame (piece_frames count split_id reliable_ordered 0 rel_idx ord_idx i pieces)
  unfolding piece_frames
  piece_frames-IsFrame i [] h = tt
  piece_frames-IsFrame i (piece ∷ pieces) h = (
    record {
      reliable_fits = (rel_idx, refl, rel_fits);
      sequence_fits = refl;
      order_fits = (ord_idx, refl, ord_fits);
      channel_fits = omega arith;
      count_fits = (count, refl, count_fits);
      id_fits = (split_id, refl, id_fits);
      index_fits = (i % 2 ^ 32, refl, omega arith);
      body_fits = omega (arith, h.0);
    },
    piece_frames-IsFrame (i + 1) pieces h.1,
  )

length-piece_frames :
    (count split_id rel_idx ord_idx i : ℕ) (pieces : List (List ℕ))
    → length (piece_frames count split_id reliable_ordered 0 rel_idx ord_idx i pieces)
      ≡ length pieces
unfolding piece_frames
length-piece_frames count split_id rel_idx ord_idx i [] = refl
length-piece_frames count split_id rel_idx ord_idx i (piece ∷ pieces) =
    ap suc (length-piece_frames count split_id rel_idx ord_idx (i + 1) pieces)

-- A connection whose counters are in the range of the wire, for a payload of this length.
pub record CanSend (c : Connection) (size : ℕ) : Type 0 where
  pub mtu_fits : c.mtu_size ≤ max_mtu
  pub reliable_fits : c.reliable_index < 2 ^ 24
  pub order_fits : get_or c.order_indices 0 0 < 2 ^ 24
  pub split_fits : c.next_split_id < 2 ^ 16
  pub numbers_fit : c.send_seq + size < 2 ^ 24

-- What the frames of a message have to be: sendable, no more than bytes, and the payload again.
record IsMessage (d : Connection) (now : ℕ) (payload : List ℕ) (frames : List Frame) : Type 0 where
  sendable : All IsFrame frames
  few : length frames ≤ length payload
  whole : (feed_frames d frames now).1 ≡ payload ∷ []

single_frame-IsMessage :
    (c d : Connection) (now : ℕ) (payload : List ℕ)
    → CanSend c (length payload)
    → 0 < length payload
    → length payload ≤ max_mtu
    → IsMessage d now payload
        (single_frame reliable_ordered 0 c.reliable_index (get_or c.order_indices 0 0) payload ∷ [])
unfolding feed_frames
single_frame-IsMessage c d now payload can some_ short = record {
  sendable = (
    record {
      reliable_fits = (c.reliable_index, refl, can.reliable_fits);
      sequence_fits = refl;
      order_fits = (get_or c.order_indices 0 0, refl, can.order_fits);
      channel_fits = omega arith;
      count_fits = refl;
      id_fits = refl;
      index_fits = refl;
      body_fits = omega arith;
    },
    tt,
  );
  few = omega arith;
  whole = refl;
}

split_payload-IsMessage :
    (c d : Connection) (mtu now : ℕ) (payload : List ℕ)
    → CanSend c (length payload)
    → 0 < length payload
    → mtu ≤ max_mtu
    → lookup c.next_split_id d.split_packets ≡ none
    → IsMessage d now payload (
        split_payload payload mtu c.next_split_id reliable_ordered 0 c.reliable_index
          (get_or c.order_indices 0 0))
split_payload-IsMessage c d mtu now payload can some_ mtu_fits unused = record {
  sendable =
      unfold split_payload in
      piece_frames-IsFrame (max ((length payload + k - 1) / k) 1 % 2 ^ 32) c.next_split_id
        c.reliable_index (get_or c.order_indices 0 0) (omega arith) can.split_fits can.reliable_fits
        can.order_fits 0 (chunks k payload)
        (All-map (λ piece h. omega (arith, h)) (chunks k payload) (length-chunks_le k payload));
  few =
      unfold split_payload in
      omega (
        arith,
        length-piece_frames (max ((length payload + k - 1) / k) 1 % 2 ^ 32) c.next_split_id
            c.reliable_index (get_or c.order_indices 0 0) 0 (chunks k payload),
        length-chunks_bounds k payload (omega arith) some_,
      );
  whole =
      feed_frames-split_payload d payload mtu c.next_split_id now reliable_ordered 0
        c.reliable_index (get_or c.order_indices 0 0) unused some_ (omega (arith, can.numbers_fit));
}
  where
    k : ℕ
    k = chunk_size mtu

-- The MTU that `build_datagrams` goes by.
abbrev pub wire_mtu : Connection → ℕ
wire_mtu c = max c.mtu_size 576

abbrev pub frames_of : Connection → List ℕ → List Frame
frames_of c payload = (message_frames c (wire_mtu c) payload).1

le_of_leb : (a b : ℕ) → leb a b ≡ true → a ≤ b
le_of_leb a b h = ground arith

module _ (c : Connection) (mtu : ℕ) (payload : List ℕ) where
  pub frames-short :
      leb (length payload) (mtu - (4 + 1 + 2 + 3 + 4)) ≡ true
      → message_frames c mtu payload ≡ (
        take_indices c,
        single_frame reliable_ordered 0 c.reliable_index (get_or c.order_indices 0 0) payload ∷ [],
      )
  frames-short short = rw (message_frames, short) refl

  pub frames-long :
      leb (length payload) (mtu - (4 + 1 + 2 + 3 + 4)) ≡ false
      → message_frames c mtu payload ≡ (
        record (take_indices c) { next_split_id = (c.next_split_id + 1) % 2 ^ 16 },
        split_payload payload mtu c.next_split_id reliable_ordered 0 c.reliable_index
            (get_or c.order_indices 0 0),
      )
  frames-long long = rw (message_frames, long) refl

-- The frames of a message, and that the datagram numbers go on from the connection's.
abbrev Sends : Connection → Connection → ℕ → List ℕ → Connection × List Frame → Type 0
Sends c d now payload m = IsMessage d now payload m.1 × (m.0.send_seq ≡ c.send_seq)

message_frames-Sends :
    (c d : Connection) (now : ℕ) (payload : List ℕ)
    → CanSend c (length payload)
    → 0 < length payload
    → lookup c.next_split_id d.split_packets ≡ none
    → Sends c d now payload (message_frames c (wire_mtu c) payload)
message_frames-Sends c d now payload can some_ unused =
    elim (Bool-cases (leb (length payload) (wire_mtu c - (4 + 1 + 2 + 3 + 4)))) [
      | inl short ↦
          let room = le_of_leb (length payload) (wire_mtu c - (4 + 1 + 2 + 3 + 4)) short in
          subst (Sends c d now payload) (sym (frames-short c (wire_mtu c) payload short)) (
            single_frame-IsMessage c d now payload can some_ (omega (arith, room, can.mtu_fits)),
            refl,
          )
      | inr long ↦ subst (Sends c d now payload) (sym (frames-long c (wire_mtu c) payload long)) (
        split_payload-IsMessage c d (wire_mtu c) now payload can some_ (omega (arith, can.mtu_fits))
            unused,
        refl,
      )
    ]

-- A payload that is not empty, sent by a connection whose counters are in range, goes out in
-- datagrams that parse to frame sets under consecutive numbers, each within the MTU or of one
-- frame; their frames, taken in in order by a connection with no part of the same split id, give
-- the payload, once and nothing else.
pub send_message-delivers :
    (c d : Connection) (now now' : ℕ) (payload : List ℕ)
    → CanSend c (length payload)
    → 0 < length payload
    → lookup c.next_split_id d.split_packets ≡ none
    → Sent (wire_mtu c) c.send_seq (send_message c now payload).1 (frames_of c payload)
      × ((feed_frames d (frames_of c payload) now').1 ≡ payload ∷ [])
unfolding send_message
send_message-delivers c d now now' payload can some_ unused =
    let (message, same) = message_frames-Sends c d now' payload can some_ unused in
    let c₁ = (message_frames c (wire_mtu c) payload).0 in
    let sent =
      send_frames-Sent (length (frames_of c payload)) (wire_mtu c) c₁ c.reliable_index now
        (frames_of c payload) (omega arith) message.sendable
        (omega (arith, same, message.few, can.numbers_fit)) in
    (
      subst (λ n. Sent (wire_mtu c) n (send_message c now payload).1 (frames_of c payload)) same
          sent,
      message.whole,
    )
