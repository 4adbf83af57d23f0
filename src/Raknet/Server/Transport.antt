-- ===== src/Raknet/Server/Transport.antt =====
-- A message on its way from `build_datagrams` through the datagrams to `handle_inbound`,
-- crates/raknet/src/server.rs.
use rust_mine.Base.{
  ℕ, ◌+◌, ◌-◌, ◌/◌, ◌%◌, ◌^◌, ◌<◌, max, leb, ◌≡◌, refl, sym, ap, ◌∙◌, Bool-cases, inl, inr, List,
  [], ◌∷◌, map, length, chunks, get_or, All, none, some, arith,
}
use mathlib.Core.List.{flatten}
use mathlib.Core.Path.{subst}
use rust_mine.Base.Assoc.{lookup, nat_eq}
use rust_mine.Raknet.Packet.{SocketAddr, Frame, reliable_ordered}
use rust_mine.Raknet.Connection.{Connection}
use rust_mine.Raknet.Server.{Inner, ServerEvent, addr_eq}
use rust_mine.Raknet.Server.Inbound.Streams.{
  inbound_all, events, IsReady, IsTimely, inbound_all-total,
}
use rust_mine.Raknet.Server.Inbound.Awaiting.{AwaitsPieces, AwaitsPieces-step, AwaitsPieces-expire}
use rust_mine.Raknet.Server.Outbound.{
  piece_frames, split_payload, chunk_size, single_frame, send_message,
}
use rust_mine.Raknet.Server.Outbound.Batches.{Sent}
use rust_mine.Raknet.Server.Outbound.Messages.{
  CanSend, wire_mtu, frames_of, frames-short, frames-long, send_message-delivers,
}
use rust_mine.Raknet.Server.Outbound.Pieces.{flatten-chunks, length-chunks, length-chunks_bounds}

-- The one frame of a short payload is still to come, or nothing.
abbrev IsAlone : Frame → List Frame → Type 0
IsAlone f [] = Unit
IsAlone f (next ∷ fs) = (next ≡ f) × (fs ≡ [])

module _ (d : Connection) (g : Inner) (src : SocketAddr) (start mtu seq : ℕ)
    (raws : List (ℕ × List ℕ)) (found : lookup src g.connections ≡ some d) (ready : IsReady seq d)
    (timely : All (IsTimely start) raws) (payload : List ℕ) where
  -- A frame that is no piece is a payload itself.
  inbound_all-single :
      (rel_idx ord_idx : ℕ)
      → Sent mtu seq
          (map (λ (r : ℕ × List ℕ). r.1) raws)
          (single_frame reliable_ordered 0 rel_idx ord_idx payload ∷ [])
      → events (inbound_all g src raws).1 ≡ ServerEvent.game_packet src payload ∷ []
  inbound_all-single rel_idx ord_idx sent =
      let f : Frame = single_frame reliable_ordered 0 rel_idx ord_idx payload in
      inbound_all-total start payload (λ fs splits. IsAlone f fs)
        (λ next fs c now late h. rw (h.0, h.1) (tt, refl)) (λ fs c now soon h. h) src mtu seq raws g
        d (f ∷ []) found ready timely (refl, refl) sent

  inbound_all-pieces :
      (pieces : List (List ℕ)) (id rel_idx ord_idx : ℕ)
      → lookup id d.split_packets ≡ none
      → 0 < length pieces
      → length pieces < 2 ^ 32
      → flatten pieces ≡ payload
      → Sent mtu seq
          (map (λ (r : ℕ × List ℕ). r.1) raws)
          (piece_frames (length pieces) id reliable_ordered 0 rel_idx ord_idx 0 pieces)
      → events (inbound_all g src raws).1 ≡ ServerEvent.game_packet src payload ∷ []
  unfolding piece_frames
  inbound_all-pieces [] id rel_idx ord_idx unused some_ small whole sent = absurd (omega arith)
  inbound_all-pieces (p ∷ ps) id rel_idx ord_idx unused some_ small whole sent =
      inbound_all-total start (flatten (p ∷ ps))
        (AwaitsPieces (p ∷ ps) start id reliable_ordered 0 rel_idx ord_idx small)
        (AwaitsPieces-step (p ∷ ps) start id reliable_ordered 0 rel_idx ord_idx small)
        (AwaitsPieces-expire (p ∷ ps) start id reliable_ordered 0 rel_idx ord_idx small) src mtu seq
        raws g d _ found ready timely
        (record {
          next = 0;
          last = p ∷ ps;
          carried = refl;
          rest = λ j. ap (λ (k : ℕ). get_or (p ∷ ps) k []) {x = 0 + j} {y = j} (omega arith);
          long = omega arith;
          entry = λ some_. rw unused refl;
        })
        sent
      ∙ ap (λ body. ServerEvent.game_packet src body ∷ []) whole

  inbound_all-split :
      (wire id rel_idx ord_idx : ℕ)
      → lookup id d.split_packets ≡ none
      → 0 < length payload
      → length payload < 2 ^ 32
      → Sent mtu seq
          (map (λ (r : ℕ × List ℕ). r.1) raws)
          (split_payload payload wire id reliable_ordered 0 rel_idx ord_idx)
      → events (inbound_all g src raws).1 ≡ ServerEvent.game_packet src payload ∷ []
  unfolding split_payload
  inbound_all-split wire id rel_idx ord_idx unused some_ small sent =
      let k = chunk_size wire in
      let pos : 0 < k = omega arith in
      let bounds = length-chunks_bounds k payload pos some_ in
      let count : max ((length payload + k - 1) / k) 1 % 2 ^ 32 ≡ length (chunks k payload) =
        omega (arith, length-chunks k payload pos, bounds) in
      inbound_all-pieces (chunks k payload) id rel_idx ord_idx unused (omega (arith, bounds))
        (omega (arith, bounds)) (flatten-chunks k payload pos)
        (subst
          (λ n.
            Sent mtu seq (map (λ (r : ℕ × List ℕ). r.1) raws)
              (piece_frames n id reliable_ordered 0 rel_idx ord_idx 0 (chunks k payload)))
          count sent)

-- A payload that is not empty, sent by a connection whose counters are in range, and whose
-- datagrams come in order and within the timeout of split packets from an address that is
-- connected, has not had their numbers and holds no part of the same split id, is handed to the
-- game exactly once, and nothing else is.
pub inbound_all-send_message :
    (c d : Connection) (g : Inner) (src : SocketAddr) (now start : ℕ) (payload : List ℕ)
    (raws : List (ℕ × List ℕ))
    → CanSend c (length payload)
    → 0 < length payload
    → lookup src g.connections ≡ some d
    → IsReady c.send_seq d
    → lookup c.next_split_id d.split_packets ≡ none
    → map (λ (r : ℕ × List ℕ). r.1) raws ≡ (send_message c now payload).1
    → All (IsTimely start) raws
    → events (inbound_all g src raws).1 ≡ ServerEvent.game_packet src payload ∷ []
inbound_all-send_message c d g src now start payload raws can some_ found ready unused same timely =
    let sent =
      subst (λ l. Sent (wire_mtu c) c.send_seq l (frames_of c payload)) (sym same)
        (send_message-delivers c d now now payload can some_ unused).0 in
    let to =
      λ (fs : List Frame). Sent (wire_mtu c) c.send_seq (map (λ (r : ℕ × List ℕ). r.1) raws) fs in
    elim (Bool-cases (leb (length payload) (wire_mtu c - (4 + 1 + 2 + 3 + 4)))) [
      | inl short ↦
          inbound_all-single d g src start (wire_mtu c) c.send_seq raws found ready timely payload
            c.reliable_index (get_or c.order_indices 0 0)
            (subst to (ap (λ m. m.1) (frames-short c (wire_mtu c) payload short)) sent)
      | inr long ↦
          inbound_all-split d g src start (wire_mtu c) c.send_seq raws found ready timely payload
            (wire_mtu c) c.next_split_id c.reliable_index (get_or c.order_indices 0 0) unused some_
            (omega (arith, can.numbers_fit))
            (subst to (ap (λ m. m.1) (frames-long c (wire_mtu c) payload long)) sent)
    ]
