-- ===== src/Server/Main/Locks.antt =====
-- The sessions' lock of crates/server/src/main.rs, asked for again while it is held.
use rust_mine.Base.{
  ℕ, ◌≡◌, refl, ap, ◌∙◌, true, false, List, [], ◌∷◌, ◌++◌, Bool, Option, none, some,
}
use rust_mine.Base.Int.{ℤ}
use rust_mine.Base.Assoc.{lookup, insert}
use rust_mine.Base.Result.{ok}
use rust_mine.Protocol.Batch.{decode_batch}
use rust_mine.Raknet.Packet.{SocketAddr}
use rust_mine.Raknet.Server.{addr_eq}
use rust_mine.Server.Session.{Session, BlockInteractionEvent, place, on_packets}
use rust_mine.Server.Session.Extract.{Position}
use rust_mine.Server.Main.{
  ServerState, Outgoing, TaskOps, and_send, can_reach, place_at, apply_event, apply_events, answer,
  after_packets, feed_session, feed_batch, with_session, handle_payload,
}
use rust_mine.Server.Main.Outsiders.{emptied}

-- What comes before a wait for ever does not end it.
and_send-none :
    (r : Option (ServerState × List Outgoing))
    (more : ServerState → Option (ServerState × List Outgoing))
    → ((st : ServerState) → more st ≡ none)
    → and_send r more ≡ none
and_send-none none more h = refl
and_send-none (some (st, sent)) more h = rw (h st) refl

module _ (f : TaskOps) (waits : f.regrants ≡ false) where
  place-waits :
      (entity_id : ℤ) (at : Position) (x y z : ℤ) (rid : ℕ) (st : ServerState)
      → can_reach f at (x, y, z) ≡ true
      → apply_event f entity_id at (place x y z (some rid)) st ≡ none
  unfolding apply_event place_at
  place-waits entity_id at x y z rid st near = rw (near, waits) refl

  events-wait :
      (entity_id : ℤ) (at : Position) (earlier later : List BlockInteractionEvent) (x y z : ℤ)
      (rid : ℕ) (st : ServerState)
      → can_reach f at (x, y, z) ≡ true
      → apply_events f entity_id at (earlier ++ place x y z (some rid) ∷ later) st ≡ none
  unfolding apply_events
  events-wait entity_id at [] later x y z rid st near =
      ap (λ r. and_send r (λ st'. apply_events f entity_id at later st'))
        (place-waits entity_id at x y z rid st near)
  events-wait entity_id at (e ∷ earlier) later x y z rid st near =
      and_send-none (apply_event f entity_id at e st) _
        (λ st'. events-wait entity_id at earlier later x y z rid st' near)

  answer-waits :
      (src : SocketAddr) (u : Session) (earlier later : List BlockInteractionEvent) (x y z : ℤ)
      (rid : ℕ) (st : ServerState)
      → u.pending_interactions ≡ earlier ++ place x y z (some rid) ∷ later
      → can_reach f u.position (x, y, z) ≡ true
      → answer f src u st ≡ none
  unfolding answer
  answer-waits src u earlier later x y z rid st due near =
      let kept = record st { sessions = insert src (emptied u) st.sessions } in
      let held =
        ap (λ events. apply_events f u.entity_id u.position events kept) due
        ∙ events-wait u.entity_id u.position earlier later x y z rid kept near in
      rw held refl

  after_packets-waits :
      (src : SocketAddr) (u : Session) (chunks : Bool) (st : ServerState)
      → answer f src u st ≡ none
      → after_packets f src u chunks st ≡ none
  unfolding after_packets
  after_packets-waits src u false st h = h
  after_packets-waits src u true st h = rw h refl

-- Where the lock of the sessions is not granted for reading to the task that holds it for writing,
-- the packet task never gets past a payload after whose packets, which do not panic, the session
-- has a placement with a runtime id within reach to carry out, whatever other interactions come
-- before and behind it.
pub handle_payload-place_waits :
    (f : TaskOps) (src : SocketAddr) (payload : List ℕ) (packets : List (List ℕ)) (st : ServerState)
    (s u : Session) (chunks : Bool) (earlier later : List BlockInteractionEvent) (x y z : ℤ)
    (rid : ℕ)
    → f.regrants ≡ false
    → decode_batch payload ≡ ok packets
    → lookup src st.sessions ≡ some s
    → on_packets packets s false ≡ some (u, chunks)
    → u.pending_interactions ≡ earlier ++ place x y z (some rid) ∷ later
    → can_reach f u.position (x, y, z) ≡ true
    → handle_payload f src payload st ≡ none
unfolding handle_payload
handle_payload-place_waits f src payload packets st s u chunks earlier later x y z rid waits decoded
      found ran due near =
    ap (λ r. feed_batch f src r st) decoded
    ∙ ap (λ r. feed_session f src packets r st) found
    ∙ ap (λ r. with_session f src r st) ran
    ∙ after_packets-waits f waits src u chunks st
        (answer-waits f waits src u earlier later x y z rid st due near)
