-- ===== src/Server/Main/Runs.antt =====
-- What the tasks of crates/server/src/main.rs keep true of every session, in whatever order their
-- steps come.
use rust_mine.Base.{
  ℕ, ◌^◌, ◌≡◌, refl, sym, ap, ◌∙◌, Bool, true, false, List, [], All, Option, none, some, unwrap_or,
  arith,
}
use mathlib.Core.Path.{subst}
use rust_mine.Base.Int.{ℤ, to_bits}
use rust_mine.Base.Result.{Result, ok, err}
use rust_mine.Base.Assoc.{lookup, insert, OnSome, lookup-OnSome, insert-All}
use rust_mine.Raknet.Packet.{SocketAddr}
use rust_mine.Raknet.Server.{addr_eq}
use rust_mine.Protocol.Batch.{BatchError, decode_batch}
use rust_mine.World.Store.{WorldGenerator}
use rust_mine.Server.Session.{Session, new_session, on_packets}
use rust_mine.Server.Session.Steps.{InRadius}
use rust_mine.Server.Session.Invariant.{Trace-IsSession, on_packets-Trace}
use rust_mine.Server.Main.{
  ServerState, Outgoing, TaskOps, and_send, new_state, send_chunks_for_player, answer,
  after_packets, with_session, feed_session, feed_batch, handle_payload,
}
use rust_mine.Server.Main.Recipients.{MayKeep, apply_events-MayKeep}
use rust_mine.Server.Main.Tasks.{
  new_connection, game_round, Step, packet, connection, round, Run, here, next,
}

-- A session between two steps: nothing is left to do or to send, its runtime id is that of its
-- entity, and the view distance is in range.
pub record IsResting (s : Session) : Type 0 where
  pub idle : s.pending_interactions ≡ []
  pub flushed : s.sent ≡ []
  pub runtime : s.runtime_id ≡ to_bits (2 ^ 63) s.entity_id
  pub radius : InRadius s

abbrev pub AllResting : ServerState → Type 0
AllResting st = All (λ (entry : SocketAddr × Session). IsResting entry.1) st.sessions

new_session-IsResting : (entity_id : ℤ) → IsResting (new_session entity_id)
new_session-IsResting entity_id = record {
  idle = refl;
  flushed = refl;
  runtime = refl;
  radius = (omega arith, omega arith);
}

or_new-IsResting :
    (o : Option Session) (entity_id : ℤ)
    → OnSome IsResting o
    → IsResting (unwrap_or o (new_session entity_id))
or_new-IsResting none entity_id h = new_session-IsResting entity_id
or_new-IsResting (some s) entity_id h = h

-- A session whose packets have been answered.
answered-IsResting :
    (packets : List (List ℕ)) (s u : Session) (chunks : Bool)
    → on_packets packets s false ≡ some (u, chunks)
    → IsResting s
    → IsResting (record u { pending_interactions = []; sent = [] })
answered-IsResting packets s u chunks ran h =
    let k =
      Trace-IsSession (on_packets-Trace packets s u false chunks ran)
        (record { entity = refl; runtime = h.runtime; radius = h.radius }) in
    record {
      idle = refl;
      flushed = refl;
      runtime = k.runtime ∙ ap (to_bits (2 ^ 63)) (sym k.entity);
      radius = k.radius;
    }

module _ (f : TaskOps) where
  abbrev Leaves : Option (ServerState × List Outgoing) → Type 0
  Leaves = OnSome (λ r. AllResting r.0)

  and_send-Leaves :
      (r : Option (ServerState × List Outgoing)) (more : ServerState → ServerState × List Outgoing)
      → Leaves r
      → ((st : ServerState) → (more st).0.sessions ≡ st.sessions)
      → Leaves (and_send r (λ st. some (more st)))
  and_send-Leaves none more h k = tt
  and_send-Leaves (some (st, sent)) more h k =
      subst (λ m. All (λ (entry : SocketAddr × Session). IsResting entry.1) m) (sym (k st)) h

  kept-Leaves :
      (st : ServerState) (r : Option (ServerState × List Outgoing))
      → AllResting st
      → MayKeep st r
      → Leaves r
  kept-Leaves st none h k = tt
  kept-Leaves st (some r) h k =
      subst (λ m. All (λ (entry : SocketAddr × Session). IsResting entry.1) m) (sym k.sessions) h

  answer-Leaves :
      (src : SocketAddr) (u : Session) (st : ServerState)
      → IsResting (record u { pending_interactions = []; sent = [] })
      → AllResting st
      → Leaves (answer f src u st)
  unfolding answer
  answer-Leaves src u st h k =
      let u' = record u { pending_interactions = []; sent = [] } in
      let kept = record st { sessions = insert src u' st.sessions } in
      and_send-Leaves _ _
        (kept-Leaves kept _ (insert-All IsResting src u' st.sessions h k)
          (apply_events-MayKeep f u.entity_id u.position u.pending_interactions kept))
        (λ built. refl)

  after_packets-Leaves :
      (src : SocketAddr) (u : Session) (chunks : Bool) (st : ServerState)
      → IsResting (record u { pending_interactions = []; sent = [] })
      → AllResting st
      → Leaves (after_packets f src u chunks st)
  unfolding after_packets send_chunks_for_player
  after_packets-Leaves src u false st h k = answer-Leaves src u st h k
  after_packets-Leaves src u true st h k =
      and_send-Leaves _ _ (answer-Leaves src u st h k) (λ built. refl)

  with_session-Leaves :
      (src : SocketAddr) (packets : List (List ℕ)) (s : Session) (st : ServerState)
      (r : Option (Session × Bool))
      → on_packets packets s false ≡ r
      → IsResting s
      → AllResting st
      → Leaves (with_session f src r st)
  with_session-Leaves src packets s st none ran h k = tt
  with_session-Leaves src packets s st (some (u, chunks)) ran h k =
      after_packets-Leaves src u chunks st (answered-IsResting packets s u chunks ran h) k

  feed_session-Leaves :
      (src : SocketAddr) (packets : List (List ℕ)) (o : Option Session) (st : ServerState)
      → OnSome IsResting o
      → AllResting st
      → Leaves (feed_session f src packets o st)
  feed_session-Leaves src packets none st h k = k
  feed_session-Leaves src packets (some s) st h k =
      with_session-Leaves src packets s st (on_packets packets s false) refl h k

  feed_batch-Leaves :
      (src : SocketAddr) (batch : Result BatchError (List (List ℕ))) (st : ServerState)
      → AllResting st
      → Leaves (feed_batch f src batch st)
  feed_batch-Leaves src (err e) st k = k
  feed_batch-Leaves src (ok packets) st k =
      feed_session-Leaves src packets (lookup src st.sessions) st
        (lookup-OnSome IsResting src st.sessions k) k

  Step-AllResting : {st st' : ServerState} → Step f st st' → AllResting st → AllResting st'
  unfolding handle_payload new_connection game_round
  Step-AllResting {st} {st'} (packet src payload sent e) k =
      subst Leaves e (feed_batch-Leaves src (decode_batch payload) st k)
  Step-AllResting {st} {st'} (connection addr e) k = rw e (
      insert-All IsResting addr _ st.sessions
        (or_new-IsResting (lookup addr st.sessions) _ (lookup-OnSome IsResting addr st.sessions k))
        k)
  Step-AllResting {st} {st'} (round e) k = rw e k

Run-kept : (f : TaskOps) (st st' : ServerState) → Run f st st' → AllResting st → AllResting st'
Run-kept f st st' here k = k
Run-kept f st st' (next {u} r s) k = Step-AllResting f s (Run-kept f st u r k)

-- After any run of the three tasks from the start, in whatever order payloads, connections and
-- ticks come, every session has nothing left to do or to send, the runtime id of its entity, and a
-- view distance from 2 to 32.
pub Run-AllResting :
    (f : TaskOps) (name : List ℕ) (seed : ℤ) (generator : WorldGenerator) (st : ServerState)
    → Run f (new_state name seed generator) st
    → AllResting st
Run-AllResting f name seed generator st r = Run-kept f (new_state name seed generator) st r tt
