-- ===== src/Server/Main/Outsiders.antt =====
-- A payload of a client that is not in the world yet, in crates/server/src/main.rs.
use rust_mine.Base.{
  ℕ, if◌then◌else◌, Bool, true, false, Bool-cases, ◌≡◌, refl, sym, ap, ◌∙◌, inl, inr, List, [], ◌∷◌,
  map, Option, none, some, arith,
}
use rust_mine.Base.Assoc.{lookup, insert}
use rust_mine.Base.Result.{ok}
use rust_mine.Protocol.Batch.{decode_batch}
use rust_mine.Raknet.Packet.{SocketAddr}
use rust_mine.Raknet.Server.{addr_eq}
use rust_mine.Server.Session.{
  SessionState, wait_settings, wait_login, wait_resource_packs, spawned, closed, Session, Outbound,
  send_settings, log_in, spawn, protocol_mismatch, and_then, packet_in_state, on_packet, on_packets,
}
use rust_mine.Server.Session.Steps.{Step, ask, accept, refuse, enter, stay}
use rust_mine.Server.Session.Invariant.{Trace, done, skip, next, on_packets-Trace}
use rust_mine.Server.Main.{
  ServerState, TaskOps, and_send, is_spawned, apply_events, send_responses, answer, after_packets,
  with_session, feed_session, feed_batch, handle_payload,
}

-- A session that is not spawned after a packet has no interaction more, and gets no chunks.
abbrev IsQuiet : Session → Session → Bool → Type 0
IsQuiet s t chunks =
    is_spawned t.state ≡ false
    → (t.pending_interactions ≡ s.pending_interactions) × (chunks ≡ false)

abbrev Quietly : Session → Option (Session × Bool) → Type 0
Quietly s none = Unit
Quietly s (some (t, chunks)) = IsQuiet s t chunks

if-IsQuiet :
    (b : Bool) (s t : Session)
    → t.pending_interactions ≡ s.pending_interactions
    → IsQuiet s (if b then t else s) false
if-IsQuiet true s t e h = (e, refl)
if-IsQuiet false s t e h = (refl, refl)

log_in_keeps_interactions :
    (body : List ℕ) (s : Session) → (log_in body s).pending_interactions ≡ s.pending_interactions
unfolding log_in
log_in_keeps_interactions body s = elim (Bool-cases (protocol_mismatch body)) [
  | inl e ↦ rw e refl
  | inr e ↦ rw e refl
]

spawn-Quietly :
    (b : Bool) (s : Session) → Quietly s (some (if b then (spawn s, true) else (s, false)))
unfolding spawn
spawn-Quietly true s = λ h. ground arith
spawn-Quietly false s = λ h. (refl, refl)

packet_in_state-Quietly :
    (t : SessionState) (pid : ℕ) (body : List ℕ) (s : Session)
    → is_spawned t ≡ false
    → Quietly s (packet_in_state t pid body s)
unfolding packet_in_state send_settings
packet_in_state-Quietly wait_settings pid body s h = if-IsQuiet _ s (send_settings s) refl
packet_in_state-Quietly wait_login pid body s h =
    if-IsQuiet _ s (log_in body s) (log_in_keeps_interactions body s)
packet_in_state-Quietly wait_resource_packs pid body s h = spawn-Quietly _ s
packet_in_state-Quietly spawned pid body s h = absurd (ground arith)
packet_in_state-Quietly closed pid body s h = λ k. (refl, refl)

-- A spawned session stays spawned.
step-spawned :
    {pid : ℕ} {body : List ℕ} {t u : SessionState}
    → Step pid body t u
    → is_spawned t ≡ true
    → is_spawned u ≡ true
step-spawned (ask e) h = absurd (ground arith)
step-spawned (accept e f) h = absurd (ground arith)
step-spawned (refuse e f) h = absurd (ground arith)
step-spawned (enter e) h = refl
step-spawned stay h = h

Trace-spawned :
    {packets : List (List ℕ)} {s u : Session}
    → Trace packets s u
    → is_spawned s.state ≡ true
    → is_spawned u.state ≡ true
Trace-spawned done h = h
Trace-spawned (skip later) h = Trace-spawned later h
Trace-spawned (next m later) h = Trace-spawned later (step-spawned m.step h)

first_quiet :
    (packets : List (List ℕ)) (s u : Session) (last : Bool) (r : Option (Session × Bool))
    → ((t : Session) (c : Bool)
        → is_spawned t.state ≡ false
        → c ≡ false
        → on_packets packets t c ≡ some (u, last)
        → (u.pending_interactions ≡ t.pending_interactions) × (last ≡ false))
    → is_spawned u.state ≡ false
    → Quietly s r
    → and_then r (λ t c. on_packets packets t c) ≡ some (u, last)
    → (u.pending_interactions ≡ s.pending_interactions) × (last ≡ false)
first_quiet packets s u last none later out quiet e = absurd (cc)
first_quiet packets s u last (some (t, c)) later out quiet e =
    elim (Bool-cases (is_spawned t.state)) [
      | inl p ↦ absurd (let q = Trace-spawned (on_packets-Trace packets t u c last e) p in cc)
      | inr p ↦ let now = quiet p in let rest = later t c p now.1 e in (rest.0 ∙ now.0, rest.1)
    ]

on_packets-IsQuiet :
    (packets : List (List ℕ)) (s u : Session) (c last : Bool)
    → is_spawned u.state ≡ false
    → is_spawned s.state ≡ false
    → c ≡ false
    → on_packets packets s c ≡ some (u, last)
    → (u.pending_interactions ≡ s.pending_interactions) × (last ≡ false)
unfolding on_packets on_packet
on_packets-IsQuiet [] s u c last out h k e =
    (let same : s ≡ u = cc in ap (λ (t : Session). t.pending_interactions) (sym same), cc)
on_packets-IsQuiet ([] ∷ packets) s u c last out h k e =
    on_packets-IsQuiet packets s u c last out h k e
on_packets-IsQuiet ((pid ∷ body) ∷ packets) s u c last out h k e =
    first_quiet packets s u last (on_packet pid body s)
      (λ t d p q e'. on_packets-IsQuiet packets t u d last out p q e') out
      (packet_in_state-Quietly s.state pid body s h) e

-- The session with nothing left to send or to do.
abbrev pub emptied : Session → Session
emptied s = record s { pending_interactions = []; sent = [] }

module _ (f : TaskOps) (src : SocketAddr) (u : Session) (st : ServerState) where
  answer_idle :
      u.pending_interactions ≡ []
      → answer f src u st
        ≡ some (
          record st { sessions = insert src (emptied u) st.sessions },
          send_responses f src (map (λ (out : Outbound). out.packet) u.sent),
        )
  unfolding answer apply_events
  answer_idle e =
      ap
        (λ events.
          and_send
            (apply_events f u.entity_id u.position events
              (record st { sessions = insert src (emptied u) st.sessions }))
            (λ built.
              some (built, send_responses f src (map (λ (out : Outbound). out.packet) u.sent))))
        e

-- A payload of packets that finds its session not spawned and without interactions, and leaves it
-- not spawned, changes nothing but that session, no block and nothing of the game included, and is
-- answered to its own address alone, with what the session had to send.
pub handle_payload-outsider :
    (f : TaskOps) (src : SocketAddr) (payload : List ℕ) (packets : List (List ℕ)) (st : ServerState)
    (s u : Session) (chunks : Bool)
    → decode_batch payload ≡ ok packets
    → lookup src st.sessions ≡ some s
    → on_packets packets s false ≡ some (u, chunks)
    → is_spawned s.state ≡ false
    → is_spawned u.state ≡ false
    → s.pending_interactions ≡ []
    → handle_payload f src payload st
      ≡ some (
        record st { sessions = insert src (emptied u) st.sessions },
        send_responses f src (map (λ (out : Outbound). out.packet) u.sent),
      )
unfolding handle_payload after_packets
handle_payload-outsider f src payload packets st s u chunks decoded found ran before after idle =
    let quiet = on_packets-IsQuiet packets s u false chunks after before refl ran in
    ap (λ r. feed_batch f src r st) decoded
    ∙ ap (λ r. feed_session f src packets r st) found
    ∙ ap (λ r. with_session f src r st) ran
    ∙ ap (λ c. after_packets f src u c st) quiet.1
    ∙ answer_idle f src u st (quiet.0 ∙ idle)
