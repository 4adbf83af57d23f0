-- ===== src/Server/Main/Recipients.antt =====
-- Who gets what the server of crates/server/src/main.rs sends.
use rust_mine.Base.{
  ℕ, ◌≡◌, refl, sym, ◌∙◌, ◌⊎◌, inl, inr, Bool, true, false, Bool-cases, List, [], ◌∷◌, map, All,
  All-append, ◌++◌, All-map, Option, none, some,
}
use rust_mine.Base.Int.{ℤ, sar}
use mathlib.Core.Path.{subst}
use mathlib.Core.Option
use rust_mine.Base.Result.{Result, ok, err}
use rust_mine.Base.Assoc.{Assoc, lookup, insert, OnSome}
use rust_mine.Raknet.Packet.{SocketAddr}
use rust_mine.Raknet.Server.{addr_eq}
use rust_mine.Protocol.Batch.{BatchError, decode_batch}
use rust_mine.World.Store.{World, get_chunk, get_block}
use rust_mine.Server.Session.{
  Session, Outbound, SessionState, wait_settings, wait_login, wait_resource_packs, spawned, closed,
  BlockInteractionEvent, break, place, on_packets,
}
use rust_mine.Server.Session.Extract.{Position}
use rust_mine.Game.{GameEvent}
use rust_mine.Server.Main.{
  ServerState, Outgoing, TaskOps, and_send, and_tell, read_sessions, is_spawned, is_air, can_reach,
  block_pos, broadcast, columns_around, send_columns, send_chunks_for_player, break_at, place_at,
  apply_event, apply_events, send_responses, answer, after_packets, with_session, feed_session,
  feed_batch, handle_payload,
}

-- The session of an address is spawned.
abbrev pub SpawnedAt : Assoc SocketAddr Session → SocketAddr → Type 0
SpawnedAt [] addr = ⊥
SpawnedAt ((a, s) ∷ sessions) addr = ((a ≡ addr) × (s.state ≡ spawned)) ⊎ SpawnedAt sessions addr

-- A packet goes to the client that it answers, or to one in the world.
abbrev pub MayGet : SocketAddr → Assoc SocketAddr Session → Outgoing → Type 0
MayGet src sessions o = (o.0 ≡ src) ⊎ SpawnedAt sessions o.0

abbrev pub ToSpawned : Assoc SocketAddr Session → Outgoing → Type 0
ToSpawned sessions o = SpawnedAt sessions o.0

is_spawned-true : (t : SessionState) → is_spawned t ≡ true → t ≡ spawned
is_spawned-true wait_settings e = absurd (cc)
is_spawned-true wait_login e = absurd (cc)
is_spawned-true wait_resource_packs e = absurd (cc)
is_spawned-true spawned e = refl
is_spawned-true closed e = absurd (cc)

broadcast-ToSpawned :
    (packet : List ℕ) (sessions : Assoc SocketAddr Session)
    → All (ToSpawned sessions) (broadcast packet sessions)
unfolding broadcast
broadcast-ToSpawned packet [] = tt
broadcast-ToSpawned packet ((a, s) ∷ sessions) =
    let later : All (ToSpawned ((a, s) ∷ sessions)) (broadcast packet sessions) =
      All-map (λ (o : Outgoing) (h : ToSpawned sessions o). inr h) (broadcast packet sessions)
        (broadcast-ToSpawned packet sessions) in
    elim (Bool-cases (is_spawned s.state)) [
      | inl e ↦ rw e (inl (refl, is_spawned-true s.state e), later)
      | inr e ↦ rw e later
    ]

-- A step that keeps the sessions, and sends to spawned clients only.
pub record Keeps (st : ServerState) (r : ServerState × List Outgoing) : Type 0 where
  pub sessions : r.0.sessions ≡ st.sessions
  pub sent : All (ToSpawned st.sessions) r.1

send_columns-MayGet :
    (src : SocketAddr) (m : Assoc SocketAddr Session) (columns : List (ℤ × ℤ)) (w : World)
    → All (MayGet src m) (send_columns src columns w).1
unfolding send_columns
send_columns-MayGet src m [] w = tt
send_columns-MayGet src m ((cx, cz) ∷ columns) w =
    (inl refl, send_columns-MayGet src m columns (get_chunk w (cx, cz)).0)

-- A part of a task that keeps its sessions, if it goes on.
abbrev pub MayKeep : ServerState → Option (ServerState × List Outgoing) → Type 0
MayKeep st r = OnSome (Keeps st) r

and_send-MayKeep :
    (st : ServerState) (r : Option (ServerState × List Outgoing))
    (more : ServerState → Option (ServerState × List Outgoing))
    → MayKeep st r
    → ((st' : ServerState) → MayKeep st' (more st'))
    → MayKeep st (and_send r more)
and_send-MayKeep st none more h k = tt
and_send-MayKeep st (some (st', sent)) more h k = both (more st') (k st')
  where
    both :
        (o : Option (ServerState × List Outgoing))
        → MayKeep st' o
        → MayKeep st (Option.map (λ (r : ServerState × List Outgoing). (r.0, sent ++ r.1)) o)
    both none l = tt
    both (some (st'', rest)) l = record {
      sessions = l.sessions ∙ h.sessions;
      sent =
          All-append (ToSpawned st.sessions) sent rest h.sent
            (subst (λ m. All (ToSpawned m) rest) h.sessions l.sent);
    }

-- A part of a task that sends as it may, if it goes on.
abbrev Sends : SocketAddr → Option (ServerState × List Outgoing) → Type 0
Sends src r = OnSome (λ (r : ServerState × List Outgoing). All (MayGet src r.0.sessions) r.1) r

Sends-some :
    (src : SocketAddr) (r : Option (ServerState × List Outgoing)) (st : ServerState)
    (sent : List Outgoing)
    → Sends src r
    → r ≡ some (st, sent)
    → All (MayGet src st.sessions) sent
Sends-some src r st sent h e = subst (Sends src) e h

module _ (f : TaskOps) where
  and_tell-MayKeep :
      (st : ServerState) (e : GameEvent) (r : Option (ServerState × List Outgoing))
      → MayKeep st r
      → MayKeep st (and_tell f e r)
  and_tell-MayKeep st e none h = tt
  and_tell-MayKeep st e (some (st', sent)) h = record { sessions = h.sessions; sent = h.sent }

  read_sessions-MayKeep :
      (st st' : ServerState) (sent : List Outgoing)
      → Keeps st (st', sent)
      → MayKeep st (read_sessions f (st', sent))
  read_sessions-MayKeep st st' sent h = elim (Bool-cases f.regrants) [
    | inl e ↦ rw e h
    | inr e ↦ rw e tt
  ]

  break_at-MayKeep : (block : ℤ × ℤ × ℤ) (st : ServerState) → MayKeep st (break_at f block st)
  unfolding break_at
  break_at-MayKeep block st = elim (Bool-cases (is_air (get_block st.world (block_pos f block)))) [
    | inl e ↦ rw e (record { sessions = refl; sent = tt })
    | inr e ↦ rw e (
        read_sessions-MayKeep st _ _
          (record { sessions = refl; sent = broadcast-ToSpawned _ st.sessions }))
  ]

  place_at-MayKeep :
      (block : ℤ × ℤ × ℤ) (rid : ℕ) (st : ServerState) → MayKeep st (place_at f block rid st)
  unfolding place_at
  place_at-MayKeep block rid st =
      read_sessions-MayKeep st _ _
        (record { sessions = refl; sent = broadcast-ToSpawned _ st.sessions })

  apply_event-MayKeep :
      (entity_id : ℤ) (at : Position) (e : BlockInteractionEvent) (st : ServerState)
      → MayKeep st (apply_event f entity_id at e st)
  unfolding apply_event
  apply_event-MayKeep entity_id at (break x y z) st = elim (Bool-cases (can_reach f at (x, y, z))) [
    | inl e ↦ rw e (and_tell-MayKeep st _ _ (break_at-MayKeep (x, y, z) st))
    | inr e ↦ rw e (record { sessions = refl; sent = tt })
  ]
  apply_event-MayKeep entity_id at (place x y z none) st = record { sessions = refl; sent = tt }
  apply_event-MayKeep entity_id at (place x y z (some rid)) st =
      elim (Bool-cases (can_reach f at (x, y, z))) [
        | inl e ↦ rw e (and_tell-MayKeep st _ _ (place_at-MayKeep (x, y, z) rid st))
        | inr e ↦ rw e (record { sessions = refl; sent = tt })
      ]

  pub apply_events-MayKeep :
      (entity_id : ℤ) (at : Position) (events : List BlockInteractionEvent) (st : ServerState)
      → MayKeep st (apply_events f entity_id at events st)
  unfolding apply_events
  apply_events-MayKeep entity_id at [] st = record { sessions = refl; sent = tt }
  apply_events-MayKeep entity_id at (e ∷ events) st =
      and_send-MayKeep st (apply_event f entity_id at e st) _
        (apply_event-MayKeep entity_id at e st) (apply_events-MayKeep entity_id at events)

  send_responses-src :
      (src : SocketAddr) (responses : List (List ℕ)) (m : Assoc SocketAddr Session)
      → All (MayGet src m) (send_responses f src responses)
  send_responses-src src [] m = tt
  send_responses-src src (r ∷ rs) m = (inl refl, tt)

  answer-Sends : (src : SocketAddr) (s : Session) (st : ServerState) → Sends src (answer f src s st)
  unfolding answer
  answer-Sends src s st =
      let s' = record s { pending_interactions = []; sent = [] } in
      let kept = record st { sessions = insert src s' st.sessions } in
      with_responses kept (apply_events f s.entity_id s.position s.pending_interactions kept)
        (apply_events-MayKeep s.entity_id s.position s.pending_interactions kept)
    where
      with_responses :
          (kept : ServerState) (r : Option (ServerState × List Outgoing))
          → MayKeep kept r
          → Sends src (
              and_send r (λ built.
                some (built, send_responses f src (map (λ (out : Outbound). out.packet) s.sent))))
      with_responses kept none k = tt
      with_responses kept (some (built, updates)) k =
          All-append (MayGet src built.sessions) updates _
            (subst (λ m. All (MayGet src m) updates) (sym k.sessions)
              (All-map (λ (o : Outgoing) (h : ToSpawned kept.sessions o). inr h) updates k.sent))
            (send_responses-src src (map (λ (out : Outbound). out.packet) s.sent) built.sessions)

  chunks-MayGet :
      (src : SocketAddr) (x z : ℕ) (st : ServerState) (m : Assoc SocketAddr Session)
      → All (MayGet src m) (send_chunks_for_player f src x z 2 st).1
  unfolding send_chunks_for_player
  chunks-MayGet src x z st m =
      let columns = columns_around (sar (f.float.to_i32 x) 4) (sar (f.float.to_i32 z) 4) 2 in
      send_columns-MayGet src m columns st.world

  and_chunks-Sends :
      (src : SocketAddr) (x z : ℕ) (r : Option (ServerState × List Outgoing))
      → Sends src r
      → Sends src (and_send r (λ built. some (send_chunks_for_player f src x z 2 built)))
  unfolding send_chunks_for_player
  and_chunks-Sends src x z none h = tt
  and_chunks-Sends src x z (some (st, sent)) h =
      All-append (MayGet src st.sessions) sent _ h (chunks-MayGet src x z st st.sessions)

  after_packets-Sends :
      (src : SocketAddr) (s : Session) (chunks : Bool) (st : ServerState)
      → Sends src (after_packets f src s chunks st)
  unfolding after_packets
  after_packets-Sends src s false st = answer-Sends src s st
  after_packets-Sends src s true st =
      and_chunks-Sends src s.position.x s.position.z (answer f src s st) (answer-Sends src s st)

  with_session-Sends :
      (src : SocketAddr) (r : Option (Session × Bool)) (st : ServerState)
      → Sends src (with_session f src r st)
  with_session-Sends src none st = tt
  with_session-Sends src (some (s, chunks)) st = after_packets-Sends src s chunks st

  feed_session-Sends :
      (src : SocketAddr) (packets : List (List ℕ)) (s : Option Session) (st : ServerState)
      → Sends src (feed_session f src packets s st)
  feed_session-Sends src packets none st = tt
  feed_session-Sends src packets (some s) st =
      with_session-Sends src (on_packets packets s false) st

  feed_batch-Sends :
      (src : SocketAddr) (batch : Result BatchError (List (List ℕ))) (st : ServerState)
      → Sends src (feed_batch f src batch st)
  feed_batch-Sends src (err e) st = tt
  feed_batch-Sends src (ok packets) st = feed_session-Sends src packets (lookup src st.sessions) st

-- Whatever payload comes from an address, every packet that the server sends for it goes to that
-- address or to one whose session is spawned, if the task goes on.
pub handle_payload-MayGet :
    (f : TaskOps) (src : SocketAddr) (payload : List ℕ) (st st' : ServerState)
    (sent : List Outgoing)
    → handle_payload f src payload st ≡ some (st', sent)
    → All (MayGet src st'.sessions) sent
unfolding handle_payload
handle_payload-MayGet f src payload st st' sent e =
    Sends-some src _ st' sent (feed_batch-Sends f src (decode_batch payload) st) e
