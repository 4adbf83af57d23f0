-- ===== src/Server/Session/Invariant.antt =====
-- What holds of a session of crates/server/src/session.rs after any packets.
use rust_mine.Base.{
  ℕ, ◌^◌, ◌≡◌, refl, sym, ◌∙◌, ◌⊎◌, inl, inr, Bool, false, List, [], ◌∷◌, Option, none, some, arith,
}
use rust_mine.Base.Int.{ℤ, to_bits}
use rust_mine.Protocol.Id
use rust_mine.Server.Session.{
  SessionState, wait_settings, wait_login, wait_resource_packs, spawned, closed, Session,
  new_session, protocol_mismatch, and_then, on_packet, on_packets,
}
use rust_mine.Server.Session.Steps.{
  Step, ask, accept, refuse, enter, stay, Moves, InRadius, on_packet-Moves,
}

pub record IsSession (entity_id : ℤ) (s : Session) : Type 0 where
  pub entity : s.entity_id ≡ entity_id
  pub runtime : s.runtime_id ≡ to_bits (2 ^ 63) entity_id
  pub radius : InRadius s

-- The packets move a session to another, one by one.
pub data Trace : List (List ℕ) → Session → Session → Type 0 where
  done : {s : Session} → Trace [] s s
  skip : {packets : List (List ℕ)} {s u : Session} → Trace packets s u → Trace ([] ∷ packets) s u
  next :
      {pid : ℕ} {body : List ℕ} {packets : List (List ℕ)} {s t u : Session}
      → Moves s.state pid body s t
      → Trace packets t u
      → Trace ((pid ∷ body) ∷ packets) s u

first_then :
    (pid : ℕ) (body : List ℕ) (packets : List (List ℕ)) (s u : Session) (last : Bool)
    → ((t : Session) (c : Bool) → on_packets packets t c ≡ some (u, last) → Trace packets t u)
    → (r : Option (Session × Bool))
    → ((t : Session) (c : Bool) → r ≡ some (t, c) → Moves s.state pid body s t)
    → and_then r (λ t c. on_packets packets t c) ≡ some (u, last)
    → Trace ((pid ∷ body) ∷ packets) s u
first_then pid body packets s u last later none moved e = absurd (cc)
first_then pid body packets s u last later (some (t, c)) moved e =
    next (moved t c refl) (later t c e)

pub on_packets-Trace :
    (packets : List (List ℕ)) (s u : Session) (c last : Bool)
    → on_packets packets s c ≡ some (u, last)
    → Trace packets s u
unfolding on_packets
on_packets-Trace [] s u c last e =
    let same : s ≡ u = cc in let nothing : Trace [] s s = done in rw (sym same) nothing
on_packets-Trace ([] ∷ packets) s u c last e = skip (on_packets-Trace packets s u c last e)
on_packets-Trace ((pid ∷ body) ∷ packets) s u c last e =
    first_then pid body packets s u last (λ t d. on_packets-Trace packets t u d last)
      (on_packet pid body s) (λ t d m. on_packet-Moves pid body s t d m) e

pub Trace-IsSession :
    {entity_id : ℤ} {packets : List (List ℕ)} {s u : Session}
    → Trace packets s u
    → IsSession entity_id s
    → IsSession entity_id u
Trace-IsSession done h = h
Trace-IsSession (skip later) h = Trace-IsSession later h
Trace-IsSession (next m later) h = Trace-IsSession later (record {
  entity = m.entity ∙ h.entity;
  runtime = m.runtime ∙ h.runtime;
  radius = m.radius h.radius;
})

-- After any packets a session that was new has its entity id and the runtime id made of it, and a
-- view distance from 2 to 32, unless it has panicked.
pub on_packets-IsSession :
    (entity_id : ℤ) (packets : List (List ℕ)) (s : Session) (chunks : Bool)
    → on_packets packets (new_session entity_id) false ≡ some (s, chunks)
    → IsSession entity_id s
on_packets-IsSession entity_id packets s chunks e =
    Trace-IsSession (on_packets-Trace packets (new_session entity_id) s false chunks e)
      (record { entity = refl; runtime = refl; radius = (omega arith, omega arith) })

-- What a packet is to be for a step of the handshake.
abbrev pub IsSettingsRequest : List ℕ → Type 0
IsSettingsRequest [] = ⊥
IsSettingsRequest (pid ∷ body) = pid ≡ Id.request_network_settings

abbrev pub IsLogin : List ℕ → Type 0
IsLogin [] = ⊥
IsLogin (pid ∷ body) = (pid ≡ Id.login) × (protocol_mismatch body ≡ false)

abbrev pub IsPacksResponse : List ℕ → Type 0
IsPacksResponse [] = ⊥
IsPacksResponse (pid ∷ body) = pid ≡ Id.resource_pack_client_response

-- Packets of these kinds are among the packets, in this order.
abbrev pub Heard : List (List ℕ → Type 0) → List (List ℕ) → Type 0
Heard [] packets = Unit
Heard (kind ∷ kinds) [] = ⊥
Heard (kind ∷ kinds) (p ∷ packets) = (kind p × Heard kinds packets) ⊎ Heard (kind ∷ kinds) packets

-- What is still to come from a state on before the client is spawned.
abbrev Missing : SessionState → List (List ℕ) → Type 0
Missing wait_settings = Heard (IsSettingsRequest ∷ IsLogin ∷ IsPacksResponse ∷ [])
Missing wait_login = Heard (IsLogin ∷ IsPacksResponse ∷ [])
Missing wait_resource_packs = Heard (IsPacksResponse ∷ [])
Missing spawned = Heard []
Missing closed = λ packets. ⊥

Missing-later :
    (t : SessionState) (p : List ℕ) (packets : List (List ℕ))
    → Missing t packets
    → Missing t (p ∷ packets)
Missing-later wait_settings p packets h = inr h
Missing-later wait_login p packets h = inr h
Missing-later wait_resource_packs p packets h = inr h
Missing-later spawned p packets h = tt
Missing-later closed p packets h = h

Missing-Step :
    {pid : ℕ} {body : List ℕ} {t u : SessionState}
    → Step pid body t u
    → (packets : List (List ℕ)) → Missing u packets
    → Missing t ((pid ∷ body) ∷ packets)
Missing-Step (ask e) packets h = inl (e, h)
Missing-Step (accept e good) packets h = inl ((e, good), h)
Missing-Step (refuse e bad) packets h = absurd h
Missing-Step (enter e) packets h = inl (e, tt)
Missing-Step {pid} {body} {t} stay packets h = Missing-later t (pid ∷ body) packets h

Missing-Trace :
    {packets : List (List ℕ)} {s u : Session}
    → Trace packets s u
    → u.state ≡ spawned
    → Missing s.state packets
Missing-Trace done e = rw e tt
Missing-Trace {s} (skip later) e = Missing-later s.state [] _ (Missing-Trace later e)
Missing-Trace (next m later) e = Missing-Step m.step _ (Missing-Trace later e)

-- A new session that is spawned after some packets has had among them, in this order, a request
-- for the settings, a login that is not of another protocol number, and an answer about the
-- resource packs.
pub on_packets-Heard :
    (entity_id : ℤ) (packets : List (List ℕ)) (s : Session) (chunks : Bool)
    → on_packets packets (new_session entity_id) false ≡ some (s, chunks)
    → s.state ≡ spawned
    → Heard (IsSettingsRequest ∷ IsLogin ∷ IsPacksResponse ∷ []) packets
on_packets-Heard entity_id packets s chunks e at =
    Missing-Trace (on_packets-Trace packets (new_session entity_id) s false chunks e) at
