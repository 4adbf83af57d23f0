-- ===== src/Server/Session/Handshake.antt =====
-- The handshake of crates/server/src/session.rs, carried through.
use rust_mine.Base.{
  ℕ, ◌≡◌, ◌≢◌, refl, ap, ◌∙◌, ◌^◌, Bool, true, false, eq_false, List, [], ◌∷◌, ◌++◌, map, All, some,
  arith,
}
use rust_mine.Base.Int.{ℤ, pos, to_bits}
use rust_mine.Base.Text.{codes}
use rust_mine.Protocol.Id
use rust_mine.Protocol.Login
use rust_mine.Protocol.Login.StartGame.{start_game}
use rust_mine.Server.Session.{
  SessionState, wait_settings, wait_login, wait_resource_packs, spawned, closed, Session,
  new_session, outbound, send_packets, protocol_mismatch, login_name, send_settings, log_in, spawn,
  packet_in_state, and_then, on_packet, on_packets,
}
use rust_mine.Server.Session.Steps.{on_packet-at}

-- The id that a state waits for.
abbrev Awaits : SessionState → ℕ → Type 0
Awaits wait_settings id = id ≡ Id.request_network_settings
Awaits wait_login id = id ≡ Id.login
Awaits wait_resource_packs id = id ≡ Id.resource_pack_client_response
Awaits spawned id = ⊥
Awaits closed id = ⊥

abbrev IsOther : ℕ → List ℕ → Type 0
IsOther id [] = Unit
IsOther id (pid ∷ body) = pid ≢ id

-- Packets of this id are not among them.
abbrev pub Lacks : ℕ → List (List ℕ) → Type 0
Lacks id = All (IsOther id)

packet_in_state-ignored :
    (t : SessionState) (id pid : ℕ) (body : List ℕ) (s : Session)
    → Awaits t id
    → pid ≢ id
    → packet_in_state t pid body s ≡ some (s, false)
unfolding packet_in_state
packet_in_state-ignored wait_settings id pid body s a h =
    rw (eq_false pid Id.request_network_settings (λ e. h (omega arith)))
packet_in_state-ignored wait_login id pid body s a h =
    rw (eq_false pid Id.login (λ e. h (omega arith)))
packet_in_state-ignored wait_resource_packs id pid body s a h =
    rw (eq_false pid Id.resource_pack_client_response (λ e. h (omega arith)))
packet_in_state-ignored spawned id pid body s a h = absurd a
packet_in_state-ignored closed id pid body s a h = absurd a

on_packets-first :
    (pid : ℕ) (body : List ℕ) (packets : List (List ℕ)) (s s' : Session) (c c' : Bool)
    → on_packet pid body s ≡ some (s', c')
    → on_packets ((pid ∷ body) ∷ packets) s c ≡ on_packets packets s' c'
unfolding on_packets
on_packets-first pid body packets s s' c c' e =
    ap (λ r. and_then r (λ t d. on_packets packets t d)) e

-- Packets that the state does not wait for, and then the one that it does.
awaited :
    (t : SessionState) (id : ℕ) (ps : List (List ℕ)) (body : List ℕ) (rest : List (List ℕ))
    (s s' : Session) (c c' : Bool)
    → s.state ≡ t
    → Awaits t id
    → Lacks id ps
    → packet_in_state t id body s ≡ some (s', c')
    → on_packets (ps ++ (id ∷ body) ∷ rest) s c ≡ on_packets rest s' c'
unfolding on_packets
awaited t id [] body rest s s' c c' at a h e =
    on_packets-first id body rest s s' c c' (on_packet-at t id body s _ at e)
awaited t id ([] ∷ ps) body rest s s' c c' at a h e = awaited t id ps body rest s s' c c' at a h.1 e
awaited t id ((pid ∷ other) ∷ ps) body rest s s' c c' at a h e =
    on_packets-first pid other (ps ++ (id ∷ body) ∷ rest) s s c false
      (on_packet-at t pid other s _ at (packet_in_state-ignored t id pid other s a h.0))
    ∙ awaited t id ps body rest s s' false c' at a h.1 e

-- The packets that a client gets until it is in the world.
abbrev pub handshake_packets : ℤ → List ℕ → List (List ℕ)
handshake_packets entity_id name =
    Login.network_settings 0
    ∷ Login.play_status (pos 0)
    ∷ Login.resource_packs_info
    ∷ Login.play_status (pos 3)
    ∷ Login.resource_pack_stack
    ∷ Login.biome_definition_list
    ∷ start_game entity_id (to_bits (2 ^ 63) entity_id) 1 (0, 0x428c0000, 0) (pos 0) (codes "world")
    ∷ Login.set_spawn_position
    ∷ Login.set_time (pos 6000)
    ∷ Login.set_difficulty 1
    ∷ Login.set_player_game_type 1
    ∷ Login.network_chunk_publisher_update (pos 0, pos 70, pos 0) 64
    ∷ Login.player_list_add [] (login_name entity_id name) entity_id
    ∷ Login.chunk_radius_updated (pos 4)
    ∷ Login.play_status_player_spawn
    ∷ []

-- The session after a login that is accepted.
abbrev logged_in : ℤ → List ℕ → Session
logged_in entity_id name =
    record (send_packets
      (Login.play_status Login.play_status_login_success ∷ Login.resource_packs_info ∷ [])
      (send_settings (new_session entity_id))) {
        username = login_name entity_id name;
        state = wait_resource_packs;
      }

-- A new client that asks for the settings, then logs in with the supported protocol number or a
-- body too short for one, then answers the resource packs, whatever other packets come before each
-- of these, ends up spawned under its login name, with the flag to send chunks, and has been sent
-- exactly the packets of the handshake, in order.
pub on_packets-spawned :
    (entity_id : ℤ) (asked name packs : List ℕ)
    (before_ask before_login before_packs : List (List ℕ))
    → Lacks Id.request_network_settings before_ask
    → Lacks Id.login before_login
    → Lacks Id.resource_pack_client_response before_packs
    → protocol_mismatch name ≡ false
    → (s : Session) × (on_packets
          (before_ask
            ++ (Id.request_network_settings ∷ asked)
              ∷ (before_login
                  ++ (Id.login ∷ name)
                    ∷ (before_packs ++ (Id.resource_pack_client_response ∷ packs) ∷ [])))
          (new_session entity_id)
          false
        ≡ some (s, true))
      × (s.state ≡ spawned)
      × (s.username ≡ login_name entity_id name)
      × (s.sent ≡ map outbound (handshake_packets entity_id name))
unfolding send_settings log_in spawn packet_in_state on_packets
on_packets-spawned entity_id asked name packs before_ask before_login before_packs early between
      late current =
    let s = spawn (logged_in entity_id name) in
    (
      s,
      awaited wait_settings Id.request_network_settings before_ask asked _ (new_session entity_id)
            (send_settings (new_session entity_id)) false false refl refl early refl
          ∙ awaited wait_login Id.login before_login name _ (send_settings (new_session entity_id))
              (logged_in entity_id name) false false refl refl between (rw current refl)
          ∙ awaited wait_resource_packs Id.resource_pack_client_response before_packs packs []
              (logged_in entity_id name) s false true refl refl late refl,
      refl,
      refl,
      refl,
    )
