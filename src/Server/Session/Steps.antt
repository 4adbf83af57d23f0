-- ===== src/Server/Session/Steps.antt =====
-- The states that a session of crates/server/src/session.rs goes through.
use rust_mine.Base.{
  ℕ, ◌≤◌, if◌then◌else◌, Bool, true, false, Bool-cases, ==_iff, ◌==◌, ◌≡◌, refl, sym, ap, ◌∙◌, inl,
  inr, List, Option, none, some, arith,
}
use rust_mine.Base.Int.{ℤ, pos, negsuc}
use rust_mine.Protocol.Id
use rust_mine.Server.Session.{
  SessionState, wait_settings, wait_login, wait_resource_packs, spawned, closed, Session, if_let,
  clamp_radius, protocol_mismatch, send_settings, log_in, spawn, move_player, set_radius,
  request_radius, break_block, place_block, respawn, after_text, handle_spawned_packet,
  packet_in_state, on_packet,
}
use rust_mine.Server.Session.Extract.{
  parse_move_player, decode_varint, extract_chat_message, extract_command,
}
use rust_mine.Protocol.Interaction.{parse_break_block, parse_place_block}

-- What a packet with an id and a body may do to the state.
pub data Step (pid : ℕ) (body : List ℕ) : SessionState → SessionState → Type 0 where
  ask : pid ≡ Id.request_network_settings → Step pid body wait_settings wait_login
  accept :
      pid ≡ Id.login → protocol_mismatch body ≡ false → Step pid body wait_login wait_resource_packs
  refuse : pid ≡ Id.login → protocol_mismatch body ≡ true → Step pid body wait_login closed
  enter : pid ≡ Id.resource_pack_client_response → Step pid body wait_resource_packs spawned
  stay : {t : SessionState} → Step pid body t t

abbrev pub InRadius : Session → Type 0
InRadius s = (2 ≤ s.view_distance) × (s.view_distance ≤ 32)

-- What every packet leaves: a step of the state, the ids, and a view distance in its range.
pub record Moves (t : SessionState) (pid : ℕ) (body : List ℕ) (s s' : Session) : Type 0 where
  pub step : Step pid body t s'.state
  pub entity : s'.entity_id ≡ s.entity_id
  pub runtime : s'.runtime_id ≡ s.runtime_id
  pub radius : InRadius s → InRadius s'

-- A result, if there is one, is as said.
abbrev pub Ensures : (Session → Type 0) → Option (Session × Bool) → Type 0
Ensures P none = Unit
Ensures P (some (s, chunks)) = P s

pub Ensures-some :
    (P : Session → Type 0) (r : Option (Session × Bool)) (s : Session) (chunks : Bool)
    → Ensures P r
    → r ≡ some (s, chunks)
    → P s
Ensures-some P none s chunks h e = absurd (cc)
Ensures-some P (some (t, c)) s chunks h e = let same : t ≡ s = cc in rw (sym same) h

Ensures-map :
    (P Q : Session → Type 0)
    → ((s : Session) → P s → Q s)
    → (r : Option (Session × Bool)) → Ensures P r
    → Ensures Q r
Ensures-map P Q f none h = tt
Ensures-map P Q f (some (s, chunks)) h = f s h

if-Ensures :
    (P : Session → Type 0) (b : Bool) (x y : Option (Session × Bool))
    → Ensures P x
    → Ensures P y
    → Ensures P (if b then x else y)
if-Ensures P true x y h k = h
if-Ensures P false x y h k = k

-- What leaves the state alone, and with it all but the view distance of what `Moves` is about.
record Keeps (s s' : Session) : Type 0 where
  state : s'.state ≡ s.state
  entity : s'.entity_id ≡ s.entity_id
  runtime : s'.runtime_id ≡ s.runtime_id
  radius : InRadius s → InRadius s'

Keeps-refl : (s : Session) → Keeps s s
Keeps-refl s = record { state = refl; entity = refl; runtime = refl; radius = λ h. h }

Keeps-distance :
    (s s' : Session)
    → (s'.state ≡ s.state) × (s'.entity_id ≡ s.entity_id) × (s'.runtime_id ≡ s.runtime_id)
    → s'.view_distance ≡ s.view_distance
    → Keeps s s'
Keeps-distance s s' same e = record {
  state = same.0;
  entity = same.1;
  runtime = same.2;
  radius = λ h. omega arith;
}

clamp_radius_range : (r : ℤ) → (2 ≤ clamp_radius r) × (clamp_radius r ≤ 32)
clamp_radius_range (pos n) = (omega arith, omega arith)
clamp_radius_range (negsuc n) = (omega arith, omega arith)

if_let-Keeps {ℓ} :
    {A : Type ℓ} (o : Option A) (f : A → Session → Session) (s : Session)
    → ((a : A) → Keeps s (f a s))
    → Keeps s (if_let o f s)
if_let-Keeps none f s h = Keeps-refl s
if_let-Keeps (some a) f s h = h a

move_player-Keeps : (body : List ℕ) (s : Session) → Keeps s (move_player body s)
unfolding move_player
move_player-Keeps body s =
    if_let-Keeps (parse_move_player body) _ s (λ a. Keeps-distance s _ (refl, refl, refl) refl)

set_radius-Keeps : (body : List ℕ) (s : Session) → Keeps s (set_radius body s)
unfolding set_radius
set_radius-Keeps body s = if_let-Keeps (decode_varint body) _ s (λ r. record {
  state = refl;
  entity = refl;
  runtime = refl;
  radius = λ h. clamp_radius_range r;
})

request_radius-Keeps : (body : List ℕ) (s : Session) → Keeps s (request_radius body s)
unfolding request_radius
request_radius-Keeps body s =
    let k = set_radius-Keeps body s in
    record { state = k.state; entity = k.entity; runtime = k.runtime; radius = k.radius }

break_block-Keeps : (body : List ℕ) (s : Session) → Keeps s (break_block body s)
unfolding break_block
break_block-Keeps body s =
    if_let-Keeps (parse_break_block body) _ s (λ a. Keeps-distance s _ (refl, refl, refl) refl)

place_block-Keeps : (body : List ℕ) (s : Session) → Keeps s (place_block body s)
unfolding place_block
place_block-Keeps body s =
    if_let-Keeps (parse_place_block body) _ s (λ a. Keeps-distance s _ (refl, refl, refl) refl)

respawn-Keeps : (s : Session) → Keeps s (respawn s)
unfolding respawn
respawn-Keeps s = Keeps-distance s _ (refl, refl, refl) refl

after_text-Keeps :
    (s : Session) (text : Option (Option (List ℕ))) → Ensures (Keeps s) (after_text text s)
after_text-Keeps s none = tt
after_text-Keeps s (some text) = Keeps-refl s

handle_spawned_packet-Keeps :
    (pid : ℕ) (body : List ℕ) (s : Session) → Ensures (Keeps s) (handle_spawned_packet pid body s)
unfolding handle_spawned_packet
handle_spawned_packet-Keeps pid body s = either Id.move_player _ _ (move_player-Keeps body s) (
    either Id.request_chunk_radius _ _ (request_radius-Keeps body s) (
      either Id.chat_message _ _ (after_text-Keeps s (extract_chat_message body)) (
        either Id.break_block _ _ (break_block-Keeps body s) (
          either Id.place_block _ _ (place_block-Keeps body s) (
            either Id.respawn _ _ (respawn-Keeps s) (
              either Id.command_request _ _ (after_text-Keeps s (extract_command body))
                (Keeps-refl s)))))))
  where
    either :
        (id : ℕ) (x y : Option (Session × Bool))
        → Ensures (Keeps s) x
        → Ensures (Keeps s) y
        → Ensures (Keeps s) (if pid == id then x else y)
    either id x y h k = if-Ensures (Keeps s) (pid == id) x y h k

staying :
    (t : SessionState) (pid : ℕ) (body : List ℕ) (s s' : Session)
    → s.state ≡ t
    → Keeps s s'
    → Moves t pid body s s'
staying t pid body s s' e k =
    let same : s'.state ≡ t = k.state ∙ e in
    let here : Step pid body t t = stay in
    record { step = rw same here; entity = k.entity; runtime = k.runtime; radius = k.radius }

log_in-Moves :
    (pid : ℕ) (body : List ℕ) (s : Session)
    → pid ≡ Id.login
    → Moves wait_login pid body s (log_in body s)
unfolding log_in
log_in-Moves pid body s e = elim (Bool-cases (protocol_mismatch body)) [
  | inl bad ↦
      rw bad (record { step = refuse e bad; entity = refl; runtime = refl; radius = λ h. h })
  | inr good ↦
      rw good (record { step = accept e good; entity = refl; runtime = refl; radius = λ h. h })
]

packet_in_state-Moves :
    (t : SessionState) (pid : ℕ) (body : List ℕ) (s : Session)
    → s.state ≡ t
    → Ensures (Moves t pid body s) (packet_in_state t pid body s)
unfolding packet_in_state
packet_in_state-Moves wait_settings pid body s e =
    elim (Bool-cases (pid == Id.request_network_settings)) [
      | inr other ↦ rw other (staying wait_settings pid body s s e (Keeps-refl s))
      | inl asked ↦ rw asked (
          unfold send_settings in
          record {
            step = ask ((==_iff pid Id.request_network_settings).0 asked);
            entity = refl;
            runtime = refl;
            radius = λ h. h;
          })
    ]
packet_in_state-Moves wait_login pid body s e = elim (Bool-cases (pid == Id.login)) [
  | inr other ↦ rw other (staying wait_login pid body s s e (Keeps-refl s))
  | inl login ↦ rw login (log_in-Moves pid body s ((==_iff pid Id.login).0 login))
]
packet_in_state-Moves wait_resource_packs pid body s e =
    elim (Bool-cases (pid == Id.resource_pack_client_response)) [
      | inr other ↦ rw other (staying wait_resource_packs pid body s s e (Keeps-refl s))
      | inl packs ↦ rw packs (
          unfold spawn in
          record {
            step = enter ((==_iff pid Id.resource_pack_client_response).0 packs);
            entity = refl;
            runtime = refl;
            radius = λ h. h;
          })
    ]
packet_in_state-Moves spawned pid body s e =
    Ensures-map (Keeps s) (Moves spawned pid body s) (λ s' k. staying spawned pid body s s' e k)
      (handle_spawned_packet pid body s) (handle_spawned_packet-Keeps pid body s)
packet_in_state-Moves closed pid body s e = staying closed pid body s s e (Keeps-refl s)

-- What any packet does to a session, if it does not panic.
pub on_packet-Moves :
    (pid : ℕ) (body : List ℕ) (s s' : Session) (chunks : Bool)
    → on_packet pid body s ≡ some (s', chunks)
    → Moves s.state pid body s s'
unfolding on_packet
on_packet-Moves pid body s s' chunks e =
    Ensures-some (Moves s.state pid body s) (packet_in_state s.state pid body s) s' chunks
      (packet_in_state-Moves s.state pid body s refl) e

-- A packet in a state that is known.
pub on_packet-at :
    (t : SessionState) (pid : ℕ) (body : List ℕ) (s : Session) (r : Option (Session × Bool))
    → s.state ≡ t
    → packet_in_state t pid body s ≡ r
    → on_packet pid body s ≡ r
unfolding on_packet
on_packet-at t pid body s r at e = ap (λ (u : SessionState). packet_in_state u pid body s) at ∙ e
