-- ===== src/Server/Session.antt =====
-- crates/server/src/session.rs: the state of a player's session and its packet handlers. The
-- channel `tx`, `rx` is the list `sent`; `none` is a panic; log lines are left out.
pub mod Extract
pub mod Reading
pub mod Steps
pub mod Invariant
pub mod Handshake
mod Tests
use rust_mine.Base.{
  ℕ, zero, suc, ◌+◌, ◌*◌, ◌^◌, min, max, leb, ltb, ◌==◌, ◌&&◌, not, if◌then◌else◌, Bool, true,
  false, List, [], ◌∷◌, ◌++◌, map, length, take, Option, none, some, unwrap_or,
}
use rust_mine.Base.Int.{ℤ, pos, negsuc, to_bits}
use rust_mine.Base.Bytes.{from_be_bytes}
use rust_mine.Base.Text.{codes, digits, decimal}
use rust_mine.Raknet.Packet.{Reliability, reliable_ordered}
use rust_mine.Protocol.Id
use rust_mine.Protocol.Login
use rust_mine.Protocol.Login.StartGame.{start_game}
use rust_mine.Protocol.Interaction.{
  BreakBlockInfo, PlaceBlockInfo, parse_break_block, parse_place_block,
}
use rust_mine.Server.Session.Extract.{
  Position, default_position, spawn_point, extract_offline_username, parse_move_player,
  decode_varint, extract_chat_message, extract_command,
}

pub data SessionState : Type 0 where
  wait_settings wait_login wait_resource_packs spawned closed : SessionState

pub record Outbound : Type 0 where
  pub packet : List ℕ
  pub reliability : Reliability
  pub order_channel : ℕ

pub data BlockInteractionEvent : Type 0 where
  break : ℤ → ℤ → ℤ → BlockInteractionEvent
  place : ℤ → ℤ → ℤ → Option ℕ → BlockInteractionEvent

pub record Session : Type 0 where
  pub username : List ℕ
  pub entity_id : ℤ
  pub runtime_id : ℕ
  pub state : SessionState
  pub view_distance : ℕ
  pub position : Position
  pub pending_interactions : List BlockInteractionEvent
  pub sent : List Outbound

abbrev pub new_session : ℤ → Session
new_session entity_id = record {
  username = [];
  entity_id = entity_id;
  runtime_id = to_bits (2 ^ 63) entity_id;
  state = wait_settings;
  view_distance = 4;
  position = default_position;
  pending_interactions = [];
  sent = [];
}

abbrev pub outbound : List ℕ → Outbound
outbound packet = record { packet = packet; reliability = reliable_ordered; order_channel = 0 }

abbrev pub send_packet : List ℕ → Session → Session
send_packet packet s = record s { sent = s.sent ++ outbound packet ∷ [] }

abbrev pub send_packets : List (List ℕ) → Session → Session
send_packets packets s = record s { sent = s.sent ++ map outbound packets }

abbrev pub take_interactions : Session → Session × List BlockInteractionEvent
take_interactions s = (record s { pending_interactions = [] }, s.pending_interactions)

abbrev pub collect_responses : Session → Session × List (List ℕ)
collect_responses s = (record s { sent = [] }, map (λ (out : Outbound). out.packet) s.sent)

-- RequestNetworkSettings in WaitSettings.
unfoldable pub send_settings : Session → Session
send_settings s = record (send_packet (Login.network_settings 0) s) { state = wait_login }

-- The protocol number in front of the body, if the body is long enough to hold one.
abbrev pub protocol_mismatch : List ℕ → Bool
protocol_mismatch body =
    leb 4 (length body) && not (from_be_bytes (take 4 body) == Login.supported_protocol_version)

abbrev pub mismatch_text : ℕ → List ℕ
mismatch_text proto =
    codes "Unsupported protocol "
    ++ digits 20 proto
    ++ codes ", expected "
    ++ digits 20 Login.supported_protocol_version

-- The name in the body, or "Player" with the entity id.
abbrev pub login_name : ℤ → List ℕ → List ℕ
login_name entity_id body =
    unwrap_or (extract_offline_username body) (codes "Player" ++ decimal entity_id)

-- Login in WaitLogin.
unfoldable pub log_in : List ℕ → Session → Session
log_in body s =
    if protocol_mismatch body
    then record (send_packet (Login.disconnect (mismatch_text (from_be_bytes (take 4 body)))) s) {
      state = closed;
    }
    else record (send_packets
        (Login.play_status Login.play_status_login_success ∷ Login.resource_packs_info ∷ []) s) {
          username = login_name s.entity_id body;
          state = wait_resource_packs;
        }

-- The packets that bring the client into the world, in order.
abbrev pub spawn_packets : Session → List (List ℕ)
spawn_packets s =
    Login.play_status Login.play_status_spawn
    ∷ Login.resource_pack_stack
    ∷ Login.biome_definition_list
    ∷ start_game s.entity_id s.runtime_id 1 spawn_point (pos 0) (codes "world")
    ∷ Login.set_spawn_position
    ∷ Login.set_time (pos 6000)
    ∷ Login.set_difficulty 1
    ∷ Login.set_player_game_type 1
    ∷ Login.network_chunk_publisher_update (pos 0, pos 70, pos 0) (s.view_distance * 16)
    ∷ Login.player_list_add [] s.username s.entity_id
    ∷ Login.chunk_radius_updated (Login.as_i32 s.view_distance)
    ∷ Login.play_status_player_spawn
    ∷ []

-- ResourcePackClientResponse in WaitResourcePacks.
unfoldable pub spawn : Session → Session
spawn s = record (send_packets (spawn_packets s) s) { position = default_position; state = spawned }

-- `radius.max(2).min(32) as u32`.
abbrev pub clamp_radius : ℤ → ℕ
clamp_radius (pos n) = min (max n 2) 32
clamp_radius (negsuc n) = 2

-- `if let Some(..) = .. { .. }`.
abbrev pub if_let {ℓ} : {A : Type ℓ} → Option A → (A → Session → Session) → Session → Session
if_let none f s = s
if_let (some a) f s = f a s

-- The arms of `handle_spawned_packet`.
unfoldable pub move_player : List ℕ → Session → Session
move_player body =
    if_let (parse_move_player body) λ (to : Position) (s : Session). record s { position = to }

unfoldable pub set_radius : List ℕ → Session → Session
set_radius body =
    if_let (decode_varint body)
      λ (radius : ℤ) (s : Session). record s { view_distance = clamp_radius radius }

unfoldable pub request_radius : List ℕ → Session → Session
unfolding set_radius
request_radius body s =
    let s' = set_radius body s in
    send_packet (Login.chunk_radius_updated (Login.as_i32 s'.view_distance)) s'

abbrev pub interact : BlockInteractionEvent → Session → Session
interact e s = record s { pending_interactions = s.pending_interactions ++ e ∷ [] }

unfoldable pub break_block : List ℕ → Session → Session
break_block body =
    if_let (parse_break_block body) λ (info : BreakBlockInfo). interact (break info.x info.y info.z)

unfoldable pub place_block : List ℕ → Session → Session
place_block body =
    if_let (parse_place_block body)
      λ (info : PlaceBlockInfo). interact (place info.x info.y info.z info.runtime_id)

unfoldable pub respawn : Session → Session
respawn s =
    record (send_packets
      (start_game s.entity_id s.runtime_id 1 spawn_point (pos 0) (codes "world")
        ∷ Login.set_time (pos 6000)
        ∷ [])
      s) { position = default_position }

-- A text that is only logged; reading it may panic.
abbrev pub after_text : Option (Option (List ℕ)) → Session → Option (Session × Bool)
after_text none s = none
after_text (some text) s = some (s, false)

-- The packets of the other ids change nothing.
unfoldable pub handle_spawned_packet : ℕ → List ℕ → Session → Option (Session × Bool)
unfolding move_player request_radius break_block place_block respawn
handle_spawned_packet pid body s =
    if pid == Id.move_player
    then some (move_player body s, false)
    else if pid == Id.request_chunk_radius
    then some (request_radius body s, false)
    else if pid == Id.chat_message
    then after_text (extract_chat_message body) s
    else if pid == Id.break_block
    then some (break_block body s, false)
    else if pid == Id.place_block
    then some (place_block body s, false)
    else if pid == Id.respawn
    then some (respawn s, true)
    else if pid == Id.command_request
    then after_text (extract_command body) s
    else some (s, false)

-- The `match` on the state.
unfoldable pub packet_in_state : SessionState → ℕ → List ℕ → Session → Option (Session × Bool)
unfolding send_settings log_in spawn handle_spawned_packet
packet_in_state wait_settings pid body s =
    some (if pid == Id.request_network_settings then send_settings s else s, false)
packet_in_state wait_login pid body s = some (if pid == Id.login then log_in body s else s, false)
packet_in_state wait_resource_packs pid body s =
    some (if pid == Id.resource_pack_client_response then (spawn s, true) else (s, false))
packet_in_state spawned pid body s = handle_spawned_packet pid body s
packet_in_state closed pid body s = some (s, false)

unfoldable pub on_packet : ℕ → List ℕ → Session → Option (Session × Bool)
unfolding packet_in_state
on_packet pid body s = packet_in_state s.state pid body s

-- The session and the flag behind a packet that did not panic.
abbrev pub and_then :
    Option (Session × Bool) → (Session → Bool → Option (Session × Bool)) → Option (Session × Bool)
and_then none f = none
and_then (some (s, chunks)) f = f s chunks

-- The loop of crates/server/src/main.rs over the packets of a batch: the first byte is the id, and
-- an empty packet is passed over. The flag is that of the last packet, `chunks` if there is none.
unfoldable pub on_packets : List (List ℕ) → Session → Bool → Option (Session × Bool)
unfolding on_packet
on_packets [] s chunks = some (s, chunks)
on_packets ([] ∷ packets) s chunks = on_packets packets s chunks
on_packets ((pid ∷ body) ∷ packets) s chunks =
    and_then (on_packet pid body s) (λ s' chunks'. on_packets packets s' chunks')
