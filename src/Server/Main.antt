-- ===== src/Server/Main.antt =====
-- crates/server/src/main.rs: the state of the server, and what its tasks do with a payload, a new
-- connection and a tick. A packet to an address stands for a message on the outgoing channel,
-- which is always ReliableOrdered on channel 0. A lock that waits for another task only is taken to
-- be granted; whether the sessions can be read by the task that holds them for writing is left to
-- tokio. What is logged is left out.
pub mod Recipients
pub mod Outsiders
pub mod Tasks
pub mod Runs
pub mod Locks
mod Tests
use rust_mine.Base.{
  ℕ, zero, suc, ◌+◌, ◌*◌, ◌%◌, ◌^◌, if◌then◌else◌, Bool, true, false, List, [], ◌∷◌, ◌++◌, map,
  length, Option, none, some, unwrap_or,
}
use mathlib.Core.Option
use rust_mine.Base.Int.{ℤ, pos, negsuc, sar, sub_ℕ, ◌+ℤ◌}
use rust_mine.Base.Text.{codes, decimal}
use rust_mine.Base.Result.{Result, ok, err}
use rust_mine.Base.Assoc.{Assoc, lookup, insert, remove}
use rust_mine.Raknet.Packet.{SocketAddr}
use rust_mine.Raknet.Server.{addr_eq}
use rust_mine.Protocol.Batch.{BatchError, encode_batch, decode_batch}
use rust_mine.Protocol.Chunk
use rust_mine.Protocol.Chunk.{encode_chunk_column}
use rust_mine.Protocol.Login
use rust_mine.Protocol.Interaction.{encode_update_block}
use rust_mine.Protocol.Interaction.Reach.{FloatOps, within_reach}
use rust_mine.World
use rust_mine.World.{BlockState, air, from_runtime_id}
use rust_mine.World.Store.{
  World, WorldError, WorldGenerator, BlockPos, new_world, get_chunk, get_block, set_block,
}
use rust_mine.Game.{
  GameState, GameEvent, GameOutput, new_game, add_player, tick, player_join, block_break,
  block_place, player_spawned, player_despawned, chunk_data, block_update, time_update,
  chat_message,
}
use rust_mine.Server.Session.{
  Session, SessionState, spawned, BlockInteractionEvent, break, place, new_session,
  take_interactions, collect_responses, on_packets,
}
use rust_mine.Server.Session.Extract.{Position}

pub record ServerState : Type 0 where
  pub sessions : Assoc SocketAddr Session
  pub world : World
  pub game : GameState
  pub tick_count : ℕ

-- `ServerState::new`; the generator is chosen by the configuration.
abbrev pub new_state : List ℕ → ℤ → WorldGenerator → ServerState
new_state world_name seed generator = record {
  sessions = [];
  world = new_world world_name seed generator;
  game = new_game;
  tick_count = 0;
}

abbrev pub add_session : SocketAddr → ℤ → ServerState → ServerState
add_session addr entity_id st = record st {
  sessions = insert addr (new_session entity_id) st.sessions;
}

abbrev pub remove_session : SocketAddr → ServerState → ServerState
remove_session addr st = record st { sessions = remove addr st.sessions }

-- A packet and where it goes.
abbrev pub Outgoing : Type 0
Outgoing = SocketAddr × List ℕ

abbrev pub is_spawned : SessionState → Bool
is_spawned spawned = true
is_spawned _ = false

-- `for (addr, session) in sessions.iter() { if .. Spawned { send } }`.
unfoldable pub broadcast : List ℕ → Assoc SocketAddr Session → List Outgoing
broadcast packet [] = []
broadcast packet ((addr, s) ∷ sessions) =
    let rest = broadcast packet sessions in
    if is_spawned s.state then (addr, packet) ∷ rest else rest

-- `ServerState::process_game_output`; the other outputs are logged.
unfoldable pub process_game_output : GameOutput → ServerState → List Outgoing
unfolding broadcast
process_game_output (chunk_data x z bytes) st = broadcast bytes st.sessions
process_game_output (time_update time) st =
    broadcast (Login.set_time (Login.as_i32 time)) st.sessions
process_game_output (block_update x y z id) st = []
process_game_output (chat_message sender message) st = []
process_game_output (player_spawned id username) st = []
process_game_output (player_despawned id) st = []

-- The subchunks of the world as those of the protocol.
abbrev pub to_network : World.SubChunk → Chunk.SubChunk
to_network s = record { palette = s.palette; blocks = s.blocks }

-- The loops of `send_chunks_for_player`, over the columns in order.
unfoldable pub send_columns : SocketAddr → List (ℤ × ℤ) → World → World × List Outgoing
send_columns addr [] w = (w, [])
send_columns addr ((cx, cz) ∷ columns) w =
    let (w', chunk) = get_chunk w (cx, cz) in
    let (w'', rest) = send_columns addr columns w' in
    (w'', (addr, encode_chunk_column cx cz (map to_network chunk.subchunks) false) ∷ rest)

-- `a..=b` from `start` on, and the pairs with it.
abbrev pub run_from : ℤ → ℕ → List ℤ
run_from start zero = []
run_from start (suc n) = start ∷ run_from (start +ℤ pos 1) n

abbrev pub pairs : List ℤ → List ℤ → List (ℤ × ℤ)
pairs [] zs = []
pairs (x ∷ xs) zs = map (λ z. (x, z)) zs ++ pairs xs zs

-- The columns within a radius around a column.
abbrev pub columns_around : ℤ → ℤ → ℕ → List (ℤ × ℤ)
columns_around cx cz radius =
    let side = 2 * radius + 1 in
    pairs (run_from (cx +ℤ sub_ℕ 0 radius) side) (run_from (cz +ℤ sub_ℕ 0 radius) side)

-- `let _ = world.set_block(..)`: an error leaves the world as it was.
abbrev pub world_after : Result WorldError World → World → World
world_after (ok w') w = w'
world_after (err e) w = w

abbrev pub is_air : BlockState → Bool
is_air air = true
is_air _ = false

-- What the tasks take from elsewhere: floats, and of tokio's `RwLock` whether it grants `read` to
-- the task that holds it by `write`.
pub record TaskOps : Type 0 where
  pub float : FloatOps
  pub regrants : Bool

-- Two parts of a task in order; a part that gives nothing goes no further.
abbrev pub and_send :
    Option (ServerState × List Outgoing)
    → (ServerState → Option (ServerState × List Outgoing))
    → Option (ServerState × List Outgoing)
and_send none more = none
and_send (some (st, sent)) more =
    Option.map (λ (r : ServerState × List Outgoing). (r.0, sent ++ r.1)) (more st)

module _ (f : TaskOps) where
  unfoldable pub send_chunks_for_player :
      SocketAddr → ℕ → ℕ → ℕ → ServerState → ServerState × List Outgoing
  unfolding send_columns
  send_chunks_for_player addr player_x player_z view_distance st =
      let columns =
        columns_around (sar (f.float.to_i32 player_x) 4) (sar (f.float.to_i32 player_z) 4)
          view_distance in
      let (w, sent) = send_columns addr columns st.world in (record st { world = w }, sent)

  -- 5.0 is 0x40a00000.
  abbrev pub can_reach : Position → ℤ × ℤ × ℤ → Bool
  can_reach p block = within_reach f.float (p.x, p.y, p.z) block 0x40a00000

  abbrev pub block_pos : ℤ × ℤ × ℤ → BlockPos
  block_pos block = record { x = block.0; y = block.1; z = block.2 }

  abbrev pub game_event : GameEvent → ServerState → ServerState
  game_event e st = record st { game = (tick st.game (some e)).0 }

  -- `sessions.read().await`, with the sessions held for writing: the rest, or a wait for ever.
  abbrev pub read_sessions : ServerState × List Outgoing → Option (ServerState × List Outgoing)
  read_sessions rest = if f.regrants then some rest else none

  -- A block that is broken: set to air, if it is none, with a packet to every spawned player.
  unfoldable pub break_at : ℤ × ℤ × ℤ → ServerState → Option (ServerState × List Outgoing)
  unfolding broadcast
  break_at block st =
      let broken = record st {
        world = world_after (set_block st.world (block_pos block) air) st.world;
      } in
      if is_air (get_block st.world (block_pos block))
      then some (st, [])
      else read_sessions
          (broken, broadcast (encode_update_block block.0 block.1 block.2 0) st.sessions)

  unfoldable pub place_at : ℤ × ℤ × ℤ → ℕ → ServerState → Option (ServerState × List Outgoing)
  unfolding broadcast
  place_at block rid st =
      let w = world_after (set_block st.world (block_pos block) (from_runtime_id rid)) st.world in
      read_sessions (
        record st { world = w },
        broadcast (encode_update_block block.0 block.1 block.2 rid) st.sessions,
      )

  -- What the game is told once the world is changed.
  abbrev pub and_tell :
      GameEvent → Option (ServerState × List Outgoing) → Option (ServerState × List Outgoing)
  and_tell e r = Option.map (λ (r : ServerState × List Outgoing). (game_event e r.0, r.1)) r

  -- The `match` on an interaction of a player, out of reach or not; `none` is a wait for ever.
  unfoldable pub apply_event :
      ℤ → Position → BlockInteractionEvent → ServerState → Option (ServerState × List Outgoing)
  unfolding break_at place_at
  apply_event entity_id at (break x y z) st =
      if can_reach at (x, y, z)
      then and_tell (block_break entity_id (x, y, z)) (break_at (x, y, z) st)
      else some (st, [])
  apply_event entity_id at (place x y z none) st = some (st, [])
  apply_event entity_id at (place x y z (some rid)) st =
      if can_reach at (x, y, z)
      then and_tell (block_place entity_id (x, y, z) rid) (place_at (x, y, z) rid st)
      else some (st, [])

  unfoldable pub apply_events :
      ℤ → Position → List BlockInteractionEvent → ServerState → Option (ServerState × List Outgoing)
  unfolding apply_event
  apply_events entity_id at [] st = some (st, [])
  apply_events entity_id at (e ∷ events) st =
      and_send (apply_event entity_id at e st) (λ st'. apply_events entity_id at events st')

  -- The responses of a session as one batch.
  abbrev pub send_responses : SocketAddr → List (List ℕ) → List Outgoing
  send_responses src [] = []
  send_responses src (r ∷ rs) = (src, encode_batch (r ∷ rs)) ∷ []

  -- What follows the packets of a batch: interactions and responses.
  unfoldable pub answer : SocketAddr → Session → ServerState → Option (ServerState × List Outgoing)
  unfolding apply_events
  answer src s st =
      let (s', interactions) = take_interactions s in
      let (s'', responses) = collect_responses s' in
      let kept = record st { sessions = insert src s'' st.sessions } in
      and_send (apply_events s.entity_id s.position interactions kept)
        (λ built. some (built, send_responses src responses))

  -- Then the chunks, if they are due.
  unfoldable pub after_packets :
      SocketAddr → Session → Bool → ServerState → Option (ServerState × List Outgoing)
  unfolding answer send_chunks_for_player
  after_packets src s false st = answer src s st
  after_packets src s true st =
      and_send (answer src s st)
        (λ built. some (send_chunks_for_player src s.position.x s.position.z 2 built))

  abbrev pub with_session :
      SocketAddr → Option (Session × Bool) → ServerState → Option (ServerState × List Outgoing)
  with_session src none st = none
  with_session src (some (s, chunks)) st = after_packets src s chunks st

  -- The packets of a session, or of none; `chunks` is what the flag was before them.
  abbrev pub feed_session :
      SocketAddr
      → List (List ℕ)
      → Option Session
      → ServerState
      → Option (ServerState × List Outgoing)
  feed_session src packets none st = some (st, [])
  feed_session src packets (some s) st = with_session src (on_packets packets s false) st

  abbrev pub feed_batch :
      SocketAddr
      → Result BatchError (List (List ℕ))
      → ServerState
      → Option (ServerState × List Outgoing)
  feed_batch src (err e) st = some (st, [])
  feed_batch src (ok packets) st = feed_session src packets (lookup src st.sessions) st

  -- A payload from RakNet; `none` is a panic of the task, or its wait for ever.
  unfoldable pub handle_payload :
      SocketAddr → List ℕ → ServerState → Option (ServerState × List Outgoing)
  unfolding after_packets
  handle_payload src payload st = feed_batch src (decode_batch payload) st
