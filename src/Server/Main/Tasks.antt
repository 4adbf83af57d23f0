-- ===== src/Server/Main/Tasks.antt =====
-- The tasks of `run_server` in crates/server/src/main.rs: each takes its messages in order.
use rust_mine.Base.{
  ℕ, ◌+◌, ◌%◌, ◌^◌, List, [], ◌∷◌, ◌++◌, length, ◌≡◌, Option, none, some, unwrap_or,
}
use rust_mine.Base.Int.{pos}
use rust_mine.Base.Text.{codes, decimal}
use rust_mine.Base.Assoc.{lookup, insert}
use rust_mine.Raknet.Packet.{SocketAddr}
use rust_mine.Raknet.Server.{addr_eq}
use rust_mine.World.Store.{}
use rust_mine.Game.{GameOutput, add_player, tick, player_join}
use rust_mine.Server.Session.{new_session}
use rust_mine.Server.Main.{
  ServerState, Outgoing, TaskOps, process_game_output, and_send, handle_payload,
}

-- A new connection: a session, unless there is one, and a player.
unfoldable pub new_connection : SocketAddr → ServerState → ServerState
new_connection addr st =
    let entity_id = pos (length st.sessions + 1) in
    let s = unwrap_or (lookup addr st.sessions) (new_session entity_id) in
    let game' = add_player st.game entity_id (codes "Player" ++ decimal entity_id) in
    record st {
      sessions = insert addr s st.sessions;
      game = (tick game' (some (player_join entity_id))).0;
    }

unfoldable pub process_outputs : List GameOutput → ServerState → List Outgoing
unfolding process_game_output
process_outputs [] st = []
process_outputs (o ∷ outputs) st = process_game_output o st ++ process_outputs outputs st

-- A round of the game loop.
unfoldable pub game_round : ServerState → ServerState × List Outgoing
unfolding process_outputs
game_round st =
    let (game', outputs) = tick st.game none in
    let st' = record st { game = game'; tick_count = (st.tick_count + 1) % 2 ^ 64 } in
    (st', process_outputs outputs st')

-- The packet task over its messages; `none` is its panic, or its wait for ever.
unfoldable pub packet_task :
    TaskOps → List (SocketAddr × List ℕ) → ServerState → Option (ServerState × List Outgoing)
unfolding handle_payload
packet_task f [] st = some (st, [])
packet_task f ((src, payload) ∷ messages) st =
    and_send (handle_payload f src payload st) (λ st'. packet_task f messages st')

-- A step of one of the three tasks.
pub data Step (f : TaskOps) (st : ServerState) (st' : ServerState) : Type 0 where
  packet :
      (src : SocketAddr) (payload : List ℕ) (sent : List Outgoing)
      → handle_payload f src payload st ≡ some (st', sent)
      → Step f st st'
  connection : (addr : SocketAddr) → st' ≡ new_connection addr st → Step f st st'
  round : st' ≡ (game_round st).0 → Step f st st'

-- The steps of the tasks, in whatever order.
pub data Run (f : TaskOps) (st : ServerState) : ServerState → Type 0 where
  here : Run f st st
  next : {u v : ServerState} → Run f st u → Step f u v → Run f st v
