-- ===== src/Server/Main/Tests.antt =====
-- The theorems on the server at concrete inputs, and runs of its tasks.
use rust_mine.Base.{
  ℕ, ◌≡◌, refl, ap, ◌∙◌, true, false, List, [], ◌∷◌, map, dec_lt, All, none, some, arith,
}
use rust_mine.Base.Int.{pos, negsuc}
use rust_mine.Base.Assoc.{lookup, insert}
use rust_mine.Raknet.Packet.{SocketAddr, v4}
use rust_mine.Raknet.Server.{addr_eq}
use rust_mine.Protocol.Batch.{encode_batch}
use rust_mine.Nbt.Varint.{write_var_u32, write_var_i32, zigzag_encode_i32, write_loop}
use rust_mine.Base.Order.{lt_wf}
use rust_mine.Protocol.Batch.RoundTrip.{decode-encode_batch}
use rust_mine.Protocol.Interaction.{PlaceBlockInfo}
use rust_mine.Protocol.Interaction.Parsing.{placement, parse_place_block-placement}
use rust_mine.Protocol.Interaction.Reach.{FloatOps, within_reach}
use rust_mine.World.{new_chunk}
use rust_mine.World.Store.{WorldGenerator}
use rust_mine.Server.Session.{
  Session, Outbound, spawned, new_session, place, on_packets, send_settings, handle_spawned_packet,
  packet_in_state, place_block, if_let, interact,
}
use rust_mine.Server.Main.{
  ServerState, Outgoing, TaskOps, new_state, answer, apply_events, send_responses, after_packets,
  feed_batch, handle_payload,
}
use rust_mine.Protocol.Id
use rust_mine.Server.Main.Tasks.{new_connection, Run, here, next, connection}
use rust_mine.Server.Main.Runs.{AllResting, Run-AllResting}
use rust_mine.Server.Main.Outsiders.{emptied, handle_payload-outsider}
use rust_mine.Server.Main.Locks.{handle_payload-place_waits}
use rust_mine.Server.Main.Recipients.{MayGet, handle_payload-MayGet}

-- Floats that are whole numbers; all that matters here is that every block is near.
abbrev whole : FloatOps
whole = record {
  of_i32 = λ v. 0;
  to_i32 = λ x. pos 0;
  add = λ x y. 0;
  sub = λ x y. 0;
  mul = λ x y. 0;
  abs = λ x. 0;
  sqrt = λ x. 0;
  at_most = λ x y. true;
}

-- A lock that is not granted twice.
abbrev near : TaskOps
near = record { float = whole; regrants = false }

abbrev flat : WorldGenerator
flat = record { get_height = λ x z. pos 64; generate_chunk = λ x z. new_chunk x z }

abbrev home : SocketAddr
home = v4 127 0 0 1 4000

abbrev away : SocketAddr
away = v4 127 0 0 1 4001

abbrev builder : Session
builder = record (new_session (pos 1)) { state = spawned }

-- One client in the world, one that has just come.
abbrev server : ServerState
server = record (new_state [] (pos 7) flat) {
  sessions = (home, builder) ∷ (away, new_session (pos 2)) ∷ [];
}

-- The client that has just come asks for the settings.
abbrev hello : List ℕ
hello = encode_batch ((0xc1 ∷ []) ∷ [])

abbrev answered : ServerState × List Outgoing
answered = (
  record server {
    sessions = insert away (emptied (send_settings (new_session (pos 2)))) server.sessions;
  },
  send_responses near away
      (map (λ (out : Outbound). out.packet) (send_settings (new_session (pos 2))).sent),
)

hello_gets_settings : handle_payload near away hello server ≡ some answered
unfolding handle_payload
hello_gets_settings =
    ap (λ r. feed_batch near away r server) (decode-encode_batch ((0xc1 ∷ []) ∷ []) (omega arith))
    ∙ unfold on_packets answer apply_events after_packets in refl

handle_payload-MayGet_example : All (MayGet away answered.0.sessions) answered.1
handle_payload-MayGet_example =
    handle_payload-MayGet near away hello server answered.0 answered.1 hello_gets_settings

-- It asks for the settings and to break a block, all in one batch.
abbrev early : List (List ℕ)
early = (0xc1 ∷ []) ∷ (Id.break_block ∷ 2 ∷ 4 ∷ 6 ∷ []) ∷ []

early_settings :
    on_packets early (new_session (pos 2)) false ≡ some (send_settings (new_session (pos 2)), false)
unfolding on_packets
early_settings = refl

handle_payload-outsider_example :
    handle_payload near away (encode_batch early) server
    ≡ some (
      record server {
        sessions = insert away (emptied (send_settings (new_session (pos 2)))) server.sessions;
      },
      send_responses near away
          (map (λ (out : Outbound). out.packet) (send_settings (new_session (pos 2))).sent),
    )
handle_payload-outsider_example =
    handle_payload-outsider near away (encode_batch early) early server (new_session (pos 2))
      (send_settings (new_session (pos 2))) false
      (decode-encode_batch early (omega arith, omega arith)) refl early_settings refl
      (unfold send_settings in refl) refl

-- A client connects, and asks for the settings.
first_client :
    Run near (new_state [] (pos 7) flat) (new_connection away (new_state [] (pos 7) flat))
first_client = next here (connection away refl)

Run-AllResting_example : AllResting (new_connection away (new_state [] (pos 7) flat))
Run-AllResting_example =
    Run-AllResting near [] (pos 7) flat (new_connection away (new_state [] (pos 7) flat))
      first_client

second_id :
    lookup away (new_connection away (new_connection home (new_state [] (pos 7) flat))).sessions
    ≡ some (new_session (pos 2))
unfolding new_connection
second_id = refl

-- The client in the world places a block.
abbrev building : List (List ℕ)
building = (Id.place_block ∷ placement (pos 1) (pos 65) (negsuc 4) (pos 0) 2 []) ∷ []

abbrev placing : Session
placing = record builder { pending_interactions = place (pos 1) (pos 65) (negsuc 4) (some 2) ∷ [] }

building_due : on_packets building builder false ≡ some (placing, false)
unfolding on_packets handle_spawned_packet packet_in_state place_block
building_due =
    ap
      (λ r. some (
        if_let r (λ (info : PlaceBlockInfo). interact (place info.x info.y info.z info.runtime_id))
            builder,
        false,
      ))
      (parse_place_block-placement (pos 1) (pos 65) (negsuc 4) (pos 0) 2 [] (omega arith)
        (omega arith) (omega arith) (omega arith) (omega arith))

handle_payload-place_waits_example : handle_payload near home (encode_batch building) server ≡ none
unfolding write_var_i32 write_var_u32 write_loop lt_wf dec_lt zigzag_encode_i32 within_reach
handle_payload-place_waits_example =
    handle_payload-place_waits near home (encode_batch building) building server builder placing
      false [] [] (pos 1) (pos 65) (negsuc 4) 2 refl
      (decode-encode_batch building (omega arith, tt)) refl building_due refl refl
