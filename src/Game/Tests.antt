-- ===== src/Game/Tests.antt =====
-- Runs of crates/game, and the theorems at concrete inputs.
use rust_mine.Base.{
  true, ◌*◌, ◌+◌, ◌-◌, ◌/◌, ◌%◌, ◌≡◌, refl, List, [], ◌∷◌, Option, none, some, arith,
}
use rust_mine.Base.Int.{pos}
use rust_mine.Protocol.Interaction.Reach.{FloatOps}
use rust_mine.Game.{
  GameState, GameEvent, Vec3, new_game, new_player, add_player, player_move, block_break,
  block_update, process_event,
}
use rust_mine.Game.Space.{players_in_chunk, moved}
use rust_mine.Game.Clock.{run, run-clock}

-- A float stands for the whole number with its bits.
abbrev whole : FloatOps
whole = record {
  of_i32 = λ v. 0;
  to_i32 = pos;
  add = λ x y. x + y;
  sub = λ x y. x - y;
  mul = λ x y. x * y;
  abs = λ x. x;
  sqrt = λ x. x;
  at_most = λ x y. true;
}

abbrev steve_game : GameState
steve_game = add_player (add_player new_game (pos 1) (7 ∷ [])) (pos 2) (8 ∷ [])

abbrev steps : Vec3
steps = record { x = 20; y = 70; z = 40 }

-- The second player moves into the chunk (1, 2), alone.
moved_player :
    players_in_chunk whole
      (process_event steve_game (player_move (pos 2) steps (record { yaw = 1; pitch = 2 }))).0
      (pos 1)
      (pos 2)
    ≡ moved steps (record { yaw = 1; pitch = 2 }) (new_player (pos 2) (8 ∷ [])) ∷ []
unfolding players_in_chunk process_event
moved_player = refl

abbrev two_ticks : List (Option GameEvent)
two_ticks = some (block_break (pos 1) (pos 0, pos 0, pos 0)) ∷ none ∷ []

abbrev late_game : GameState
late_game = record new_game { tick_count = 39 }

run-clock_example :
    ((run late_game two_ticks).tick_count ≡ 39 + 2)
    × ((run late_game two_ticks).world_state.time ≡ (6000 + ((39 + 2) / 20 - 39 / 20)) % 24_000)
run-clock_example = run-clock late_game two_ticks (omega arith) (omega arith)

-- Breaking a block sends its update, also for a player that is not there.
absent_player :
    (process_event new_game (block_break (pos 5) (pos 1, pos 2, pos 3))).1
    ≡ block_update (pos 1) (pos 2) (pos 3) 0 ∷ []
unfolding process_event
absent_player = refl
