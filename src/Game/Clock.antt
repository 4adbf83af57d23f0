-- ===== src/Game/Clock.antt =====
-- The clock of crates/game/src/lib.rs over many ticks, whatever happens in them.
use rust_mine.Base.{
  ◌+◌, ◌-◌, ◌/◌, ◌%◌, ◌^◌, ◌<◌, ◌==◌, if◌then◌else◌, ◌≡◌, refl, List, [], ◌∷◌, length, Option, none,
  some, arith,
}
use rust_mine.Game.{
  GameState, GameEvent, process_event, after_event, tick, player_join, player_leave, player_move,
  player_interact, player_chat, player_command, block_break, block_place,
}

-- Events do not touch the clock.
abbrev SameClock : GameState → GameState → Type 0
SameClock g h = (g.tick_count ≡ h.tick_count) × (g.world_state.time ≡ h.world_state.time)

process_event-SameClock : (g : GameState) (e : GameEvent) → SameClock (process_event g e).0 g
unfolding process_event
process_event-SameClock g (player_join id) = ground arith
process_event-SameClock g (player_leave id) = ground arith
process_event-SameClock g (player_move id pos rot) = (refl, refl)
process_event-SameClock g (player_interact id pos action) = (refl, refl)
process_event-SameClock g (player_chat id message) = ground arith
process_event-SameClock g (player_command id command) = (refl, refl)
process_event-SameClock g (block_break id pos) = (refl, refl)
process_event-SameClock g (block_place id pos block_id) = (refl, refl)

after_event-SameClock : (g : GameState) (e : Option GameEvent) → SameClock (after_event g e).0 g
after_event-SameClock g none = (refl, refl)
after_event-SameClock g (some e) = process_event-SameClock g e

-- One tick: the counter goes on, and the clock with every twentieth.
tick-clock :
    (g : GameState) (e : Option GameEvent)
    → g.tick_count + 1 < 2 ^ 64
    → ((tick g e).0.tick_count ≡ g.tick_count + 1)
      × ((tick g e).0.world_state.time ≡ (
          if (g.tick_count + 1) % 20 == 0
          then (g.world_state.time + 1) % 24_000
          else g.world_state.time))
unfolding tick
tick-clock g e fits =
    ground (arith, after_event-SameClock (record g { tick_count = (g.tick_count + 1) % 2 ^ 64 }) e)

-- A tick for each entry.
abbrev pub run : GameState → List (Option GameEvent) → GameState
run g [] = g
run g (e ∷ es) = run (tick g e).0 es

-- Over any run of ticks and events the counter counts every tick and the time of day goes on with
-- every twentieth, around the day, as long as the counter does not overflow and the time is within
-- a day.
pub run-clock :
    (g : GameState) (es : List (Option GameEvent))
    → g.tick_count + length es < 2 ^ 64
    → g.world_state.time < 24_000
    → ((run g es).tick_count ≡ g.tick_count + length es)
      × ((run g es).world_state.time
          ≡ (g.world_state.time + ((g.tick_count + length es) / 20 - g.tick_count / 20)) % 24_000)
run-clock g [] fits day = (omega arith, omega arith)
run-clock g (e ∷ es) fits day =
    let (count, time) = tick-clock g e (omega arith) in
    let (count', time') =
      run-clock (tick g e).0 es (omega (arith, count)) (ground (arith, time, day)) in
    (omega (arith, count, count'), ground (arith, count, time, time'))
