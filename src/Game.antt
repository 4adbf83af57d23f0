-- ===== src/Game.antt =====
-- crates/game/src/lib.rs: the players, the clock and the events of a tick. An f32 is its bit
-- pattern; a `String` is the list of its UTF-8 bytes.
pub mod Clock
pub mod Space
mod Tests
use rust_mine.Base.{
  ℕ, ◌+◌, ◌%◌, ◌*◌, ◌^◌, ltb, not, ◌==◌, if◌then◌else◌, Bool, true, false, List, [], ◌∷◌, ◌++◌,
  Option, none, some,
}
use rust_mine.Base.Int.{ℤ}
use rust_mine.Base.Assoc.{Assoc, lookup, insert, remove, adjust, int_eq}

pub record Vec3 : Type 0 where
  pub x : ℕ
  pub y : ℕ
  pub z : ℕ

pub record Rotation : Type 0 where
  pub yaw : ℕ
  pub pitch : ℕ

pub data Gamemode : Type 0 where
  survival creative adventure spectator : Gamemode

-- `Gamemode::from_u32` and `as_u32`.
unfoldable pub gamemode_from : ℕ → Gamemode
gamemode_from v =
    if v == 0
    then survival
    else if v == 1
    then creative
    else if v == 2
    then adventure
    else if v == 3
    then spectator
    else survival

abbrev pub gamemode_code : Gamemode → ℕ
gamemode_code survival = 0
gamemode_code creative = 1
gamemode_code adventure = 2
gamemode_code spectator = 3

pub data Difficulty : Type 0 where
  peaceful easy normal hard : Difficulty

unfoldable pub difficulty_from : ℕ → Difficulty
difficulty_from v =
    if v == 0
    then peaceful
    else if v == 1
    then easy
    else if v == 2
    then normal
    else if v == 3
    then hard
    else normal

abbrev pub difficulty_code : Difficulty → ℕ
difficulty_code peaceful = 0
difficulty_code easy = 1
difficulty_code normal = 2
difficulty_code hard = 3

-- `TimeOfDay`: `new`, `from_hours`, `is_day` and `is_night`, on the ticks.
abbrev pub time_of_day : ℕ → ℕ
time_of_day ticks = ticks % 24_000

abbrev pub from_hours : ℕ → ℕ
from_hours hours = time_of_day (hours * 1000 % 2 ^ 32)

abbrev pub is_day : ℕ → Bool
is_day ticks = ltb ticks 12_000

abbrev pub is_night : ℕ → Bool
is_night ticks = not (is_day ticks)

pub record PlayerData : Type 0 where
  pub entity_id : ℤ
  pub username : List ℕ
  pub position : Vec3
  pub velocity : Vec3
  pub rotation : Rotation
  pub gamemode : Gamemode
  pub health : ℕ
  pub hunger : ℕ
  pub on_ground : Bool
  pub sneaking : Bool
  pub sprinting : Bool
  pub view_distance : ℕ

-- 70.0 and 20.0 are 0x428c0000 and 0x41a00000.
abbrev pub new_player : ℤ → List ℕ → PlayerData
new_player entity_id username = record {
  entity_id = entity_id;
  username = username;
  position = record { x = 0; y = 0x428c0000; z = 0 };
  velocity = record { x = 0; y = 0; z = 0 };
  rotation = record { yaw = 0; pitch = 0 };
  gamemode = survival;
  health = 0x41a00000;
  hunger = 20;
  on_ground = false;
  sneaking = false;
  sprinting = false;
  view_distance = 10;
}

pub record WorldState : Type 0 where
  pub time : ℕ
  pub difficulty : Difficulty
  pub rain_level : ℕ
  pub lightning_level : ℕ
  pub spawn_protection : ℕ

pub data InteractAction : Type 0 where
  left_click right_click leave : InteractAction

pub data GameEvent : Type 0 where
  player_join player_leave : ℤ → GameEvent
  player_move : ℤ → Vec3 → Rotation → GameEvent
  player_interact : ℤ → ℤ × ℤ × ℤ → InteractAction → GameEvent
  player_chat player_command : ℤ → List ℕ → GameEvent
  block_break : ℤ → ℤ × ℤ × ℤ → GameEvent
  block_place : ℤ → ℤ × ℤ × ℤ → ℕ → GameEvent

pub data GameOutput : Type 0 where
  player_spawned : ℤ → List ℕ → GameOutput
  player_despawned : ℤ → GameOutput
  chunk_data : ℤ → ℤ → List ℕ → GameOutput
  block_update : ℤ → ℤ → ℤ → ℕ → GameOutput
  time_update : ℕ → GameOutput
  chat_message : List ℕ → List ℕ → GameOutput

pub record GameState : Type 0 where
  pub players : Assoc ℤ PlayerData
  pub world_state : WorldState
  pub tick_count : ℕ
  pub stopped : Bool

abbrev pub new_game : GameState
new_game = record {
  players = [];
  world_state = record {
    time = time_of_day 6000;
    difficulty = normal;
    rain_level = 0;
    lightning_level = 0;
    spawn_protection = 16;
  };
  tick_count = 0;
  stopped = false;
}

abbrev pub add_player : GameState → ℤ → List ℕ → GameState
add_player g entity_id username = record g {
  players = insert entity_id (new_player entity_id username) g.players;
}

abbrev pub remove_player : GameState → ℤ → GameState × Option PlayerData
remove_player g entity_id =
    (record g { players = remove entity_id g.players }, lookup entity_id g.players)

abbrev pub stop : GameState → GameState
stop g = record g { stopped = true }

-- The state and the outputs after an event.
unfoldable pub process_event : GameState → GameEvent → GameState × List GameOutput
process_event g (player_join id) = elim (lookup id g.players) [
  | none ↦ (g, [])
  | some player ↦ (g, player_spawned id player.username ∷ [])
]
process_event g (player_leave id) = elim (lookup id g.players) [
  | none ↦ ((remove_player g id).0, [])
  | some player ↦ ((remove_player g id).0, player_despawned id ∷ [])
]
process_event g (player_move id pos rot) = (
  record g { players = adjust id (λ p. record p { position = pos; rotation = rot }) g.players },
  [],
)
process_event g (block_break id (x, y, z)) = (g, block_update x y z 0 ∷ [])
process_event g (block_place id (x, y, z) block_id) = (g, block_update x y z block_id ∷ [])
process_event g (player_chat id message) = elim (lookup id g.players) [
  | none ↦ (g, [])
  | some player ↦ (g, chat_message player.username message ∷ [])
]
process_event g (player_command id command) = (g, [])
process_event g (player_interact id pos action) = (g, [])

abbrev pub after_event : GameState → Option GameEvent → GameState × List GameOutput
after_event g none = (g, [])
after_event g (some event) = process_event g event

-- The clock moves on with every twentieth tick.
unfoldable pub tick : GameState → Option GameEvent → GameState × List GameOutput
tick g event =
    let (g', outputs) = after_event (record g { tick_count = (g.tick_count + 1) % 2 ^ 64 }) event in
    let time' = time_of_day (g'.world_state.time + 1) in
    if g'.tick_count % 20 == 0
    then (
      record g' { world_state = record g'.world_state { time = time' } },
      outputs ++ time_update time' ∷ [],
    )
    else (g', outputs)
