-- ===== src/Commands/Found.antt =====
-- What the commands of crates/commands/src/lib.rs that are built in do by name.
use rust_mine.Base.{ℕ, List, [], ◌∷◌, drop, Option}
use rust_mine.Base.Assoc.{Assoc}
use rust_mine.Base.Int.{pos}
use rust_mine.Base.Text.{codes}
use rust_mine.Commands.{CommandContext, CommandResult, text_eq}
use rust_mine.Commands.Parser.{TextOps, parse_u32, parse_i32}
use rust_mine.Commands.Builtins.{
  join, arg_or, parsed_or, stop, list_players, say, kick_player, give, time_set, kill, feed,
  set_spawn, clear_inventory, effect, gamemode, difficulty, weather, teleport, spawn_entity, heal,
}

-- The three coordinates behind the first argument; 64.0 is the height in the second one's stead.
abbrev pub to_place :
    (List ℕ → ℕ → ℕ → ℕ → CommandResult) → List ℕ → TextOps → CommandContext → CommandResult
to_place go target t ctx =
    go target (parsed_or t.parse_f64 ctx 1 0) (parsed_or t.parse_f64 ctx 2 0x4050000000000000)
      (parsed_or t.parse_f64 ctx 3 0)

-- The names that a player can type, in lower case, and the answer to each.
abbrev pub answers : TextOps → CommandContext → List (List ℕ × CommandResult)
answers t ctx =
    (codes "stop", stop ctx)
    ∷ (codes "list", list_players ctx [])
    ∷ (codes "say", say (join (codes " ") ctx.args))
    ∷ (codes "kick", kick_player (arg_or ctx 0 []) (join (codes " ") (drop 1 ctx.args)))
    ∷ (codes "gamemode", gamemode t (arg_or ctx 0 []) (arg_or ctx 1 []))
    ∷ (codes "gm", gamemode t (arg_or ctx 0 []) (arg_or ctx 1 []))
    ∷ (
      codes "give",
      give (arg_or ctx 0 []) (arg_or ctx 1 (codes "stone")) (parsed_or parse_u32 ctx 2 1),
    )
    ∷ (codes "time", time_set (parsed_or parse_u32 ctx 1 6000))
    ∷ (codes "difficulty", difficulty t (arg_or ctx 0 (codes "normal")))
    ∷ (codes "weather", weather t (arg_or ctx 0 (codes "clear")))
    ∷ (codes "kill", kill (arg_or ctx 0 []))
    ∷ (codes "heal", heal t (arg_or ctx 0 []) (parsed_or t.parse_f32 ctx 1 0x41a00000))
    ∷ (codes "feed", feed (arg_or ctx 0 []) (parsed_or parse_u32 ctx 1 20))
    ∷ (
      codes "setworldspawn",
      set_spawn (parsed_or parse_i32 ctx 0 (pos 0)) (parsed_or parse_i32 ctx 1 (pos 64))
          (parsed_or parse_i32 ctx 2 (pos 0)),
    )
    ∷ (codes "clear", clear_inventory (arg_or ctx 0 []))
    ∷ (
      codes "effect",
      effect (arg_or ctx 0 []) (arg_or ctx 1 (codes "speed")) (parsed_or parse_u32 ctx 2 30),
    )
    ∷ (codes "tp", to_place (teleport t) (arg_or ctx 0 []) t ctx)
    ∷ (codes "teleport", to_place (teleport t) (arg_or ctx 0 []) t ctx)
    ∷ (codes "summon", to_place (spawn_entity t) (arg_or ctx 0 (codes "pig")) t ctx)
    ∷ []
