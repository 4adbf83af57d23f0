-- ===== src/Commands/Registry.antt =====
-- The registry of crates/commands/src/lib.rs with its built-in commands, and `CommandManager`,
-- which holds it behind a lock. An executor is a function.
use rust_mine.Base.{ℕ, if◌then◌else◌, Bool, List, [], ◌∷◌, ◌++◌, drop, Option, none, some, any}
use rust_mine.Base.Int.{pos}
use rust_mine.Base.Text.{codes}
use rust_mine.Base.Assoc.{Assoc, lookup, insert}
use rust_mine.Base.Result.{err}
use rust_mine.Commands.{
  unknown_command, invalid_arguments, CommandSender, CommandContext, CommandResult, everyone,
  game_master, admin, CommandInfo, command_info, text_eq, same_text,
}
use rust_mine.Commands.Parser.{parse, parse_u32, parse_i32, TextOps, to_lowercase}
use rust_mine.Commands.Builtins.{
  join, arg_or, parsed_or, stop, list_players, say, kick_player, give, time_set, kill, feed,
  set_spawn, clear_inventory, effect, gamemode, difficulty, weather, teleport, spawn_entity, heal,
}

abbrev pub Executor : Type 0
Executor = CommandContext → CommandResult

pub record CommandRegistry : Type 0 where
  pub commands : Assoc (List ℕ) Executor
  pub info : Assoc (List ℕ) CommandInfo

abbrev pub no_commands : CommandRegistry
no_commands = record { commands = []; info = [] }

unfoldable pub register : CommandInfo → Executor → CommandRegistry → CommandRegistry
register info executor r = record {
  commands = insert info.name executor r.commands;
  info = insert info.name info r.info;
}

abbrev pub get_info : CommandRegistry → List ℕ → Option CommandInfo
get_info r name = lookup name r.info

-- The first command, in the map's order, one of whose aliases is the label: its executor.
abbrev pub is_alias : TextOps → List ℕ → CommandInfo → Bool
is_alias t label info = any (λ a. same_text (to_lowercase t a) label) info.aliases

unfoldable pub find_alias : TextOps → List ℕ → Assoc (List ℕ) CommandInfo → Option CommandInfo
unfolding to_lowercase
find_alias t label [] = none
find_alias t label ((key, info) ∷ infos) =
    let rest = find_alias t label infos in if is_alias t label info then some info else rest

abbrev pub by_alias : Option CommandInfo → Assoc (List ℕ) Executor → Option Executor
by_alias none commands = none
by_alias (some info) commands = lookup info.name commands

abbrev pub or_else : Option Executor → Option Executor → Option Executor
or_else none other = other
or_else (some executor) other = some executor

unfoldable pub find_executor : TextOps → CommandRegistry → List ℕ → Option Executor
unfolding find_alias
find_executor t r label =
    or_else (lookup label r.commands) (by_alias (find_alias t label r.info) r.commands)

abbrev pub run : Option Executor → CommandContext → CommandResult
run none ctx = err (unknown_command ctx.label)
run (some executor) ctx = executor ctx

-- `CommandRegistry::execute`. The block that tests the permission is empty, so it is left out.
unfoldable pub execute : TextOps → CommandRegistry → CommandContext → CommandResult
unfolding find_executor to_lowercase
execute t r ctx = run (find_executor t r (to_lowercase t ctx.label)) ctx

-- `CommandManager::execute_raw`.
abbrev pub execute_parsed :
    TextOps → CommandRegistry → CommandSender → List ℕ × List (List ℕ) → CommandResult
execute_parsed t r sender ([], args) = err (invalid_arguments (codes "Empty command"))
execute_parsed t r sender (c ∷ cs, args) =
    execute t r (record { sender = sender; args = args; label = c ∷ cs })

unfoldable pub execute_raw : TextOps → CommandRegistry → List ℕ → CommandSender → CommandResult
unfolding execute parse
execute_raw t r raw sender = execute_parsed t r sender (parse raw)

-- What stands behind the first argument, in one text.
abbrev pub reason_of : CommandContext → List ℕ
reason_of ctx = join (codes " ") (drop 1 ctx.args)

-- 64.0 and 20.0, an f64 and an f32.
abbrev sixty_four : ℕ
sixty_four = 0x4050000000000000

abbrev twenty : ℕ
twenty = 0x41a00000

module _ (t : TextOps) where
  -- The commands of `register_builtin_commands`, in its order: the first eight, and those behind them.
  unfoldable pub first_commands : List (CommandInfo × Executor)
  unfolding stop list_players say kick_player give time_set gamemode difficulty
  first_commands =
      (command_info (codes "stop") [] (codes "Stop the server") (codes "/stop") admin, stop)
      ∷ (
        command_info (codes "list") [] (codes "List online players") (codes "/list") everyone,
        λ ctx. list_players ctx [],
      )
      ∷ (
        command_info (codes "say") [] (codes "Broadcast a message to all players")
            (codes "/say <message>") admin,
        λ ctx. say (join (codes " ") ctx.args),
      )
      ∷ (
        command_info (codes "kick") [] (codes "Kick a player from the server")
            (codes "/kick <player> [reason]") admin,
        λ ctx. kick_player (arg_or ctx 0 []) (reason_of ctx),
      )
      ∷ (
        command_info (codes "gamemode") (codes "gm" ∷ []) (codes "Change player gamemode")
            (codes "/gamemode <mode> [player]") game_master,
        λ ctx. gamemode t (arg_or ctx 0 []) (arg_or ctx 1 []),
      )
      ∷ (
        command_info (codes "give") [] (codes "Give an item to a player")
            (codes "/give <player> <item> [amount]") game_master,
        λ ctx. give (arg_or ctx 0 []) (arg_or ctx 1 (codes "stone")) (parsed_or parse_u32 ctx 2 1),
      )
      ∷ (
        command_info (codes "time") [] (codes "Set or query the time") (codes "/time set <value>")
            game_master,
        λ ctx. time_set (parsed_or parse_u32 ctx 1 6000),
      )
      ∷ (
        command_info (codes "difficulty") (codes "difficulty" ∷ []) (codes "Set game difficulty")
            (codes "/difficulty <peaceful|easy|normal|hard>") admin,
        λ ctx. difficulty t (arg_or ctx 0 (codes "normal")),
      )
      ∷ []

  unfoldable pub later_commands : List (CommandInfo × Executor)
  unfolding kill feed set_spawn clear_inventory effect weather teleport spawn_entity heal
  later_commands =
      (
        command_info (codes "weather") [] (codes "Set weather")
            (codes "/weather <clear|rain|thunder> [duration]") game_master,
        λ ctx. weather t (arg_or ctx 0 (codes "clear")),
      )
      ∷ (
        command_info (codes "kill") [] (codes "Kill entities/players") (codes "/kill [player]")
            game_master,
        λ ctx. kill (arg_or ctx 0 []),
      )
      ∷ (
        command_info (codes "heal") [] (codes "Heal a player") (codes "/heal [player] [amount]")
            game_master,
        λ ctx. heal t (arg_or ctx 0 []) (parsed_or t.parse_f32 ctx 1 twenty),
      )
      ∷ (
        command_info (codes "feed") [] (codes "Feed a player") (codes "/feed [player] [amount]")
            game_master,
        λ ctx. feed (arg_or ctx 0 []) (parsed_or parse_u32 ctx 1 20),
      )
      ∷ (
        command_info (codes "setworldspawn") [] (codes "Set the world spawn point")
            (codes "/setworldspawn [x] [y] [z]") admin,
        λ ctx.
            set_spawn (parsed_or parse_i32 ctx 0 (pos 0)) (parsed_or parse_i32 ctx 1 (pos 64))
              (parsed_or parse_i32 ctx 2 (pos 0)),
      )
      ∷ (
        command_info (codes "clear") [] (codes "Clear player inventory") (codes "/clear [player]")
            game_master,
        λ ctx. clear_inventory (arg_or ctx 0 []),
      )
      ∷ (
        command_info (codes "effect") [] (codes "Give/take effects")
            (codes "/effect <player> <effect> [duration] [amplifier]") game_master,
        λ ctx.
            effect (arg_or ctx 0 []) (arg_or ctx 1 (codes "speed")) (parsed_or parse_u32 ctx 2 30),
      )
      ∷ (
        command_info (codes "tp") (codes "teleport" ∷ []) (codes "Teleport players/entities")
            (codes "/tp [player] <x> <y> <z>") game_master,
        λ ctx.
            teleport t (arg_or ctx 0 []) (parsed_or t.parse_f64 ctx 1 0)
              (parsed_or t.parse_f64 ctx 2 sixty_four) (parsed_or t.parse_f64 ctx 3 0),
      )
      ∷ (
        command_info (codes "summon") [] (codes "Summon an entity")
            (codes "/summon <entity> [x] [y] [z]") game_master,
        λ ctx.
            spawn_entity t (arg_or ctx 0 (codes "pig")) (parsed_or t.parse_f64 ctx 1 0)
              (parsed_or t.parse_f64 ctx 2 sixty_four) (parsed_or t.parse_f64 ctx 3 0),
      )
      ∷ []

  unfoldable pub builtin_commands : List (CommandInfo × Executor)
  unfolding first_commands later_commands
  builtin_commands = first_commands ++ later_commands

-- One `register` after the other.
unfoldable pub register_all : List (CommandInfo × Executor) → CommandRegistry → CommandRegistry
unfolding register
register_all [] r = r
register_all ((info, executor) ∷ rest) r = register_all rest (register info executor r)

-- `CommandRegistry::new`.
unfoldable pub new_registry : TextOps → CommandRegistry
unfolding builtin_commands register_all
new_registry t = register_all (builtin_commands t) no_commands
