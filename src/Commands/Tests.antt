-- ===== src/Commands/Tests.antt =====
-- The theorems on commands at concrete lines, and tests.
use rust_mine.Base.{◌≡◌, refl, [], ◌∷◌, some, none, arith}
use rust_mine.Base.Int.{pos, negsuc}
use rust_mine.Base.Text.{codes}
use rust_mine.Base.Result.{ok, err}
use rust_mine.Commands.{
  CommandContext, player, console, unknown_command, admin, success, command_info,
}
use rust_mine.Commands.Parser.{TextOps, parse, parse_u32, parse_i32, parse_target, to_lowercase}
use rust_mine.Commands.Builtins.{stop, kick_player}
use rust_mine.Commands.Registry.{no_commands, register, new_registry, execute_raw}
use rust_mine.Commands.Parsing.{render, parse-render}
use rust_mine.Commands.Lookup.{execute_raw-register}

-- No floats are read here.
abbrev ascii : TextOps
ascii = record {
  unicode_lowercase = λ s. s;
  parse_f64 = λ s. none;
  show_f64 = λ x. [];
  parse_f32 = λ s. none;
  show_f32 = λ x. [];
  add_f64 = λ x y. x;
}

parse-render_example :
    parse (render (codes "say") (codes "good morning" ∷ codes "it's me" ∷ []))
    ≡ (codes "say", codes "good morning" ∷ codes "it's me" ∷ [])
parse-render_example =
    parse-render (codes "say") (codes "good morning" ∷ codes "it's me" ∷ []) (omega arith)

-- A player may stop the server, in capitals too.
execute_raw-register_example :
    execute_raw ascii
      (register (command_info (codes "stop") [] [] [] admin) stop no_commands)
      (render (codes "STOP") [])
      (player (pos 4))
    ≡ stop (record { sender = player (pos 4); args = []; label = codes "STOP" })
execute_raw-register_example =
    execute_raw-register ascii no_commands (command_info (codes "stop") [] [] [] admin) stop
      (player (pos 4)) (codes "STOP") [] (omega arith) (unfold to_lowercase in refl)

plain :
    parse (codes "  /give  bob 'iron ore' 3 ")
    ≡ (codes "give", codes "bob" ∷ codes "iron ore" ∷ codes "3" ∷ [])
unfolding parse
plain = refl

-- An empty quoted argument is lost.
empty_argument : parse (codes "kick '' spam") ≡ (codes "kick", codes "spam" ∷ [])
unfolding parse
empty_argument = refl

kicked :
    execute_raw ascii (new_registry ascii) (codes "/kick bob too loud") console
    ≡ kick_player (codes "bob") (codes "too loud")
unfolding execute_raw new_registry
kicked = refl

nicknamed :
    execute_raw ascii (new_registry ascii) (codes "gm creative") console
    ≡ ok (success (codes "Set gamemode of yourself to creative"))
unfolding execute_raw new_registry
nicknamed = refl

unknown :
    execute_raw ascii (new_registry ascii) (codes "fly") console
    ≡ err (unknown_command (codes "fly"))
unfolding execute_raw new_registry
unknown = refl

largest : parse_u32 (codes "+4294967295") ≡ some 4294967295
unfolding parse_u32
largest = refl

too_large : parse_i32 (codes "2147483648") ≡ none
unfolding parse_i32
too_large = refl

smallest : parse_i32 (codes "-2147483648") ≡ some (negsuc 2147483647)
unfolding parse_i32
smallest = refl

themselves : parse_target (codes " Self ") ≡ none
unfolding parse_target
themselves = refl

-- A call of `/FEED`.
abbrev feeding : CommandContext
feeding = record { sender = console; args = codes "Alex" ∷ []; label = codes "FEED" }
