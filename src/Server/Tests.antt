-- ===== src/Server/Tests.antt =====
-- Runs of the configuration and of the console of crates/server.
use rust_mine.Base.{◌≡◌, refl, true, [], ◌∷◌, none, some}
use rust_mine.Base.Int.{pos}
use rust_mine.Base.Text.{codes}
use rust_mine.Base.Result.{ok, err}
use rust_mine.Game.{new_game, add_player}
use rust_mine.Commands.Registry.{new_registry}
use rust_mine.Server.Config.{
  ServerFields, GameFields, ConfigFields, Files, parse, default_config, load,
}
use rust_mine.Server.Console.{ConsoleOps, View, out, contains_text, console_line, console_task}

abbrev no_server_fields : ServerFields
no_server_fields = record {
  name = none;
  motd = none;
  port = none;
  max_players = none;
  bind_address = none;
}

abbrev no_game_fields : GameFields
no_game_fields = record {
  view_distance = none;
  gamemode = none;
  difficulty = none;
  world_name = none;
  seed = none;
  flat_world = none;
}

abbrev three_headings : ConfigFields
three_headings = record {
  server = some no_server_fields;
  game = some no_game_fields;
  auth = some none;
  logging = none;
}

abbrev files_of : ConfigFields → Files
files_of r = record { read_to_string = ok; from_toml = λ s. ok r; missing_field = codes "missing" }

-- Without the section of the log the level is empty; all else is the default.
load_without_logging :
    load (files_of three_headings) []
    ≡ ok (record default_config { logging = record { level = [] } })
unfolding load
load_without_logging = refl

load_without_auth :
    load (files_of (record three_headings { auth = none })) [] ≡ err (parse (codes "missing"))
unfolding load
load_without_auth = refl

-- No floats are read here.
abbrev ascii : ConsoleOps
ascii = record {
  text = record {
    unicode_lowercase = λ s. s;
    parse_f64 = λ s. none;
    show_f64 = λ x. [];
    parse_f32 = λ s. none;
    show_f32 = λ x. [];
    add_f64 = λ x y. x;
  };
  chars = λ s. s;
  quotient = λ a b. [];
}

abbrev quiet : View
quiet = record { game = add_player new_game (pos 1) (codes "Steve"); tick_count = 0; uptime = 0 }

lines_typed :
    console_task ascii (new_registry ascii.text) (
      (quiet, some (codes " List "))
      ∷ (quiet, none)
      ∷ (quiet, some (codes "TPS"))
      ∷ (quiet, some (codes "exit"))
      ∷ (quiet, some (codes "list"))
      ∷ [])
    ≡ (
      out (codes "1 player(s) online: Steve") ∷ out (codes "TPS: 0.00 (0 ticks, 0s uptime)") ∷ [],
      true,
    )
unfolding console_task console_line
lines_typed = refl

-- A reason with the word that ends the task.
kick_ends :
    console_line ascii (new_registry ascii.text) quiet (codes "/kick Steve Stopping by")
    ≡ (out (codes "Kicked player 'Steve' for: Stopping by") ∷ [], true)
unfolding console_line new_registry contains_text
kick_ends = refl
