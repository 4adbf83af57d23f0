-- ===== src/Server/Console.antt =====
-- The console task of crates/server/src/main.rs. A line is the list of its characters. The characters
-- of a player's name, which is UTF-8, and the text of a quotient of floats are parameters. The
-- source hands over `io::stdin` without calling it, which does not compile; the call is added here.
use rust_mine.Base.{
  ℕ, ◌+◌, leb, ◌==◌, ◌&&◌, ◌||◌, if◌then◌else◌, Bool, true, false, List, [], ◌∷◌, ◌++◌, map, Option,
  none, some,
}
use rust_mine.Base.Text.{codes, digits}
use rust_mine.Base.Result.{ok, err}
use rust_mine.Game.{GameState}
use rust_mine.Commands.{
  CommandError, unknown_command, invalid_arguments, permission_denied, player_not_found, console,
  CommandResult, same_text,
}
use rust_mine.Commands.Parser.{TextOps, trim}
use rust_mine.Commands.Builtins.{concat, player_list}
use rust_mine.Commands.Registry.{CommandRegistry, execute_raw}
use rust_mine.Server.Session.Extract.{starts_with}

-- `eq_ignore_ascii_case`.
abbrev pub to_ascii_lowercase : ℕ → ℕ
to_ascii_lowercase c = if leb 65 c && leb c 90 then c + 32 else c

abbrev pub same_word : List ℕ → List ℕ → Bool
same_word s t = same_text (map to_ascii_lowercase s) (map to_ascii_lowercase t)

-- `contains` of a text that is not empty.
unfoldable pub contains_text : List ℕ → List ℕ → Bool
contains_text needle [] = false
contains_text needle (c ∷ cs) =
    let later = contains_text needle cs in starts_with needle (c ∷ cs) || later

-- The `Display` of an error.
abbrev pub error_text : CommandError → List ℕ
error_text (unknown_command s) = codes "unknown command: " ++ s
error_text (invalid_arguments s) = codes "invalid arguments: " ++ s
error_text (permission_denied s) = codes "permission denied: " ++ s
error_text (player_not_found s) = codes "player not found: " ++ s

-- A line on the standard output or on that of errors.
pub data Printed : Type 0 where
  out error_out : List ℕ → Printed

pub record ConsoleOps : Type 0 where
  pub text : TextOps
  pub chars : List ℕ → List ℕ
  -- The quotient of two numbers as f64 with two places.
  pub quotient : ℕ → ℕ → List ℕ

-- What the task finds when a line comes in.
pub record View : Type 0 where
  pub game : GameState
  pub tick_count : ℕ
  pub uptime : ℕ

-- What is printed, and whether the loop ends.
abbrev pub Outcome : Type 0
Outcome = List Printed × Bool

abbrev pub player_names : ConsoleOps → GameState → List (List ℕ)
player_names o g = map (λ e. o.chars e.1.username) g.players

abbrev pub tps_line : ConsoleOps → View → List ℕ
tps_line o v = concat (
    codes "TPS: "
    ∷ (if v.uptime == 0 then codes "0.00" else o.quotient v.tick_count v.uptime)
    ∷ codes " ("
    ∷ digits 20 v.tick_count
    ∷ codes " ticks, "
    ∷ digits 20 v.uptime
    ∷ codes "s uptime)"
    ∷ [])

abbrev pub shown : CommandResult → Outcome
shown (ok output) = (
  if same_text output.message [] then [] else out output.message ∷ [],
  contains_text (codes "Stopping") output.message,
)
shown (err e) = (error_out (codes "Command error: " ++ error_text e) ∷ [], false)

-- The body of the loop for a line.
unfoldable pub console_line : ConsoleOps → CommandRegistry → View → List ℕ → Outcome
unfolding execute_raw
console_line o r v raw =
    let line = trim raw in
    if same_text line []
    then ([], false)
    else if same_word line (codes "stop") || same_word line (codes "exit")
    then ([], true)
    else if same_word line (codes "list") || same_word line (codes "players")
    then (out (concat (player_list (player_names o v.game))) ∷ [], false)
    else if same_word line (codes "tps")
    then (out (tps_line o v) ∷ [], false)
    else shown (execute_raw o.text r line console)

-- The loop over what `next_line` gives; `none` is the end of the input or an error, after which it
-- goes on. `true` if the loop was left.
unfoldable pub console_task : ConsoleOps → CommandRegistry → List (View × Option (List ℕ)) → Outcome
console_task o r [] = ([], false)
console_task o r ((v, none) ∷ inputs) = console_task o r inputs
console_task o r ((v, some raw) ∷ inputs) =
    let (printed, ends) = console_line o r v raw in
    let (later, ended) = console_task o r inputs in
    if ends then (printed, true) else (printed ++ later, ended)
