-- ===== src/Commands/Builtins.antt =====
-- The built-in commands of crates/commands/src/lib.rs, and the arguments that each of them takes.
use rust_mine.Base.{
  ℕ, ◌==◌, if◌then◌else◌, Bool, List, [], ◌∷◌, ◌++◌, get_elem?, length, Option, unwrap_or, any,
}
use rust_mine.Base.Int.{ℤ, negsuc}
use rust_mine.Base.Text.{codes, digits, decimal}
use rust_mine.Base.Maybe.{◌>>=◌}
use rust_mine.Base.Result.{ok}
use rust_mine.Commands.{
  CommandContext, CommandResult, success, error, with_sender, player_id, same_text,
}
use rust_mine.Commands.Parser.{TextOps, to_lowercase}

-- `join`.
abbrev pub join : List ℕ → List (List ℕ) → List ℕ
join between [] = []
join between (s ∷ []) = s
join between (s ∷ u ∷ rest) = s ++ between ++ join between (u ∷ rest)

abbrev pub concat : List (List ℕ) → List ℕ
concat [] = []
concat (s ∷ rest) = s ++ concat rest

-- The argument at a place, or a text in its stead; and one that is parsed, or a value.
abbrev pub arg_or : CommandContext → ℕ → List ℕ → List ℕ
arg_or ctx i fallback = unwrap_or (get_elem? ctx.args i) fallback

abbrev pub parsed_or {ℓ} : {A : Type ℓ} → (List ℕ → Option A) → CommandContext → ℕ → A → A
parsed_or parse ctx i fallback = unwrap_or (get_elem? ctx.args i >>= parse) fallback

abbrev pub or_yourself : List ℕ → List ℕ
or_yourself [] = codes "yourself"
or_yourself (c ∷ cs) = c ∷ cs

abbrev pub done : List (List ℕ) → CommandResult
done texts = ok (success (concat texts))

abbrev pub invalid : List (List ℕ) → CommandResult
invalid texts = ok (error (concat texts))

unfoldable pub stop : CommandContext → CommandResult
stop ctx = done (codes "Stopping server..." ∷ [])

abbrev pub player_list : List (List ℕ) → List (List ℕ)
player_list [] = codes "No players online" ∷ []
player_list (p ∷ players) =
    digits 20 (length (p ∷ players))
    ∷ codes " player(s) online: "
    ∷ join (codes ", ") (p ∷ players)
    ∷ []

unfoldable pub list_players : CommandContext → List (List ℕ) → CommandResult
list_players ctx players = ok (
    with_sender (unwrap_or (player_id ctx.sender) (negsuc 0))
      (success (concat (player_list players))))

unfoldable pub say : List ℕ → CommandResult
say message = done (codes "Message broadcast" ∷ [])

abbrev pub or_no_reason : List ℕ → List ℕ
or_no_reason [] = codes "No reason given"
or_no_reason (c ∷ cs) = c ∷ cs

unfoldable pub kick_player : List ℕ → List ℕ → CommandResult
kick_player target reason =
    done (codes "Kicked player '" ∷ target ∷ codes "' for: " ∷ or_no_reason reason ∷ [])

unfoldable pub give : List ℕ → List ℕ → ℕ → CommandResult
give target item amount = done (
    codes "Gave "
    ∷ digits 20 amount
    ∷ codes " "
    ∷ item
    ∷ codes " "
    ∷ (if amount == 1 then [] else codes "items")
    ∷ codes " to "
    ∷ or_yourself target
    ∷ [])

unfoldable pub time_set : ℕ → CommandResult
time_set time = done (codes "Set time to " ∷ digits 20 time ∷ [])

unfoldable pub kill : List ℕ → CommandResult
kill target = done (codes "Killed " ∷ or_yourself target ∷ [])

unfoldable pub feed : List ℕ → ℕ → CommandResult
feed target amount =
    done
      (codes "Fed " ∷ or_yourself target ∷ codes " with " ∷ digits 20 amount ∷ codes " points" ∷ [])

abbrev pub triple : List ℕ → List ℕ → List ℕ → List (List ℕ)
triple x y z = codes "(" ∷ x ∷ codes ", " ∷ y ∷ codes ", " ∷ z ∷ codes ")" ∷ []

unfoldable pub set_spawn : ℤ → ℤ → ℤ → CommandResult
set_spawn x y z = done (codes "Set spawn point to " ∷ triple (decimal x) (decimal y) (decimal z))

unfoldable pub clear_inventory : List ℕ → CommandResult
clear_inventory target = done (codes "Cleared inventory of " ∷ or_yourself target ∷ [])

unfoldable pub effect : List ℕ → List ℕ → ℕ → CommandResult
effect target name duration = done (
    codes "Gave "
    ∷ or_yourself target
    ∷ codes " "
    ∷ name
    ∷ codes " effect for "
    ∷ digits 20 duration
    ∷ codes " seconds"
    ∷ [])

abbrev pub valid_modes : List (List ℕ)
valid_modes = codes "survival" ∷ codes "creative" ∷ codes "adventure" ∷ codes "spectator" ∷ []

abbrev pub valid_levels : List (List ℕ)
valid_levels = codes "peaceful" ∷ codes "easy" ∷ codes "normal" ∷ codes "hard" ∷ []

abbrev pub valid_weather : List (List ℕ)
valid_weather = codes "clear" ∷ codes "rain" ∷ codes "thunder" ∷ []

module _ (t : TextOps) where
  -- `!valid.contains(&word.to_lowercase())`, with the answer that names the valid words.
  abbrev pub is_valid : List (List ℕ) → List ℕ → Bool
  is_valid valid word = any (same_text (to_lowercase t word)) valid

  abbrev pub refusal : List ℕ → List (List ℕ) → List ℕ → CommandResult
  refusal kind valid word = invalid (
      codes "Invalid "
      ∷ kind
      ∷ codes " '"
      ∷ word
      ∷ codes "'. Valid: "
      ∷ join (codes ", ") valid
      ∷ [])

  unfoldable pub gamemode : List ℕ → List ℕ → CommandResult
  unfolding to_lowercase
  gamemode mode target =
      if is_valid valid_modes mode
      then done (codes "Set gamemode of " ∷ or_yourself target ∷ codes " to " ∷ mode ∷ [])
      else refusal (codes "gamemode") valid_modes mode

  unfoldable pub difficulty : List ℕ → CommandResult
  unfolding to_lowercase
  difficulty level =
      if is_valid valid_levels level
      then done (codes "Set difficulty to " ∷ level ∷ [])
      else refusal (codes "difficulty") valid_levels level

  unfoldable pub weather : List ℕ → CommandResult
  unfolding to_lowercase
  weather weather_type =
      if is_valid valid_weather weather_type
      then done (codes "Set weather to " ∷ weather_type ∷ [])
      else refusal (codes "weather") valid_weather weather_type

  unfoldable pub teleport : List ℕ → ℕ → ℕ → ℕ → CommandResult
  teleport target x y z = done (
      codes "Teleported "
      ∷ target
      ∷ codes " to "
      ∷ triple (t.show_f64 x) (t.show_f64 y) (t.show_f64 z))

  unfoldable pub spawn_entity : List ℕ → ℕ → ℕ → ℕ → CommandResult
  spawn_entity entity_type x y z = done (
      codes "Spawned "
      ∷ entity_type
      ∷ codes " at "
      ∷ triple (t.show_f64 x) (t.show_f64 y) (t.show_f64 z))

  unfoldable pub heal : List ℕ → ℕ → CommandResult
  heal target amount = done (
      codes "Healed "
      ∷ or_yourself target
      ∷ codes " for "
      ∷ t.show_f32 amount
      ∷ codes " hearts"
      ∷ [])
