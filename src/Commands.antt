-- ===== src/Commands.antt =====
-- crates/commands/src/lib.rs: the types. A `String` is the list of its characters.
pub mod Parser
pub mod Builtins
pub mod Registry
pub mod Parsing
pub mod Lookup
pub mod Found
mod Tests
use rust_mine.Base.{
  ℕ, zero, suc, ◌+◌, ◌-◌, ◌*◌, ◌^◌, leb, ltb, ◌==◌, ==_iff, ◌&&◌, ◌||◌, not, if◌then◌else◌, Bool,
  true, false, ◌≡◌, ◌↔◌, List, [], ◌∷◌, ◌++◌, map, Option, none, some, arith,
}
use mathlib.Core.List.{reverse}
use rust_mine.Base.Int.{ℤ, pos, negsuc, sub_ℕ}
use rust_mine.Base.Text.{codes}
use rust_mine.Base.Assoc.{KeyEq}
use rust_mine.Base.Result.{Result}

pub data CommandError : Type 0 where
  unknown_command invalid_arguments permission_denied player_not_found : List ℕ → CommandError

pub data CommandSender : Type 0 where
  player : ℤ → CommandSender
  console command_block : CommandSender

abbrev pub is_player : CommandSender → Bool
is_player (player id) = true
is_player _ = false

abbrev pub is_console : CommandSender → Bool
is_console console = true
is_console _ = false

abbrev pub player_id : CommandSender → Option ℤ
player_id (player id) = some id
player_id _ = none

pub record CommandContext : Type 0 where
  pub sender : CommandSender
  pub args : List (List ℕ)
  pub label : List ℕ

abbrev pub player_name : CommandSender → List ℕ → List ℕ
player_name (player id) fallback = fallback
player_name console fallback = codes "Console"
player_name command_block fallback = codes "CommandBlock"

pub record CommandOutput : Type 0 where
  pub is_success : Bool
  pub message : List ℕ
  pub sender_id : Option ℤ

-- `CommandOutput::success`, `error` and `with_sender`.
abbrev pub success : List ℕ → CommandOutput
success message = record { is_success = true; message = message; sender_id = none }

abbrev pub error : List ℕ → CommandOutput
error message = record { is_success = false; message = message; sender_id = none }

abbrev pub with_sender : ℤ → CommandOutput → CommandOutput
with_sender id out = record out { sender_id = some id }

abbrev pub CommandResult : Type 0
CommandResult = Result CommandError CommandOutput

pub data CommandPermission : Type 0 where
  everyone game_master admin console_only : CommandPermission

abbrev pub permission_from : ℕ → CommandPermission
permission_from v =
    if v == 0
    then everyone
    else if v == 1
    then game_master
    else if v == 2
    then admin
    else console_only

pub record CommandInfo : Type 0 where
  pub name : List ℕ
  pub description : List ℕ
  pub usage : List ℕ
  pub permission : CommandPermission
  pub aliases : List (List ℕ)

-- `CommandInfo::new` with the builder calls that follow it.
abbrev pub command_info : List ℕ → List (List ℕ) → List ℕ → List ℕ → CommandPermission → CommandInfo
command_info name aliases description usage permission = record {
  name = name;
  description = description;
  usage = usage;
  permission = permission;
  aliases = aliases;
}

-- Texts are compared character by character.
abbrev pub same_text : List ℕ → List ℕ → Bool
same_text [] [] = true
same_text [] (d ∷ ds) = false
same_text (c ∷ cs) [] = false
same_text (c ∷ cs) (d ∷ ds) = c == d && same_text cs ds

pub same_text_iff : (s t : List ℕ) → (same_text s t ≡ true) ↔ (s ≡ t)
same_text_iff [] [] = (λ h. ground arith, λ h. ground arith)
same_text_iff [] (d ∷ ds) = (λ h. ground arith, λ h. ground arith)
same_text_iff (c ∷ cs) [] = (λ h. ground arith, λ h. ground arith)
same_text_iff (c ∷ cs) (d ∷ ds) =
    (λ h. ground (arith, same_text_iff cs ds), λ h. ground (arith, same_text_iff cs ds))

instance abbrev pub text_eq : KeyEq (List ℕ)
text_eq = record { same = same_text; same_iff = same_text_iff }
