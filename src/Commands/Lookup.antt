-- ===== src/Commands/Lookup.antt =====
-- Which command a line runs, in the registry of crates/commands/src/lib.rs.
use rust_mine.Base.{ℕ, ◌≡◌, refl, ap, ◌∙◌, List, [], ◌∷◌, All}
use rust_mine.Base.Assoc.{lookup-insert, same_refl}
use rust_mine.Commands.{CommandSender, CommandContext, CommandInfo, text_eq}
use rust_mine.Commands.Parser.{TextOps, to_lowercase}
use rust_mine.Commands.Registry.{
  Executor, CommandRegistry, register, find_executor, execute, execute_parsed, execute_raw,
}
use rust_mine.Commands.Parsing.{IsPart, render, parse-render}

module _ (t : TextOps) (r : CommandRegistry) (info : CommandInfo) (executor : Executor) where
  execute-register :
      (ctx : CommandContext)
      → to_lowercase t ctx.label ≡ info.name
      → execute t (register info executor r) ctx ≡ executor ctx
  unfolding execute find_executor register
  execute-register ctx e =
      rw (e, lookup-insert info.name info.name executor r.commands, same_refl info.name) refl

-- A line of a slash, a label and arguments in double quotes, all not empty and without double
-- quotes, runs the command that was registered last under the label's lower case, with exactly
-- those arguments, whoever the sender is.
pub execute_raw-register :
    (t : TextOps) (r : CommandRegistry) (info : CommandInfo) (executor : Executor)
    (sender : CommandSender) (label : List ℕ) (args : List (List ℕ))
    → All IsPart (label ∷ args)
    → to_lowercase t label ≡ info.name
    → execute_raw t (register info executor r) (render label args) sender
      ≡ executor (record { sender = sender; args = args; label = label })
unfolding execute_raw
execute_raw-register t r info executor sender [] args h e = absurd h.0
execute_raw-register t r info executor sender (c ∷ cs) args h e =
    ap (execute_parsed t (register info executor r) sender) (parse-render (c ∷ cs) args h)
    ∙ execute-register t r info executor (record { sender = sender; args = args; label = c ∷ cs }) e
