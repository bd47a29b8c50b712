-- ===== src/Agent/Tests.antt =====
-- The dispatch run on a registry of two handlers, one of which raises.
use spoe_forge.Prelude.{◌≡◌, refl, [], ◌∷◌, ◌++◌}
use spoe_forge.Prelude.Int.{pos}
use spoe_forge.Prelude.Text.{codes, text_eq}
use spoe_forge.Prelude.Dict.{get, put}
use spoe_forge.Spop.Types.{Value, set_var_action, ActionScope, Messages}
use spoe_forge.Agent.{
  MessageHandlerFunc, Outcome, Returned, AgentRegistry, empty_registry, register, handle_message,
  notify_handler, notify_loop, get_arg,
}
use spoe_forge.Agent.Dispatch.{GivesNothing, without, failing_handler}

-- Answers with the argument `ip`.
abbrev score_handler : MessageHandlerFunc
score_handler ctx = Outcome.returned (
    Returned.actions
      (set_var_action ActionScope.session (codes "ip") (get_arg ctx (codes "ip") Value.null) ∷ []))

abbrev raising_handler : MessageHandlerFunc
raising_handler ctx = Outcome.raised

abbrev scores : AgentRegistry
scores = register empty_registry (codes "score") score_handler

abbrev score_message : Messages
score_message = (codes "score", (codes "ip", Value.int (pos 7)) ∷ []) ∷ []

abbrev log_message : Messages
log_message = (codes "log", []) ∷ []

both_run :
    notify_handler (register scores (codes "log") raising_handler) (log_message ++ score_message)
    ≡ set_var_action ActionScope.session (codes "ip") (Value.int (pos 7)) ∷ []
unfolding notify_handler notify_loop handle_message register get put get_arg text_eq
both_run = refl

raising-GivesNothing : GivesNothing raising_handler
raising-GivesNothing = λ ctx. refl

failing_handler_example :
    notify_handler (register scores (codes "log") raising_handler) (log_message ++ score_message)
    ≡ notify_handler scores (without (codes "log") (log_message ++ score_message))
failing_handler_example =
    failing_handler scores (codes "log") raising_handler (log_message ++ score_message)
      raising-GivesNothing
