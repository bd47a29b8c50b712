-- ===== src/Agent.antt =====
-- The agent layer, spoe_forge/agent/ and the dispatch of spoe_forge/spoe_forge.py. A handler of the
-- user is a function of its context into what calling it ends with.
pub mod Dispatch
pub mod Contracts
mod Tests
use spoe_forge.Prelude.{Bool, true, false, List, [], ◌∷◌, ◌++◌, Option, none, some, if◌then◌else◌}
use spoe_forge.Prelude.Text.{Text}
use spoe_forge.Prelude.Dict.{Dict, get, contains, put}
use spoe_forge.Spop.Types.{Value, Action, Messages}

pub record AgentContext : Type 0 where
  pub message : Text
  pub args : Dict Value

unfoldable pub get_arg : AgentContext → Text → Value → Value
get_arg ctx arg default = elim (get ctx.args arg) [ none ↦ default | some v ↦ v ]

unfoldable pub get_args : AgentContext → Dict Value
get_args ctx = ctx.args

unfoldable pub has_arg : AgentContext → Text → Bool
has_arg ctx arg = contains ctx.args arg

-- What a handler returns: a list of actions, `None`, or an object of another type.
pub data Returned : Type 0 where
  actions : List Action → Returned
  nothing : Returned
  other : Returned

-- What a call of a handler ends with, awaited or in a thread.
pub data Outcome : Type 0 where
  returned : Returned → Outcome
  raised : Outcome

abbrev pub MessageHandlerFunc : Type 0
MessageHandlerFunc = AgentContext → Outcome

pub record AgentRegistry : Type 0 where
  pub handlers : Dict MessageHandlerFunc

abbrev pub empty_registry : AgentRegistry
empty_registry = record { handlers = [] }

unfoldable pub register : AgentRegistry → Text → MessageHandlerFunc → AgentRegistry
register r message_name handler = record { handlers = put r.handlers message_name handler }

-- `except Exception` yields no actions.
abbrev pub settled : Outcome → Returned
settled (returned v) = v
settled raised = actions []

abbrev pub run_handler : Option MessageHandlerFunc → AgentContext → Returned
run_handler none ctx = actions []
run_handler (some handler) ctx = settled (handler ctx)

unfoldable pub handle_message : AgentRegistry → Text → Dict Value → Returned
handle_message r message args =
    run_handler (get r.handlers message) (record { message = message; args = args })

-- `None` and what is no list count as no actions.
abbrev pub handler_actions : Returned → List Action
handler_actions (actions xs) = xs
handler_actions nothing = []
handler_actions other = []

notify_loop : AgentRegistry → List Action → Messages → List Action
notify_loop r acc [] = acc
notify_loop r acc ((message, args) ∷ messages) =
    notify_loop r (acc ++ handler_actions (handle_message r message args)) messages

-- `SpoeForge._notify_handler`
unfoldable pub notify_handler : AgentRegistry → Messages → List Action
unfolding notify_loop
notify_handler r messages = notify_loop r [] messages
