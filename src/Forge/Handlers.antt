-- ===== src/Forge/Handlers.antt =====
-- What the handlers that are registered with an agent of spoe_forge/spoe_forge.py return.
use spoe_forge.Prelude.{ℕ, Bool}
use spoe_forge.Prelude.Text.{Text}
use spoe_forge.Spop.Wire.{ActsOnObject}
use spoe_forge.Agent.{MessageHandlerFunc}
use spoe_forge.Agent.Contracts.{Yields, Gives, empty_registry-Yields, register-Yields}
use spoe_forge.Forge.{SpoeForge, init, message}

-- An agent whose handlers return proper actions, whatever messages come.
abbrev pub ReturnsActions : SpoeForge → Type 0
ReturnsActions agent = Yields ActsOnObject agent.registry

pub init-ReturnsActions :
    (name : Text) (size : ℕ) (debug : Bool) (concurrent : ℕ)
    → ReturnsActions (init name size debug concurrent)
unfolding init
init-ReturnsActions name size debug concurrent = empty_registry-Yields ActsOnObject

-- Registering a function that gives proper actions keeps an agent one that returns proper actions.
pub message-ReturnsActions :
    (agent : SpoeForge) (name : Text) (func : MessageHandlerFunc)
    → ReturnsActions agent
    → Gives ActsOnObject func
    → ReturnsActions (message agent name func).0
unfolding message
message-ReturnsActions agent name func h g =
    register-Yields ActsOnObject agent.registry name func h g
