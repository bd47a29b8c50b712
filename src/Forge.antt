-- ===== src/Forge.antt =====
-- `SpoeForge` of spoe_forge/spoe_forge.py: an agent, the handlers that are registered with it, and the
-- connections that it serves. Opening the port and running the event loop are asyncio's.
pub mod Handlers
pub mod Session
pub mod Serve
mod Tests
use spoe_forge.Prelude.{ℕ, Bool, false, List, [], ◌∷◌}
use spoe_forge.Prelude.Text.{Text}
use spoe_forge.Spop.Result.{Result, ok}
use spoe_forge.Spop.Types.{Messages, Action}
use spoe_forge.Spop.Frame.Codec.{Reader}
use spoe_forge.Server.Configuration.{fresh, default_max_frame_size, default_max_concurrent_frames}
use spoe_forge.Server.Connection.{Connection, Writer}
use spoe_forge.Server.Core.{Failure, Ends}
use spoe_forge.Agent.{MessageHandlerFunc, AgentRegistry, empty_registry, register, notify_handler}

-- `max_frame_size` and `max_concurrent_frames` are counts; the types of the program admit any integer.
pub record SpoeForge : Type 0 where
  pub name : Text
  pub registry : AgentRegistry
  pub max_frame_size : ℕ
  pub debug : Bool
  pub max_concurrent_frames : ℕ

unfoldable pub init : Text → ℕ → Bool → ℕ → SpoeForge
init name max_frame_size debug max_concurrent_frames = record {
  name = name;
  registry = empty_registry;
  max_frame_size = max_frame_size;
  debug = debug;
  max_concurrent_frames = max_concurrent_frames;
}

-- `SpoeForge(name)`
abbrev pub with_defaults : Text → SpoeForge
unfolding init
with_defaults name = init name default_max_frame_size false default_max_concurrent_frames

-- `@agent.message(message)` on the function `func`, which it gives back as it is.
unfoldable pub message : SpoeForge → Text → MessageHandlerFunc → SpoeForge × MessageHandlerFunc
unfolding register
message agent message_name func =
    (record agent { registry = register agent.registry message_name func }, func)

-- `_notify_handler`: it raises nothing, since `handle_message` catches what a handler raises.
unfoldable pub answers_of : SpoeForge → Messages → Result (List Action)
unfolding notify_handler
answers_of agent messages = ok (notify_handler agent.registry messages)

-- `_handler`: every connection is handled with a configuration of its own.
unfoldable pub handler : SpoeForge → Reader → Writer → Connection
handler agent reader writer = record {
  config = fresh agent.max_frame_size agent.max_concurrent_frames;
  reader = reader;
  writer = writer;
}

-- How the task group of a connection to the agent can end.
abbrev pub Handles : SpoeForge → Reader → Writer → List Failure → Connection → Type 0
Handles agent reader writer fs d = Ends (answers_of agent) (handler agent reader writer) fs d
