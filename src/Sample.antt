-- ===== src/Sample.antt =====
-- The agent of docker/sample_server.py. How Python writes a value into text, `str(ua)`, is a parameter.
-- The half second that `ping` sleeps for a slow user agent changes no result and is left out.
pub mod Ping
pub mod Acknowledged
pub mod Session
mod Tests
use spoe_forge.Prelude.{Bool, true, false, ◌&&◌, ◌||◌, ◌==◌, List, [], ◌∷◌, ◌++◌, if◌then◌else◌}
use spoe_forge.Prelude.Text.{Text, codes}
use spoe_forge.Spop.Result.{Result, ok, err, type_error}
use spoe_forge.Spop.Types.{Value, Action, ActionScope, set_var_action}
use spoe_forge.Server.Configuration.{default_max_frame_size, default_max_concurrent_frames}
use spoe_forge.Server.Handler.{truthy}
use spoe_forge.Agent.{AgentContext, Outcome, Returned, MessageHandlerFunc, get_arg}
use spoe_forge.Forge.{SpoeForge, init, message}

unfoldable pub starts_with : Text → Text → Bool
starts_with [] t = true
starts_with (c ∷ s) [] = false
starts_with (c ∷ s) (d ∷ t) = (c == d) && starts_with s t

-- `s in t`
unfoldable pub is_in : Text → Text → Bool
unfolding starts_with
is_in s [] = starts_with s []
is_in s (d ∷ t) = starts_with s (d ∷ t) || is_in s t

-- `"slow" in ua`, which only text and containers of text allow.
abbrev pub slow_in : Value → Result Bool
slow_in (Value.str s) = ok (is_in (codes "slow") s)
slow_in _ = err type_error

abbrev pub message_name : Text
message_name = codes "test-ping"

-- The action of an answer.
abbrev pub spoe_arg : (Value → Text) → Value → Action
spoe_arg text_of ua =
    set_var_action ActionScope.request (codes "spoe_arg")
      (Value.str (codes "ua was: " ++ text_of ua))

abbrev pub replied : (Value → Text) → Value → Result Bool → Outcome
replied text_of ua (ok slow) = Outcome.returned (Returned.actions (spoe_arg text_of ua ∷ []))
replied text_of ua (err e) = Outcome.raised

-- The condition `ua and "slow" in ua` looks for "slow" in a value that counts as true only.
unfoldable pub ping : (Value → Text) → MessageHandlerFunc
unfolding get_arg is_in
ping text_of ctx =
    let ua = get_arg ctx (codes "ua") Value.null in
    replied text_of ua (if truthy ua then slow_in ua else ok false)

abbrev pub sample_agent : SpoeForge
unfolding init
sample_agent = init (codes "sample-agent") default_max_frame_size true default_max_concurrent_frames

-- The agent with its handler.
unfoldable pub agent : (Value → Text) → SpoeForge
unfolding message ping
agent text_of = (message sample_agent message_name (ping text_of)).0
