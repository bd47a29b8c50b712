-- ===== src/Cli.antt =====
-- The command line health check, spoe_forge/cli.py. What comes back from the network is an argument.
pub mod HealthCheck
pub mod Verdict
pub mod Main
mod Tests
use spoe_forge.Prelude.{ℕ, ◌*◌, Bool, true, false, [], ◌∷◌, Option, none, some, if◌then◌else◌}
use spoe_forge.Prelude.Int.{pos}
use spoe_forge.Prelude.Text.{codes}
use spoe_forge.Prelude.Buffer.{Bytes}
use spoe_forge.Spop.Result.{
  Exc, Result, ok, err, decode_error, encode_error, eof_error, frame_too_big, forge_error,
  connection_error, ◌>>=◌,
}
use spoe_forge.Spop.Types.{Value, FrameType}
use spoe_forge.Spop.Frame.{Frame}
use spoe_forge.Spop.Frame.Construct.{Kwargs, no_kwargs, construct}
use spoe_forge.Spop.Frame.Codec.{Reader, encode, decode}

abbrev pub default_frame_size : ℕ
default_frame_size = 1024 * 4

-- The connection that `asyncio.open_connection` made: whether `drain` raises a `ConnectionError`,
-- whether `wait_closed` does, and what the peer sends back on these bytes. `none` stands for an answer
-- that is not complete within the five seconds.
pub record Link : Type 0 where
  pub broken : Bool
  pub close_fails : Bool
  pub reply : Bytes → Option Reader

abbrev pub health_kwargs : Kwargs
health_kwargs = record no_kwargs {
  supported_versions = some (codes "2.0" ∷ []);
  max_frame_size = some (Value.int (pos default_frame_size));
  capabilities = some (codes "pipelining" ∷ []);
  healthcheck = some (Value.bool true);
}

abbrev pub is_agent_hello : FrameType → Bool
is_agent_hello FrameType.agent_hello = true
is_agent_hello _ = false

-- From the frame that came back on.
abbrev pub judge : Bool → Result Frame → Result Bool
judge close_fails (err e) = err e
judge close_fails (ok frame) =
    if close_fails then err connection_error else ok (is_agent_hello frame.frame_type)

abbrev pub await_hello : Bool → Option Reader → Result Bool
await_hello close_fails none = ok false
await_hello close_fails (some reader) = judge close_fails (decode reader (pos default_frame_size)).0

-- The exchange on an open connection.
abbrev pub exchange : Link → Result Bool
exchange link = do
  haproxy_hello ← construct FrameType.haproxy_hello (pos 0) (pos 0) health_kwargs
  bytes ← encode haproxy_hello (pos default_frame_size)
  if link.broken then err connection_error else await_hello link.close_fails (link.reply bytes)

-- `except (OSError, asyncio.TimeoutError, SpoeForgeError)`
abbrev pub is_expected : Exc → Bool
is_expected decode_error = true
is_expected encode_error = true
is_expected eof_error = true
is_expected frame_too_big = true
is_expected forge_error = true
is_expected connection_error = true
is_expected _ = false

abbrev pub handled : Result Bool → Result Bool
handled (ok b) = ok b
handled (err e) = if is_expected e then ok false else err e

-- `healthcheck`; `none` where no connection could be opened within the five seconds.
unfoldable pub healthcheck : Option Link → Result Bool
unfolding construct encode decode
healthcheck none = ok false
healthcheck (some link) = handled (exchange link)

-- The exit code of the command.
unfoldable pub healthcheck_command : Option Link → Result ℕ
unfolding healthcheck
healthcheck_command link = do result ← healthcheck link; if result then ok 0 else ok 1
