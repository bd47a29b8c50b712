-- ===== src/Cli/Main/Passing.antt =====
-- The command `healthcheck` of spoe_forge/cli.py against the agent itself, from the command line on.
use spoe_forge.Server.Connection.{new_writer}
use spoe_forge.Prelude.{ℕ, ◌≡◌, refl, false, [], ◌∷◌, some, ◌≤◌, ◌<◌, ◌^◌, ◌++◌}
use spoe_forge.Spop.Result.{ok}
use spoe_forge.Log.{Levels, Chain}
use spoe_forge.Cli.{Link, healthcheck, healthcheck_command}
use spoe_forge.Prelude.Text.{codes}
use spoe_forge.Spop.Octets.{octets}
use spoe_forge.Spop.Frame.Codec.{eof}
use spoe_forge.Server.Configuration.{fresh}
use spoe_forge.Server.Handler.{handle_handshake}
use spoe_forge.Server.Handler.Handshake.{connected}
use spoe_forge.Cli.HealthCheck.{check_body, agent_reply, healthcheck_passes}
use spoe_forge.Cli.Main.{default_host, default_port, ArgumentParser, Network, info, main}
use spoe_forge.Cli.Main.Status.{recorded_pass}

-- `spoe-forge healthcheck` against an agent on the default address, with a frame size of 88 bytes or
-- more, and below 4 GiB, on a connection that delivers the answer in time: the agent answers and closes
-- without going on, and the command logs its success and exits with 0.
pub main_healthcheck :
    (levels : Levels) (parser : ArgumentParser) (network : Network) (chain : Chain)
    (size concurrent : ℕ)
    → 88 ≤ size
    → size < 2 ^ 32
    → network default_host default_port
      ≡ ok (
          some (record {
            broken = false;
            close_fails = false;
            reply = λ bytes. some (agent_reply size concurrent bytes);
          }))
    → ((handle_handshake
          (connected (fresh size concurrent) (octets 4 88 ++ check_body) eof new_writer)).0
        ≡ ok false)
      × ((main levels parser network (codes "healthcheck" ∷ []) chain).1 ≡ (info ∷ [], ok 0))
unfolding main healthcheck_command
main_healthcheck levels parser network chain size concurrent low high answers =
    let link : Link = record {
      broken = false;
      close_fails = false;
      reply = λ bytes. some (agent_reply size concurrent bytes);
    } in
    let (closes, passed) = healthcheck_passes size concurrent low high in
    (
      closes,
      rw (parser.defaults, answers)
          (rw (recorded_pass false (healthcheck (some link)) passed, passed) refl),
    )
