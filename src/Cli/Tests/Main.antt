-- ===== src/Cli/Tests/Main.antt =====
-- The command line with an agent that refuses.
use spoe_forge.Server.Connection.{new_writer}
use spoe_forge.Prelude.{
  arith, ℕ, ◌≡◌, ◌↔◌, ◌⊎◌, inl, inr, refl, Bool, true, false, List, [], ◌∷◌, some, if◌then◌else◌,
  ◌&&◌, ◌++◌,
}
use spoe_forge.Prelude.Text.{Text, codes, text_eq}
use spoe_forge.Spop.Result.{ok}
use spoe_forge.Log.{Levels, Chain, create_logger}
use spoe_forge.Cli.Main.{
  default_host, default_port, Namespace, system_exit, no_command, healthcheck_args, ArgumentParser,
  Network, main, info,
}
use spoe_forge.Cli.Main.Status.{Delivers, Reports, Passes, main-Reports, main_status, IsExitCode}
use spoe_forge.Spop.Octets.{octets}
use spoe_forge.Spop.Frame.Codec.{eof}
use spoe_forge.Server.Configuration.{fresh}
use spoe_forge.Server.Handler.{handle_handshake}
use spoe_forge.Server.Handler.Handshake.{connected}
use spoe_forge.Cli.HealthCheck.{check_body, agent_reply}
use spoe_forge.Cli.Main.Passing.{main_healthcheck}
use spoe_forge.Cli.Tests.{refusing, refusing-DeliversBytes}

abbrev parse_one : Bool → Bool → Namespace
parse_one command help =
    if command
    then healthcheck_args default_host default_port false
    else if help
    then system_exit 0
    else system_exit 2

abbrev parse_two : Bool → Namespace
parse_two quiet = if quiet then healthcheck_args default_host default_port true else system_exit 2

-- A parser of these arguments only.
abbrev parse : List Text → Namespace
unfolding text_eq
parse [] = no_command
parse (c ∷ []) = parse_one (text_eq c (codes "healthcheck")) (text_eq c (codes "--help"))
parse (c ∷ d ∷ []) = parse_two (text_eq c (codes "healthcheck") && text_eq d (codes "--quiet"))
parse (c ∷ d ∷ e ∷ argv) = system_exit 2

parse-exits :
    (argv : List Text) (status : ℕ) → parse argv ≡ system_exit status → (status ≡ 0) ⊎ (status ≡ 2)
unfolding parse
parse-exits [] status h = cc
parse-exits (c ∷ []) status h = one (text_eq c (codes "healthcheck")) (text_eq c (codes "--help")) h
  where
    one : (a b : Bool) → parse_one a b ≡ system_exit status → (status ≡ 0) ⊎ (status ≡ 2)
    one true b p = cc
    one false true p = inl cc
    one false false p = inr cc
parse-exits (c ∷ d ∷ []) status h =
    two (text_eq c (codes "healthcheck") && text_eq d (codes "--quiet")) h
  where
    two : (a : Bool) → parse_two a ≡ system_exit status → (status ≡ 0) ⊎ (status ≡ 2)
    two true p = cc
    two false p = inr cc
parse-exits (c ∷ d ∷ e ∷ argv) status h = inr cc

abbrev parser : ArgumentParser
unfolding parse text_eq
parser = record {
  parse_args = parse;
  exit_statuses = parse-exits;
  no_arguments = refl;
  defaults = refl;
}

abbrev refuses : Network
refuses host port = ok (some refusing)

refuses-Delivers : Delivers refuses
refuses-Delivers host port link e =
    let same : link ≡ refusing = cc in rw same refusing-DeliversBytes

-- A logger alone.
abbrev levels : Levels
levels = record { effective = λ c. c.logger.level; own = λ c h. refl }

abbrev alone : Chain
alone = record { logger = record { handlers = []; level = 0; propagate = true }; parents = [] }

main_status_example :
    (((main levels parser refuses (codes "healthcheck" ∷ []) alone).1.1 ≡ ok 0)
      ↔ Passes refuses (parser.parse_args (codes "healthcheck" ∷ [])))
    × ((n : ℕ)
        → (main levels parser refuses (codes "healthcheck" ∷ []) alone).1.1 ≡ ok n
        → IsExitCode n)
    × ((main levels parser refuses [] alone).1.1 ≡ ok 2)
main_status_example =
    main_status levels parser refuses (codes "healthcheck" ∷ []) alone refuses-Delivers

main-Reports_example :
    Reports true refusing
      (main levels parser refuses (codes "healthcheck" ∷ codes "--quiet" ∷ []) alone).1
unfolding parser parse text_eq
main-Reports_example =
    main-Reports levels parser refuses (codes "healthcheck" ∷ codes "--quiet" ∷ []) alone
      default_host default_port true refusing refl refl refusing-DeliversBytes

-- Wrong usage ends with 2, and the default handler is added.
wrong_usage : main levels parser refuses (codes "check" ∷ []) alone ≡ (
  record alone { logger = record { handlers = 0 ∷ []; level = 20; propagate = true } },
  ([], ok 2),
)
unfolding main create_logger parser parse text_eq
wrong_usage = refl

-- An agent of the default size on every address.
abbrev serves : Network
serves host port = ok (
    some (record {
      broken = false;
      close_fails = false;
      reply = λ bytes. some (agent_reply 4096 100 bytes);
    }))

main_healthcheck_example :
    ((handle_handshake (connected (fresh 4096 100) (octets 4 88 ++ check_body) eof new_writer)).0
      ≡ ok false)
    × ((main levels parser serves (codes "healthcheck" ∷ []) alone).1 ≡ (info ∷ [], ok 0))
main_healthcheck_example =
    main_healthcheck levels parser serves alone 4096 100 (omega arith) (omega arith) refl
