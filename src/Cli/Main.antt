-- ===== src/Cli/Main.antt =====
-- `main` of spoe_forge/cli.py: the arguments, the health check, the records in the log and the exit
-- status. `argparse` and the network are parameters.
pub mod Status
pub mod Passing
use spoe_forge.Prelude.{ℕ, ◌≡◌, ◌⊎◌, Bool, true, false, List, [], ◌∷◌, Option, none, if◌then◌else◌}
use spoe_forge.Prelude.Int.{ℤ, pos}
use spoe_forge.Prelude.Text.{Text, codes}
use spoe_forge.Spop.Result.{Exc, Result, ok, err}
use spoe_forge.Log.{Levels, Chain, create_logger}
use spoe_forge.Cli.{Link, healthcheck, healthcheck_command}

abbrev pub default_host : Text
default_host = codes "127.0.0.1"

abbrev pub default_port : ℤ
default_port = pos 8500

-- What `parse_args` makes of a command line: it leaves by `SystemExit` with a status, after `--help` or
-- wrong usage; it finds no command, so that `func` is not set; or it finds the command `healthcheck`
-- with its `host`, `port` and `quiet`.
pub data Namespace : Type 0 where
  system_exit : ℕ → Namespace
  no_command : Namespace
  healthcheck_args : Text → ℤ → Bool → Namespace

-- The parser that `main` sets up, by the documentation of `argparse`: it leaves with 0 after `--help` and
-- with 2 on wrong usage, and options that are not given have their defaults.
pub record ArgumentParser : Type 0 where
  pub parse_args : List Text → Namespace
  pub exit_statuses :
      (argv : List Text) (status : ℕ)
      → parse_args argv ≡ system_exit status
      → (status ≡ 0) ⊎ (status ≡ 2)
  pub no_arguments : parse_args [] ≡ no_command
  pub defaults :
      parse_args (codes "healthcheck" ∷ []) ≡ healthcheck_args default_host default_port false

-- `asyncio.open_connection`: a connection; `none` for an `OSError`, or where there is no connection
-- within five seconds; or an exception that `healthcheck` does not catch.
abbrev pub Network : Type 0
Network = Text → ℤ → Result (Option Link)

-- A record that is logged, by its level.
pub data Level : Type 0 where
  info : Level
  error : Level

-- What is logged with this result of `healthcheck`: one record, unless `quiet` is set or an exception
-- leaves it.
abbrev pub records : Bool → Result Bool → List Level
records quiet (err e) = []
records quiet (ok passed) = if quiet then [] else if passed then info ∷ [] else error ∷ []

abbrev pub check : Bool → Result (Option Link) → List Level × Result ℕ
check quiet (err e) = ([], err e)
check quiet (ok link) = (records quiet (healthcheck link), healthcheck_command link)

-- From the arguments on.
abbrev pub run_command : Network → Namespace → List Level × Result ℕ
run_command network (system_exit status) = ([], ok status)
run_command network no_command = ([], ok 2)
run_command network (healthcheck_args host port quiet) = check quiet (network host port)

-- `sys.exit(main())`: the logger, the records and the exit status, or the exception that leaves it.
unfoldable pub main :
    Levels → ArgumentParser → Network → List Text → Chain → Chain × (List Level × Result ℕ)
unfolding create_logger healthcheck healthcheck_command
main levels parser network argv chain =
    (create_logger levels false chain, run_command network (parser.parse_args argv))
