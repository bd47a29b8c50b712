-- ===== src/Cli/Main/Status.antt =====
-- The exit status of `main` of spoe_forge/cli.py, and what it logs.
use spoe_forge.Prelude.{
  ℕ, ◌≡◌, ◌↔◌, ◌⊎◌, inl, inr, refl, ap, sym, subst, ◌∙◌, arith, Bool, true, false, List, [], ◌∷◌,
  Option, none, some, if◌then◌else◌,
}
use spoe_forge.Prelude.Int.{ℤ}
use spoe_forge.Prelude.Text.{Text}
use spoe_forge.Spop.Result.{Exc, Result, ok, err, attribute_error, type_error, ◌>>=◌}
use spoe_forge.Log.{Levels, Chain}
use spoe_forge.Cli.{Link, healthcheck, healthcheck_command}
use spoe_forge.Cli.Verdict.{Greeted, DeliversBytes, healthcheck_verdict}
use spoe_forge.Cli.Main.{
  Namespace, system_exit, no_command, healthcheck_args, ArgumentParser, Network, Level, info, error,
  records, check, run_command, main,
}

-- The peers deliver bytes.
abbrev pub Delivers : Network → Type 0
Delivers network =
    (host : Text) (port : ℤ) (link : Link) → network host port ≡ ok (some link) → DeliversBytes link

-- The status, with the only record.
abbrev pub Reports : Bool → Link → List Level × Result ℕ → Type 0
Reports quiet link r =
    ((r ≡ (if quiet then [] else info ∷ [], ok 0)) × Greeted link)
    ⊎ ((r ≡ (if quiet then [] else error ∷ [], ok 1)) × ¬ Greeted link)
    ⊎ (((r ≡ ([], err attribute_error)) ⊎ (r ≡ ([], err type_error))) × ¬ Greeted link)

abbrev status_of : Result Bool → Result ℕ
status_of r = r >>= λ b. if b then ok 0 else ok 1

same_status : (m n : ℕ) → ◌≡◌ {A = Result ℕ} (ok m) (ok n) → m ≡ n
same_status m n p = cc

-- The record goes with the status.
pub recorded_pass :
    (quiet : Bool) (r : Result Bool)
    → status_of r ≡ ok 0
    → records quiet r ≡ (if quiet then [] else info ∷ [])
recorded_pass quiet (ok true) h = refl
recorded_pass quiet (ok false) h = absurd (omega (arith, same_status 1 0 h))
recorded_pass quiet (err e) h = cc

recorded_failure :
    (quiet : Bool) (r : Result Bool)
    → status_of r ≡ ok 1
    → records quiet r ≡ (if quiet then [] else error ∷ [])
recorded_failure quiet (ok true) h = absurd (omega (arith, same_status 0 1 h))
recorded_failure quiet (ok false) h = refl
recorded_failure quiet (err e) h = cc

recorded_raise :
    (quiet : Bool) (r : Result Bool) (e : Exc) → status_of r ≡ err e → records quiet r ≡ []
recorded_raise quiet (ok true) e h = cc
recorded_raise quiet (ok false) e h = cc
recorded_raise quiet (err x) e h = refl

check-Reports :
    (quiet : Bool) (link : Link)
    → DeliversBytes link
    → Reports quiet link (check quiet (ok (some link)))
unfolding healthcheck_command
check-Reports quiet link bytes = elim (healthcheck_verdict link bytes) [
  | inl (p, greeted) ↦ inl (rw (recorded_pass quiet (healthcheck (some link)) p, p) refl, greeted)
  | inr (inl (p, never)) ↦
      inr (inl (rw (recorded_failure quiet (healthcheck (some link)) p, p) refl, never))
  | inr (inr (inl p, never)) ↦ inr (
      inr (
        inl (rw (recorded_raise quiet (healthcheck (some link)) attribute_error p, p) refl),
        never,
      ))
  | inr (inr (inr p, never)) ↦
      inr (
        inr (inr (rw (recorded_raise quiet (healthcheck (some link)) type_error p, p) refl), never))
]

-- The command `healthcheck`, on a connection that delivers bytes: the status is 0 for a greeting and 1
-- without one, with one record in the log, of level INFO or ERROR, or none with `--quiet`; otherwise an
-- AttributeError or a TypeError leaves it without a greeting, and nothing is logged.
pub main-Reports :
    (levels : Levels) (parser : ArgumentParser) (network : Network) (argv : List Text)
    (chain : Chain) (host : Text) (port : ℤ) (quiet : Bool) (link : Link)
    → parser.parse_args argv ≡ healthcheck_args host port quiet
    → network host port ≡ ok (some link)
    → DeliversBytes link
    → Reports quiet link (main levels parser network argv chain).1
unfolding main
main-Reports levels parser network argv chain host port quiet link p q bytes =
    rw (p, q) (check-Reports quiet link bytes)

-- What passes: `--help`, or a greeting.
abbrev pub Passes : Network → Namespace → Type 0
Passes network namespace =
    (namespace ≡ system_exit 0)
    ⊎ ((host : Text) × (port : ℤ) × (quiet : Bool) × (link : Link) × (namespace
          ≡ healthcheck_args host port quiet)
        × (network host port ≡ ok (some link))
        × Greeted link)

Greeted-iff :
    (link : Link) → DeliversBytes link → (healthcheck_command (some link) ≡ ok 0) ↔ Greeted link
Greeted-iff link bytes = elim (healthcheck_verdict link bytes) [
  | inl (p, g) ↦ (λ h. g, λ h. p)
  | inr (inl (p, never)) ↦
      (λ h. absurd (omega (arith, same_status 1 0 (sym p ∙ h))), λ g. absurd (never g))
  | inr (inr (inl p, never)) ↦ (λ h. cc, λ g. absurd (never g))
  | inr (inr (inr p, never)) ↦ (λ h. cc, λ g. absurd (never g))
]

check-passes :
    (network : Network) (host : Text) (port : ℤ) (quiet : Bool) (r : Result (Option Link))
    → Delivers network
    → network host port ≡ r
    → ((check quiet r).1 ≡ ok 0)
      ↔ ((link : Link) × (network host port ≡ ok (some link)) × Greeted link)
unfolding healthcheck_command healthcheck
check-passes network host port quiet (err e) bytes q = (λ h. cc, λ (link, p, g). cc)
check-passes network host port quiet (ok none) bytes q =
    (λ h. absurd (omega (arith, same_status 1 0 h)), λ (link, p, g). cc)
check-passes network host port quiet (ok (some link)) bytes q =
    let both = Greeted-iff link (bytes host port link q) in
    (
      λ h. (link, q, both.0 h),
      λ (link', p, g). let same : link' ≡ link = cc in both.1 (subst Greeted same g),
    )

zero-Passes :
    (network : Network) (namespace : Namespace)
    → Delivers network
    → (run_command network namespace).1 ≡ ok 0
    → Passes network namespace
zero-Passes network (system_exit status) bytes h = inl (ap system_exit (same_status status 0 h))
zero-Passes network no_command bytes h = absurd (omega (arith, same_status 2 0 h))
zero-Passes network (healthcheck_args host port quiet) bytes h =
    let (link, q, g) = (check-passes network host port quiet (network host port) bytes refl).0 h in
    inr (host, port, quiet, link, refl, q, g)

Passes-zero :
    (network : Network) (namespace : Namespace)
    → Delivers network
    → Passes network namespace
    → (run_command network namespace).1 ≡ ok 0
Passes-zero network namespace bytes (inl e) = rw e refl
Passes-zero network namespace bytes (inr (host, port, quiet, link, e, q, g)) =
    rw e ((check-passes network host port quiet (network host port) bytes refl).1 (link, q, g))

-- The documented exit codes.
abbrev pub IsExitCode : ℕ → Type 0
IsExitCode n = (n ≡ 0) ⊎ (n ≡ 1) ⊎ (n ≡ 2)

checked-IsExitCode : (n : ℕ) (r : Result Bool) → status_of r ≡ ok n → IsExitCode n
checked-IsExitCode n (ok true) h = inl (sym (same_status 0 n h))
checked-IsExitCode n (ok false) h = inr (inl (sym (same_status 1 n h)))
checked-IsExitCode n (err e) h = cc

run-IsExitCode :
    (network : Network) (namespace : Namespace) (n : ℕ)
    → ((status : ℕ) → namespace ≡ system_exit status → (status ≡ 0) ⊎ (status ≡ 2))
    → (run_command network namespace).1 ≡ ok n
    → IsExitCode n
unfolding healthcheck_command
run-IsExitCode network (system_exit status) n exits h =
    subst IsExitCode (same_status status n h) (documented (exits status refl))
  where
    documented : (status ≡ 0) ⊎ (status ≡ 2) → IsExitCode status
    documented (inl zero_status) = inl zero_status
    documented (inr two) = inr (inr two)
run-IsExitCode network no_command n exits h = inr (inr (sym (same_status 2 n h)))
run-IsExitCode network (healthcheck_args host port quiet) n exits h = by_link (network host port) h
  where
    by_link : (r : Result (Option Link)) → (check quiet r).1 ≡ ok n → IsExitCode n
    by_link (ok link) k = checked-IsExitCode n (healthcheck link) k
    by_link (err e) k = cc

-- Whatever the command line and the network, where peers deliver bytes: the exit status of the program
-- is 0 exactly after `--help` and after a health check whose peer greeted; it is 0, 1 or 2, if no
-- exception leaves the program; and without arguments it is 2.
pub main_status :
    (levels : Levels) (parser : ArgumentParser) (network : Network) (argv : List Text)
    (chain : Chain)
    → Delivers network
    → (((main levels parser network argv chain).1.1 ≡ ok 0)
        ↔ Passes network (parser.parse_args argv))
      × ((n : ℕ) → (main levels parser network argv chain).1.1 ≡ ok n → IsExitCode n)
      × ((main levels parser network [] chain).1.1 ≡ ok 2)
unfolding main
main_status levels parser network argv chain bytes =
    let namespace = parser.parse_args argv in
    (
      (zero-Passes network namespace bytes, Passes-zero network namespace bytes),
      λ n. run-IsExitCode network namespace n (parser.exit_statuses argv),
      rw parser.no_arguments refl,
    )
