-- ===== src/Server/Configuration/Versions.antt =====
-- Which versions of HAProxy the agent accepts.
use spoe_forge.Prelude.{
  ◌≡◌, ◌↔◌, ◌⊎◌, inl, inr, refl, ap, ◌∙◌, arith, true, List, [], ◌∷◌, Bool-cases,
}
use spoe_forge.Prelude.Int.{ℤ, pos, negsuc, ◌≤ℤ◌}
use spoe_forge.Prelude.Text.{Text}
use spoe_forge.Spop.Result.{Result, ok, err}
use spoe_forge.Spop.SpopList.{split}
use spoe_forge.Server.Configuration.{
  spoe_version, parse_version, trim_start, trim_end, accepts, any_version, eq_ℤ,
}

abbrev pub AnyOf : (Text → Type 0) → List Text → Type 0
AnyOf P [] = ⊥
AnyOf P (s ∷ ss) = P s ⊎ AnyOf P ss

-- A version 2.minor, whose minor is not below that of the agent's 2.0.
abbrev pub Accepted : Text → Type 0
Accepted version = (minor : ℤ) × (parse_version version ≡ ok (pos 2, minor)) × (pos 0 ≤ℤ minor)

pub own_version : parse_version spoe_version ≡ ok (pos 2, pos 0)
unfolding parse_version trim_start trim_end split
own_version = refl

major_two : (a : ℤ) → eq_ℤ (pos 2) a ≡ true → a ≡ pos 2
major_two (pos n) h = ap pos (ground arith)
major_two (negsuc n) h = absurd (ground arith)

accepts→Accepted :
    (version : Text) (r : Result (ℤ × ℤ))
    → parse_version version ≡ r
    → accepts (pos 2, pos 0) r ≡ true
    → Accepted version
accepts→Accepted version (err e) p h = cc
accepts→Accepted version (ok (major, minor)) p h = elim (Bool-cases (eq_ℤ (pos 2) major)) [
  | inl same ↦ (minor, p ∙ ap (λ m. ok (m, minor)) (major_two major same), ground arith)
  | inr other ↦ absurd (ground arith)
]

Accepted→accepts :
    (version : Text) → Accepted version → accepts (pos 2, pos 0) (parse_version version) ≡ true
Accepted→accepts version (minor, p, h) = rw p (ground arith)

any_version→AnyOf :
    (versions : List Text) → any_version (pos 2, pos 0) versions ≡ true → AnyOf Accepted versions
unfolding any_version
any_version→AnyOf [] h = cc
any_version→AnyOf (v ∷ vs) h = elim (Bool-cases (accepts (pos 2, pos 0) (parse_version v))) [
  | inl this ↦ inl (accepts→Accepted v (parse_version v) refl this)
  | inr other ↦ inr (any_version→AnyOf vs (rw other at h))
]

AnyOf→any_version :
    (versions : List Text) → AnyOf Accepted versions → any_version (pos 2, pos 0) versions ≡ true
unfolding any_version
AnyOf→any_version [] h = absurd h
AnyOf→any_version (v ∷ vs) (inl a) = rw (Accepted→accepts v a)
AnyOf→any_version (v ∷ vs) (inr r) = elim (Bool-cases (accepts (pos 2, pos 0) (parse_version v))) [
  | inl this ↦ rw this
  | inr other ↦ rw other (AnyOf→any_version vs r)
]

pub any_version_iff :
    (versions : List Text) → (any_version (pos 2, pos 0) versions ≡ true) ↔ AnyOf Accepted versions
any_version_iff versions = (any_version→AnyOf versions, AnyOf→any_version versions)
