-- ===== src/Server/Configuration/Negotiation.antt =====
-- What `negotiate_server_compatibility` of spoe_forge/server/configuration.py agrees on.
use spoe_forge.Prelude.{
  ℕ, ◌≤◌, ◌≡◌, ◌↔◌, inl, inr, refl, arith, true, false, List, [], ◌∷◌, Bool-cases, if◌then◌else◌,
}
use spoe_forge.Prelude.Int.{ℤ, pos, ◌≤ℤ◌, ltb_ℤ, leb_ℤ, min_ℤ}
use spoe_forge.Prelude.Text.{Text}
use spoe_forge.Spop.Result.{ok}
use spoe_forge.Spop.Types.{Value}
use spoe_forge.Server.Configuration.{
  spoe_version, pipelining, any_version, ServerConfiguration, fresh, mem_text, common,
  negotiate_server_compatibility, find_common_capabilities, check_version_compatibility,
  find_max_frame_size,
}
use spoe_forge.Server.Configuration.Versions.{AnyOf, Accepted, own_version, any_version_iff}

-- The configuration that a negotiation ends with.
abbrev pub agreement : ℕ → ℕ → List Text → ℤ → List Text → ServerConfiguration
agreement size concurrent versions ha_size ha_capabilities = record {
  server_compatible =
      if leb_ℤ (min_ℤ ha_size (pos size)) (pos 0)
      then false
      else any_version (pos 2, pos 0) versions;
  max_frame_size = Value.int (min_ℤ ha_size (pos size));
  max_concurrent_frames = concurrent;
  capabilities = if mem_text pipelining ha_capabilities then pipelining ∷ [] else [];
  version = spoe_version;
}

pub negotiate-agreement :
    (size concurrent : ℕ) (versions : List Text) (ha_size : ℤ) (ha_capabilities : List Text)
    → negotiate_server_compatibility
        (fresh size concurrent)
        versions
        (Value.int ha_size)
        ha_capabilities
      ≡ ok (agreement size concurrent versions ha_size ha_capabilities)
unfolding negotiate_server_compatibility check_version_compatibility find_max_frame_size
    find_common_capabilities common
negotiate-agreement size concurrent versions ha_size ha_capabilities =
    elim (Bool-cases (ltb_ℤ (pos size) ha_size)) [
      | inl less ↦ rw (own_version, less)
      | inr more ↦ rw (own_version, more)
    ]

pub compatible_iff :
    (size concurrent : ℕ) (versions : List Text) (ha_size : ℤ) (caps : List Text)
    → ((agreement size concurrent versions ha_size caps).server_compatible ≡ true)
      ↔ (AnyOf Accepted versions × (pos 1 ≤ℤ ha_size) × (1 ≤ size))
compatible_iff size concurrent versions ha_size caps =
    elim (Bool-cases (leb_ℤ (min_ℤ ha_size (pos size)) (pos 0))) [
      | inl low ↦ rw low (λ h. cc, λ (_, a, b). absurd (ground arith))
      | inr high ↦ rw high (
        λ h. ((any_version_iff versions).0 h, ground arith, ground arith),
        λ (v, a, b). (any_version_iff versions).1 v,
      )
    ]

-- Negotiation with a peer that sends a number for its frame size always ends with a configuration:
-- it is compatible exactly when the peer lists a version 2.minor with a minor of 0 or more and both
-- frame sizes are positive; the frame size is the smaller one; pipelining is on exactly when the peer
-- lists it, and no other capability is; the version and the concurrency bound stay.
pub negotiation :
    (size concurrent : ℕ) (versions : List Text) (ha_size : ℤ) (caps : List Text)
    → (c : ServerConfiguration) × (negotiate_server_compatibility
          (fresh size concurrent)
          versions
          (Value.int ha_size)
          caps
        ≡ ok c)
      × ((c.server_compatible ≡ true) ↔ (AnyOf Accepted versions × (pos 1 ≤ℤ ha_size) × (1 ≤ size)))
      × (c.max_frame_size ≡ Value.int (min_ℤ ha_size (pos size)))
      × (c.capabilities ≡ (if mem_text pipelining caps then pipelining ∷ [] else []))
      × (c.max_concurrent_frames ≡ concurrent)
      × (c.version ≡ spoe_version)
negotiation size concurrent versions ha_size caps = (
  agreement size concurrent versions ha_size caps,
  negotiate-agreement size concurrent versions ha_size caps,
  compatible_iff size concurrent versions ha_size caps,
  refl,
  refl,
  refl,
  refl,
)
