-- ===== src/Server/Configuration/Limits.antt =====
-- The frame sizes of spoe_forge/server/configuration.py before and after a negotiation.
use spoe_forge.Prelude.{◌≡◌, sym, ap, ◌∙◌, inl, inr, arith, List, Bool-cases}
use spoe_forge.Prelude.Int.{ℤ, ◌≤ℤ◌, ltb_ℤ}
use spoe_forge.Prelude.Text.{Text}
use spoe_forge.Spop.Result.{ok, >>=-eq-ok}
use spoe_forge.Spop.Types.{Value}
use spoe_forge.Server.Configuration.{
  ServerConfiguration, number_of, min_value, find_max_frame_size, find_common_capabilities,
  check_version_compatibility, negotiate_server_compatibility, parse_version,
}

-- The smaller of two sizes is a number that is not above the second.
pub min_value_lem :
    (a b size : Value)
    → min_value a b ≡ ok size
    → (z y : ℤ) × (number_of size ≡ ok z) × (number_of b ≡ ok y) × (z ≤ℤ y)
min_value_lem a b size h =
    let (x, p, h') = >>=-eq-ok (number_of a) _ h in
    let (y, q, h'') = >>=-eq-ok (number_of b) _ h' in
    elim (Bool-cases (ltb_ℤ y x)) [
      | inl less ↦
          let e : b ≡ size = (let k = rw less at h'' in cc) in (y, y, rw (sym e) q, q, omega arith)
      | inr more ↦
          let e : a ≡ size = (let k = rw more at h'' in cc) in (x, y, rw (sym e) p, q, ground arith)
    ]

-- The check of the versions changes no limit.
pub checked_lem :
    (old new : ServerConfiguration) (versions : List Text)
    → check_version_compatibility old versions ≡ ok new
    → (new.max_frame_size ≡ old.max_frame_size)
      × (new.max_concurrent_frames ≡ old.max_concurrent_frames)
unfolding check_version_compatibility
checked_lem old new versions h =
    let (ver, p, e) = >>=-eq-ok (parse_version old.version) _ h in (cc, cc)

-- A negotiation leaves a size that is not above the size before.
pub negotiate-smaller :
    (old new : ServerConfiguration) (versions caps : List Text) (v : Value)
    → negotiate_server_compatibility old versions v caps ≡ ok new
    → (z y : ℤ) × (number_of new.max_frame_size ≡ ok z)
      × (number_of old.max_frame_size ≡ ok y)
      × (z ≤ℤ y)
unfolding negotiate_server_compatibility find_max_frame_size find_common_capabilities
negotiate-smaller old new versions caps v h =
    let (checked, p, h') = >>=-eq-ok (check_version_compatibility old versions) _ h in
    let (sized, q, h'') = >>=-eq-ok (find_max_frame_size checked v) _ h' in
    let (size, r, q') = >>=-eq-ok (min_value v checked.max_frame_size) _ q in
    let (n, s, q'') = >>=-eq-ok (number_of size) _ q' in
    let (same, bound) = checked_lem old checked versions p in
    let (z, y, k, l, low) = min_value_lem v checked.max_frame_size size r in
    let e : sized.max_frame_size ≡ size = cc in
    let e' : new.max_frame_size ≡ sized.max_frame_size = cc in
    (z, y, ap number_of (e' ∙ e) ∙ k, ap number_of (sym same) ∙ l, low)
