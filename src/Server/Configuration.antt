-- ===== src/Server/Configuration.antt =====
-- spoe_forge/server/configuration.py and spoe_forge/server/constants.py: what a connection negotiates.
pub mod Versions
pub mod Negotiation
pub mod Limits
use spoe_forge.Prelude.{
  ℕ, ◌+◌, ◌-◌, ◌*◌, Bool, true, false, not, ◌&&◌, ◌||◌, List, [], ◌∷◌, leb, ltb, ◌==◌,
  if◌then◌else◌,
}
use spoe_forge.Prelude.Int.{ℤ, pos, negsuc, leb_ℤ, ltb_ℤ}
use spoe_forge.Prelude.Text.{Text, codes, text_eq}
use spoe_forge.Spop.Result.{Exc, Result, ok, err, value_error, type_error, ◌>>=◌}
use spoe_forge.Spop.Types.{Value}
use spoe_forge.Spop.SpopList.{split, is_empty}

abbrev pub spoe_version : Text
spoe_version = codes "2.0"

abbrev pub pipelining : Text
pipelining = codes "pipelining"

abbrev pub spoe_capabilities : List Text
spoe_capabilities = pipelining ∷ []

abbrev pub default_max_frame_size : ℕ
default_max_frame_size = 1024 * 4

abbrev pub default_max_concurrent_frames : ℕ
default_max_concurrent_frames = 100

-- `sys.int_info.default_max_str_digits`
abbrev max_str_digits : ℕ
max_str_digits = 4300

-- The digits of an `int` literal in base ten; a single underscore may stand between two digits.
-- The flag says that the last character was a digit.
digits_loop : ℕ → ℕ → Bool → Text → Result ℕ
digits_loop n count after_digit [] =
    if after_digit && leb count max_str_digits then ok n else err value_error
digits_loop n count after_digit (c ∷ s) =
    let digit = digits_loop (n * 10 + (c - 48)) (count + 1) true s in
    let underscore = digits_loop n count false s in
    if leb 48 c && leb c 57
    then digit
    else if c == 0x5f && after_digit
    then underscore
    else err value_error

abbrev negated : ℕ → ℤ
negated n = if n == 0 then pos 0 else negsuc (n - 1)

signed : Text → Result ℤ
unfolding digits_loop
signed [] = err value_error
signed (c ∷ s) =
    if c == 0x2d
    then (do n ← digits_loop 0 0 false s; ok (negated n))
    else if c == 0x2b
    then (do n ← digits_loop 0 0 false s; ok (pos n))
    else (do n ← digits_loop 0 0 false (c ∷ s); ok (pos n))

-- The white space around an `int` literal: not the separators 0x1c to 0x1f, which `str.strip` takes.
abbrev is_int_space : ℕ → Bool
is_int_space c = leb 0x09 c && leb c 0x0d || c == 0x20 || c == 0x85 || c == 0xa0

trim_start : Text → Text
trim_start [] = []
trim_start (c ∷ s) = if is_int_space c then trim_start s else c ∷ s

trim_end : Text → Text
trim_end [] = []
trim_end (c ∷ s) = let rest = trim_end s in if is_empty rest && is_int_space c then [] else c ∷ rest

-- `int(s)` of latin-1 text, whose only decimal digits are those of ASCII.
unfoldable pub parse_int : Text → Result ℤ
unfolding signed trim_start trim_end
parse_int s = signed (trim_end (trim_start s))

-- `major, minor = ...` of a list that must have two entries.
abbrev two_parts : List Text → Result (Text × Text)
two_parts (major ∷ minor ∷ []) = ok (major, minor)
two_parts _ = err value_error

unfoldable pub parse_version : Text → Result (ℤ × ℤ)
unfolding parse_int
parse_version version = do
  (major, minor) ← two_parts (split 0x2e version)
  a ← parse_int major
  b ← parse_int minor
  ok (a, b)

pub record ServerConfiguration : Type 0 where
  pub server_compatible : Bool
  pub max_frame_size : Value
  pub max_concurrent_frames : ℕ
  pub capabilities : List Text
  pub version : Text

-- `ServerConfiguration(max_frame_size, max_concurrent_frames)`
abbrev pub fresh : ℕ → ℕ → ServerConfiguration
fresh max_frame_size max_concurrent_frames = record {
  server_compatible = true;
  max_frame_size = Value.int (pos max_frame_size);
  max_concurrent_frames = max_concurrent_frames;
  capabilities = [];
  version = spoe_version;
}

abbrev pub eq_ℤ : ℤ → ℤ → Bool
eq_ℤ a b = leb_ℤ a b && leb_ℤ b a

-- The comparison of tuples, `a <= b`.
abbrev pub leb_pair : ℤ × ℤ → ℤ × ℤ → Bool
leb_pair a b = if eq_ℤ a.0 b.0 then leb_ℤ a.1 b.1 else ltb_ℤ a.0 b.0

-- One round of the loop: whether this version ends it.
abbrev pub accepts : ℤ × ℤ → Result (ℤ × ℤ) → Bool
accepts ver (err e) = false
accepts ver (ok ha_ver) = if not (eq_ℤ ver.0 ha_ver.0) then false else leb_pair ver ha_ver

unfoldable pub any_version : ℤ × ℤ → List Text → Bool
any_version ver [] = false
any_version ver (version ∷ ha_versions) =
    if accepts ver (parse_version version) then true else any_version ver ha_versions

unfoldable pub check_version_compatibility :
    ServerConfiguration → List Text → Result ServerConfiguration
unfolding any_version
check_version_compatibility config ha_versions = do
  ver ← parse_version config.version
  ok (record config { server_compatible = any_version ver ha_versions })

-- The number that a value is in a comparison with an `int`.
abbrev pub number_of : Value → Result ℤ
number_of (Value.int v) = ok v
number_of (Value.bool b) = ok (if b then pos 1 else pos 0)
number_of _ = err type_error

-- `min(a, b)`
abbrev pub min_value : Value → Value → Result Value
min_value a b = do x ← number_of a; y ← number_of b; ok (if ltb_ℤ y x then b else a)

unfoldable pub find_max_frame_size : ServerConfiguration → Value → Result ServerConfiguration
find_max_frame_size config ha_max_frame_size = do
  size ← min_value ha_max_frame_size config.max_frame_size
  n ← number_of size
  ok (record config {
    max_frame_size = size;
    server_compatible = if leb_ℤ n (pos 0) then false else config.server_compatible;
  })

unfoldable pub mem_text : Text → List Text → Bool
mem_text s [] = false
mem_text s (t ∷ ts) = if text_eq t s then true else mem_text s ts

-- The entries of the first list that are in the second.
unfoldable pub common : List Text → List Text → List Text
unfolding mem_text
common [] ha = []
common (c ∷ cs) ha = let rest = common cs ha in if mem_text c ha then c ∷ rest else rest

-- `list(set(ha) & set(SPOE_CAPABILITIES))`, which has one entry at most, so that its order is fixed.
unfoldable pub find_common_capabilities : ServerConfiguration → List Text → ServerConfiguration
unfolding common
find_common_capabilities config ha_capabilities = record config {
  capabilities = common spoe_capabilities ha_capabilities;
}

unfoldable pub negotiate_server_compatibility :
    ServerConfiguration → List Text → Value → List Text → Result ServerConfiguration
unfolding check_version_compatibility find_max_frame_size find_common_capabilities
negotiate_server_compatibility config supported_versions ha_max_frame_size ha_capabilities = do
  checked ← check_version_compatibility config supported_versions
  sized ← find_max_frame_size checked ha_max_frame_size
  ok (find_common_capabilities sized ha_capabilities)
