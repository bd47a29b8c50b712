-- ===== src/Server/Handler/Sizes.antt =====
-- What short texts and numbers, and the metadata of frames without identifiers, are on the wire.
use spoe_forge.Prelude.{ℕ, ◌^◌, ◌%◌, ◌<◌, ◌≡◌, refl, arith, [], ◌∷◌, ◌++◌, length}
use spoe_forge.Prelude.Int.{pos}
use spoe_forge.Prelude.Text.{Text}
use spoe_forge.Spop.Result.{ok}
use spoe_forge.Spop.Types.{IsLatin1, int64_min, int64_max}
use spoe_forge.Spop.Octets.{octets, mask}
use spoe_forge.Spop.Varint.{compose_nat, compose_varint}
use spoe_forge.Spop.Varint.Format.{short}
use spoe_forge.Spop.Varint.Compose.{compose_nat-Varint}
use spoe_forge.Spop.Varint.Laws.{Varint-unique}
use spoe_forge.Spop.Encoders.DataTypes.{
  encode_string, encode_dt_int64, encode_dt_string, encode_int,
}
use spoe_forge.Spop.Encoders.Payloads.{encode_metadata}
use spoe_forge.Spop.RoundTrip.Primitives.{encode_latin1-IsLatin1}
use spoe_forge.Spop.RoundTrip.Integers.{in_range-true}
use spoe_forge.Spop.Frame.Construct.{final_metadata}
use spoe_forge.Server.Handler.{DisconnectCode, normal, disconnect_number}

pub compose_small : (n : ℕ) → n < 240 → compose_nat n ≡ n ∷ []
compose_small n h = Varint-unique n n (compose_nat-Varint n) (short h) refl

pub string_small : (s : Text) → IsLatin1 s → length s < 240 → encode_string s ≡ ok (length s ∷ s)
unfolding encode_string compose_varint
string_small s h k = rw (encode_latin1-IsLatin1 s h, compose_small (length s) k)

pub code_small : (code : DisconnectCode) → disconnect_number code < 240
code_small normal = omega arith
code_small _ = omega arith

pub int64_small : (n : ℕ) → n < 240 → encode_dt_int64 (pos n) ≡ ok (4 ∷ n ∷ [])
unfolding encode_dt_int64 compose_varint mask octets
int64_small n h =
    rw (
      in_range-true int64_min int64_max (pos n) (omega arith) (omega arith),
      low,
      compose_small n h,
    )
  where
    low : n % 2 ^ 64 ≡ n
    low = omega arith

pub string_long :
    (s : Text) → IsLatin1 s → encode_dt_string s ≡ ok (8 ∷ (compose_nat (length s) ++ s))
unfolding encode_dt_string compose_varint octets
string_long s h = rw (encode_latin1-IsLatin1 s h)

pub int64_pos : (n : ℕ) → n < 2 ^ 63 → encode_dt_int64 (pos n) ≡ ok (4 ∷ compose_nat n)
unfolding encode_dt_int64 compose_varint mask octets
int64_pos n h = rw (in_range-true int64_min int64_max (pos n) (omega arith) (omega arith), low)
  where
    low : n % 2 ^ 64 ≡ n
    low = omega arith

pub no_ids : encode_metadata (final_metadata (pos 0) (pos 0)) ≡ ok (0 ∷ 0 ∷ 0 ∷ 1 ∷ 0 ∷ 0 ∷ [])
unfolding encode_metadata encode_int compose_varint
no_ids = rw (compose_small 0 (omega arith))
