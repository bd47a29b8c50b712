-- ===== src/Spop/RoundTrip/Integers.antt =====
-- Round trips of typed data: the type byte, and the integers of
-- spoe_forge/spop/{encoders,decoders}/data_types.py.
use spoe_forge.Prelude.{
  ℕ, ◌+◌, ◌%◌, ◌^◌, ◌<◌, ◌≡◌, refl, ap, arith, true, [], ◌∷◌, ◌++◌, length, ge→ltb, bit_and,
}
use spoe_forge.Prelude.Int.{ℤ, pos, negsuc, ◌≤ℤ◌}
use spoe_forge.Prelude.Buffer.{Bytes, At-cons, At-lt}
use spoe_forge.Spop.Result.{Result, ok, ◌>>=◌}
use spoe_forge.Spop.Types.{
  DataType, data_type_number, data_type_of, type_mask, Value, int64_min, int64_max, int32_min,
  int32_max, uint32_max, uint64_max,
}
use spoe_forge.Spop.Octets.{octets, mask, c_int32, c_int64, c_int64-mask, c_int32-mask}
use spoe_forge.Spop.Varint.{compose_varint, parse_varint}
use spoe_forge.Spop.Varint.Parse.{byte_at-At}
use spoe_forge.Spop.Encoders.DataTypes.{
  type_data, tagged, in_range, encode_int, encode_dt_int64, encode_dt_int32, encode_dt_uint32,
  encode_dt_uint64,
}
use spoe_forge.Spop.Decoders.DataTypes.{
  SpoaDec, decode_int32, decode_int64, decode_uint32, decode_uint64, decode_typed, auto_decode_var,
}
use spoe_forge.Spop.RoundTrip.Carries.{Carries}
use spoe_forge.Spop.RoundTrip.Primitives.{varint-Carries}

-- The type byte names its type.
pub type_byte : (dt : DataType) → type_data dt 0 ≡ ok (data_type_number dt ∷ [])
unfolding octets
type_byte DataType.null = refl
type_byte _ = refl

pub type_number : (dt : DataType) → data_type_of (bit_and (data_type_number dt) type_mask) ≡ ok dt
type_number DataType.null = refl
type_number _ = refl

pub type_number-IsByte : (dt : DataType) → data_type_number dt < 256
type_number-IsByte DataType.null = omega arith
type_number-IsByte _ = omega arith

-- A decoder of typed data whose branch for `dt` decodes by `decode` and wraps the result.
abbrev pub BranchIs {ℓ} : {A : Type ℓ} → DataType → (Bytes → ℕ → SpoaDec A) → (A → Value) → Type 0
BranchIs dt decode wrap =
    (buf : Bytes) (offset : ℕ)
    → decode_typed dt buf offset ≡ (decode buf offset >>= λ p. ok (wrap p.0, p.1))

pub tagged-Carries :
    {A : Type 0} (dt : DataType) (m : Result Bytes) (decode : Bytes → ℕ → SpoaDec A) (v : A)
    (wrap : A → Value)
    → BranchIs dt decode wrap
    → Carries m decode v
    → Carries (tagged dt m) auto_decode_var (wrap v)
unfolding auto_decode_var
tagged-Carries dt m decode v wrap branch c = record {
  bytes = data_type_number dt ∷ c.bytes;
  written = rw (type_byte dt, c.written);
  are_bytes = (type_number-IsByte dt, c.are_bytes);
  nonempty = omega arith;
  read = λ buf offset rest a.
      rw
        (
          ge→ltb (length buf) (offset + 1)
              (omega (arith, At-lt buf offset (data_type_number dt) (c.bytes ++ rest) a)),
          byte_at-At buf offset (data_type_number dt) (c.bytes ++ rest) a,
          type_number dt,
          branch buf (offset + 1),
          c.read buf (offset + 1) rest
              (At-cons buf offset (data_type_number dt) (c.bytes ++ rest) a),
        )
        (ap (λ o. ok (wrap v, o)) (omega arith));
}

-- The numbers: a varint read through `convert`.
module _ {A : Type 0} (convert : ℕ → A) (decode : Bytes → ℕ → SpoaDec A)
    (reads : (buf : Bytes) (offset : ℕ)
      → decode buf offset ≡ (parse_varint buf offset >>= λ p. ok (convert p.0, p.1))) where
  converted-Carries : (n : ℕ) (v : A) → convert n ≡ v → Carries (compose_varint (pos n)) decode v
  converted-Carries n v e = record {
    bytes = c.bytes;
    written = c.written;
    are_bytes = c.are_bytes;
    nonempty = c.nonempty;
    read = λ buf offset rest a. rw (reads buf offset, c.read buf offset rest a, e);
  }
    where
      c : Carries (compose_varint (pos n)) parse_varint n
      c = varint-Carries n

pub encode_int-Carries :
    (v : ℤ) → pos 0 ≤ℤ v → v ≤ℤ int64_max → Carries (encode_int v) decode_int64 v
unfolding encode_int decode_int64 c_int64
encode_int-Carries (pos n) lo hi =
    converted-Carries c_int64 decode_int64 (λ buf offset. refl) n (pos n) (ground arith)
encode_int-Carries (negsuc n) lo hi = absurd (omega arith)

pub in_range-true : (lo hi v : ℤ) → lo ≤ℤ v → v ≤ℤ hi → in_range lo hi v ≡ true
in_range-true lo hi v p q = ground arith

int64_body :
    (v : ℤ)
    → int64_min ≤ℤ v
    → v ≤ℤ int64_max
    → Carries (compose_varint (pos (mask 64 v))) decode_int64 v
unfolding decode_int64
int64_body v lo hi =
    converted-Carries c_int64 decode_int64 (λ buf offset. refl) (mask 64 v) v (c_int64-mask v lo hi)

int32_body :
    (v : ℤ)
    → int32_min ≤ℤ v
    → v ≤ℤ int32_max
    → Carries (compose_varint (pos (mask 32 v))) decode_int32 v
unfolding decode_int32
int32_body v lo hi =
    converted-Carries c_int32 decode_int32 (λ buf offset. refl) (mask 32 v) v (c_int32-mask v lo hi)

pub int64-Carries :
    (v : ℤ)
    → int64_min ≤ℤ v
    → v ≤ℤ int64_max
    → Carries (encode_dt_int64 v) auto_decode_var (Value.int v)
unfolding encode_dt_int64 decode_typed
int64-Carries v lo hi = rw (in_range-true int64_min int64_max v lo hi) (
    tagged-Carries DataType.int64 (compose_varint (pos (mask 64 v))) decode_int64 v Value.int
      (λ buf offset. refl) (int64_body v lo hi))

pub int32-Carries :
    (v : ℤ)
    → int32_min ≤ℤ v
    → v ≤ℤ int32_max
    → Carries (encode_dt_int32 v) auto_decode_var (Value.int v)
unfolding encode_dt_int32 decode_typed
int32-Carries v lo hi = rw (in_range-true int32_min int32_max v lo hi) (
    tagged-Carries DataType.int32 (compose_varint (pos (mask 32 v))) decode_int32 v Value.int
      (λ buf offset. refl) (int32_body v lo hi))

pub uint32-Carries :
    (n : ℕ) → n < 2 ^ 32 → Carries (encode_dt_uint32 (pos n)) auto_decode_var (Value.int (pos n))
unfolding encode_dt_uint32 decode_typed decode_uint32
uint32-Carries n h = rw (in_range-true (pos 0) uint32_max (pos n) (omega arith) (omega arith)) (
    tagged-Carries DataType.uint32 (compose_varint (pos n)) decode_uint32 (pos n) Value.int
      (λ buf offset. refl)
      (converted-Carries (λ k. pos (k % 2 ^ 32)) decode_uint32 (λ buf offset. refl) n (pos n)
        (ap pos (omega arith))))

pub uint64-Carries :
    (n : ℕ) → n < 2 ^ 64 → Carries (encode_dt_uint64 (pos n)) auto_decode_var (Value.int (pos n))
unfolding encode_dt_uint64 decode_typed decode_uint64
uint64-Carries n h = rw (in_range-true (pos 0) uint64_max (pos n) (omega arith) (omega arith)) (
    tagged-Carries DataType.uint64 (compose_varint (pos n)) decode_uint64 (pos n) Value.int
      (λ buf offset. refl)
      (converted-Carries (λ k. pos (k % 2 ^ 64)) decode_uint64 (λ buf offset. refl) n (pos n)
        (ap pos (omega arith))))
