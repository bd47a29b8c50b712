-- ===== src/Spop/Safety/DataTypes.antt =====
-- spoe_forge/spop/decoders/data_types.py on any bytes.
use spoe_forge.Prelude.{
  ℕ, suc, ◌+◌, ◌-◌, ◌%◌, ◌^◌, ◌≤◌, ◌≡◌, ◌⊎◌, inl, inr, refl, ap, ◌∙◌, arith, false, length,
  length-append, All, ltb, leb, Bool-cases, get_elem?-some, if◌then◌else◌, ◌==◌, bit_and,
}
use spoe_forge.Prelude.Int.{pos}
use spoe_forge.Prelude.Buffer.{Bytes, IsByte, slice}
use spoe_forge.Spop.Result.{Exc, Result, ok, err, decode_error, value_error, ◌>>=◌}
use spoe_forge.Spop.Types.{DataType, data_type_of, Value, type_mask, flag_mask, bool_true}
use spoe_forge.Spop.Octets.{from_bytes, c_int32, c_int64}
use spoe_forge.Spop.Varint.{parse_varint, byte_at}
use spoe_forge.Spop.Varint.Format.{Varint-nonempty}
use spoe_forge.Spop.Varint.Parse.{parse_varint-outcome}
use spoe_forge.Spop.Decoders.DataTypes.{
  SpoaDec, decode_tiny_int, decode_int32, decode_int64, decode_uint32, decode_uint64, decode_bool,
  decode_ipv4, decode_ipv6, decode_binary, decode_string, decode_typed, auto_decode_var,
}
use spoe_forge.Spop.Decoders.Loop.{Reaches, Moves}

-- A decoder behind another one.
pub Reaches-bind :
    {A B : Type 0} (buf : Bytes) (lo : ℕ) (m : SpoaDec A) (f : A × ℕ → SpoaDec B)
    → Reaches buf lo m
    → ((x : A) (o : ℕ) → lo ≤ o → o ≤ length buf → Reaches buf lo (f (x, o)))
    → Reaches buf lo (m >>= f)
Reaches-bind buf lo m f (inl e) k = inl (rw e)
Reaches-bind buf lo m f (inr (x, o, e, a, b)) k = rw e (k x o a b)

pub Reaches-weaken :
    {A : Type 0} (buf : Bytes) (lo hi : ℕ) (m : SpoaDec A)
    → lo ≤ hi
    → Reaches buf hi m
    → Reaches buf lo m
Reaches-weaken buf lo hi m h (inl e) = inl e
Reaches-weaken buf lo hi m h (inr (x, o, e, a, b)) = inr (x, o, e, omega arith, b)

-- A successful read inside the buffer.
pub byte_at-inside :
    (buf : Bytes) (offset : ℕ)
    → leb (length buf) offset ≡ false
    → (b : ℕ) × (byte_at buf offset ≡ ok b)
byte_at-inside buf offset h = let (b, e) = get_elem?-some buf offset (ground arith) in (b, rw e)

data_type_errors : (n : ℕ) (e : Exc) → data_type_of n ≡ err e → e ≡ value_error
data_type_errors n e h = ground arith

-- `DataType(n)` finds a type, or raises `ValueError`.
data_type_cases :
    (n : ℕ) → ((dt : DataType) × (data_type_of n ≡ ok dt)) ⊎ (data_type_of n ≡ err value_error)
data_type_cases n = go (data_type_of n) refl (data_type_errors n)
  where
    go :
        (r : Result DataType)
        → data_type_of n ≡ r
        → ((e : Exc) → data_type_of n ≡ err e → e ≡ value_error)
        → ((dt : DataType) × (data_type_of n ≡ ok dt)) ⊎ (data_type_of n ≡ err value_error)
    go (ok dt) e h = inl (dt, e)
    go (err x) e h = inr (e ∙ ap err (h x e))

module _ (buf : Bytes) (bytes : All IsByte buf) where
  pub parse_varint-Moves : (offset : ℕ) → Moves buf offset (parse_varint buf offset)
  parse_varint-Moves offset = elim (parse_varint-outcome buf offset bytes) [
    | inl e ↦ inl e
    | inr (v, xs, rest, w, a, e) ↦ inr (
      v,
      offset + length xs,
      e,
      omega (arith, Varint-nonempty w),
      omega (arith, a.total, length-append xs rest),
    )
  ]

  pub decode_tiny_int-Moves : (offset : ℕ) → Moves buf offset (decode_tiny_int buf offset)
  unfolding decode_tiny_int
  decode_tiny_int-Moves offset = elim (Bool-cases (leb (length buf) offset)) [
    | inl out ↦ rw out (inl refl)
    | inr inside ↦
        let (b, e) = byte_at-inside buf offset inside in
        rw (inside, e) (inr (b, offset + 1, refl, omega arith, ground arith))
  ]

  pub decode_bool-Moves : (offset : ℕ) → Moves buf offset (decode_bool buf offset)
  unfolding decode_bool
  decode_bool-Moves offset = elim (Bool-cases (leb (length buf) offset)) [
    | inl out ↦ rw out (inl refl)
    | inr inside ↦
        let (b, e) = byte_at-inside buf offset inside in
        rw (inside, e)
          (inr (bit_and b flag_mask == bool_true, offset + 1, refl, omega arith, ground arith))
  ]

  -- A number is what the varint converts to.
  converted-Moves :
      {A : Type 0} (convert : ℕ → A) (offset : ℕ)
      → Moves buf offset (parse_varint buf offset >>= λ p. ok (convert p.0, p.1))
  converted-Moves convert offset =
      Reaches-bind buf (suc offset) (parse_varint buf offset) (λ p. ok (convert p.0, p.1))
        (parse_varint-Moves offset) (λ x o a b. inr (convert x, o, refl, a, b))

  pub decode_int64-Moves : (offset : ℕ) → Moves buf offset (decode_int64 buf offset)
  unfolding decode_int64
  decode_int64-Moves offset = converted-Moves c_int64 offset

  pub decode_binary-Moves : (offset : ℕ) → Moves buf offset (decode_binary buf offset)
  unfolding decode_binary
  decode_binary-Moves offset =
      Reaches-bind buf (suc offset) (parse_varint buf offset)
        (λ p.
          if ltb (length buf) (p.1 + p.0)
          then err decode_error
          else ok (slice buf p.1 (p.1 + p.0), p.1 + p.0))
        (parse_varint-Moves offset)
        (λ n o a b. elim (Bool-cases (ltb (length buf) (o + n))) [
          | inl out ↦ rw out (inl refl)
          | inr inside ↦
              rw inside (inr (slice buf o (o + n), o + n, refl, omega arith, ground arith))
        ])

  pub decode_string-Moves : (offset : ℕ) → Moves buf offset (decode_string buf offset)
  unfolding decode_string
  decode_string-Moves offset = decode_binary-Moves offset

  fixed-Moves :
      (width offset : ℕ)
      → 1 ≤ width
      → Moves buf offset (
          if ltb (length buf) (offset + width)
          then err decode_error
          else ok (from_bytes (slice buf offset (offset + width)), offset + width))
  fixed-Moves width offset h = elim (Bool-cases (ltb (length buf) (offset + width))) [
    | inl out ↦ rw out (inl refl)
    | inr inside ↦ rw inside (
        inr (
          from_bytes (slice buf offset (offset + width)),
          offset + width,
          refl,
          omega arith,
          ground arith,
        ))
  ]

  wrapped :
      {A : Type 0} (lo : ℕ) (m : SpoaDec A) (wrap : A → Value)
      → Reaches buf lo m
      → Reaches buf lo (m >>= λ p. ok (wrap p.0, p.1))
  wrapped lo m wrap h =
      Reaches-bind buf lo m (λ p. ok (wrap p.0, p.1)) h (λ x o a b. inr (wrap x, o, refl, a, b))

  behind_type :
      {A : Type 0} (offset : ℕ) (m : SpoaDec A) (wrap : A → Value)
      → Moves buf (offset + 1) m
      → Moves buf offset (m >>= λ p. ok (wrap p.0, p.1))
  behind_type offset m wrap h =
      wrapped (suc offset) m wrap
        (Reaches-weaken buf (suc offset) (suc (offset + 1)) m (omega arith) h)

  -- Each branch on a data type, its offset one behind the type byte.
  decode_typed-Moves :
      (dt : DataType) (offset : ℕ)
      → offset + 1 ≤ length buf
      → Moves buf offset (decode_typed dt buf (offset + 1))
  unfolding decode_typed decode_int32 decode_uint32 decode_uint64 decode_ipv4 decode_ipv6
  decode_typed-Moves DataType.null offset h = inr (Value.null, offset + 1, refl, omega arith, h)
  decode_typed-Moves DataType.bool offset h =
      rw (back)
        (wrapped (suc offset) (decode_bool buf offset) Value.bool (decode_bool-Moves offset))
    where
      back : offset + 1 - 1 ≡ offset
      back = omega arith
  decode_typed-Moves DataType.int32 offset h =
      behind_type offset (decode_int32 buf (offset + 1)) Value.int
        (converted-Moves c_int32 (offset + 1))
  decode_typed-Moves DataType.uint32 offset h =
      behind_type offset (decode_uint32 buf (offset + 1)) Value.int
        (converted-Moves (λ n. pos (n % 2 ^ 32)) (offset + 1))
  decode_typed-Moves DataType.int64 offset h =
      behind_type offset (decode_int64 buf (offset + 1)) Value.int (decode_int64-Moves (offset + 1))
  decode_typed-Moves DataType.uint64 offset h =
      behind_type offset (decode_uint64 buf (offset + 1)) Value.int
        (converted-Moves (λ n. pos (n % 2 ^ 64)) (offset + 1))
  decode_typed-Moves DataType.ipv4 offset h =
      behind_type offset (decode_ipv4 buf (offset + 1)) Value.ipv4
        (fixed-Moves 4 (offset + 1) (omega arith))
  decode_typed-Moves DataType.ipv6 offset h =
      behind_type offset (decode_ipv6 buf (offset + 1)) Value.ipv6
        (fixed-Moves 16 (offset + 1) (omega arith))
  decode_typed-Moves DataType.string offset h =
      behind_type offset (decode_string buf (offset + 1)) Value.str
        (decode_string-Moves (offset + 1))
  decode_typed-Moves DataType.binary offset h =
      behind_type offset (decode_binary buf (offset + 1)) Value.bytes
        (decode_binary-Moves (offset + 1))

  -- `auto_decode_var` on any bytes at any offset.
  pub auto_decode_var-Moves : (offset : ℕ) → Moves buf offset (auto_decode_var buf offset)
  unfolding auto_decode_var
  auto_decode_var-Moves offset = elim (Bool-cases (ltb (length buf) (offset + 1))) [
    | inl out ↦ rw out (inl refl)
    | inr inside ↦
        let (b, e) = byte_at-inside buf offset (ground arith) in
        rw (inside, e)
          (elim (data_type_cases (bit_and b type_mask)) [
            | inl (dt, known) ↦ rw known (decode_typed-Moves dt offset (ground arith))
            | inr unknown ↦ rw unknown (inl refl)
          ])
  ]
