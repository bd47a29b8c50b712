-- ===== src/Spop/Varint/Parse.antt =====
-- `_parse_varint` of spoe_forge/spop/decoders/data_types.py and the wire format.
use native.Mathlib.Numerals.{towards_suc}
use spoe_forge.Prelude.{
  ℕ, zero, suc, ◌+◌, ◌-◌, ◌*◌, ◌^◌, ◌≤◌, ◌<◌, ◌≡◌, refl, ap, ◌∙◌, arith, [], ◌∷◌, ◌++◌, length, ltb,
  leb, Bool-cases, inl, inr, ltb→lt, gt→leb, le→leb, ◌⊎◌, subst, refl, inl, inr, ltb, Bool-cases,
  ltb→lt, All, All, drop, length-append, All-drop,
}
use spoe_forge.Prelude.Buffer.{Bytes, IsByte, At, At-cons, At-lt, At-drop, get_elem?-At}
use spoe_forge.Spop.Result.{Result, ok, err, decode_error}
use spoe_forge.Spop.Varint.{parse_loop, parse_varint, byte_at}
use spoe_forge.Spop.Varint.Format.{Tail, last, more, Varint, short, long}

pub byte_at-At :
    (buf : Bytes) (offset x : ℕ) (ys : Bytes) → At buf offset (x ∷ ys) → byte_at buf offset ≡ ok x
byte_at-At buf offset x ys a = rw (get_elem?-At buf offset x ys a)

pow_seven : (s : ℕ) → 2 ^ (s + 7) ≡ 128 * 2 ^ s
pow_seven s = simp towards_suc (omega arith)

shift_seven : (w s : ℕ) → w * 2 ^ (s + 7) ≡ 128 * w * 2 ^ s
shift_seven w s = ap (λ t. w * t) (pow_seven s) ∙ omega arith

next_group : (b w : ℕ) (xs : Bytes) → 128 ≤ b → b < 256 → Tail w xs → Tail (b + 128 * w) (b ∷ xs)
next_group b w xs lo hi t =
    subst (λ c. Tail (b + 128 * w) (c ∷ xs)) restored
      (more {r = b - 128} (omega arith) (omega arith) t)
  where
    restored : 128 + (b - 128) ≡ b
    restored = omega arith

-- The loop consumes a tail that stands behind its offset.
parse_loop-Tail :
    (fuel : ℕ) (buf : Bytes) (offset value shift : ℕ) {w : ℕ} {xs : Bytes} (rest : Bytes)
    → Tail w xs
    → length xs ≤ fuel
    → At buf (offset + 1) (xs ++ rest)
    → parse_loop fuel buf offset value shift ≡ ok (value + w * 2 ^ shift, offset + 1 + length xs)
unfolding parse_loop
parse_loop-Tail zero buf offset value shift rest (last h) f a = absurd (omega arith)
parse_loop-Tail zero buf offset value shift rest (more h e t) f a = absurd (omega arith)
parse_loop-Tail (suc fuel) buf offset value shift {w} rest (last h) f a =
    ground (arith, byte_at-At buf (offset + 1) w rest a, At-lt buf (offset + 1) w rest a)
parse_loop-Tail (suc fuel) buf offset value shift {w = v} rest (more {w} {r} {xs} h e t) f a =
    ground (
      arith,
      byte_at-At buf (offset + 1) (128 + r) (xs ++ rest) a,
      At-lt buf (offset + 1) (128 + r) (xs ++ rest) a,
      shift_seven w shift,
      parse_loop-Tail fuel buf (offset + 1) (value + (128 + r) * 2 ^ shift) (shift + 7) rest t
          (omega arith) (At-cons buf (offset + 1) (128 + r) (xs ++ rest) a),
      ap (λ (n : ℕ). n * 2 ^ shift) e,
    )

-- `_parse_varint` returns the value of a varint at its offset, and the offset behind it.
pub Varint-At :
    (buf : Bytes) (offset : ℕ) {v : ℕ} {xs : Bytes} (rest : Bytes)
    → Varint v xs
    → At buf offset (xs ++ rest)
    → parse_varint buf offset ≡ ok (v, offset + length xs)
unfolding parse_varint
Varint-At buf offset rest (short {v} h) a =
    ground (arith, byte_at-At buf offset v rest a, At-lt buf offset v rest a)
Varint-At buf offset rest (long {v} {w} {r} {xs} h e t) a = ground (
  arith,
  byte_at-At buf offset (240 + r) (xs ++ rest) a,
  At-lt buf offset (240 + r) (xs ++ rest) a,
  parse_loop-Tail (length buf) buf offset (240 + r) 4 rest t
      (omega (arith, a.total, length-append xs rest)) (At-cons buf offset (240 + r) (xs ++ rest) a),
)

-- The loop fails with a decode error, or has read a tail; it never runs out of rounds.
abbrev LoopOutcome : ℕ → ℕ → ℕ → Bytes → Result (ℕ × ℕ) → Type 0
LoopOutcome offset value shift tail result =
    (result ≡ err decode_error)
    ⊎ ((w : ℕ) × (xs : Bytes) × (rest : Bytes) × Tail w xs
        × (tail ≡ xs ++ rest)
        × (result ≡ ok (value + w * 2 ^ shift, offset + 1 + length xs)))

parse_loop-outcome :
    (fuel : ℕ) (buf : Bytes) (offset value shift : ℕ) (tail : Bytes)
    → At buf (offset + 1) tail
    → All IsByte tail
    → length tail < fuel
    → LoopOutcome offset value shift tail (parse_loop fuel buf offset value shift)
unfolding parse_loop
parse_loop-outcome zero buf offset value shift tail a bytes f = absurd (omega arith)
parse_loop-outcome (suc fuel) buf offset value shift [] a bytes f =
    inl (rw (le→leb (length buf) (offset + 1) (omega (arith, a.total))))
parse_loop-outcome (suc fuel) buf offset value shift (b ∷ tail) a bytes f =
    rw
      (
        gt→leb (length buf) (offset + 1) (At-lt buf (offset + 1) b tail a),
        byte_at-At buf (offset + 1) b tail a,
      )
      (elim (Bool-cases (ltb b 128)) [
        | inl small ↦ inr (b, b ∷ [], tail, last (ltb→lt _ _ small), refl, rw small)
        | inr large ↦
            rw large
              (elim (parse_loop-outcome fuel buf (offset + 1) (value + b * 2 ^ shift) (shift + 7)
                tail (At-cons buf (offset + 1) b tail a) bytes.1 (omega arith)) [
                  | inl e ↦ inl e
                  | inr (w, xs, rest, t, e, r) ↦ inr (
                    b + 128 * w,
                    b ∷ xs,
                    rest,
                    next_group b w xs (ground arith) bytes.0 t,
                    ap (λ l. b ∷ l) e,
                    r ∙ ground (arith, shift_seven w shift),
                  )
                ])
      ])

-- At any offset, inside the buffer or not: a decode error, or the value of a varint that stands there.
abbrev pub Outcome : Bytes → ℕ → Result (ℕ × ℕ) → Type 0
Outcome buf offset result =
    (result ≡ err decode_error)
    ⊎ ((v : ℕ) × (xs : Bytes) × (rest : Bytes) × Varint v xs
        × At buf offset (xs ++ rest)
        × (result ≡ ok (v, offset + length xs)))

first_group :
    (b w : ℕ) (xs : Bytes) → 240 ≤ b → b < 256 → Tail w xs → Varint (b + w * 2 ^ 4) (b ∷ xs)
first_group b w xs lo hi t =
    subst (λ c. Varint (b + w * 2 ^ 4) (c ∷ xs)) restored
      (long {r = b - 240} (omega arith) (omega arith) t)
  where
    restored : 240 + (b - 240) ≡ b
    restored = omega arith

parse_at :
    (buf : Bytes) (offset : ℕ) (tail : Bytes)
    → At buf offset tail
    → All IsByte buf
    → All IsByte tail
    → Outcome buf offset (parse_varint buf offset)
unfolding parse_varint
parse_at buf offset [] a bytes _ = inl (rw (le→leb (length buf) offset (omega (arith, a.total))))
parse_at buf offset (b ∷ tail) a bytes here =
    rw (gt→leb (length buf) offset (At-lt buf offset b tail a), byte_at-At buf offset b tail a)
      (elim (Bool-cases (ltb b 240)) [
        | inl small ↦ inr (b, b ∷ [], tail, short (ltb→lt _ _ small), a, rw small)
        | inr large ↦
            rw large
              (elim (parse_loop-outcome (length buf) buf offset b 4 tail
                (At-cons buf offset b tail a) here.1 (omega (arith, a.total))) [
                  | inl e ↦ inl e
                  | inr (w, xs, rest, t, e, r) ↦ inr (
                    b + w * 2 ^ 4,
                    b ∷ xs,
                    rest,
                    first_group b w xs (ground arith) here.0 t,
                    subst (λ l. At buf offset (b ∷ l)) e a,
                    r ∙ ap ok (ap (λ o. (b + w * 2 ^ 4, o)) (omega arith)),
                  )
                ])
      ])

pub parse_varint-outcome :
    (buf : Bytes) (offset : ℕ) → All IsByte buf → Outcome buf offset (parse_varint buf offset)
parse_varint-outcome buf offset bytes = elim (Bool-cases (leb (length buf) offset)) [
  | inl out ↦ inl (unfold parse_varint in rw out)
  | inr inside ↦
      parse_at buf offset (drop offset buf) (At-drop buf offset (ground arith)) bytes
        (All-drop IsByte offset buf bytes)
]
