-- ===== src/Spop/Varint/Laws.antt =====
-- What the two varint functions owe one another.
use spoe_forge.Prelude.{
  ℕ, zero, suc, ◌+◌, ◌*◌, ◌^◌, ◌≤◌, ◌<◌, ◌≡◌, ◌↔◌, sym, ap, ◌∙◌, refl, arith, [], ◌∷◌, ◌++◌, length,
  All, length-append, inl, inr,
}
use spoe_forge.Prelude.Buffer.{Bytes, IsByte, At, slice, slice-At}
use spoe_forge.Spop.Result.{Exc, ok, err, decode_error}
use spoe_forge.Spop.Varint.{compose_nat, parse_varint}
use spoe_forge.Spop.Varint.Format.{
  Tail, last, more, Varint, short, long, Varint-nonempty, Tail-nonempty,
}
use spoe_forge.Spop.Varint.Compose.{compose_nat-Varint}
use spoe_forge.Spop.Varint.Parse.{Varint-At, parse_varint-outcome}

same_group :
    {r r' w w' : ℕ} {xs ys : Bytes}
    → r ≡ r'
    → w ≡ w'
    → (Tail w' ys → xs ≡ ys)
    → Tail w' ys
    → (128 + r) ∷ xs ≡ (128 + r') ∷ ys
same_group p q same t = cc (p, same t)

-- A number has one tail.
Tail-unique : (w v : ℕ) {xs ys : Bytes} → Tail w xs → Tail v ys → w ≡ v → xs ≡ ys
Tail-unique w v (last h) (last k) q = ap (λ t. t ∷ []) q
Tail-unique w v (last h) (more k e t) q = absurd (omega arith)
Tail-unique w v (more h e t) (last k) q = absurd (omega arith)
Tail-unique w v (more {w = a} {r = r} h e t) (more {w = b} {r = r'} h' e' t') q =
    same_group {w = a} {w' = b} (omega arith) (omega arith) (λ u. Tail-unique a b t u (omega arith))
      t'

-- A number has one varint.
pub Varint-unique : (v u : ℕ) {xs ys : Bytes} → Varint v xs → Varint u ys → v ≡ u → xs ≡ ys
Varint-unique v u (short h) (short k) q = ap (λ t. t ∷ []) q
Varint-unique v u (short h) (long k e t) q = absurd (omega arith)
Varint-unique v u (long h e t) (short k) q = absurd (omega arith)
Varint-unique v u (long {w = a} {r = r} h e t) (long {w = b} {r = r'} h' e' t') q =
    cc (low, Tail-unique a b t t' (omega arith))
  where
    low : r ≡ r'
    low = omega arith

-- Wherever the bytes that `_compose_varint` writes for a number stand in a buffer, `_parse_varint`
-- returns that number and the offset behind them.
pub parse_varint-compose_nat :
    (buf : Bytes) (offset v : ℕ) (rest : Bytes)
    → At buf offset (compose_nat v ++ rest)
    → parse_varint buf offset ≡ ok (v, offset + length (compose_nat v))
parse_varint-compose_nat buf offset v rest a = Varint-At buf offset rest (compose_nat-Varint v) a

-- The encoding is canonical: what `_parse_varint` accepts in a buffer of bytes, inside the buffer, is byte for byte what `_compose_varint`
-- writes for the value that it returns.
pub parse_varint_canonical :
    (buf : Bytes) (offset v end : ℕ)
    → All IsByte buf
    → parse_varint buf offset ≡ ok (v, end)
    → (slice buf offset end ≡ compose_nat v) × (offset < end) × (end ≤ length buf)
parse_varint_canonical buf offset v end bytes e = elim (parse_varint-outcome buf offset bytes) [
  | inl failed ↦ cc
  | inr (u, xs, rest, written, a, r) ↦
      let value : u ≡ v = ground arith in
      let stop : offset + length xs ≡ end = ground arith in
      let same : xs ≡ compose_nat v = Varint-unique u v written (compose_nat-Varint v) value in
      (
        ap (λ o. slice buf offset o) (sym stop) ∙ slice-At buf offset xs rest a ∙ same,
        omega (arith, Varint-nonempty written),
        omega (arith, a.total, length-append xs rest),
      )
]

-- A parse of any bytes fails with a decode error and in no other way: no index is out of range, and the loop ends.
pub parse_varint_errors :
    (buf : Bytes) (offset : ℕ)
    → All IsByte buf
    → ((e : Exc) → parse_varint buf offset ≡ err e → e ≡ decode_error)
parse_varint_errors buf offset bytes e h = elim (parse_varint-outcome buf offset bytes) [
  | inl failed ↦ cc
  | inr (u, xs, rest, written, a, r) ↦ cc
]

-- The first number whose tail takes more than `k + 1` bytes.
tail_limit : ℕ → ℕ
tail_limit zero = 128
tail_limit (suc k) = 128 + 128 * tail_limit k

-- The first number that does not fit in `k + 1` bytes.
pub varint_limit : ℕ → ℕ
unfolding tail_limit
varint_limit zero = 240
varint_limit (suc k) = 240 + 16 * tail_limit k

length-Tail : (k : ℕ) {w : ℕ} {xs : Bytes} → Tail w xs → (length xs ≤ k + 1) ↔ (w < tail_limit k)
unfolding tail_limit
length-Tail zero (last h) = omega arith
length-Tail (suc k) (last h) = omega arith
length-Tail zero (more h e t) = omega (arith, Tail-nonempty t)
length-Tail (suc k) (more h e t) =
    let (up, down) = length-Tail k t in
    (λ p. omega (arith, up (omega arith)), λ p. omega (arith, down (omega arith)))

length-Varint :
    (k : ℕ) {v : ℕ} {xs : Bytes} → Varint v xs → (length xs ≤ k + 1) ↔ (v < varint_limit k)
unfolding varint_limit
length-Varint zero (short h) = omega arith
length-Varint (suc k) (short h) = omega arith
length-Varint zero (long h e t) = omega (arith, Tail-nonempty t)
length-Varint (suc k) (long h e t) =
    let (up, down) = length-Tail k t in
    (λ p. omega (arith, up (omega arith)), λ p. omega (arith, down (omega arith)))

-- The table of sizes: a number is written in at most `k + 1` bytes exactly when it is below the
-- limit of its row, and the first five limits are those of the documentation; every uint64 takes at
-- most ten bytes.
pub length-compose_nat :
    ((k v : ℕ) → (length (compose_nat v) ≤ k + 1) ↔ (v < varint_limit k))
    × (varint_limit 0 ≡ 240)
    × (varint_limit 1 ≡ 2288)
    × (varint_limit 2 ≡ 264432)
    × (varint_limit 3 ≡ 33818864)
    × (varint_limit 4 ≡ 4328786160)
    × ((v : ℕ) → v < 2 ^ 64 → length (compose_nat v) ≤ 10)
unfolding varint_limit
length-compose_nat = (
  λ k v. length-Varint k (compose_nat-Varint v),
  refl,
  refl,
  refl,
  refl,
  refl,
  λ v h. wide v (omega arith),
)
  where
    wide : (v : ℕ) → v < varint_limit 9 → length (compose_nat v) ≤ 10
    wide v h = (length-Varint 9 (compose_nat-Varint v)).1 h
