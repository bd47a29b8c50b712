-- ===== src/Spop/Varint/Compose.antt =====
-- `_compose_varint` of spoe_forge/spop/encoders/data_types.py and the wire format of its argument.
use mathlib.Core.Logic.{dif_pos, dif_neg}
use mathlib.Core.WellFounded.{Acc}
use native.Mathlib.Decide.{dec_le}
use native.Mathlib.Bridge.{le_prop}
use spoe_forge.Prelude.Order.{lt_wf}
use spoe_forge.Prelude.{
  ℕ, ◌+◌, ◌-◌, ◌/◌, ◌%◌, ◌^◌, ◌≤◌, ◌<◌, ◌≡◌, refl, ap, ◌∙◌, arith, [], ◌∷◌, ◌++◌, append_assoc, ltb,
  Bool-cases, inl, inr, bit_and, bit_or, ltb→lt,
}
use spoe_forge.Prelude.Bits.{or_high_nibble, or_top_bit}
use spoe_forge.Prelude.Buffer.{Bytes}
use spoe_forge.Spop.Varint.{compose_loop, compose_nat, group_shrinks}
use spoe_forge.Spop.Varint.Format.{Tail, last, more, Varint, short, long}

abbrev top_byte : ℕ → ℕ
top_byte w = bit_and (bit_or w 0x80) 0xFF

-- What the loop appends is a tail for its value.
compose_loop-Tail :
    (out : Bytes) (w : ℕ) (acc : Acc ◌<◌ w)
    → (xs : Bytes) × (compose_loop out w acc ≡ out ++ xs) × Tail w xs
unfolding compose_loop
compose_loop-Tail out w (Acc.intro _ smaller) = elim (dec_le 128 w) [
  | yes h ↦
      let (xs, e, t) =
        compose_loop-Tail (out ++ (top_byte w ∷ [])) ((w - 128) / 2 ^ 7)
          (smaller _ (group_shrinks w h)) in
      (
        (128 + w % 128) ∷ xs,
        rw (dif_pos _ le_prop h)
            (e ∙ append_assoc out (top_byte w ∷ []) xs ∙ ap (λ b. out ++ (b ∷ xs)) (or_top_bit w)),
        more (omega arith) (omega arith) t,
      )
  | no h ↦ (w ∷ [], rw (dif_neg _ h) refl, last (omega arith))
]

-- The first byte holds the high nibble of ones and the low four bits.
first_byte-Varint :
    (val : ℕ) (xs : Bytes)
    → 240 ≤ val
    → Tail ((val - 240) / 2 ^ 4) xs
    → Varint val (bit_and (bit_or val 0xF0) 0xFF ∷ xs)
first_byte-Varint val xs h t = rw (or_high_nibble val) (long (omega arith) (omega arith) t)

-- `_compose_varint` of a number that is not negative writes the wire format of that number.
pub compose_nat-Varint : (val : ℕ) → Varint val (compose_nat val)
unfolding compose_nat
compose_nat-Varint val = elim (Bool-cases (ltb val 240)) [
  | inl small ↦ rw small (short (ltb→lt _ _ small))
  | inr large ↦
      let w = (val - 240) / 2 ^ 4 in
      let (xs, e, t) = compose_loop-Tail (bit_and (bit_or val 0xF0) 0xFF ∷ []) w (lt_wf.apply w) in
      rw (large, e) (first_byte-Varint val xs (ground arith) t)
]
