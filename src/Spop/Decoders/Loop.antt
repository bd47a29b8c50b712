-- ===== src/Spop/Decoders/Loop.antt =====
-- The `while offset < end` loops of spoe_forge/spop/decoders/payloads.py: each round decodes an item
-- at the offset and adds it to what was collected.
use mathlib.Core.List.{foldl}
use spoe_forge.Prelude.{
  ℕ, zero, suc, ◌+◌, ◌-◌, ◌≤◌, ◌≡◌, ◌⊎◌, inl, inr, refl, ◌∙◌, ap, arith, List, [], ◌∷◌, ◌++◌,
  append_assoc, ltb, lt→ltb, ge→ltb, if◌then◌else◌, length, length-append, Bool-cases,
}
use spoe_forge.Prelude.Buffer.{Bytes, At, At-append}
use spoe_forge.Spop.Result.{ok, err, decode_error, out_of_fuel, ◌>>=◌}
use spoe_forge.Spop.Decoders.DataTypes.{SpoaDec}

module _ {A S : Type 0} (item : Bytes → ℕ → SpoaDec A) (step : S → A → S) where
  unfoldable pub item_loop : ℕ → Bytes → ℕ → ℕ → S → SpoaDec S
  item_loop zero buf offset end payload =
      if ltb offset end then err out_of_fuel else ok (payload, offset)
  item_loop (suc fuel) buf offset end payload =
      let round = (do (x, o) ← item buf offset; item_loop fuel buf o end (step payload x)) in
      if ltb offset end then round else ok (payload, offset)

-- Bytes that hold these items one behind the other.
pub data Items {A : Type 0} (item : Bytes → ℕ → SpoaDec A) : List A → Bytes → Type 0 where
  end : Items item [] []
  next :
      {x : A} {xs : List A} (b : Bytes) {bs all : Bytes}
      → all ≡ b ++ bs
      → 1 ≤ length b
      → ((buf : Bytes) (offset : ℕ) (rest : Bytes)
          → At buf offset (b ++ rest)
          → item buf offset ≡ ok (x, offset + length b))
      → Items item xs bs
      → Items item (x ∷ xs) all

module _ {A S : Type 0} (item : Bytes → ℕ → SpoaDec A) (step : S → A → S) where
  -- The loop collects the items, in order, and stops behind them.
  pub item_loop-Items :
      {xs : List A} {bs : Bytes}
      → Items item xs bs
      → (fuel : ℕ) (buf : Bytes) (offset stop : ℕ) (rest : Bytes) (payload : S)
      → At buf offset (bs ++ rest)
      → length bs ≤ fuel
      → stop ≡ offset + length bs
      → item_loop item step fuel buf offset stop payload ≡ ok (foldl step payload xs, stop)
  unfolding item_loop
  item_loop-Items Items.end zero buf offset stop rest payload a f e =
      rw (ge→ltb offset stop (omega arith)) (ap (λ o. ok (payload, o)) (omega arith))
  item_loop-Items Items.end (suc fuel) buf offset stop rest payload a f e =
      rw (ge→ltb offset stop (omega arith)) (ap (λ o. ok (payload, o)) (omega arith))
  item_loop-Items (next {x} {xs} b {bs} {all} q n r more) zero buf offset stop rest payload a f e =
      absurd (omega (arith, ap length q, length-append b bs))
  item_loop-Items (next {x} {xs} b {bs} {all} q n r more) (suc fuel) buf offset stop rest payload a
        f e =
      rw (lt→ltb offset stop (omega (arith, sizes)), r buf offset (bs ++ rest) here)
        (item_loop-Items more fuel buf (offset + length b) stop rest (step payload x)
          (At-append buf offset b (bs ++ rest) here) (omega (arith, sizes)) (omega (arith, sizes)))
    where
      sizes : length all ≡ length b + length bs
      sizes = ap length q ∙ length-append b bs

      here : At buf offset (b ++ (bs ++ rest))
      here = rw (q, append_assoc) at a

-- A result that is a decode error, or stands at an offset from `lo` on inside the buffer.
abbrev pub Reaches {ℓ} : {A : Type ℓ} → Bytes → ℕ → SpoaDec A → Type ℓ
Reaches {A} buf lo r =
    (r ≡ err decode_error) ⊎ ((x : A) × (o : ℕ) × (r ≡ ok (x, o)) × (lo ≤ o) × (o ≤ length buf))

-- A decoder that fails with a decode error alone, and else moves on inside the buffer.
abbrev pub Moves {ℓ} : {A : Type ℓ} → Bytes → ℕ → SpoaDec A → Type ℓ
Moves buf offset r = Reaches buf (suc offset) r

module _ {A S : Type 0} (item : Bytes → ℕ → SpoaDec A) (step : S → A → S) (buf : Bytes)
    (moves : (offset : ℕ) → Moves buf offset (item buf offset)) where
  -- A loop that starts before its end fails with a decode error alone, and else stops at its end or
  -- behind it, inside the buffer; it never runs out of rounds.
  pub item_loop-outcome :
      (fuel offset stop : ℕ) (payload : S)
      → stop - offset ≤ fuel
      → offset ≤ length buf
      → (item_loop item step fuel buf offset stop payload ≡ err decode_error)
        ⊎ ((s : S) × (o : ℕ) × (item_loop item step fuel buf offset stop payload ≡ ok (s, o))
            × (stop ≤ o)
            × (offset ≤ o)
            × (o ≤ length buf))
  unfolding item_loop
  item_loop-outcome zero offset stop payload f h =
      rw (ge→ltb offset stop (omega arith))
        (inr (payload, offset, refl, omega arith, omega arith, h))
  item_loop-outcome (suc fuel) offset stop payload f h = elim (Bool-cases (ltb offset stop)) [
    | inr done ↦ rw done (inr (payload, offset, refl, ground arith, omega arith, h))
    | inl go ↦ elim (moves offset) [
      | inl bad ↦ rw (go, bad) (inl refl)
      | inr (x, o, e, lt, le) ↦
          rw (go, e)
            (elim (item_loop-outcome fuel o stop (step payload x) (omega arith) le) [
              | inl bad ↦ inl bad
              | inr (s, o', e', a, b, c) ↦ inr (s, o', e', a, omega arith, c)
            ])
    ]
  ]
