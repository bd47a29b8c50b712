-- ===== src/Server/Salvage/Ack.antt =====
-- The ACK with given actions, and the part of the actions that the salvaged one of
-- spoe_forge/server/handler.py keeps.
use mathlib.Core.List.Sublist
use mathlib.Core.List.{Sublist}
use spoe_forge.Prelude.{
  ℕ, ◌+◌, ◌-◌, ◌≡◌, inl, inr, refl, sym, subst, ◌∙◌, Bool-cases, List, [], ◌∷◌, length, All, some,
}
use spoe_forge.Prelude.Int.{ℤ, pos, ltb_ℤ}
use spoe_forge.Prelude.Buffer.{Bytes}
use spoe_forge.Spop.Result.{Result, ok, err, encode_error, ◌>>=◌, >>=-eq-ok}
use spoe_forge.Spop.Types.{MetaData, Action, ack}
use spoe_forge.Spop.Wire.{ActsOnObject}
use spoe_forge.Spop.Encoders.Payloads.{encode_action_list}
use spoe_forge.Spop.Frame.{Frame, Payload}
use spoe_forge.Spop.Frame.Codec.{encode}
use spoe_forge.Server.Salvage.{ack_frame, minus, salvage_round, salvage, salvaged_ack}
use spoe_forge.Server.Salvage.Fits.{dropped-ok}
use spoe_forge.Spop.Frame.Construct.{construct, final_metadata}

-- The ACK with all the actions.
abbrev pub ack_of : MetaData → List Action → Frame
ack_of m actions = record {
  frame_type = ack;
  metadata = final_metadata m.stream_id m.frame_id;
  payload = Payload.ack (some actions);
}

pub ack_frame-ack_of :
    (m : MetaData) (actions : List Action) → ack_frame m actions ≡ ok (ack_of m actions)
unfolding construct
ack_frame-ack_of m actions = refl

same_ok : {A : Type 0} (x y : A) → ◌≡◌ {A = Result A} (ok x) (ok y) → x ≡ y
same_ok x y p = cc

-- A part of the actions, in their order.
abbrev pub Part : List Action → List Action → Type 0
Part kept actions = Sublist kept actions × (All ActsOnObject actions → All ActsOnObject kept)

without_first :
    (a : Action) (kept actions : List Action) → Part kept actions → Part kept (a ∷ actions)
without_first a kept actions (part, h) = (Sublist.cons a part, λ all. h all.1)

with_first :
    (a : Action) (kept actions : List Action) → Part kept actions → Part (a ∷ kept) (a ∷ actions)
with_first a kept actions (part, h) = (Sublist.cons-cons a part, λ all. (all.0, h all.1))

-- The loop keeps such a part.
round-Part :
    (budget : ℤ) (used : ℕ) (a : Action) (actions : List Action) (r : Result Bytes)
    (skip : Result (List Action)) (keep : ℕ → Result (List Action)) (kept : List Action)
    → ((k : List Action) → skip ≡ ok k → Part k actions)
    → ((n : ℕ) (k : List Action) → keep n ≡ ok k → Part k actions)
    → salvage_round budget used a r skip keep ≡ ok kept
    → Part kept (a ∷ actions)
round-Part budget used a actions (ok b) skip keep kept s k h =
    elim (Bool-cases (ltb_ℤ budget (pos (used + length b)))) [
      | inl over ↦ without_first a kept actions (s kept (rw over at h))
      | inr fits ↦
          let (rest, r, p) = >>=-eq-ok (keep (used + length b)) (λ l. ok (a ∷ l)) (rw fits at h) in
          subst (λ l. Part l (a ∷ actions)) (same_ok (a ∷ rest) kept p)
            (with_first a rest actions (k (used + length b) rest r))
    ]
round-Part budget used a actions (err encode_error) skip keep kept s k h =
    without_first a kept actions (s kept (dropped-ok a skip kept h))
round-Part budget used a actions (err _) skip keep kept s k h = cc

salvage-Part :
    (budget : ℤ) (used : ℕ) (actions kept : List Action)
    → salvage budget used actions ≡ ok kept
    → Part kept actions
unfolding salvage
salvage-Part budget used [] kept e =
    subst (λ l. Part l []) (same_ok [] kept e) (Sublist.refl [], λ all. all)
salvage-Part budget used (a ∷ actions) kept e =
    round-Part budget used a actions (encode_action_list (a ∷ [])) (salvage budget used actions)
      (λ n. salvage budget n actions) kept (λ k. salvage-Part budget used actions k)
      (λ n k. salvage-Part budget n actions k) e

-- What is salvaged is an ACK with a part of the actions.
pub salvaged_ack-Part :
    (max : ℤ) (m : MetaData) (actions : List Action) (f : Frame)
    → salvaged_ack max m actions ≡ ok f
    → (kept : List Action) × (f ≡ ack_of m kept) × Part kept actions
unfolding salvaged_ack
salvaged_ack-Part max m actions f e =
    let rest = λ (b : Bytes). salvage (minus max (length b - 4)) 0 actions >>= λ l. ack_frame m l in
    let (empty, p, q) = >>=-eq-ok (ack_frame m []) (λ g. encode g max >>= rest) e in
    let (b, p', q') = >>=-eq-ok (encode empty max) rest q in
    let (kept, p'', q'') =
      >>=-eq-ok (salvage (minus max (length b - 4)) 0 actions) (λ l. ack_frame m l) q' in
    (
      kept,
      same_ok f (ack_of m kept) (sym q'' ∙ ack_frame-ack_of m kept),
      salvage-Part (minus max (length b - 4)) 0 actions kept p'',
    )
