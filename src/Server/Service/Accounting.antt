-- ===== src/Server/Service/Accounting.antt =====
-- How the frames that a connection has answered, or still works on, make up those that it has taken.
use mathlib.Core.List.Perm
use mathlib.Core.List.{Perm, perm_middle, perm-append_right_iff}
use spoe_forge.Prelude.{
  ℕ, ◌≡◌, ◌≤◌, refl, sym, ap, subst, ◌∙◌, arith, List, [], ◌∷◌, ◌++◌, append-nil, append_assoc,
  length, length-append,
}
use spoe_forge.Server.Loop.{Notified}

-- How the frames that were answered or still run account for those that were taken, where so many
-- run at most: by a relation that the start and the two steps keep.
pub record Accounting (limit : ℕ) : Type 1 where
  pub Accounts : List Notified → List Notified → Type 0
  pub at_start : Accounts [] []
  pub one_taken :
      (ts us : List Notified) (t : Notified)
      → Accounts ts us
      → Accounts (ts ++ (t ∷ [])) (us ++ (t ∷ []))
  pub one_ended :
      (ts front back us : List Notified) (t : Notified)
      → length (front ++ (t ∷ back)) ≤ limit
      → Accounts (ts ++ (front ++ (t ∷ back))) us
      → Accounts ((ts ++ (t ∷ [])) ++ (front ++ back)) us

-- The order in which the tasks end is open.
pub moved :
    (ts front back : List Notified) (t : Notified)
    → Perm ((ts ++ (t ∷ [])) ++ (front ++ back)) (ts ++ (front ++ (t ∷ back)))
moved ts front back t =
    subst (λ l. Perm l (ts ++ (front ++ (t ∷ back))))
      (sym (append_assoc ts (t ∷ []) (front ++ back)))
      (Perm.append_left ts (Perm.symm (perm_middle front back)))

abbrev pub any_order : (limit : ℕ) → Accounting limit
any_order limit = record {
  Accounts = Perm;
  at_start = Perm.refl [];
  one_taken = λ ts us t h. (perm-append_right_iff (t ∷ [])).1 h;
  one_ended = λ ts front back us t few h. Perm.trans (moved ts front back t) h;
}

-- Where one task runs at most, it ends before the next is made.
pub alone :
    (limit : ℕ) (ts front back us : List Notified) (t : Notified)
    → limit ≤ 1
    → length (front ++ (t ∷ back)) ≤ limit
    → (ts ++ (front ++ (t ∷ back))) ≡ us
    → ((ts ++ (t ∷ [])) ++ (front ++ back)) ≡ us
alone limit ts [] [] us t one few h = append-nil (ts ++ (t ∷ [])) ∙ h
alone limit ts [] (u ∷ back) us t one few h = absurd (omega arith)
alone limit ts (u ∷ front) back us t one few h =
    absurd (omega (arith, length-append front (t ∷ back)))

abbrev pub in_order : (limit : ℕ) → limit ≤ 1 → Accounting limit
in_order limit one = record {
  Accounts = λ ts us. ts ≡ us;
  at_start = refl;
  one_taken = λ ts us t h. ap (λ l. l ++ (t ∷ [])) h;
  one_ended = λ ts front back us t few h. alone limit ts front back us t one few h;
}
