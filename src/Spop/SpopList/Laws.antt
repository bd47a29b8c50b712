-- ===== src/Spop/SpopList/Laws.antt =====
-- What the list notation of SPOP keeps.
use spoe_forge.Prelude.{
  ◌≡◌, ◌≢◌, refl, ap, ◌∙◌, arith, false, List, [], ◌∷◌, ◌++◌, All, ◌&&◌, Bool-cases, inl, inr,
}
use spoe_forge.Prelude.Text.{Text}
use spoe_forge.Spop.SpopList.{
  is_empty, is_space, lstrip, rstrip, strip, comma, split, join, strip_all, strip_fields,
  to_spop_list, from_spop_list,
}

abbrev pub NoComma : Text → Type 0
NoComma s = All (λ c. c ≢ comma) s

-- An entry of a list that the notation carries: not empty, no comma, no white space at its ends.
pub record IsToken (s : Text) : Type 0 where
  pub nonempty : is_empty s ≡ false
  pub no_comma : NoComma s
  pub stripped : strip s ≡ s

split-NoComma : (s : Text) → NoComma s → split comma s ≡ s ∷ []
unfolding split
split-NoComma [] h = refl
split-NoComma (c ∷ s) h = ground (arith, split-NoComma s h.1)

split-append :
    (s rest : Text) → NoComma s → split comma (s ++ (comma ∷ rest)) ≡ s ∷ split comma rest
unfolding split
split-append [] rest h = refl
split-append (c ∷ s) rest h = ground (arith, split-append s rest h.1)

NoComma-lstrip : (s : Text) → NoComma s → NoComma (lstrip s)
unfolding lstrip
NoComma-lstrip [] h = tt
NoComma-lstrip (c ∷ s) h = elim (Bool-cases (is_space c)) [
  | inl e ↦ rw e (NoComma-lstrip s h.1)
  | inr e ↦ rw e h
]

NoComma-rstrip : (s : Text) → NoComma s → NoComma (rstrip s)
unfolding rstrip
NoComma-rstrip [] h = tt
NoComma-rstrip (c ∷ s) h = elim (Bool-cases (is_empty (rstrip s) && is_space c)) [
  | inl e ↦ rw e tt
  | inr e ↦ rw e (h.0, NoComma-rstrip s h.1)
]

NoComma-strip : (s : Text) → NoComma s → NoComma (strip s)
unfolding strip
NoComma-strip s h = NoComma-rstrip (lstrip s) (NoComma-lstrip s h)

-- Joined fields without commas are split again.
split-join :
    (item : Text) (items : List Text)
    → NoComma item
    → All NoComma items
    → split comma (join (item ∷ items)) ≡ item ∷ items
unfolding join
split-join item [] h k = split-NoComma item h
split-join item (next ∷ items) h k =
    split-append item (join (next ∷ items)) h ∙ ap (λ l. item ∷ l) (split-join next items k.0 k.1)

pub strip_all-tokens : (items : List Text) → All IsToken items → strip_all items ≡ items
unfolding strip_all
strip_all-tokens [] h = refl
strip_all-tokens (item ∷ items) h = cc (h.0.stripped, strip_all-tokens items h.1)

strip_fields-tokens : (items : List Text) → All IsToken items → strip_fields items ≡ items
unfolding strip_fields
strip_fields-tokens [] h = refl
strip_fields-tokens (item ∷ items) h =
    rw (h.0.stripped, h.0.nonempty, strip_fields-tokens items h.1)

tokens-NoComma : (items : List Text) → All IsToken items → All NoComma items
tokens-NoComma [] h = tt
tokens-NoComma (item ∷ items) h = (h.0.no_comma, tokens-NoComma items h.1)

-- A list of tokens, each without commas, not empty and not to be stripped, survives the notation: what `to_spop_list` writes, `from_spop_list` reads back,
-- the empty list included.
pub from_spop_list-to_spop_list :
    (items : List Text) → All IsToken items → from_spop_list (to_spop_list items) ≡ items
unfolding from_spop_list to_spop_list
from_spop_list-to_spop_list [] h = unfold strip lstrip rstrip in refl
from_spop_list-to_spop_list (item ∷ items) h =
    ap (λ l. strip_fields (split comma (join l))) (strip_all-tokens (item ∷ items) h)
    ∙ ap strip_fields (split-join item items h.0.no_comma (tokens-NoComma items h.1))
    ∙ strip_fields-tokens (item ∷ items) h
