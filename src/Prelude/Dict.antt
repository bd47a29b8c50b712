-- ===== src/Prelude/Dict.antt =====
-- A `dict` of Python with `str` keys: an association list in the order of insertion.
use mathlib.Core.Path.{◌≡◌, refl}
use mathlib.Core.Bool.{Bool, true, false}
use mathlib.Core.Option.{Option, none, some}
use mathlib.Core.List.{List, [], ◌∷◌, ◌++◌}
use native.Mathlib.Omega.{arith}
use spoe_forge.Prelude.Tests.{if◌then◌else◌}
use spoe_forge.Prelude.Text.{Text, text_eq, text_eq_iff}

abbrev pub Dict {ℓ} : Type ℓ → Type ℓ
Dict V = List (Text × V)

module _ {ℓ} {V : Type ℓ} where
  -- `d.get(k)`
  unfoldable pub get : Dict V → Text → Option V
  get [] k = none
  get ((j, v) ∷ d) k = if text_eq j k then some v else get d k

  -- `k in d`
  unfoldable pub contains : Dict V → Text → Bool
  contains [] k = false
  contains ((j, v) ∷ d) k = if text_eq j k then true else contains d k

  -- `d[k] = v`: a key that is there keeps its place.
  unfoldable pub put : Dict V → Text → V → Dict V
  put [] k v = (k, v) ∷ []
  put ((j, w) ∷ d) k v = if text_eq j k then (j, v) ∷ d else (j, w) ∷ put d k v

  pub get-put :
      (d : Dict V) (k j : Text) (v : V)
      → get (put d k v) j ≡ (if text_eq k j then some v else get d j)
  unfolding get put
  get-put [] k j v = refl
  get-put ((i, w) ∷ d) k j v =
      ground (arith, text_eq_iff k j, text_eq_iff i k, text_eq_iff i j, get-put d k j v)

  -- A new key goes to the end.
  pub put-new :
      (d : Dict V) (k : Text) (v : V) → contains d k ≡ false → put d k v ≡ d ++ ((k, v) ∷ [])
  unfolding contains put
  put-new [] k v h = refl
  put-new ((j, w) ∷ d) k v h = ground (arith, put-new d k v)

  pub contains-append :
      (d : Dict V) (k j : Text) (v : V)
      → contains d j ≡ false
      → text_eq k j ≡ false
      → contains (d ++ ((k, v) ∷ [])) j ≡ false
  unfolding contains
  contains-append [] k j v h n = ground arith
  contains-append ((i, w) ∷ d) k j v h n = ground (arith, contains-append d k j v)
