-- ===== src/Spop/Result.antt =====
-- The exceptions of spoe_forge/spop/exception.py and spoe_forge/exception.py, the built-in ones that
-- the code can meet, and the results of functions that may raise.
use spoe_forge.Prelude.{◌≡◌, refl, Bool, true, false, Option, none, some}

-- `out_of_fuel` is no exception of the program: a loop of the model ran out of rounds.
pub data Exc : Type 0 where
  decode_error encode_error eof_error frame_too_big forge_error : Exc
  key_error index_error attribute_error type_error value_error : Exc
  struct_error unicode_encode_error overflow_error incomplete_read connection_error : Exc
  out_of_fuel : Exc

pub data Result {ℓ} (A : Type ℓ) : Type ℓ where
  ok : A → Result A
  err : Exc → Result A

abbrev pub or_raise {ℓ} : {A : Type ℓ} → Exc → Option A → Result A
or_raise e none = err e
or_raise e (some a) = ok a

-- A raise ends the block that it stands in.
infixl 5 ◌>>=◌
abbrev pub ◌>>=◌ {ℓ κ} : {A : Type ℓ} {B : Type κ} → Result A → (A → Result B) → Result B
err raised >>= rest = err raised
ok value >>= rest = rest value

-- `if not b: raise e`
abbrev pub require : Bool → Exc → Result (Unit {0})
require b e = elim b [ true ↦ ok tt | false ↦ err e ]

infixl 5 ◌>>◌
abbrev pub ◌>>◌ {ℓ} : {B : Type ℓ} → Result (Unit {0}) → Result B → Result B
check >> rest = check >>= λ _. rest

-- `try: m except e: raise e'`, where the test tells the exceptions that are caught.
abbrev pub rethrow {ℓ} : {A : Type ℓ} → (Exc → Bool) → Exc → Result A → Result A
rethrow caught e' (ok a) = ok a
rethrow caught e' (err e) = elim (caught e) [ true ↦ err e' | false ↦ err e ]

-- A block that returns has run each of its steps.
pub >>=-eq-ok {ℓ κ} :
    {A : Type ℓ} {B : Type κ} (first : Result A) (rest : A → Result B) {result : B}
    → (first >>= rest) ≡ ok result
    → (value : A) × (first ≡ ok value) × (rest value ≡ ok result)
>>=-eq-ok (err raised) rest h = cc
>>=-eq-ok (ok value) rest h = (value, refl, h)

-- A result was not caught.
pub rethrow-eq-ok {ℓ} :
    {A : Type ℓ} (caught : Exc → Bool) (e' : Exc) (r : Result A) {a : A}
    → rethrow caught e' r ≡ ok a
    → r ≡ ok a
rethrow-eq-ok caught e' (ok x) h = h
rethrow-eq-ok {A = A} caught e' (err e) {a} h = absurd (go (caught e) h)
  where
    go : (b : Bool) → ◌≡◌ {A = Result A} (elim b [ true ↦ err e' | false ↦ err e ]) (ok a) → ⊥
    go true p = cc
    go false p = cc
