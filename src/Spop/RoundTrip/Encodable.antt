-- ===== src/Spop/RoundTrip/Encodable.antt =====
-- What the encoders of spoe_forge/spop/encoders/ accept: the wire can carry it.
use spoe_forge.Prelude.{◌≡◌, inl, inr, arith, List, [], ◌∷◌, ◌++◌, All, ltb, Bool-cases}
use spoe_forge.Prelude.Int.{ℤ, ◌≤ℤ◌}
use spoe_forge.Prelude.Text.{Text}
use spoe_forge.Prelude.Buffer.{Bytes}
use spoe_forge.Spop.Result.{ok, encode_error, ◌>>=◌, >>=-eq-ok, rethrow-eq-ok}
use spoe_forge.Spop.Types.{
  DataType, Value, IsWire, IsLatin1, Action, set_var_action, unset_var_action, other_action,
  int64_min, int64_max,
}
use spoe_forge.Spop.Wire.{IsObject, ActsOnObject, IsWireAction}
use spoe_forge.Spop.Encoders.DataTypes.{
  is_unicode_encode_error, type_data, in_range, tagged, compose_binary, encode_latin1,
  encode_string, encode_dt_int64, encode_dt_string, auto_encode_dt_var,
}
use spoe_forge.Spop.Encoders.Payloads.{compose_action, encode_action_list}

encoded-IsLatin1 : (s : Text) (b : Bytes) → encode_latin1 s ≡ ok b → IsLatin1 s
unfolding encode_latin1
encoded-IsLatin1 [] b e = tt
encoded-IsLatin1 (c ∷ s) b e = elim (Bool-cases (ltb c 256)) [
  | inl low ↦
      let (rest, p, q) = >>=-eq-ok (encode_latin1 s) (λ x. ok (c ∷ x)) (rw low at e) in
      (ground arith, encoded-IsLatin1 s rest p)
  | inr high ↦ let bad = rw high at e in cc
]

pub string-IsLatin1 : (s : Text) (b : Bytes) → encode_string s ≡ ok b → IsLatin1 s
unfolding encode_string
string-IsLatin1 s b e =
    let raw =
      rethrow-eq-ok is_unicode_encode_error encode_error (encode_latin1 s >>= compose_binary) e in
    let (x, p, q) = >>=-eq-ok (encode_latin1 s) compose_binary raw in encoded-IsLatin1 s x p

dt_string-IsLatin1 : (s : Text) (b : Bytes) → encode_dt_string s ≡ ok b → IsLatin1 s
unfolding encode_dt_string
dt_string-IsLatin1 s b e =
    let body = encode_latin1 s >>= compose_binary in
    let raw = rethrow-eq-ok is_unicode_encode_error encode_error (tagged DataType.string body) e in
    let (head, p, q) =
      >>=-eq-ok (type_data DataType.string 0) (λ h. body >>= λ x. ok (h ++ x)) raw in
    let (x, p', q') = >>=-eq-ok body (λ x. ok (head ++ x)) q in
    let (y, p'', q'') = >>=-eq-ok (encode_latin1 s) compose_binary p' in encoded-IsLatin1 s y p''

dt_int64-IsWire :
    (v : ℤ) (b : Bytes) → encode_dt_int64 v ≡ ok b → (int64_min ≤ℤ v) × (v ≤ℤ int64_max)
unfolding encode_dt_int64
dt_int64-IsWire v b e = elim (Bool-cases (in_range int64_min int64_max v)) [
  | inl within ↦ (ground arith, ground arith)
  | inr beyond ↦ let bad = rw beyond at e in cc
]

pub value-IsWire : (v : Value) (b : Bytes) → IsObject v → auto_encode_dt_var v ≡ ok b → IsWire v
unfolding auto_encode_dt_var
value-IsWire Value.null b h e = tt
value-IsWire (Value.bool x) b h e = tt
value-IsWire (Value.int v) b h e = dt_int64-IsWire v b e
value-IsWire (Value.ipv4 n) b h e = h
value-IsWire (Value.ipv6 n) b h e = h
value-IsWire (Value.bytes x) b h e = h
value-IsWire (Value.str s) b h e = dt_string-IsLatin1 s b e
value-IsWire Value.unsupported b h e = cc

action-IsWireAction :
    (a : Action) (b : Bytes) → ActsOnObject a → compose_action a ≡ ok b → IsWireAction a
unfolding compose_action
action-IsWireAction (set_var_action scope name value) b h e =
    let (n, p, q) = >>=-eq-ok (encode_string name) _ e in
    let (v, p', q') = >>=-eq-ok (auto_encode_dt_var value) _ q in
    (string-IsLatin1 name n p, value-IsWire value v h p')
action-IsWireAction (unset_var_action scope name) b h e =
    let (n, p, q) = >>=-eq-ok (encode_string name) _ e in string-IsLatin1 name n p
action-IsWireAction other_action b h e = cc

-- The wire can carry every action of a list that encodes.
pub actions-IsWireAction :
    (actions : List Action) (b : Bytes)
    → All ActsOnObject actions
    → encode_action_list actions ≡ ok b
    → All IsWireAction actions
unfolding encode_action_list
actions-IsWireAction [] b h e = tt
actions-IsWireAction (a ∷ actions) b h e =
    let (x, p, q) = >>=-eq-ok (compose_action a) _ e in
    let (y, p', q') = >>=-eq-ok (encode_action_list actions) _ q in
    (action-IsWireAction a x h.0 p, actions-IsWireAction actions y h.1 p')
