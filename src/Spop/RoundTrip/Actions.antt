-- ===== src/Spop/RoundTrip/Actions.antt =====
-- Round trips of actions, in spoe_forge/spop/{encoders,decoders}/payloads.py.
use spoe_forge.Prelude.{
  ℕ, ◌+◌, ◌<◌, ◌≡◌, refl, arith, false, List, [], ◌∷◌, ◌++◌, length, length-append, All, All-append,
  ltb, ge→ltb,
}
use spoe_forge.Prelude.Buffer.{Bytes, IsByte, At, At-cons, At-append}
use spoe_forge.Prelude.Text.{Text}
use spoe_forge.Spop.Result.{ok}
use spoe_forge.Spop.Types.{
  other_action, Value, Action, ActionScope, process, set_var_action, unset_var_action,
  action_scope_number, action_scope_of,
}
use spoe_forge.Spop.Wire.{IsWireAction}
use spoe_forge.Spop.Varint.Parse.{byte_at-At}
use spoe_forge.Spop.Varint.{byte_at}
use spoe_forge.Spop.Encoders.DataTypes.{encode_string, auto_encode_dt_var}
use spoe_forge.Spop.Encoders.Payloads.{compose_action, encode_action_list}
use spoe_forge.Spop.Decoders.DataTypes.{decode_string, auto_decode_var}
use spoe_forge.Spop.Decoders.Payloads.{parse_kv_pair, decode_action, decode_action_args}
use spoe_forge.Spop.RoundTrip.Carries.{Carries, At-first, At-second, same_result}
use spoe_forge.Spop.RoundTrip.DataTypes.{value-Carries}
use spoe_forge.Spop.RoundTrip.Primitives.{string-Carries}
use spoe_forge.Spop.RoundTrip.Lists.{Encoded, list-Encoded}

scope_number : (s : ActionScope) → action_scope_of (action_scope_number s) ≡ ok s
scope_number process = refl
scope_number _ = refl

scope_number-IsByte : (s : ActionScope) → action_scope_number s < 256
scope_number-IsByte process = omega arith
scope_number-IsByte _ = omega arith

-- The three bytes of an action, and what follows them.
action_header :
    (a n : ℕ) (s : ActionScope) (body : Bytes) (buf : Bytes) (offset : ℕ) (rest : Bytes)
    → At buf offset ((a ∷ n ∷ action_scope_number s ∷ body) ++ rest)
    → (ltb (length buf) (offset + 3) ≡ false)
      × (byte_at buf offset ≡ ok a)
      × (byte_at buf (offset + 1) ≡ ok n)
      × (byte_at buf (offset + 2) ≡ ok (action_scope_number s))
      × At buf (offset + 3) (body ++ rest)
action_header a n s body buf offset rest at =
    let scope = action_scope_number s in
    let at1 = At-cons buf offset a (n ∷ scope ∷ (body ++ rest)) at in
    let at2 = At-append buf offset (a ∷ n ∷ []) (scope ∷ (body ++ rest)) at in
    (
      ge→ltb (length buf) (offset + 3) (omega (arith, at.total)),
      byte_at-At buf offset a (n ∷ scope ∷ (body ++ rest)) at,
      byte_at-At buf (offset + 1) n (scope ∷ (body ++ rest)) at1,
      byte_at-At buf (offset + 2) scope (body ++ rest) at2,
      At-append buf offset (a ∷ n ∷ scope ∷ []) (body ++ rest) at,
    )

-- A name and a value that were encoded one behind the other.
kv_pair-At :
    (name : Text) (value : Value) (n : Carries (encode_string name) decode_string name)
    (v : Carries (auto_encode_dt_var value) auto_decode_var value) (buf : Bytes) (offset : ℕ)
    (rest : Bytes)
    → At buf offset ((n.bytes ++ v.bytes) ++ rest)
    → parse_kv_pair buf offset ≡ ok ((name, value), offset + length (n.bytes ++ v.bytes))
unfolding parse_kv_pair
kv_pair-At name value n v buf offset rest a =
    rw
      (
        n.read buf offset (v.bytes ++ rest) (At-first buf offset n.bytes v.bytes rest a),
        v.read buf (offset + length n.bytes) rest (At-second buf offset n.bytes v.bytes rest a),
      )
      (same_result refl (omega (arith, length-append n.bytes v.bytes)))

-- An action whose name and value the wire can carry is decoded to itself.
pub action-Carries : (a : Action) → IsWireAction a → Carries (compose_action a) decode_action a
unfolding compose_action decode_action decode_action_args
action-Carries (set_var_action scope name value) h = record {
  bytes = 1 ∷ 3 ∷ action_scope_number scope ∷ (n.bytes ++ v.bytes);
  written = rw (n.written, v.written);
  are_bytes = (
    omega arith,
    (
      omega arith,
      (scope_number-IsByte scope, All-append IsByte n.bytes v.bytes n.are_bytes v.are_bytes),
    ),
  );
  nonempty = omega arith;
  read = λ buf offset rest at.
      let (fits, type, nb_args, scope_byte, body) =
        action_header 1 3 scope (n.bytes ++ v.bytes) buf offset rest at in
      rw
        (
          fits,
          type,
          nb_args,
          scope_byte,
          scope_number scope,
          kv_pair-At name value n v buf (offset + 3) rest body,
        )
        (same_result refl (omega arith));
}
  where
    n : Carries (encode_string name) decode_string name
    n = string-Carries name h.0

    v : Carries (auto_encode_dt_var value) auto_decode_var value
    v = value-Carries value h.1
action-Carries (unset_var_action scope name) h = record {
  bytes = 2 ∷ 2 ∷ action_scope_number scope ∷ n.bytes;
  written = rw n.written;
  are_bytes = (omega arith, (omega arith, (scope_number-IsByte scope, n.are_bytes)));
  nonempty = omega arith;
  read = λ buf offset rest at.
      let (fits, type, nb_args, scope_byte, body) =
        action_header 2 2 scope n.bytes buf offset rest at in
      rw (fits, type, nb_args, scope_byte, scope_number scope, n.read buf (offset + 3) rest body)
        (same_result refl (omega arith));
}
  where
    n : Carries (encode_string name) decode_string name
    n = string-Carries name h
action-Carries other_action h = elim h [ ]

pub actions-Encoded :
    (actions : List Action)
    → All IsWireAction actions
    → Encoded (encode_action_list actions) decode_action actions
unfolding encode_action_list
actions-Encoded =
    list-Encoded IsWireAction compose_action encode_action_list decode_action refl (λ x xs. refl)
      action-Carries
