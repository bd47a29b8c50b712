-- ===== src/Spop/Decoders/Payloads.antt =====
-- spoe_forge/spop/decoders/payloads.py. The `while` loops are those of Loop and take fuel: a round
-- consumes a byte at least, so the bytes between the offset and the end are enough rounds.
use spoe_forge.Prelude.{
  ℕ, zero, suc, ◌+◌, ◌-◌, Bool, true, false, List, [], ◌∷◌, ◌++◌, ltb, ◌==◌, if◌then◌else◌, length,
  bit_and,
}
use spoe_forge.Prelude.Buffer.{Bytes, slice}
use spoe_forge.Prelude.Text.{Text}
use spoe_forge.Prelude.Dict.{Dict, put, contains}
use spoe_forge.Spop.Result.{
  Exc, Result, ok, err, decode_error, index_error, rethrow, require, ◌>>=◌, ◌>>◌,
}
use spoe_forge.Spop.Types.{
  Value, Messages, Flags, MetaData, Action, ActionType, ActionScope, set_var_action,
  unset_var_action, set_var, unset_var, action_type_of, action_nb_args, action_scope_of, fin_flag,
  abort_flag,
}
use spoe_forge.Spop.Varint.{byte_at}
use spoe_forge.Spop.Decoders.Loop.{item_loop}
use spoe_forge.Spop.Decoders.DataTypes.{
  SpoaDec, is_value_error, auto_decode_var, decode_int64, decode_string, decode_tiny_int,
}

unfoldable pub parse_kv_pair : Bytes → ℕ → SpoaDec (Text × Value)
parse_kv_pair buf offset = do
  (key, o) ← decode_string buf offset
  (val, end) ← auto_decode_var buf o
  ok ((key, val), end)

-- `b[-1]`
abbrev pub last_byte : Bytes → Result ℕ
last_byte [] = err index_error
last_byte (b ∷ []) = ok b
last_byte (b ∷ c ∷ bs) = last_byte (c ∷ bs)

abbrev pub is_decode_error : Exc → Bool
is_decode_error decode_error = true
is_decode_error _ = false

unfoldable pub decode_metadata : Bytes → ℕ → SpoaDec MetaData
decode_metadata buf offset =
    let end = offset + 4 in
    if ltb (length buf) end then err decode_error else do
      flag ← last_byte (slice buf offset end)
      let flags : Flags = record {
        fin = bit_and flag fin_flag == fin_flag;
        abort = bit_and flag abort_flag == abort_flag;
      }
      (stream_id, o) ← rethrow is_decode_error decode_error (decode_int64 buf end)
      (frame_id, o') ← rethrow is_decode_error decode_error (decode_int64 buf o)
      ok (record { flags = flags; stream_id = stream_id; frame_id = frame_id }, o')

-- `payload[key] = val`
abbrev pub put_pair : Dict Value → Text × Value → Dict Value
put_pair payload kv = put payload kv.0 kv.1

unfoldable pub decode_kv_list : Bytes → ℕ → ℕ → SpoaDec (Dict Value)
unfolding item_loop
decode_kv_list buf offset end = item_loop parse_kv_pair put_pair (end - offset) buf offset end []

-- `for _ in range(num_args)`
unfoldable pub args_loop : ℕ → Bytes → ℕ → Dict Value → SpoaDec (Dict Value)
args_loop zero buf offset args = ok (args, offset)
args_loop (suc rounds) buf offset args = do
  (kv, o) ← parse_kv_pair buf offset
  let rest = args_loop rounds buf o (put args kv.0 kv.1)
  if contains args kv.0 then err decode_error else rest

-- One message of the list.
unfoldable pub decode_message : Bytes → ℕ → SpoaDec (Text × Dict Value)
unfolding args_loop
decode_message buf offset = do
  (message, o) ← decode_string buf offset
  (num_args, o') ← decode_tiny_int buf o
  (args, end) ← args_loop num_args buf o' []
  ok ((message, args), end)

-- `payload.append(x)`
abbrev pub append_item : {A : Type 0} → List A → A → List A
append_item xs x = xs ++ (x ∷ [])

unfoldable pub decode_list_of_messages : Bytes → ℕ → ℕ → SpoaDec Messages
unfolding item_loop
decode_list_of_messages buf offset end =
    item_loop decode_message append_item (end - offset) buf offset end []

-- The arguments of an action, behind its three bytes.
unfoldable pub decode_action_args : ActionType → ℕ → ActionScope → Bytes → ℕ → SpoaDec Action
decode_action_args set_var nb_args scope buf offset = do
  require (nb_args == action_nb_args set_var) decode_error
  (kv, end) ← parse_kv_pair buf offset
  ok (set_var_action scope kv.0 kv.1, end)
decode_action_args unset_var nb_args scope buf offset = do
  require (nb_args == action_nb_args unset_var) decode_error
  (arg, end) ← decode_string buf offset
  ok (unset_var_action scope arg, end)

-- One action of the list.
unfoldable pub decode_action : Bytes → ℕ → SpoaDec Action
decode_action buf offset = if ltb (length buf) (offset + 3) then err decode_error else do
  action_byte ← byte_at buf offset
  action ← rethrow is_value_error decode_error (action_type_of action_byte)
  nb_args ← byte_at buf (offset + 1)
  scope_byte ← byte_at buf (offset + 2)
  scope ← rethrow is_value_error decode_error (action_scope_of scope_byte)
  decode_action_args action nb_args scope buf (offset + 3)

unfoldable pub decode_list_of_actions : Bytes → ℕ → ℕ → SpoaDec (List Action)
unfolding item_loop
decode_list_of_actions buf offset end =
    item_loop decode_action append_item (end - offset) buf offset end []
