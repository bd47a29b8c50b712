-- ===== src/Spop/Encoders/Payloads.antt =====
-- spoe_forge/spop/encoders/payloads.py.
use spoe_forge.Prelude.{ℕ, List, [], ◌∷◌, ◌++◌, ltb, if◌then◌else◌, length, bit_or}
use spoe_forge.Prelude.Int.{pos}
use spoe_forge.Prelude.Buffer.{Bytes}
use spoe_forge.Prelude.Text.{Text}
use spoe_forge.Prelude.Dict.{Dict}
use spoe_forge.Spop.Result.{Result, ok, err, encode_error, ◌>>=◌}
use spoe_forge.Spop.Types.{
  other_action, Value, Messages, Flags, MetaData, Action, set_var_action, unset_var_action, set_var,
  unset_var, action_type_number, action_nb_args, action_scope_number, fin_flag, abort_flag,
}
use spoe_forge.Spop.Encoders.DataTypes.{
  encode_int, encode_string, encode_tiny_int, auto_encode_dt_var,
}

unfoldable pub compose_kv_pair : Text → Value → Result Bytes
compose_kv_pair k v = do
  k_encoded ← encode_string k
  v_encoded ← auto_encode_dt_var v
  ok (k_encoded ++ v_encoded)

-- The dispatch on the class of the action, and the two registered handlers.
unfoldable pub compose_action : Action → Result Bytes
compose_action (set_var_action scope name value) = do
  n ← encode_string name
  v ← auto_encode_dt_var value
  ok (action_type_number set_var ∷ action_nb_args set_var ∷ action_scope_number scope ∷ (n ++ v))
compose_action (unset_var_action scope name) = do
  n ← encode_string name
  ok (action_type_number unset_var ∷ action_nb_args unset_var ∷ action_scope_number scope ∷ n)
compose_action other_action = err encode_error

unfoldable pub encode_kv_list : Dict Value → Result Bytes
encode_kv_list [] = ok []
encode_kv_list ((k, v) ∷ payload) = do
  pair ← compose_kv_pair k v
  out ← encode_kv_list payload
  ok (pair ++ out)

-- A message: its name, the number of its arguments, and these.
unfoldable pub encode_message : Text → Dict Value → Result Bytes
encode_message message args = if ltb 255 (length args) then err encode_error else do
  name ← encode_string message
  nb_args ← encode_tiny_int (pos (length args))
  pairs ← encode_kv_list args
  ok (name ++ (nb_args ++ pairs))

unfoldable pub encode_message_list : Messages → Result Bytes
encode_message_list [] = ok []
encode_message_list ((message, args) ∷ messages) = do
  head ← encode_message message args
  out ← encode_message_list messages
  ok (head ++ out)

unfoldable pub encode_action_list : List Action → Result Bytes
encode_action_list [] = ok []
encode_action_list (action ∷ actions) = do
  head ← compose_action action
  out ← encode_action_list actions
  ok (head ++ out)

-- The last of the four flag bytes.
abbrev pub flags_byte : Flags → ℕ
flags_byte flags =
    let fin : ℕ = if flags.fin then bit_or 0 fin_flag else 0 in
    if flags.abort then bit_or fin abort_flag else fin

unfoldable pub encode_metadata : MetaData → Result Bytes
encode_metadata metadata = do
  stream_id ← encode_int metadata.stream_id
  frame_id ← encode_int metadata.frame_id
  ok (0 ∷ 0 ∷ 0 ∷ flags_byte metadata.flags ∷ (stream_id ++ frame_id))
