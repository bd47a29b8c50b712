-- ===== src/Spop/Frame.antt =====
-- spoe_forge/spop/frame.py: the frames, their encoding, construction and decoding.
pub mod Construct
pub mod Codec
pub mod RoundTrip
pub mod Consumes
use spoe_forge.Prelude.{
  ℕ, suc, ◌+◌, Bool, true, false, List, [], ◌∷◌, ◌++◌, Option, none, some, ltb, ◌==◌, if◌then◌else◌,
  length,
}
use spoe_forge.Prelude.Int.{ℤ, pos, ltb_ℤ}
use spoe_forge.Prelude.Buffer.{Bytes}
use spoe_forge.Prelude.Text.{Text, codes}
use spoe_forge.Prelude.Dict.{Dict, get}
use spoe_forge.Spop.Result.{
  Exc, Result, ok, err, decode_error, key_error, attribute_error, type_error, forge_error,
  frame_too_big, or_raise, rethrow, ◌>>=◌,
}
use spoe_forge.Spop.Types.{
  Value, Messages, MetaData, Action, FrameType, frame_type_number, frame_type_of,
}
use spoe_forge.Spop.Varint.{byte_at}
use spoe_forge.Spop.SpopList.{to_spop_list, from_spop_list}
use spoe_forge.Spop.Encoders.DataTypes.{encode_tiny_int, encode_frame_len}
use spoe_forge.Spop.Encoders.Payloads.{
  encode_kv_list, encode_message_list, encode_action_list, encode_metadata,
}
use spoe_forge.Spop.Decoders.DataTypes.{SpoaDec, is_value_error}
use spoe_forge.Spop.Decoders.Payloads.{
  decode_metadata, decode_kv_list, decode_list_of_messages, decode_list_of_actions,
}

-- The attributes of the frames. Those that are taken from a dict without a look at their type can be
-- any value.
pub record HaproxyHello : Type 0 where
  pub supported_versions : List Text
  pub max_frame_size : Value
  pub capabilities : List Text
  pub engine_id : Value
  pub healthcheck : Value

pub record AgentHello : Type 0 where
  pub version : Value
  pub max_frame_size : Value
  pub capabilities : List Text

pub record Disconnect : Type 0 where
  pub status_code : Value
  pub message : Value

-- The subclasses of `Frame`, with their attributes.
pub data Payload : Type 0 where
  haproxy_hello : HaproxyHello → Payload
  agent_hello : AgentHello → Payload
  disconnect : Disconnect → Payload
  notify : Messages → Payload
  ack : Option (List Action) → Payload

pub record Frame : Type 0 where
  pub frame_type : FrameType
  pub metadata : MetaData
  pub payload : Payload

-- The classes that `Frame.register` enters for the types.
pub data FrameClass : Type 0 where
  haproxy_hello agent_hello disconnect notify ack : FrameClass

abbrev pub get_frame_class : FrameType → Result FrameClass
get_frame_class FrameType.haproxy_hello = ok FrameClass.haproxy_hello
get_frame_class FrameType.agent_hello = ok FrameClass.agent_hello
get_frame_class FrameType.haproxy_disconnect = ok FrameClass.disconnect
get_frame_class FrameType.agent_disconnect = ok FrameClass.disconnect
get_frame_class FrameType.notify = ok FrameClass.notify
get_frame_class FrameType.ack = ok FrameClass.ack
get_frame_class FrameType.unset = err decode_error

-- `payload["engine-id"] = self.engine_id`, unless that is `None`.
abbrev pub engine_entry : Value → Dict Value
engine_entry Value.null = []
engine_entry v = (codes "engine-id", v) ∷ []

abbrev pub haproxy_hello_dict : HaproxyHello → Dict Value
haproxy_hello_dict f =
    (codes "supported-versions", Value.str (to_spop_list f.supported_versions))
    ∷ (codes "max-frame-size", f.max_frame_size)
    ∷ (codes "capabilities", Value.str (to_spop_list f.capabilities))
    ∷ (codes "healthcheck", f.healthcheck)
    ∷ engine_entry f.engine_id

abbrev pub agent_hello_dict : AgentHello → Dict Value
agent_hello_dict f =
    (codes "version", f.version)
    ∷ (codes "max-frame-size", f.max_frame_size)
    ∷ (codes "capabilities", Value.str (to_spop_list f.capabilities))
    ∷ []

abbrev pub disconnect_dict : Disconnect → Dict Value
disconnect_dict f = (codes "status-code", f.status_code) ∷ (codes "message", f.message) ∷ []

unfoldable pub encode_payload : Payload → Result Bytes
encode_payload (Payload.haproxy_hello f) = encode_kv_list (haproxy_hello_dict f)
encode_payload (Payload.agent_hello f) = encode_kv_list (agent_hello_dict f)
encode_payload (Payload.disconnect f) = encode_kv_list (disconnect_dict f)
encode_payload (Payload.notify messages) = encode_message_list messages
encode_payload (Payload.ack none) = ok []
encode_payload (Payload.ack (some actions)) = encode_action_list actions

-- `payload[key]`
abbrev pub item : Dict Value → Text → Result Value
item payload key = or_raise key_error (get payload key)

-- `payload.get(key, default)`
abbrev pub item_or : Value → Dict Value → Text → Value
item_or default payload key = elim (get payload key) [ none ↦ default | some v ↦ v ]

-- `from_spop_list(v)`: only a `str` has a `split` that takes a `str`.
abbrev pub value_list : Value → Result (List Text)
value_list (Value.str s) = ok (from_spop_list s)
value_list (Value.bytes b) = err type_error
value_list v = err attribute_error

unfoldable pub haproxy_hello_of : Dict Value → Result HaproxyHello
haproxy_hello_of payload = do
  versions ← item payload (codes "supported-versions")
  supported_versions ← value_list versions
  max_frame_size ← item payload (codes "max-frame-size")
  names ← item payload (codes "capabilities")
  capabilities ← value_list names
  ok (record {
    supported_versions = supported_versions;
    max_frame_size = max_frame_size;
    capabilities = capabilities;
    engine_id = item_or Value.null payload (codes "engine-id");
    healthcheck = item_or (Value.bool false) payload (codes "healthcheck");
  })

unfoldable pub agent_hello_of : Dict Value → Result AgentHello
agent_hello_of payload = do
  version ← item payload (codes "version")
  max_frame_size ← item payload (codes "max-frame-size")
  names ← item payload (codes "capabilities")
  capabilities ← value_list names
  ok (record { version = version; max_frame_size = max_frame_size; capabilities = capabilities })

unfoldable pub disconnect_of : Dict Value → Result Disconnect
disconnect_of payload = do
  status_code ← item payload (codes "status-code")
  message ← item payload (codes "message")
  ok (record { status_code = status_code; message = message })

unfoldable pub decode_payload : FrameClass → Bytes → ℕ → ℕ → SpoaDec Payload
unfolding haproxy_hello_of agent_hello_of disconnect_of
decode_payload FrameClass.haproxy_hello buf offset end = do
  (payload, o) ← decode_kv_list buf offset end
  f ← haproxy_hello_of payload
  ok (Payload.haproxy_hello f, o)
decode_payload FrameClass.agent_hello buf offset end = do
  (payload, o) ← decode_kv_list buf offset end
  f ← agent_hello_of payload
  ok (Payload.agent_hello f, o)
decode_payload FrameClass.disconnect buf offset end = do
  (payload, o) ← decode_kv_list buf offset end
  f ← disconnect_of payload
  ok (Payload.disconnect f, o)
decode_payload FrameClass.notify buf offset end = do
  (messages, o) ← decode_list_of_messages buf offset end
  ok (Payload.notify messages, o)
decode_payload FrameClass.ack buf offset end = do
  (actions, o) ← decode_list_of_actions buf offset end
  ok (Payload.ack (some actions), o)
