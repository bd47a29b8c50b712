-- ===== src/Spop/Frame/Construct.antt =====
-- `Frame.construct` and the `construct_payload` methods of spoe_forge/spop/frame.py.
use spoe_forge.Prelude.{Bool, true, false, List, Option, none, some}
use spoe_forge.Prelude.Int.{ℤ}
use spoe_forge.Prelude.Text.{Text}
use spoe_forge.Spop.Result.{Exc, Result, ok, key_error, forge_error, or_raise, rethrow, ◌>>=◌}
use spoe_forge.Spop.Types.{Value, Messages, MetaData, Action, FrameType}
use spoe_forge.Spop.Frame.{Payload, Frame, FrameClass, get_frame_class}

-- The keyword arguments: `none` for one that the call leaves out.
pub record Kwargs : Type 0 where
  pub supported_versions : Option (List Text)
  pub max_frame_size : Option Value
  pub capabilities : Option (List Text)
  pub engine_id : Option Value
  pub healthcheck : Option Value
  pub version : Option Value
  pub status_code : Option Value
  pub message : Option Value
  pub messages : Option Messages
  pub actions : Option (Option (List Action))

abbrev pub no_kwargs : Kwargs
no_kwargs = record {
  supported_versions = none;
  max_frame_size = none;
  capabilities = none;
  engine_id = none;
  healthcheck = none;
  version = none;
  status_code = none;
  message = none;
  messages = none;
  actions = none;
}

-- `payload_kwargs[key]`
abbrev pub kwarg {ℓ} : {A : Type ℓ} → Option A → Result A
kwarg o = or_raise key_error o

-- `payload_kwargs.get(key, default)`
abbrev pub kwarg_or {ℓ} : {A : Type ℓ} → A → Option A → A
kwarg_or default none = default
kwarg_or default (some a) = a

unfoldable pub construct_payload : FrameClass → Kwargs → Result Payload
construct_payload FrameClass.haproxy_hello kwargs = do
  supported_versions ← kwarg kwargs.supported_versions
  max_frame_size ← kwarg kwargs.max_frame_size
  capabilities ← kwarg kwargs.capabilities
  ok (
      Payload.haproxy_hello (record {
        supported_versions = supported_versions;
        max_frame_size = max_frame_size;
        capabilities = capabilities;
        engine_id = kwarg_or Value.null kwargs.engine_id;
        healthcheck = kwarg_or (Value.bool false) kwargs.healthcheck;
      }))
construct_payload FrameClass.agent_hello kwargs = do
  version ← kwarg kwargs.version
  max_frame_size ← kwarg kwargs.max_frame_size
  capabilities ← kwarg kwargs.capabilities
  ok (
      Payload.agent_hello (record {
        version = version;
        max_frame_size = max_frame_size;
        capabilities = capabilities;
      }))
construct_payload FrameClass.disconnect kwargs = do
  status_code ← kwarg kwargs.status_code
  message ← kwarg kwargs.message
  ok (Payload.disconnect (record { status_code = status_code; message = message }))
construct_payload FrameClass.notify kwargs = do
  messages ← kwarg kwargs.messages
  ok (Payload.notify messages)
construct_payload FrameClass.ack kwargs = do
  actions ← kwarg kwargs.actions
  ok (Payload.ack actions)

abbrev pub is_key_error : Exc → Bool
is_key_error key_error = true
is_key_error _ = false

-- The metadata of every frame that is built to be sent: final, not aborted.
abbrev pub final_metadata : ℤ → ℤ → MetaData
final_metadata stream_id frame_id = record {
  flags = record { fin = true; abort = false };
  stream_id = stream_id;
  frame_id = frame_id;
}

unfoldable pub construct : FrameType → ℤ → ℤ → Kwargs → Result Frame
unfolding construct_payload
construct frame_type stream_id frame_id kwargs = do
  frame_class ← get_frame_class frame_type
  payload ← rethrow is_key_error forge_error (construct_payload frame_class kwargs)
  ok (record {
    frame_type = frame_type;
    metadata = final_metadata stream_id frame_id;
    payload = payload;
  })
