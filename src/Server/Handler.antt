-- ===== src/Server/Handler.antt =====
-- `ForgeHandler` of spoe_forge/server/handler.py: sending, the handshake, and the answer to one NOTIFY.
pub mod Sizes
pub mod Disconnects
pub mod Hello
pub mod Handshake
pub mod Shaken
use spoe_forge.Prelude.{
  ℕ, ◌+◌, ◌-◌, Bool, true, false, not, List, [], ◌∷◌, ◌++◌, Option, none, some, ltb, leb, ◌==◌,
  if◌then◌else◌, length, take,
}
use spoe_forge.Prelude.Int.{ℤ, pos, negsuc, ltb_ℤ}
use spoe_forge.Prelude.Buffer.{Bytes}
use spoe_forge.Prelude.Text.{Text, codes}
use spoe_forge.Spop.Result.{Result, ok, err}
use spoe_forge.Spop.Result
use spoe_forge.Spop.Types.{Value, Messages, MetaData, Action, FrameType}
use spoe_forge.Spop.Encoders.Payloads.{encode_action_list}
use spoe_forge.Spop.Frame.{HaproxyHello, Payload, Frame}
use spoe_forge.Spop.Frame.Construct.{Kwargs, no_kwargs, construct}
use spoe_forge.Spop.Frame.Codec.{encode, decode}
use spoe_forge.Server.Configuration.{ServerConfiguration, number_of, negotiate_server_compatibility}
use spoe_forge.Server.Connection.{
  is_closing, Connection, Step, ◌>>=◌, ◌>>◌, pure, lift, write_and_drain,
}

-- `DisconnectCode`, with its numbers.
pub data DisconnectCode : Type 0 where
  normal io_error timeout frame_too_big : DisconnectCode
  invalid_frame_received version_not_found max_frame_size_not_found capability_not_found :
      DisconnectCode
  unsupported_version max_frame_size_out_of_range fragmentation_not_supported
        invalid_interlaced_frame :
      DisconnectCode
  frame_id_not_found resource_allocation_error unknown_error server_incompatible : DisconnectCode
  protocol_error : DisconnectCode

abbrev pub disconnect_number : DisconnectCode → ℕ
disconnect_number DisconnectCode.normal = 0
disconnect_number DisconnectCode.io_error = 1
disconnect_number DisconnectCode.timeout = 2
disconnect_number DisconnectCode.frame_too_big = 3
disconnect_number DisconnectCode.invalid_frame_received = 4
disconnect_number DisconnectCode.version_not_found = 5
disconnect_number DisconnectCode.max_frame_size_not_found = 6
disconnect_number DisconnectCode.capability_not_found = 7
disconnect_number DisconnectCode.unsupported_version = 8
disconnect_number DisconnectCode.max_frame_size_out_of_range = 9
disconnect_number DisconnectCode.fragmentation_not_supported = 10
disconnect_number DisconnectCode.invalid_interlaced_frame = 11
disconnect_number DisconnectCode.frame_id_not_found = 12
disconnect_number DisconnectCode.resource_allocation_error = 13
disconnect_number DisconnectCode.unknown_error = 99
disconnect_number DisconnectCode.server_incompatible = 101
disconnect_number DisconnectCode.protocol_error = 102

abbrev pub disconnect_message_max_length : ℕ
disconnect_message_max_length = 256

-- `frame.encode(self.config.max_frame_size)`
abbrev pub encode_within : Value → Frame → Result Bytes
encode_within max_frame_size frame = Result.◌>>=◌ (number_of max_frame_size) (λ n. encode frame n)

unfoldable pub send_frame : Frame → Step Bool
send_frame frame c =
    if is_closing c.writer
    then (ok false, c)
    else (lift (encode_within c.config.max_frame_size frame) >>= write_and_drain) c

abbrev pub disconnect_kwargs : DisconnectCode → Text → Kwargs
disconnect_kwargs status_code message = record no_kwargs {
  status_code = some (Value.int (pos (disconnect_number status_code)));
  message = some (Value.str message);
}

unfoldable pub send_disconnect : DisconnectCode → Text → Step Bool
unfolding send_frame construct
send_disconnect status_code message = do
  err_frame ←
      lift (
        construct FrameType.agent_disconnect (pos 0) (pos 0)
          (disconnect_kwargs status_code message))
  send_frame err_frame

unfoldable pub send_disconnect_on_error : DisconnectCode → Text → Step Bool
unfolding send_disconnect
send_disconnect_on_error status_code message =
    send_disconnect status_code (take disconnect_message_max_length message)

abbrev pub frame_type_name : FrameType → Text
frame_type_name FrameType.unset = codes "UNSET"
frame_type_name FrameType.haproxy_hello = codes "HAPROXY_HELLO"
frame_type_name FrameType.haproxy_disconnect = codes "HAPROXY_DISCONNECT"
frame_type_name FrameType.notify = codes "NOTIFY"
frame_type_name FrameType.agent_hello = codes "AGENT_HELLO"
frame_type_name FrameType.agent_disconnect = codes "AGENT_DISCONNECT"
frame_type_name FrameType.ack = codes "ACK"

abbrev received : Connection → Result ℤ → Result Frame × Connection
received c (err e) = (err e, c)
received c (ok n) = let (r, reader) = decode c.reader n in (r, record c { reader = reader })

-- `await Frame.decode(self.reader, self.config.max_frame_size)`
unfoldable pub receive : Step Frame
receive c = received c (number_of c.config.max_frame_size)

-- The truth of a value in a condition.
abbrev pub truthy : Value → Bool
truthy Value.null = false
truthy (Value.bool b) = b
truthy (Value.int (pos n)) = not (n == 0)
truthy (Value.int (negsuc n)) = true
truthy (Value.bytes b) = ltb 0 (length b)
truthy (Value.str s) = ltb 0 (length s)
truthy _ = true

abbrev pub agent_hello_kwargs : ServerConfiguration → Kwargs
agent_hello_kwargs config = record no_kwargs {
  version = some (Value.str config.version);
  max_frame_size = some config.max_frame_size;
  capabilities = some config.capabilities;
}

-- The rest of the handshake, from a configuration that is compatible.
unfoldable pub answer_hello : HaproxyHello → Step Bool
unfolding send_frame construct
answer_hello hello c =
    (do
      agent_hello ←
          lift (construct FrameType.agent_hello (pos 0) (pos 0) (agent_hello_kwargs c.config))
      res ← send_frame agent_hello
      pure (if truthy hello.healthcheck then false else res))
      c

-- The configuration is not looked at after a raise, so that its partial changes are left out.
abbrev pub negotiated :
    HaproxyHello → Connection → Result ServerConfiguration → Result Bool × Connection
negotiated hello c (err e) = (err e, c)
negotiated hello c (ok config) =
    let c' : Connection = record c { config = config } in
    let answer = answer_hello hello c' in
    let refusal =
      (do
        send_disconnect_on_error DisconnectCode.server_incompatible
            (codes "Handshake failed to find compatibility.")
        pure false)
        c' in
    if config.server_compatible then answer else refusal

-- `isinstance(frame, HaproxyHello)`
unfoldable pub handle_hello : Frame → Payload → Step Bool
unfolding answer_hello send_disconnect_on_error
handle_hello frame (Payload.haproxy_hello hello) c = negotiated hello c (
    negotiate_server_compatibility c.config hello.supported_versions hello.max_frame_size
      hello.capabilities)
handle_hello frame _ c =
    (do
      send_disconnect_on_error DisconnectCode.invalid_frame_received
          (codes "Expected HAPROXY-HELLO, received " ++ frame_type_name frame.frame_type)
      pure false)
      c

unfoldable pub handle_handshake : Step Bool
unfolding receive handle_hello
handle_handshake = do frame ← receive; handle_hello frame frame.payload
