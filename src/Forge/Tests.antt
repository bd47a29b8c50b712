-- ===== src/Forge/Tests.antt =====
-- A session of an agent with one handler, run on one NOTIFY.
mod Serve
use spoe_forge.Server.Connection.{new_writer-Lasts, new_writer, Connection, Writer}
use spoe_forge.Prelude.{◌≡◌, refl, arith, inl, false, [], ◌∷◌, ◌++◌}
use spoe_forge.Prelude.Int.{pos}
use spoe_forge.Prelude.Buffer.{Bytes}
use spoe_forge.Prelude.Text.{codes}
use spoe_forge.Spop.Result.{ok}
use spoe_forge.Spop.Types.{haproxy_hello, FrameType, Value, Messages, ActionScope, set_var_action}
use spoe_forge.Spop.Frame.{HaproxyHello, Payload, Frame, encode_payload}
use spoe_forge.Spop.Frame.Codec.{eof, encode}
use spoe_forge.Server.Core.{closing, settle, close_connection}
use spoe_forge.Server.Service.Refinement.{answers_to}
use spoe_forge.Spop.Octets.{octets, mask}
use spoe_forge.Spop.Varint.{compose_varint, compose_nat, compose_loop}
use spoe_forge.Spop.Encoders.DataTypes.{
  encode_tiny_int, encode_int, encode_frame_len, encode_string, encode_latin1, auto_encode_dt_var,
}
use spoe_forge.Spop.Encoders.Payloads.{
  compose_kv_pair, encode_kv_list, encode_metadata, encode_message_list, encode_message,
}
use spoe_forge.Spop.SpopList.{to_spop_list, strip_all, strip, lstrip, rstrip, join}
use spoe_forge.Spop.Frame.Construct.{final_metadata}
use spoe_forge.Spop.Frame.RoundTrip.Frames.{IsWireFrame}
use spoe_forge.Server.Configuration.{pipelining}
use spoe_forge.Server.Configuration.Versions.{own_version}
use spoe_forge.Server.Handler.Hello.{shared, hello_frame}
use spoe_forge.Server.Service.Stream.{Transmitted}
use spoe_forge.Cli.HealthCheck.{check_tokens-IsToken}
use spoe_forge.Agent.{register, MessageHandlerFunc, Outcome, Returned}
use spoe_forge.Forge.{SpoeForge, init, message, answers_of, Handles}
use spoe_forge.Forge.Handlers.{ReturnsActions, init-ReturnsActions, message-ReturnsActions}
use spoe_forge.Forge.Session.{session}

abbrev score_handler : MessageHandlerFunc
score_handler ctx =
    Outcome.returned
      (Returned.actions (set_var_action ActionScope.session (codes "ip") (Value.int (pos 7)) ∷ []))

-- @agent.message("score")
abbrev pub scoring : SpoeForge
unfolding init message register
scoring = (message (init (codes "agent") 16380 false 100) (codes "score") score_handler).0

pub scoring-ReturnsActions : ReturnsActions scoring
unfolding scoring
scoring-ReturnsActions =
    message-ReturnsActions (init (codes "agent") 16380 false 100) (codes "score") score_handler
      (init-ReturnsActions (codes "agent") 16380 false 100) (λ ctx. (tt, tt))

-- A HAProxy of 4096 bytes.
abbrev pub hello : HaproxyHello
hello = record {
  supported_versions = codes "2.0" ∷ [];
  max_frame_size = Value.int (pos 4096);
  capabilities = pipelining ∷ [];
  engine_id = Value.null;
  healthcheck = Value.bool false;
}

abbrev pub hello_of : Frame
hello_of = record {
  frame_type = haproxy_hello;
  metadata = final_metadata (pos 0) (pos 0);
  payload = Payload.haproxy_hello hello;
}

abbrev pub score_messages : Messages
score_messages = (codes "score", []) ∷ []

abbrev pub score_notify : Frame
score_notify = record {
  frame_type = FrameType.notify;
  metadata = final_metadata (pos 1) (pos 1);
  payload = Payload.notify score_messages;
}

abbrev pub score_bytes : Bytes
score_bytes = 0 ∷ 0 ∷ 0 ∷ 14 ∷ 3 ∷ 0 ∷ 0 ∷ 0 ∷ 1 ∷ 1 ∷ 1 ∷ 5 ∷ codes "score" ++ (0 ∷ [])

pub score_written : encode score_notify (pos 4096) ≡ ok score_bytes
unfolding encode encode_tiny_int encode_metadata encode_int compose_varint encode_frame_len octets
    compose_nat encode_message_list encode_string encode_latin1 encode_message encode_kv_list
score_written = refl

pub score_notify-IsWireFrame : IsWireFrame score_notify
score_notify-IsWireFrame = record {
  typed = refl;
  metadata = (omega arith, omega arith, omega arith, omega arith);
  payload = ((omega arith, (tt, tt), omega arith), tt);
}

pub hello_of-IsWireFrame : IsWireFrame hello_of
hello_of-IsWireFrame = record {
  typed = refl;
  metadata = (omega arith, omega arith, omega arith, omega arith);
  payload = (
    ((check_tokens-IsToken.1, tt), (omega arith, tt)),
    (omega arith, omega arith),
    ((check_tokens-IsToken.0, tt), (omega arith, tt)),
    tt,
    tt,
  );
}

-- What it is on the wire.
abbrev pub hello_bytes : Bytes
hello_bytes =
    (0 ∷ 0 ∷ 0 ∷ 88 ∷ 1 ∷ 0 ∷ 0 ∷ 0 ∷ 1 ∷ 0 ∷ 0 ∷ 18 ∷ codes "supported-versions")
    ++ ((8 ∷ 3 ∷ codes "2.0")
        ++ ((14 ∷ codes "max-frame-size")
            ++ ((4 ∷ 240 ∷ 241 ∷ 0 ∷ 12 ∷ codes "capabilities")
                ++ ((8 ∷ 10 ∷ codes "pipelining") ++ ((11 ∷ codes "healthcheck") ++ (1 ∷ []))))))

pub hello_written : encode hello_of (pos 16380) ≡ ok hello_bytes
unfolding encode encode_frame_len encode_payload encode_kv_list compose_kv_pair encode_metadata
    auto_encode_dt_var compose_varint compose_nat compose_loop encode_tiny_int encode_int
    encode_string encode_latin1 octets mask to_spop_list strip_all strip lstrip rstrip join
hello_written = refl

-- The frame of the message, as it is sent.
abbrev pub sent_score : Transmitted (pos 4096)
sent_score = record {
  frame = score_notify;
  messages = score_messages;
  bytes = score_bytes;
  notified = refl;
  wire = score_notify-IsWireFrame;
  encoded = score_written;
}

session_example :
    (reply out : Bytes) × (d : Connection) × (encode
        (hello_frame 4096 (shared (pipelining ∷ [])))
        (pos 4096)
      ≡ ok reply)
    × (answers_to
          (pos 4096)
          (answers_of scoring)
          ((final_metadata (pos 1) (pos 1), score_messages) ∷ [])
        ≡ ok out)
    × Handles scoring
        (record { buffer = hello_bytes ++ (score_bytes ++ []); ending = eof })
        new_writer
        (closing ∷ [])
        d
    × (d.writer.sent ≡ [] ++ (reply ++ out))
    × (settle [] [] (closing ∷ []) d ≡ ([], close_connection d))
unfolding scoring
session_example =
    session scoring 4096 hello_of hello hello_bytes new_writer (sent_score ∷ []) [] []
      scoring-ReturnsActions refl refl (inl (pos 0, own_version, omega arith)) refl (omega arith)
      (omega arith) (omega arith) (omega arith) hello_of-IsWireFrame hello_written refl
      new_writer-Lasts
