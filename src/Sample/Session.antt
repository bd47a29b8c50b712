-- ===== src/Sample/Session.antt =====
-- Sessions of HAProxy with the agent of docker/sample_server.py.
use spoe_forge.Server.Connection.{Lasts, Connection, Writer}
use spoe_forge.Prelude.{ℕ, ◌≤◌, ◌≡◌, arith, false, List, [], ◌∷◌, ◌++◌}
use spoe_forge.Prelude.Int.{pos}
use spoe_forge.Prelude.Text.{Text}
use spoe_forge.Prelude.Buffer.{Bytes}
use spoe_forge.Spop.Result.{ok}
use spoe_forge.Spop.Types.{Value}
use spoe_forge.Spop.Frame.{HaproxyHello, Payload, Frame}
use spoe_forge.Spop.Frame.Codec.{eof, encode}
use spoe_forge.Spop.Frame.RoundTrip.Frames.{IsWireFrame}
use spoe_forge.Server.Configuration.Versions.{AnyOf, Accepted}
use spoe_forge.Server.Handler.{truthy}
use spoe_forge.Server.Handler.Hello.{shared, hello_frame}
use spoe_forge.Server.Handler.Handshake.{smaller}
use spoe_forge.Server.Service.Refinement.{answers_to}
use spoe_forge.Server.Service.Stream.{Transmitted, bytes_of, notified_of}
use spoe_forge.Server.Core.{closing, settle, close_connection}
use spoe_forge.Forge.{init, message, answers_of, Handles}
use spoe_forge.Forge.Session.{session}
use spoe_forge.Sample.{agent, sample_agent}
use spoe_forge.Sample.Ping.{agent-ReturnsActions}

-- A HAProxy that lists a version 2.minor and offers 62 bytes or more, on an open and lasting
-- connection, has each of its NOTIFY frames under the negotiated size answered, in order,
-- whatever their messages hold; the connection is then closed, and no exception is left.
pub sample_session :
    (text_of : Value → Text) (ha : ℕ) (f : Frame) (hello : HaproxyHello) (bytes : Bytes)
    (w : Writer) (ss : List (Transmitted (pos (smaller ha 4096))))
    → f.payload ≡ Payload.haproxy_hello hello
    → hello.max_frame_size ≡ Value.int (pos ha)
    → AnyOf Accepted hello.supported_versions
    → truthy hello.healthcheck ≡ false
    → 62 ≤ ha
    → IsWireFrame f
    → encode f (pos 4096) ≡ ok bytes
    → w.closing ≡ false
    → Lasts w
    → (reply out : Bytes) × (d : Connection) × (encode
          (hello_frame (smaller ha 4096) (shared hello.capabilities))
          (pos (smaller ha 4096))
        ≡ ok reply)
      × (answers_to (pos (smaller ha 4096)) (answers_of (agent text_of)) (notified_of ss) ≡ ok out)
      × Handles
          (agent text_of)
          (record { buffer = bytes ++ bytes_of ss; ending = eof })
          w
          (closing ∷ [])
          d
      × (d.writer.sent ≡ w.sent ++ (reply ++ out))
      × (settle [] [] (closing ∷ []) d ≡ ([], close_connection d))
unfolding agent message sample_agent init
sample_session text_of ha f hello bytes w ss p q v health low wire e shut broke =
    session (agent text_of) ha f hello bytes w ss [] [] (agent-ReturnsActions text_of) p q v health
      low (omega arith) (omega arith) (omega arith) wire e shut broke
