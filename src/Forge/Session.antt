-- ===== src/Forge/Session.antt =====
-- A session of an agent of spoe_forge/spoe_forge.py with HAProxy, from the registration of its handlers
-- to the last byte.
use spoe_forge.Server.Connection.{new_writer-Lasts, Lasts, new_writer, Connection, Writer}
use spoe_forge.Prelude.{
  ℕ, ◌+◌, ◌^◌, ◌≤◌, ◌<◌, ◌≡◌, refl, sym, ap, ◌∙◌, arith, true, false, List, [], ◌∷◌, ◌++◌, All,
}
use spoe_forge.Prelude.Int.{pos}
use spoe_forge.Prelude.Text.{Text}
use spoe_forge.Prelude.Buffer.{Bytes}
use spoe_forge.Spop.Result.{Result, ok, err}
use spoe_forge.Spop.Types.{Value, Messages, Action}
use spoe_forge.Spop.Wire.{IsWireMetaData, ActsOnObject}
use spoe_forge.Spop.Frame.{HaproxyHello, Payload, Frame}
use spoe_forge.Spop.Frame.Codec.{eof, encode}
use spoe_forge.Spop.Frame.RoundTrip.Frames.{IsWireFrame}
use spoe_forge.Server.Configuration.{fresh}
use spoe_forge.Server.Configuration.Versions.{AnyOf, Accepted}
use spoe_forge.Server.Handler.{truthy}
use spoe_forge.Server.Handler.Disconnects.{wrote}
use spoe_forge.Server.Handler.Hello.{shared, hello_frame}
use spoe_forge.Server.Handler.Handshake.{smaller, connected}
use spoe_forge.Server.Loop.{Notified}
use spoe_forge.Server.Salvage.Answers.{IsOpen, process_notify_answers}
use spoe_forge.Server.Service.{answer, delivered, process_notify-answer}
use spoe_forge.Server.Service.Refinement.{answers_to}
use spoe_forge.Server.Service.Stream.{Transmitted, bytes_of, notified_of}
use spoe_forge.Server.Core.{closing, settle, close_connection}
use spoe_forge.Server.Core.Life.{session_served}
use spoe_forge.Agent.{notify_handler}
use spoe_forge.Forge.Handlers.{ReturnsActions}
use spoe_forge.Forge.{SpoeForge, answers_of, handler, Handles}

-- A connection on which anything of the size can be sent.
abbrev some_connection : ℕ → Connection
some_connection max = connected (fresh max 1) [] eof (new_writer)

-- A NOTIFY whose handlers return proper actions has an answer.
answer-some :
    (max : ℕ) (h : Messages → Result (List Action)) (t : Notified) (actions : List Action)
    → 25 ≤ max
    → max < 2 ^ 32
    → IsWireMetaData t.0
    → h t.1 ≡ ok actions
    → All ActsOnObject actions
    → (b : Bytes) × (answer (pos max) h t ≡ ok b)
answer-some max h t actions low high w e acts =
    let o : IsOpen max (some_connection max) = record {
      negotiated = refl;
      open_writer = refl;
      sound_writer = new_writer-Lasts;
    } in
    let (b, p, few, kept, q, part) =
      process_notify_answers max h t.0 t.1 actions (some_connection max) 0 low high o w e acts in
    by_answer (answer (pos max) h t) refl
      (sym (process_notify-answer max h t.0 t.1 (some_connection max) 0 o) ∙ p)
  where
    by_answer :
        {b : Bytes} (r : Result Bytes)
        → answer (pos max) h t ≡ r
        → delivered (some_connection max) 0 (answer (pos max) h t)
          ≡ (ok true, wrote b (some_connection max), 0 + 1)
        → (b : Bytes) × (answer (pos max) h t ≡ ok b)
    by_answer (ok b) p q = (b, p)
    by_answer {b} (err x) p q =
        let bad : delivered (some_connection max) 0 (err x)
            ≡ (ok true, wrote b (some_connection max), 0 + 1) =
          ap (delivered (some_connection max) 0) (sym p) ∙ q in
        cc

answers_to-some :
    (agent : SpoeForge) (max : ℕ) (ss : List (Transmitted (pos max)))
    → 25 ≤ max
    → max < 2 ^ 32
    → ReturnsActions agent
    → (out : Bytes) × (answers_to (pos max) (answers_of agent) (notified_of ss) ≡ ok out)
unfolding answers_to answers_of
answers_to-some agent max [] low high acts = ([], refl)
answers_to-some agent max (s ∷ ss) low high acts =
    let t : Notified = (s.frame.metadata, s.messages) in
    let (b, p) =
      answer-some max (answers_of agent) t (notify_handler agent.registry s.messages) low high
        s.wire.metadata refl (acts s.messages) in
    let (rest, q) = answers_to-some agent max ss low high acts in (b ++ rest, rw (p, q))

-- A whole session on a connection that is open and lasts: an agent whose own frame size is of 62
-- bytes or more, and below 4 GiB, and whose concurrency bound is not 0, with handlers that return
-- proper actions, whatever messages they are given; and a HAProxy that lists a version 2.minor and
-- offers 62 bytes or more, which sends a HELLO that the wire can carry within the agent's size and
-- that is no health check, any NOTIFY frames under the negotiated size, and the end of the stream.
-- There is a schedule on which the agent writes its AGENT-HELLO and then the answer of every
-- NOTIFY, in order; only `CloseConnection` ends the loop, the connection is closed, and no
-- exception is left.
pub session :
    (agent : SpoeForge) (ha : ℕ) (f : Frame) (hello : HaproxyHello) (bytes : Bytes) (w : Writer)
    (ss : List (Transmitted (pos (smaller ha agent.max_frame_size))))
    (too_big_text protocol_text : Text)
    → ReturnsActions agent
    → f.payload ≡ Payload.haproxy_hello hello
    → hello.max_frame_size ≡ Value.int (pos ha)
    → AnyOf Accepted hello.supported_versions
    → truthy hello.healthcheck ≡ false
    → 62 ≤ ha
    → 62 ≤ agent.max_frame_size
    → agent.max_frame_size < 2 ^ 32
    → 1 ≤ agent.max_concurrent_frames
    → IsWireFrame f
    → encode f (pos agent.max_frame_size) ≡ ok bytes
    → w.closing ≡ false
    → Lasts w
    → (reply out : Bytes) × (d : Connection) × (encode
          (hello_frame (smaller ha agent.max_frame_size) (shared hello.capabilities))
          (pos (smaller ha agent.max_frame_size))
        ≡ ok reply)
      × (answers_to (pos (smaller ha agent.max_frame_size)) (answers_of agent) (notified_of ss)
          ≡ ok out)
      × Handles agent (record { buffer = bytes ++ bytes_of ss; ending = eof }) w (closing ∷ []) d
      × (d.writer.sent ≡ w.sent ++ (reply ++ out))
      × (settle too_big_text protocol_text (closing ∷ []) d ≡ ([], close_connection d))
unfolding handler
session agent ha f hello bytes w ss t u acts p q v health low low' high some_slot wire e shut
      broke =
    let (out, a) =
      answers_to-some agent (smaller ha agent.max_frame_size) ss (ground arith) (ground arith)
        acts in
    let (reply, d, written, ends, sent, settled) =
      session_served (answers_of agent) agent.max_frame_size agent.max_concurrent_frames ha f hello
        bytes w ss out t u p q v health low low' high some_slot wire e shut broke a in
    (reply, out, d, written, a, ends, sent, settled)
