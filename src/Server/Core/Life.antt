-- ===== src/Server/Core/Life.antt =====
-- One connection of spoe_forge/server/handler.py from its first byte to its close: the handshake, the
-- NOTIFY frames, the end of the stream.
use spoe_forge.Server.Connection.{Lasts, Connection, Writer}
use spoe_forge.Prelude.{
  ℕ, ◌^◌, ◌≤◌, ◌<◌, ◌≡◌, refl, ap, ◌∙◌, inl, inr, arith, true, false, not, List, [], ◌∷◌, ◌++◌,
  append_assoc, Bool-cases,
}
use spoe_forge.Prelude.Int.{pos}
use spoe_forge.Prelude.Text.{Text, text_eq}
use spoe_forge.Prelude.Buffer.{Bytes}
use spoe_forge.Spop.Result.{Result, ok}
use spoe_forge.Spop.Types.{Value, Messages, Action}
use spoe_forge.Spop.Frame.{HaproxyHello, Payload, Frame}
use spoe_forge.Spop.Frame.Codec.{eof, encode}
use spoe_forge.Spop.Frame.RoundTrip.Frames.{IsWireFrame}
use spoe_forge.Server.Configuration.{fresh, mem_text, pipelining}
use spoe_forge.Server.Configuration.Versions.{AnyOf, Accepted}
use spoe_forge.Server.Handler.{truthy}
use spoe_forge.Server.Handler.Hello.{shared, hello_frame}
use spoe_forge.Server.Handler.Handshake.{smaller, agreed, connected, handshake_agrees}
use spoe_forge.Server.Loop.{slots_limit, pool}
use spoe_forge.Server.Service.Refinement.{answers_to}
use spoe_forge.Server.Service.Stream.{Transmitted, bytes_of, notified_of, stream_served}
use spoe_forge.Server.Core.{closing, settle, close_connection, cancelled, closes_too, Ends, served}

-- A negotiated connection has a slot, where the agent's own bound is not 0.
slots-pos :
    (max concurrent : ℕ) (caps : List Text)
    → 1 ≤ concurrent
    → 1 ≤ slots_limit (agreed max concurrent (shared caps))
unfolding mem_text text_eq
slots-pos max concurrent caps h = elim (Bool-cases (mem_text pipelining caps)) [
  | inl both ↦ rw both h
  | inr other ↦ rw other (omega arith)
]

-- Where only `CloseConnection` was raised, the connection is closed and nothing is written.
settle_closing :
    (too_big_text protocol_text : Text) (c : Connection)
    → settle too_big_text protocol_text (closing ∷ []) c ≡ ([], close_connection c)
unfolding settle
settle_closing t u c = refl

-- A session with a HAProxy that the agent is compatible with: a HELLO that is no health check, NOTIFY
-- frames under the negotiated size, and the end of the stream. There is a schedule on which every frame
-- is answered, in order, behind the AGENT-HELLO; the task group then ends with `CloseConnection` alone,
-- and the connection is closed.
pub session_served :
    (notify_handler : Messages → Result (List Action)) (size concurrent ha : ℕ) (f : Frame)
    (hello : HaproxyHello) (bytes : Bytes) (w : Writer)
    (ss : List (Transmitted (pos (smaller ha size)))) (out : Bytes)
    (too_big_text protocol_text : Text)
    → f.payload ≡ Payload.haproxy_hello hello
    → hello.max_frame_size ≡ Value.int (pos ha)
    → AnyOf Accepted hello.supported_versions
    → truthy hello.healthcheck ≡ false
    → 62 ≤ ha
    → 62 ≤ size
    → size < 2 ^ 32
    → 1 ≤ concurrent
    → IsWireFrame f
    → encode f (pos size) ≡ ok bytes
    → w.closing ≡ false
    → Lasts w
    → answers_to (pos (smaller ha size)) notify_handler (notified_of ss) ≡ ok out
    → (reply : Bytes) × (d : Connection) × (encode
          (hello_frame (smaller ha size) (shared hello.capabilities))
          (pos (smaller ha size))
        ≡ ok reply)
      × Ends notify_handler
          (connected (fresh size concurrent) (bytes ++ bytes_of ss) eof w)
          (closing ∷ [])
          d
      × (d.writer.sent ≡ w.sent ++ (reply ++ out))
      × (settle too_big_text protocol_text (closing ∷ []) d ≡ ([], close_connection d))
session_served notify_handler size concurrent ha f hello bytes w ss out t u p q v health low low'
      high some_slot wire e shut broke a =
    let max = smaller ha size in
    let (reply, written, shaken) =
      handshake_agrees size concurrent ha f hello bytes (bytes_of ss) eof w p q v low low' high wire
        e shut broke in
    let c : Connection =
      connected (agreed max concurrent (shared hello.capabilities)) (bytes_of ss) eof
        (record w { sent = w.sent ++ reply }) in
    let (d, n, reached, ends, sent) =
      stream_served notify_handler max c ss out
        (record { negotiated = refl; open_writer = shut; sound_writer = broke })
        (slots-pos max concurrent hello.capabilities some_slot) refl a in
    (
      reply,
      d,
      written,
      served c d (pool d n true []) closing [] (shaken ∙ ap (λ b. (ok (not b), c)) health) reached
          (closes_too d d d n [] [] ends (cancelled false (pool d n false []))),
      sent ∙ append_assoc w.sent reply out,
      settle_closing t u d,
    )
