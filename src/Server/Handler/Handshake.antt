-- ===== src/Server/Handler/Handshake.antt =====
-- The handshake with a HAProxy that the agent is compatible with, `handle_handshake` of
-- spoe_forge/server/handler.py.
use spoe_forge.Server.Connection.{Lasts, Connection, Writer}
use spoe_forge.Prelude.{
  ℕ, ◌^◌, ◌≤◌, ◌<◌, ◌≡◌, refl, ap, ◌∙◌, arith, Bool, true, false, not, List, ◌++◌, ltb,
  if◌then◌else◌,
}
use spoe_forge.Prelude.Int.{pos, min_ℤ}
use spoe_forge.Prelude.Text.{Text}
use spoe_forge.Prelude.Buffer.{Bytes}
use spoe_forge.Spop.Result.{ok}
use spoe_forge.Spop.Types.{Value}
use spoe_forge.Spop.Frame.{HaproxyHello, Payload, Frame}
use spoe_forge.Spop.Frame.Construct.{construct}
use spoe_forge.Spop.Frame.Codec.{Ending, encode}
use spoe_forge.Spop.Frame.RoundTrip.Frames.{IsWireFrame, decode-encode}
use spoe_forge.Server.Configuration.{
  ServerConfiguration, fresh, spoe_version, negotiate_server_compatibility,
}
use spoe_forge.Server.Configuration.Versions.{AnyOf, Accepted}
use spoe_forge.Server.Configuration.Negotiation.{agreement, negotiate-agreement, compatible_iff}
use spoe_forge.Server.Handler.{
  truthy, send_frame, receive, answer_hello, handle_hello, handle_handshake,
}
use spoe_forge.Server.Handler.Hello.{shared, hello_frame, hello-fits}

-- What both sides keep of their frame sizes.
abbrev pub smaller : ℕ → ℕ → ℕ
smaller ha size = if ltb size ha then size else ha

-- The configuration after the handshake.
abbrev pub agreed : ℕ → ℕ → List Text → ServerConfiguration
agreed max concurrent caps = record {
  server_compatible = true;
  max_frame_size = Value.int (pos max);
  max_concurrent_frames = concurrent;
  capabilities = caps;
  version = spoe_version;
}

min_pos : (a b : ℕ) → min_ℤ (pos a) (pos b) ≡ pos (smaller a b)
min_pos a b = ground arith

-- Negotiation with a compatible peer.
negotiate-agreed :
    (size concurrent ha : ℕ) (versions caps : List Text)
    → AnyOf Accepted versions
    → 1 ≤ ha
    → 1 ≤ size
    → negotiate_server_compatibility (fresh size concurrent) versions (Value.int (pos ha)) caps
      ≡ ok (agreed (smaller ha size) concurrent (shared caps))
negotiate-agreed size concurrent ha versions caps v h k =
    negotiate-agreement size concurrent versions (pos ha) caps
    ∙ ap
        (λ b.
          ok (record (agreement size concurrent versions (pos ha) caps) { server_compatible = b }))
        compatible
    ∙ ap
        (λ z. ok (record (agreed (smaller ha size) concurrent (shared caps)) {
          max_frame_size = Value.int z;
        }))
        (min_pos ha size)
  where
    compatible : (agreement size concurrent versions (pos ha) caps).server_compatible ≡ true
    compatible = (compatible_iff size concurrent versions (pos ha) caps).1 (v, omega arith, k)

if_not : (b : Bool) → (if b then false else true) ≡ not b
if_not true = refl
if_not false = refl

-- The connection of the handshake.
abbrev pub connected : ServerConfiguration → Bytes → Ending → Writer → Connection
connected config bytes ending writer = record {
  config = config;
  reader = record { buffer = bytes; ending = ending };
  writer = writer;
}

-- A HAProxy that lists a version 2.minor and offers a size of 62 bytes or more, in a HELLO that the
-- wire can carry and that is within the agent's size, is answered on a stream that is open and
-- lasts, where the agent's own size is of 62 bytes or more and below 4 GiB: from the front of the
-- stream the HELLO is taken, the configuration is what both sides can do, the AGENT-HELLO that
-- announces it is written, which fits that size, and the connection goes on exactly if the HELLO is
-- no health check.
pub handshake_agrees :
    (size concurrent ha : ℕ) (f : Frame) (hello : HaproxyHello) (bytes more : Bytes)
    (ending : Ending) (w : Writer)
    → f.payload ≡ Payload.haproxy_hello hello
    → hello.max_frame_size ≡ Value.int (pos ha)
    → AnyOf Accepted hello.supported_versions
    → 62 ≤ ha
    → 62 ≤ size
    → size < 2 ^ 32
    → IsWireFrame f
    → encode f (pos size) ≡ ok bytes
    → w.closing ≡ false
    → Lasts w
    → (reply : Bytes) × (encode
          (hello_frame (smaller ha size) (shared hello.capabilities))
          (pos (smaller ha size))
        ≡ ok reply)
      × (handle_handshake (connected (fresh size concurrent) (bytes ++ more) ending w) ≡ (
        ok (not (truthy hello.healthcheck)),
        connected
            (agreed (smaller ha size) concurrent (shared hello.capabilities))
            more
            ending
            (record w { sent = w.sent ++ reply }),
      ))
unfolding handle_handshake receive handle_hello answer_hello send_frame construct
handshake_agrees size concurrent ha f hello bytes more ending w p q v low low' high wire e shut
      broke =
    let max = smaller ha size in
    let (reply, written) = hello-fits max hello.capabilities (ground arith) (ground arith) in
    (
      reply,
      written,
      rw (
        decode-encode f (pos size) bytes more ending wire e,
        p,
        q,
        negotiate-agreed size concurrent ha hello.supported_versions hello.capabilities v
            (omega arith) (omega arith),
        shut,
        (broke w.sent).0,
        written,
        (broke (w.sent ++ reply)).1,
        if_not (truthy hello.healthcheck),
      ),
    )
