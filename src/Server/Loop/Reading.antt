-- ===== src/Server/Loop/Reading.antt =====
-- What a round of `_read_frames` makes of the bytes that HAProxy sends.
use spoe_forge.Prelude.{◌≡◌, ◌++◌}
use spoe_forge.Prelude.Int.{ℤ}
use spoe_forge.Prelude.Buffer.{Bytes}
use spoe_forge.Spop.Result.{ok}
use spoe_forge.Spop.Types.{Value, Messages}
use spoe_forge.Spop.Frame.{Payload, Frame}
use spoe_forge.Spop.Frame.Codec.{encode, Ending}
use spoe_forge.Spop.Frame.RoundTrip.Frames.{IsWireFrame, decode-encode}
use spoe_forge.Server.Connection.{Connection}
use spoe_forge.Server.Handler.{receive}
use spoe_forge.Server.Loop.{created, read_round}

-- The connection with this stream to read.
abbrev pub reads_from : Connection → Bytes → Ending → Connection
reads_from c bytes ending = record c { reader = record { buffer = bytes; ending = ending } }

-- A NOTIFY frame that the wire can carry and that was encoded within the negotiated size is taken from the front of the stream, and
-- a task is made for exactly its messages and its metadata; nothing else of the connection changes.
pub read_round-encode :
    (c : Connection) (f : Frame) (messages : Messages) (max : ℤ) (bytes more : Bytes)
    (ending : Ending)
    → c.config.max_frame_size ≡ Value.int max
    → f.payload ≡ Payload.notify messages
    → IsWireFrame f
    → encode f max ≡ ok bytes
    → read_round (reads_from c (bytes ++ more) ending)
      ≡ (ok (created (f.metadata, messages)), reads_from c more ending)
unfolding read_round receive
read_round-encode c f messages max bytes more ending size notify w e =
    rw (size, decode-encode f max bytes more ending w e, notify)
