-- ===== src/Server/Core/Outcome.antt =====
-- What `core_handler` of spoe_forge/server/handler.py leaves behind.
use spoe_forge.Prelude.{ℕ, ◌≤◌, ◌<◌, ◌≡◌, true, false, List, ◌∷◌, length}
use spoe_forge.Prelude.Text.{Text}
use spoe_forge.Spop.Types.{IsLatin1}
use spoe_forge.Spop.Result.{frame_too_big}
use spoe_forge.Server.Connection.{Connection}
use spoe_forge.Server.Handler.{DisconnectCode}
use spoe_forge.Server.Handler.Disconnects.{disconnect_too_big}
use spoe_forge.Server.Salvage.Answers.{IsOpen}
use spoe_forge.Server.Core.{Failure, failed, too_big, protocol, takes, left_over, settle}

-- On an open connection that lasts, with fewer than 288 bytes negotiated, a group with a protocol
-- error whose latin-1 text has 256 characters or more, and without an exception for a frame that
-- was too big, is not settled: the disconnect frame is too big, that exception takes the place of
-- the protocol errors, and the connection is neither written to nor closed.
pub settle_too_big :
    (max : ℕ) (too_big_text protocol_text : Text) (fs : List Failure) (c : Connection)
    → max < 288
    → IsOpen max c
    → takes too_big fs ≡ false
    → takes protocol fs ≡ true
    → IsLatin1 protocol_text
    → 256 ≤ length protocol_text
    → settle too_big_text protocol_text fs c ≡ (failed frame_too_big ∷ left_over fs, c)
unfolding settle
settle_too_big max t u fs c high o none some h long = rw (
  none,
  some,
  disconnect_too_big DisconnectCode.protocol_error u max c o.negotiated high
      (rw o.open_writer (o.sound_writer c.writer.sent).0) h long,
)
