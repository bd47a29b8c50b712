-- ===== src/Server/Tests/Core.antt =====
-- The end of a connection, run on concrete exceptions.
use spoe_forge.Prelude.{◌≡◌, refl, arith, false, List, [], ◌∷◌, length, ◌++◌, true, ltb, ◌⊎◌}
use spoe_forge.Prelude.Buffer.{Bytes}
use spoe_forge.Prelude.Text.{codes}
use spoe_forge.Spop.Result.{
  err, connection_error, eof_error, decode_error, attribute_error, frame_too_big,
}
use spoe_forge.Server.Handler.Disconnects.{wrote}
use spoe_forge.Server.Core.{
  Failure, closing, failed, settle, left_over, close_connection, unshaken, except,
}
use spoe_forge.Server.Core.Outcome.{settle_too_big}
use spoe_forge.Spop.Encoders.DataTypes.{
  encode_tiny_int, encode_int, encode_string, encode_latin1, auto_encode_dt_var, encode_frame_len,
}
use spoe_forge.Spop.Varint.{compose_varint, compose_nat}
use spoe_forge.Spop.Encoders.Payloads.{encode_metadata, encode_kv_list, compose_kv_pair}
use spoe_forge.Spop.Octets.{octets, mask}
use spoe_forge.Spop.Frame.Codec.{encode, decode, readexactly}
use spoe_forge.Server.Handler.{receive, handle_handshake, send_disconnect, send_disconnect_on_error}
use spoe_forge.Prelude.Int.{pos}
use spoe_forge.Server.Connection.{Connection}
use spoe_forge.Server.Core.Framed.{IsFramed, writes_frames}
use spoe_forge.Server.Core.Closes.{core_handler_closes}
use spoe_forge.Server.Tests.{forgetting, open_connection, open_connection-IsOpen, long_message}

-- The loop closed, and a task failed with a decode error and one with an error of no clause.
abbrev failures : List Failure
failures = closing ∷ failed decode_error ∷ failed attribute_error ∷ []

settle_too_big_example :
    settle (codes "long") long_message failures (open_connection 256)
    ≡ (failed frame_too_big ∷ failed attribute_error ∷ [], open_connection 256)
settle_too_big_example =
    settle_too_big 256 (codes "long") long_message failures (open_connection 256) (omega arith)
      (open_connection-IsOpen 256) refl refl (omega arith) (omega arith)

-- HAProxy hangs up before it has sent anything.
hung_up : handle_handshake (open_connection 4096) ≡ (err eof_error, open_connection 4096)
unfolding handle_handshake receive decode readexactly
hung_up = refl

core_handler_closes_example :
    let r = settle [] (codes "eof") (failed eof_error ∷ []) (open_connection 4096) in
    ((out : Bytes) × (left_over (failed eof_error ∷ []) ≡ []
        → r ≡ ([], close_connection (wrote out (open_connection 4096))))
      × ((f : Failure) (rest : List Failure)
          → left_over (failed eof_error ∷ []) ≡ f ∷ rest
          → r ≡ (f ∷ rest, wrote out (open_connection 4096))))
    ⊎ ((sent : Bytes) × ((open_connection 4096).writer.broken sent ≡ true)
        × (front : List Failure) × (back : List Failure) × (r.0
            ≡ front ++ (failed connection_error ∷ back))
        × (r.1.writer.closing ≡ false))
core_handler_closes_example =
    core_handler_closes forgetting (open_connection 4096) (open_connection 4096)
      (failed eof_error ∷ []) 4096 [] (codes "eof")
      (unshaken (open_connection 4096) eof_error hung_up) refl refl (omega arith) (omega arith) tt
      (omega arith)

-- A connection that breaks with the first bytes that are written.
abbrev fragile : Connection
fragile = record (open_connection 4096) {
  writer = record (open_connection 4096).writer { broken = λ s. ltb 0 (length s) };
}

-- The peer is gone when the disconnect frame is sent: the exception leaves, and nothing is closed.
gone :
    let r = settle [] (codes "eof") (failed eof_error ∷ []) fragile in
    (r.0 ≡ failed connection_error ∷ []) × (r.1.writer.closing ≡ false)
unfolding settle except send_disconnect_on_error send_disconnect fragile encode encode_tiny_int
    encode_metadata encode_int compose_varint encode_kv_list compose_kv_pair encode_string
    encode_latin1 auto_encode_dt_var encode_frame_len octets compose_nat mask
gone = (refl, refl)

-- A protocol error was settled.
abbrev settled_eof : List Failure × Connection
settled_eof = settle [] (codes "eof") (failed eof_error ∷ []) (open_connection 4096)

writes_frames_example :
    (out : Bytes) × (settled_eof.1.writer.sent ≡ [] ++ out) × IsFramed (pos 4096) out
unfolding settled_eof
writes_frames_example =
    writes_frames forgetting (open_connection 4096) (open_connection 4096) settled_eof.1
      (failed eof_error ∷ []) settled_eof.0 (pos 4096) [] (codes "eof") refl
      (unshaken (open_connection 4096) eof_error hung_up) refl
