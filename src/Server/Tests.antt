-- ===== src/Server/Tests.antt =====
-- The server's definitions run on concrete inputs.
mod Service
mod Heard
mod Core
use mathlib.Core.List.{Sublist}
use spoe_forge.Prelude.{
  take, List, ℕ, ◌+◌, ◌≤◌, ◌≡◌, ◌↔◌, refl, arith, true, false, [], ◌∷◌, ◌++◌, length, some,
  if◌then◌else◌,
}
use spoe_forge.Server.Handler.Disconnects.{
  disconnect_frame, wrote, disconnect_fits, disconnect_too_big,
}
use spoe_forge.Server.Salvage.Ack.{ack_of}
use spoe_forge.Spop.Frame.Codec.{encode, eof, decode}
use spoe_forge.Spop.Types.{
  Action, MetaData, Messages, Value, unset_var_action, ActionScope, FrameType,
}
use spoe_forge.Server.Connection.{new_writer-Lasts, new_writer, Connection}
use spoe_forge.Prelude.Int.{pos, negsuc, ◌≤ℤ◌, min_ℤ}
use spoe_forge.Prelude.Text.{Text, codes}
use spoe_forge.Prelude.Buffer.{Bytes}
use spoe_forge.Spop.Result.{Result, ok, err, frame_too_big, encode_error}
use spoe_forge.Spop.Octets.{octets, from_bytes, c_int64}
use spoe_forge.Spop.Varint.{compose_varint, compose_nat, parse_varint}
use spoe_forge.Spop.Encoders.DataTypes.{
  encode_tiny_int, encode_int, encode_frame_len, encode_string, encode_latin1,
}
use spoe_forge.Spop.Encoders.Payloads.{
  encode_metadata, encode_action_list, compose_action, encode_message_list,
}
use spoe_forge.Spop.Frame.{Payload, Frame}
use spoe_forge.Spop.Frame.Construct.{final_metadata}
use spoe_forge.Server.Configuration.{
  ServerConfiguration, fresh, spoe_version, pipelining, mem_text, negotiate_server_compatibility,
}
use spoe_forge.Server.Configuration.Versions.{AnyOf, Accepted}
use spoe_forge.Server.Configuration.Negotiation.{negotiation}
use spoe_forge.Server.Handler.{DisconnectCode, send_disconnect_on_error}
use spoe_forge.Server.Salvage.{salvaged_ack, process_notify}
use spoe_forge.Server.Salvage.Total.{salvaged_ack-total}
use spoe_forge.Server.Salvage.Answers.{IsOpen, process_notify_answers, process_notify_unanswered}
use spoe_forge.Server.Salvage.Fits.{salvaged_ack-fits}
use spoe_forge.Server.Loop.{
  read_round, created, pool, start, starts, goes_on, acquires, reads, Reaches,
}
use spoe_forge.Server.Loop.InFlight.{in_flight, serial}
use spoe_forge.Spop.Decoders.DataTypes.{decode_frame_len, decode_int64}
use spoe_forge.Spop.Decoders.Payloads.{decode_metadata, decode_list_of_messages}
use spoe_forge.Server.Loop.Reading.{reads_from, read_round-encode}

negotiation_example :
    (c : ServerConfiguration) × (negotiate_server_compatibility
        (fresh 4096 100)
        (codes "2.0" ∷ [])
        (Value.int (pos 16380))
        (pipelining ∷ [])
      ≡ ok c)
    × ((c.server_compatible ≡ true)
        ↔ (AnyOf Accepted (codes "2.0" ∷ []) × (pos 1 ≤ℤ pos 16380) × (1 ≤ 4096)))
    × (c.max_frame_size ≡ Value.int (min_ℤ (pos 16380) (pos 4096)))
    × (c.capabilities ≡ (if mem_text pipelining (pipelining ∷ []) then pipelining ∷ [] else []))
    × (c.max_concurrent_frames ≡ 100)
    × (c.version ≡ spoe_version)
negotiation_example = negotiation 4096 100 (codes "2.0" ∷ []) (pos 16380) (pipelining ∷ [])

-- A connection that has negotiated this many bytes.
abbrev pub open_connection : ℕ → Connection
open_connection size = record {
  config = fresh size 100;
  reader = record { buffer = []; ending = eof };
  writer = new_writer;
}

disconnect_fits_example :
    (bytes : Bytes) × (send_disconnect_on_error DisconnectCode.io_error
        (codes "lost")
        (open_connection 4096)
      ≡ (ok true, wrote bytes (open_connection 4096)))
    × (length bytes ≤ 4096 + 4)
    × (encode (disconnect_frame DisconnectCode.io_error (take 256 (codes "lost"))) (pos 4096)
        ≡ ok bytes)
disconnect_fits_example =
    disconnect_fits DisconnectCode.io_error (codes "lost") 4096 (open_connection 4096) refl
      (omega arith) (omega arith) refl new_writer-Lasts (omega arith)

abbrev eight : Text → Text
eight s = (s ++ s) ++ ((s ++ s) ++ ((s ++ s) ++ (s ++ s)))

-- A message of 256 characters.
abbrev pub long_message : Text
long_message = eight (eight (codes "four"))

abbrev pub forget : Text → Action
forget name = unset_var_action ActionScope.session name

abbrev pub forgets : List Action
forgets = forget (codes "first") ∷ forget (codes "second") ∷ forget (codes "x") ∷ []

-- Seven bytes are the frame without actions; the second action does not fit, the others do.
abbrev salvaged_frame : Frame
salvaged_frame = record {
  frame_type = FrameType.ack;
  metadata = final_metadata (pos 1) (pos 1);
  payload = Payload.ack (some (forget (codes "first") ∷ forget (codes "x") ∷ []));
}

salvaged_forgets :
    salvaged_ack (pos 22) (final_metadata (pos 1) (pos 1)) forgets ≡ ok salvaged_frame
unfolding salvaged_ack encode encode_tiny_int encode_metadata encode_int compose_varint
    encode_action_list encode_frame_len octets compose_nat compose_action encode_string
    encode_latin1
salvaged_forgets = refl

salvaged_ack-fits_example :
    (bytes : Bytes) × (encode salvaged_frame (pos 22) ≡ ok bytes) × (length bytes ≤ 22 + 4)
salvaged_ack-fits_example =
    salvaged_ack-fits 22 (final_metadata (pos 1) (pos 1)) forgets salvaged_frame (omega arith)
      salvaged_forgets

-- It is open.
pub open_connection-IsOpen : (max : ℕ) → IsOpen max (open_connection max)
open_connection-IsOpen max = record {
  negotiated = refl;
  open_writer = refl;
  sound_writer = new_writer-Lasts;
}

-- Handlers that return the three actions for every NOTIFY.
abbrev pub forgetting : Messages → Result (List Action)
forgetting messages = ok forgets

process_notify_answers_example :
    (bytes : Bytes) × (process_notify forgetting
        (final_metadata (pos 1) (pos 1))
        []
        (open_connection 26, 0)
      ≡ (ok true, wrote bytes (open_connection 26), 0 + 1))
    × (length bytes ≤ 26 + 4)
    × (kept : List Action) × (encode (ack_of (final_metadata (pos 1) (pos 1)) kept) (pos 26)
        ≡ ok bytes)
    × Sublist kept forgets
process_notify_answers_example =
    process_notify_answers 26 forgetting (final_metadata (pos 1) (pos 1)) [] forgets
      (open_connection 26) 0 (omega arith) (omega arith) (open_connection-IsOpen 26)
      (omega arith, omega arith, omega arith, omega arith) refl (tt, (tt, (tt, tt)))

process_notify_unanswered_example :
    process_notify forgetting (final_metadata (negsuc 4) (pos 1)) [] (open_connection 4096, 0)
    ≡ (err encode_error, open_connection 4096, 0 + 1)
process_notify_unanswered_example =
    process_notify_unanswered 4096 4 forgetting (final_metadata (negsuc 4) (pos 1)) [] forgets
      (open_connection 4096) 0 (open_connection-IsOpen 4096) refl refl

-- A connection on which one NOTIFY without messages comes in.
abbrev pub notified_connection : Connection
notified_connection = record (open_connection 4096) {
  reader = record { buffer = 0 ∷ 0 ∷ 0 ∷ 7 ∷ 3 ∷ 0 ∷ 0 ∷ 0 ∷ 1 ∷ 1 ∷ 1 ∷ []; ending = eof };
}

abbrev pub ids : MetaData
ids = final_metadata (pos 1) (pos 1)

pub notified_read : read_round notified_connection ≡ (ok (created (ids, [])), open_connection 4096)
unfolding read_round decode decode_frame_len from_bytes decode_metadata decode_int64 parse_varint
    decode_list_of_messages c_int64
notified_read = refl

-- The loop has read the frame, and its task runs.
pub one_task :
    Reaches forgetting notified_connection (pool (open_connection 4096) 0 false ((ids, []) ∷ []))
unfolding mem_text
one_task =
    goes_on (pool notified_connection 0 true []) _
      (goes_on (start notified_connection) _ starts (acquires notified_connection 0 []))
      (reads notified_connection (open_connection 4096) 0 [] (ids, []) notified_read)

in_flight_example : (0 + 0 + 1 ≡ 1) × (1 ≤ 1)
unfolding mem_text
in_flight_example =
    in_flight forgetting notified_connection (pool (open_connection 4096) 0 false ((ids, []) ∷ []))
      one_task

serial_example : (pool notified_connection 0 true []).running ≡ []
unfolding mem_text
serial_example =
    serial forgetting notified_connection (pool notified_connection 0 true []) refl
      (goes_on (start notified_connection) _ starts (acquires notified_connection 0 [])) refl

abbrev pub empty_notify : Frame
empty_notify = record { frame_type = FrameType.notify; metadata = ids; payload = Payload.notify [] }

abbrev pub empty_notify_bytes : Bytes
empty_notify_bytes = 0 ∷ 0 ∷ 0 ∷ 7 ∷ 3 ∷ 0 ∷ 0 ∷ 0 ∷ 1 ∷ 1 ∷ 1 ∷ []

pub empty_notify_written : encode empty_notify (pos 4096) ≡ ok empty_notify_bytes
unfolding encode encode_tiny_int encode_metadata encode_int compose_varint encode_frame_len octets
    compose_nat encode_message_list
empty_notify_written = refl

read_round-encode_example :
    read_round (reads_from (open_connection 4096) (empty_notify_bytes ++ (0 ∷ [])) eof)
    ≡ (ok (created (ids, [])), reads_from (open_connection 4096) (0 ∷ []) eof)
read_round-encode_example =
    read_round-encode (open_connection 4096) empty_notify [] (pos 4096) empty_notify_bytes (0 ∷ [])
      eof refl refl
      (record {
        typed = refl;
        metadata = (omega arith, omega arith, omega arith, omega arith);
        payload = tt;
      })
      empty_notify_written
