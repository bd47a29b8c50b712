-- ===== src/Server/Tests/Service.antt =====
-- The service of a connection, run on streams of one and of two NOTIFY frames.
use mathlib.Core.List.{Perm}
use spoe_forge.Prelude.{ℕ, ◌+◌, ◌*◌, ◌≤◌, ◌≡◌, refl, arith, true, false, List, [], ◌∷◌, ◌++◌}
use spoe_forge.Prelude.Int.{pos}
use spoe_forge.Prelude.Buffer.{Bytes}
use spoe_forge.Prelude.Text.{codes, text_eq}
use spoe_forge.Spop.Result.{Result, ok, err, attribute_error}
use spoe_forge.Spop.Octets.{octets, from_bytes, c_int64}
use spoe_forge.Spop.Varint.{compose_varint, compose_nat, parse_varint}
use spoe_forge.Spop.Encoders.DataTypes.{
  encode_tiny_int, encode_int, encode_frame_len, encode_string, encode_latin1,
}
use spoe_forge.Spop.Encoders.Payloads.{encode_metadata, encode_action_list, compose_action}
use spoe_forge.Spop.Decoders.DataTypes.{decode_frame_len, decode_int64}
use spoe_forge.Spop.Decoders.Payloads.{decode_metadata, decode_list_of_messages}
use spoe_forge.Spop.Types.{MetaData, Messages, Action, other_action}
use spoe_forge.Spop.Frame.Construct.{final_metadata, construct}
use spoe_forge.Spop.Frame.Codec.{eof, encode, decode}
use spoe_forge.Server.Configuration.{mem_text, pipelining}
use spoe_forge.Server.Connection.{new_writer-Lasts, Connection}
use spoe_forge.Server.Handler.{send_frame}
use spoe_forge.Server.Handler.Disconnects.{wrote}
use spoe_forge.Server.Salvage.{process_notify}
use spoe_forge.Server.Salvage.Torn.{process_notify_torn}
use spoe_forge.Server.Loop.{
  read_round, created, pool, start, starts, goes_on, acquires, reads, answers, Reaches,
}
use spoe_forge.Server.Loop.Reading.{reads_from}
use spoe_forge.Server.Loop.Termination.{stays, then_steps, loop_terminates}
use spoe_forge.Server.Service.{answer, delivered, process_notify-answer}
use spoe_forge.Server.Service.Refinement.{answers_to, Serves, pipelined_service, serial_service}
use spoe_forge.Server.Service.Stream.{Transmitted}
use spoe_forge.Server.Tests.{
  open_connection, open_connection-IsOpen, forgetting, notified_connection, ids, notified_read,
  forget, one_task, empty_notify, empty_notify_bytes, empty_notify_written,
}

process_notify-answer_example :
    process_notify forgetting ids [] (open_connection 26, 0)
    ≡ delivered (open_connection 26) 0 (answer (pos 26) forgetting (ids, []))
process_notify-answer_example =
    process_notify-answer 26 forgetting ids [] (open_connection 26) 0 (open_connection-IsOpen 26)

-- The ACK of the three actions on a frame with this frame identifier.
abbrev pub ack_bytes : ℕ → Bytes
ack_bytes n =
    (0 ∷ 0 ∷ 0 ∷ 31 ∷ 103 ∷ 0 ∷ 0 ∷ 0 ∷ 1 ∷ 1 ∷ n ∷ [])
    ++ ((2 ∷ 2 ∷ 1 ∷ 5 ∷ codes "first")
        ++ ((2 ∷ 2 ∷ 1 ∷ 6 ∷ codes "second") ++ (2 ∷ 2 ∷ 1 ∷ 1 ∷ codes "x")))

pub forgotten : answer (pos 4096) forgetting (ids, []) ≡ ok (ack_bytes 1)
unfolding answer construct encode encode_tiny_int encode_metadata encode_int compose_varint
    encode_action_list encode_frame_len octets compose_nat compose_action encode_string
    encode_latin1
forgotten = refl

-- A connection that pipelines, on which two NOTIFY frames come in.
abbrev pub pipelined : Connection
pipelined = record (open_connection 4096) {
  config = record (open_connection 4096).config { capabilities = pipelining ∷ [] };
  reader = record {
    buffer = empty_notify_bytes ++ (0 ∷ 0 ∷ 0 ∷ 7 ∷ 3 ∷ 0 ∷ 0 ∷ 0 ∷ 1 ∷ 1 ∷ 2 ∷ []);
    ending = eof;
  };
}

abbrev second_ids : MetaData
second_ids = final_metadata (pos 1) (pos 2)

first_read : read_round pipelined ≡ (
  ok (created (ids, [])),
  reads_from pipelined (0 ∷ 0 ∷ 0 ∷ 7 ∷ 3 ∷ 0 ∷ 0 ∷ 0 ∷ 1 ∷ 1 ∷ 2 ∷ []) eof,
)
unfolding read_round decode decode_frame_len from_bytes decode_metadata decode_int64 parse_varint
    decode_list_of_messages c_int64
first_read = refl

second_read :
    read_round (reads_from pipelined (0 ∷ 0 ∷ 0 ∷ 7 ∷ 3 ∷ 0 ∷ 0 ∷ 0 ∷ 1 ∷ 1 ∷ 2 ∷ []) eof)
    ≡ (ok (created (second_ids, [])), reads_from pipelined [] eof)
unfolding read_round decode decode_frame_len from_bytes decode_metadata decode_int64 parse_varint
    decode_list_of_messages c_int64
second_read = refl

second_answered :
    process_notify forgetting second_ids [] (reads_from pipelined [] eof, 98)
    ≡ (ok true, wrote (ack_bytes 2) (reads_from pipelined [] eof), 99)
unfolding process_notify send_frame construct encode encode_tiny_int encode_metadata encode_int
    compose_varint encode_action_list encode_frame_len octets compose_nat compose_action
    encode_string encode_latin1
second_answered = refl

-- Both frames were read, and the task of the second has ended before that of the first.
pub second_first :
    Reaches forgetting pipelined
      (pool (wrote (ack_bytes 2) (reads_from pipelined [] eof)) 99 false ((ids, []) ∷ []))
unfolding mem_text text_eq
second_first =
    let middle = reads_from pipelined (0 ∷ 0 ∷ 0 ∷ 7 ∷ 3 ∷ 0 ∷ 0 ∷ 0 ∷ 1 ∷ 1 ∷ 2 ∷ []) eof in
    let last = reads_from pipelined [] eof in
    goes_on (pool last 98 false ((ids, []) ∷ (second_ids, []) ∷ [])) _
      (goes_on (pool middle 98 true ((ids, []) ∷ [])) _
        (goes_on (pool middle 99 false ((ids, []) ∷ [])) _
          (goes_on (pool pipelined 99 true []) _
            (goes_on (start pipelined) _ starts (acquires pipelined 99 []))
            (reads pipelined middle 99 [] (ids, []) first_read))
          (acquires middle 98 ((ids, []) ∷ [])))
        (reads middle last 98 ((ids, []) ∷ []) (second_ids, []) second_read))
      (answers last (wrote (ack_bytes 2) last) 98 99 false ((ids, []) ∷ []) [] (second_ids, []) true
        second_answered)

pipelined_service_example :
    Serves Perm forgetting 4096 pipelined
      (pool (wrote (ack_bytes 2) (reads_from pipelined [] eof)) 99 false ((ids, []) ∷ []))
pipelined_service_example =
    pipelined_service forgetting 4096 pipelined
      (pool (wrote (ack_bytes 2) (reads_from pipelined [] eof)) 99 false ((ids, []) ∷ []))
      (record { negotiated = refl; open_writer = refl; sound_writer = new_writer-Lasts })
      second_first

serial_service_example :
    Serves
      (λ ts us. ts ≡ us)
      forgetting
      4096
      notified_connection
      (pool (open_connection 4096) 0 false ((ids, []) ∷ []))
unfolding mem_text
serial_service_example =
    serial_service forgetting 4096 notified_connection
      (pool (open_connection 4096) 0 false ((ids, []) ∷ [])) refl
      (record { negotiated = refl; open_writer = refl; sound_writer = new_writer-Lasts }) one_task

-- The frame of the tests as HAProxy sends it.
abbrev pub sent_notify : Transmitted (pos 4096)
sent_notify = record {
  frame = empty_notify;
  messages = [];
  bytes = empty_notify_bytes;
  notified = refl;
  wire = record {
    typed = refl;
    metadata = (omega arith, omega arith, omega arith, omega arith);
    payload = tt;
  };
  encoded = empty_notify_written;
}

one_answer : answers_to (pos 4096) forgetting ((ids, []) ∷ []) ≡ ok (ack_bytes 1)
unfolding answers_to
one_answer = rw forgotten refl

loop_terminates_example : 2 ≤ 2 * 11 + 1
unfolding mem_text
loop_terminates_example =
    loop_terminates forgetting notified_connection 2
      (pool (open_connection 4096) 0 false ((ids, []) ∷ []))
      (then_steps 1 (pool notified_connection 0 true []) _
        (then_steps 0 (start notified_connection) _ stays (acquires notified_connection 0 []))
        (reads notified_connection (open_connection 4096) 0 [] (ids, []) notified_read))

-- Handlers that return an object of no action class behind a proper action.
abbrev careless : Messages → Result (List Action)
careless messages = ok ((forget (codes "first") ∷ []) ++ (other_action ∷ []))

process_notify_torn_example :
    process_notify careless ids [] (open_connection 4096, 0)
    ≡ (err attribute_error, open_connection 4096, 0 + 1)
process_notify_torn_example =
    process_notify_torn 4096 careless ids [] (forget (codes "first") ∷ []) [] (open_connection 4096)
      0 (omega arith) (omega arith) (open_connection-IsOpen 4096)
      (omega arith, omega arith, omega arith, omega arith) refl (tt, tt)
