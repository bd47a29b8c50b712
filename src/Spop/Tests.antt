-- ===== src/Spop/Tests.antt =====
-- The protocol's definitions run on concrete inputs.
mod Decoded
use spoe_forge.Prelude.{ℕ, ◌+◌, ◌^◌, ◌<◌, ◌≤◌, ◌≡◌, refl, arith, [], ◌∷◌, ◌++◌, some, length, ◌⊎◌}
use native.Mathlib.Decide.{dec_le}
use spoe_forge.Prelude.Order.{lt_wf}
use spoe_forge.Prelude.Int.{pos, negsuc}
use spoe_forge.Prelude.Text.{Text, codes, text_eq}
use spoe_forge.Prelude.Buffer.{Bytes, slice}
use spoe_forge.Prelude.Dict.{Dict, contains, get}
use spoe_forge.Spop.Result.{
  encode_error, ok, err, decode_error, attribute_error, type_error, frame_too_big,
}
use spoe_forge.Spop.Types.{Value, Action, set_var_action, FrameType, ActionScope}
use spoe_forge.Spop.Octets.{octets, mask}
use spoe_forge.Spop.Varint.{compose_nat, compose_loop, parse_varint, parse_loop, compose_varint}
use spoe_forge.Spop.Varint.Laws.{
  parse_varint-compose_nat, parse_varint_canonical, parse_varint_errors,
}
use spoe_forge.Spop.Encoders.DataTypes.{
  auto_encode_dt_var, encode_tiny_int, encode_int, encode_string, encode_latin1, encode_frame_len,
}
use spoe_forge.Spop.Encoders.Payloads.{
  encode_message, encode_metadata, compose_action, encode_action_list,
}
use spoe_forge.Spop.Decoders.DataTypes.{auto_decode_var}
use spoe_forge.Spop.Decoders.Payloads.{
  decode_message, decode_metadata, decode_action, decode_kv_list, decode_list_of_messages,
  decode_list_of_actions,
}
use spoe_forge.Spop.RoundTrip.Carries.{Carries}
use spoe_forge.Spop.RoundTrip.DataTypes.{value-Carries}
use spoe_forge.Spop.RoundTrip.Payloads.{message-Carries}
use spoe_forge.Spop.RoundTrip.Actions.{action-Carries}
use spoe_forge.Spop.RoundTrip.MetaData.{metadata-Carries}
use spoe_forge.Spop.SpopList.{from_spop_list, to_spop_list, strip, lstrip, rstrip}
use spoe_forge.Spop.SpopList.Laws.{IsToken, from_spop_list-to_spop_list}
use spoe_forge.Spop.Frame.{Payload, Frame, haproxy_hello_of, encode_payload}
use spoe_forge.Spop.Frame.Construct.{final_metadata}
use spoe_forge.Spop.Frame.Codec.{encode, encode_body, decode, decode_body, eof}
use spoe_forge.Spop.Frame.RoundTrip.Frames.{IsWireFrame, decode-encode, encode-total}
use spoe_forge.Spop.Safety.Payloads.{ReadsTo, list_decoders_outcome}
use spoe_forge.Spop.Safety.Frames.{decode_body_errors}

compose_300 : compose_nat 300 ≡ 252 ∷ 3 ∷ []
unfolding compose_nat compose_loop lt_wf dec_le
compose_300 = refl

parse_300 : parse_varint (252 ∷ 3 ∷ []) 0 ≡ ok (300, 2)
unfolding parse_varint parse_loop
parse_300 = refl

parse_cut : parse_varint (255 ∷ 128 ∷ []) 0 ≡ err decode_error
unfolding parse_varint parse_loop
parse_cut = refl

parse_varint-compose_nat_example :
    parse_varint (7 ∷ (compose_nat 300 ++ (9 ∷ []))) 1 ≡ ok (300, 1 + length (compose_nat 300))
parse_varint-compose_nat_example =
    parse_varint-compose_nat (7 ∷ (compose_nat 300 ++ (9 ∷ []))) 1 300 (9 ∷ [])
      (record { total = omega arith; rest = refl })

parse_varint_canonical_example :
    (slice (252 ∷ 3 ∷ 9 ∷ []) 0 2 ≡ compose_nat 300)
    × (0 < 2)
    × (2 ≤ length {A = ℕ} (252 ∷ 3 ∷ 9 ∷ []))
parse_varint_canonical_example =
    parse_varint_canonical (252 ∷ 3 ∷ 9 ∷ []) 0 300 2 (omega arith)
      (unfold parse_varint parse_loop in refl)

list_decoders_outcome_example :
    ReadsTo (1 ∷ 97 ∷ 0 ∷ []) 0 3 (decode_kv_list (1 ∷ 97 ∷ 0 ∷ []) 0 3)
    × ReadsTo (1 ∷ 97 ∷ 0 ∷ []) 0 3 (decode_list_of_messages (1 ∷ 97 ∷ 0 ∷ []) 0 3)
    × ReadsTo (1 ∷ 97 ∷ 0 ∷ []) 0 3 (decode_list_of_actions (1 ∷ 97 ∷ 0 ∷ []) 0 3)
list_decoders_outcome_example =
    list_decoders_outcome (1 ∷ 97 ∷ 0 ∷ []) 0 3 (omega arith) (omega arith)

abbrev hello_message : Text × Dict Value
hello_message = (codes "get-ip", (codes "ip", Value.ipv4 2130706433) ∷ [])

abbrev set_score : Action
set_score = set_var_action ActionScope.session (codes "score") (Value.int (pos 42))

-- An ACK with one action.
abbrev ack_score : Frame
ack_score = record {
  frame_type = FrameType.ack;
  metadata = final_metadata (pos 1) (pos 1);
  payload = Payload.ack (some (set_score ∷ []));
}

ack_score-IsWireFrame : IsWireFrame ack_score
ack_score-IsWireFrame = record {
  typed = refl;
  metadata = (omega arith, omega arith, omega arith, omega arith);
  payload = ((omega arith, (omega arith, omega arith)), tt);
}

-- What it is on the wire.
abbrev ack_score_bytes : Bytes
ack_score_bytes =
    0 ∷ 0 ∷ 0 ∷ 18 ∷ 103 ∷ 0 ∷ 0 ∷ 0 ∷ 1 ∷ 1 ∷ 1 ∷ 1 ∷ 3 ∷ 1 ∷ 5 ∷ (codes "score" ++ (4 ∷ 42 ∷ []))

ack_score_written : encode ack_score (pos 100) ≡ ok ack_score_bytes
unfolding encode encode_body encode_payload encode_action_list compose_action encode_metadata
    auto_encode_dt_var compose_varint compose_nat encode_tiny_int encode_int encode_string
    encode_latin1 encode_frame_len octets mask
ack_score_written = refl

decode-encode_example :
    decode (record { buffer = ack_score_bytes ++ (0 ∷ []); ending = eof }) (pos 100)
    ≡ (ok ack_score, record { buffer = 0 ∷ []; ending = eof })
decode-encode_example =
    decode-encode ack_score (pos 100) ack_score_bytes (0 ∷ []) eof ack_score-IsWireFrame
      ack_score_written

encode-total_example :
    (body : Bytes) × (encode_body ack_score ≡ ok body)
    × (length body ≤ 100 → encode ack_score (pos 100) ≡ ok (octets 4 (length body) ++ body))
    × (100 < length body → length body < 2 ^ 32 → encode ack_score (pos 100) ≡ err frame_too_big)
    × (2 ^ 32 ≤ length body → encode ack_score (pos 100) ≡ err encode_error)
encode-total_example = encode-total ack_score 100 ack_score-IsWireFrame (omega arith)

decode_body_errors_example :
    (decode_error ≡ decode_error) ⊎ (decode_error ≡ attribute_error) ⊎ (decode_error ≡ type_error)
decode_body_errors_example =
    decode_body_errors (7 ∷ []) 1 decode_error (omega arith) (unfold decode_body in refl)
