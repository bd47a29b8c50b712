-- ===== src/Spop/Tests/Decoded.antt =====
-- A NOTIFY whose stream identifier has the top bit of 64 set, read from a stream.
use spoe_forge.Prelude.{◌≡◌, refl, [], ◌∷◌}
use spoe_forge.Prelude.Int.{pos, negsuc}
use spoe_forge.Spop.Result.{ok}
use spoe_forge.Spop.Types.{FrameType}
use spoe_forge.Spop.Octets.{from_bytes, c_int64}
use spoe_forge.Spop.Varint.{parse_varint, parse_loop}
use spoe_forge.Spop.Decoders.DataTypes.{decode_frame_len, decode_int64}
use spoe_forge.Spop.Decoders.Payloads.{decode_metadata, decode_list_of_messages}
use spoe_forge.Spop.Frame.{Payload, Frame}
use spoe_forge.Spop.Frame.Construct.{final_metadata}
use spoe_forge.Spop.Frame.Codec.{Reader, eof, decode}
use spoe_forge.Spop.Safety.Decoded.{IsTypedFrame, decode-IsTypedFrame}

abbrev negative : Reader
negative = record {
  buffer =
      0 ∷ 0 ∷ 0 ∷ 16 ∷ 3 ∷ 0 ∷ 0 ∷ 0 ∷ 1 ∷ 255 ∷ 240 ∷ 254 ∷ 254 ∷ 254 ∷ 254 ∷ 254 ∷ 254 ∷ 254 ∷ 14
      ∷ 1 ∷ [];
  ending = eof;
}

abbrev negative_notify : Frame
negative_notify = record {
  frame_type = FrameType.notify;
  metadata = final_metadata (negsuc 0) (pos 1);
  payload = Payload.notify [];
}

negative_read :
    decode negative (pos 4096) ≡ (ok negative_notify, record { buffer = []; ending = eof })
unfolding decode decode_frame_len from_bytes decode_metadata decode_int64 parse_varint parse_loop
    decode_list_of_messages c_int64
negative_read = refl

decode-IsTypedFrame_example : IsTypedFrame negative_notify
decode-IsTypedFrame_example =
    decode-IsTypedFrame negative (record { buffer = []; ending = eof }) (pos 4096) negative_notify
      negative_read
