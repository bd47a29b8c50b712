-- ===== src/Spop/Frame/Codec.antt =====
-- `Frame.encode` and `Frame.decode` of spoe_forge/spop/frame.py, and the stream that is decoded.
use spoe_forge.Prelude.{
  ℕ, Bool, true, false, [], ◌∷◌, ◌++◌, ltb, ◌==◌, if◌then◌else◌, length, take, drop,
}
use spoe_forge.Prelude.Int.{ℤ, pos, ltb_ℤ}
use spoe_forge.Prelude.Buffer.{Bytes}
use spoe_forge.Spop.Result.{
  Exc, Result, ok, err, decode_error, eof_error, incomplete_read, connection_error, frame_too_big,
  rethrow, ◌>>=◌,
}
use spoe_forge.Spop.Types.{frame_type_number, frame_type_of}
use spoe_forge.Spop.Varint.{byte_at}
use spoe_forge.Spop.Encoders.DataTypes.{encode_tiny_int, encode_frame_len}
use spoe_forge.Spop.Encoders.Payloads.{encode_metadata}
use spoe_forge.Spop.Decoders.DataTypes.{decode_frame_len, is_value_error}
use spoe_forge.Spop.Decoders.Payloads.{decode_metadata}
use spoe_forge.Spop.Frame.{Frame, get_frame_class, encode_payload, decode_payload}
use spoe_forge.Spop.Frame.Construct.{is_key_error}

-- Type, metadata and payload: what the length counts.
unfoldable pub encode_body : Frame → Result Bytes
unfolding encode_payload
encode_body frame = do
  type_byte ← encode_tiny_int (pos (frame_type_number frame.frame_type))
  metadata ← encode_metadata frame.metadata
  payload ← encode_payload frame.payload
  ok (type_byte ++ (metadata ++ payload))

unfoldable pub encode : Frame → ℤ → Result Bytes
unfolding encode_body
encode frame max_frame_size = do
  out ← encode_body frame
  frame_len ← encode_frame_len (length out)
  if ltb_ℤ max_frame_size (pos (length out)) then err frame_too_big else ok (frame_len ++ out)

-- How a stream ends, behind the bytes that still come.
pub data Ending : Type 0 where
  eof reset : Ending

-- `asyncio.StreamReader`: the bytes that will arrive, and what comes behind them.
pub record Reader : Type 0 where
  pub buffer : Bytes
  pub ending : Ending

abbrev pub short_read : Reader → Ending → Result Bytes × Reader
short_read reader eof = (err incomplete_read, record reader { buffer = [] })
short_read reader reset = (err connection_error, record reader { buffer = [] })

-- `reader.readexactly(n)`: too few bytes before the end of the stream are dropped.
unfoldable pub readexactly : ℕ → Reader → Result Bytes × Reader
readexactly n reader =
    if ltb (length reader.buffer) n
    then short_read reader reader.ending
    else (ok (take n reader.buffer), record reader { buffer = drop n reader.buffer })

abbrev is_eof : Ending → Bool
is_eof eof = true
is_eof reset = false

abbrev no_bytes : Bytes → Bool
no_bytes [] = true
no_bytes (b ∷ bs) = false

-- `reader.at_eof()`
abbrev at_eof : Reader → Bool
at_eof reader = if no_bytes reader.buffer then is_eof reader.ending else false

-- The handlers of `IncompleteReadError` at the length and in the frame.
abbrev length_failed : Exc → Reader → Exc
length_failed incomplete_read reader = if at_eof reader then eof_error else decode_error
length_failed e reader = e

abbrev body_failed : Exc → Exc
body_failed incomplete_read = decode_error
body_failed e = e

-- What `decode` does with the bytes of the frame.
unfoldable pub decode_body : Bytes → ℕ → Result Frame
unfolding decode_payload
decode_body frame_buf frame_len = if ltb (length frame_buf) 1 then err decode_error else do
  type_byte ← byte_at frame_buf 0
  frame_type ← rethrow is_value_error decode_error (frame_type_of type_byte)
  (metadata, start) ← decode_metadata frame_buf 1
  frame_class ← get_frame_class frame_type
  (payload, offset) ←
      rethrow is_key_error decode_error (decode_payload frame_class frame_buf start frame_len)
  if offset == frame_len
      then ok (record { frame_type = frame_type; metadata = metadata; payload = payload })
      else err decode_error

abbrev pub read_body : ℕ → Result Bytes × Reader → Result Frame × Reader
read_body frame_len (ok frame_buf, reader) = (decode_body frame_buf frame_len, reader)
read_body frame_len (err e, reader) = (err (body_failed e), reader)

abbrev pub sized : ℤ → Reader → Result ℕ → Result Frame × Reader
sized max_frame_size reader (err e) = (err e, reader)
sized max_frame_size reader (ok frame_len) =
    if ltb_ℤ max_frame_size (pos frame_len)
    then (err frame_too_big, reader)
    else read_body frame_len (readexactly frame_len reader)

abbrev pub read_length : ℤ → Result Bytes × Reader → Result Frame × Reader
read_length max_frame_size (err e, reader) = (err (length_failed e reader), reader)
read_length max_frame_size (ok len_buf, reader) =
    sized max_frame_size reader (decode_frame_len len_buf)

unfoldable pub decode : Reader → ℤ → Result Frame × Reader
unfolding readexactly decode_body
decode reader max_frame_size = read_length max_frame_size (readexactly 4 reader)
