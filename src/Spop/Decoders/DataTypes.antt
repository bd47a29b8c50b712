-- ===== src/Spop/Decoders/DataTypes.antt =====
-- spoe_forge/spop/decoders/data_types.py, without `_parse_varint`, which is in Varint.
use spoe_forge.Prelude.{
  ℕ, ◌+◌, ◌-◌, ◌%◌, ◌^◌, Bool, true, false, ltb, leb, ◌==◌, if◌then◌else◌, length, bit_and,
}
use spoe_forge.Prelude.Int.{ℤ, pos}
use spoe_forge.Prelude.Buffer.{Bytes, slice}
use spoe_forge.Prelude.Text.{Text}
use spoe_forge.Spop.Result.{
  Exc, Result, ok, err, decode_error, value_error, struct_error, rethrow, ◌>>=◌,
}
use spoe_forge.Spop.Types.{type_mask, flag_mask, bool_true, DataType, data_type_of, Value}
use spoe_forge.Spop.Octets.{from_bytes, c_int32, c_int64}
use spoe_forge.Spop.Varint.{parse_varint, byte_at}

-- A decoded value with the offset behind it.
abbrev pub SpoaDec {ℓ} : Type ℓ → Type ℓ
SpoaDec A = Result (A × ℕ)

unfoldable pub decode_tiny_int : Bytes → ℕ → SpoaDec ℕ
decode_tiny_int buf offset =
    if leb (length buf) offset
    then err decode_error
    else do b ← byte_at buf offset; ok (b, offset + 1)

-- `struct.unpack("!I", b)`
abbrev pub unpack_uint32 : Bytes → Result ℕ
unpack_uint32 b = if length b == 4 then ok (from_bytes b) else err struct_error

abbrev pub is_struct_error : Exc → Bool
is_struct_error struct_error = true
is_struct_error _ = false

abbrev pub is_value_error : Exc → Bool
is_value_error value_error = true
is_value_error _ = false

unfoldable pub decode_frame_len : Bytes → Result ℕ
decode_frame_len len_buf = rethrow is_struct_error decode_error (unpack_uint32 len_buf)

unfoldable pub decode_int32 : Bytes → ℕ → SpoaDec ℤ
decode_int32 buf offset = do (val, end) ← parse_varint buf offset; ok (c_int32 val, end)

unfoldable pub decode_int64 : Bytes → ℕ → SpoaDec ℤ
decode_int64 buf offset = do (val, end) ← parse_varint buf offset; ok (c_int64 val, end)

-- `ctypes.c_uint32(n).value` and `ctypes.c_uint64(n).value` are remainders.
unfoldable pub decode_uint32 : Bytes → ℕ → SpoaDec ℤ
decode_uint32 buf offset = do (val, end) ← parse_varint buf offset; ok (pos (val % 2 ^ 32), end)

unfoldable pub decode_uint64 : Bytes → ℕ → SpoaDec ℤ
decode_uint64 buf offset = do (val, end) ← parse_varint buf offset; ok (pos (val % 2 ^ 64), end)

unfoldable pub decode_bool : Bytes → ℕ → SpoaDec Bool
decode_bool buf offset =
    if leb (length buf) offset
    then err decode_error
    else do b ← byte_at buf offset; ok (bit_and b flag_mask == bool_true, offset + 1)

unfoldable pub decode_ipv4 : Bytes → ℕ → SpoaDec ℕ
decode_ipv4 buf offset =
    let end = offset + 4 in
    if ltb (length buf) end then err decode_error else ok (from_bytes (slice buf offset end), end)

unfoldable pub decode_ipv6 : Bytes → ℕ → SpoaDec ℕ
decode_ipv6 buf offset =
    let end = offset + 16 in
    if ltb (length buf) end then err decode_error else ok (from_bytes (slice buf offset end), end)

unfoldable pub decode_binary : Bytes → ℕ → SpoaDec Bytes
decode_binary buf offset = do
  (bin_len, start) ← parse_varint buf offset
  let end = start + bin_len
  if ltb (length buf) end then err decode_error else ok (slice buf start end, end)

-- `.decode("latin-1")` maps each byte to the code point of that number.
unfoldable pub decode_string : Bytes → ℕ → SpoaDec Text
decode_string buf offset = decode_binary buf offset

-- The branches on the type of a value; `offset` is the one behind the type byte.
unfoldable pub decode_typed : DataType → Bytes → ℕ → SpoaDec Value
decode_typed DataType.null buf offset = ok (Value.null, offset)
decode_typed DataType.bool buf offset = do
  (val, end) ← decode_bool buf (offset - 1)
  ok (Value.bool val, end)
decode_typed DataType.int32 buf offset = do
  (val, end) ← decode_int32 buf offset
  ok (Value.int val, end)
decode_typed DataType.uint32 buf offset = do
  (val, end) ← decode_uint32 buf offset
  ok (Value.int val, end)
decode_typed DataType.int64 buf offset = do
  (val, end) ← decode_int64 buf offset
  ok (Value.int val, end)
decode_typed DataType.uint64 buf offset = do
  (val, end) ← decode_uint64 buf offset
  ok (Value.int val, end)
decode_typed DataType.ipv4 buf offset = do
  (val, end) ← decode_ipv4 buf offset
  ok (Value.ipv4 val, end)
decode_typed DataType.ipv6 buf offset = do
  (val, end) ← decode_ipv6 buf offset
  ok (Value.ipv6 val, end)
decode_typed DataType.string buf offset = do
  (val, end) ← decode_string buf offset
  ok (Value.str val, end)
decode_typed DataType.binary buf offset = do
  (val, end) ← decode_binary buf offset
  ok (Value.bytes val, end)

unfoldable pub auto_decode_var : Bytes → ℕ → SpoaDec Value
auto_decode_var buf offset = if ltb (length buf) (offset + 1) then err decode_error else do
  type_byte ← byte_at buf offset
  val_type ← rethrow is_value_error decode_error (data_type_of (bit_and type_byte type_mask))
  decode_typed val_type buf (offset + 1)
