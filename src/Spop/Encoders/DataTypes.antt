-- ===== src/Spop/Encoders/DataTypes.antt =====
-- spoe_forge/spop/encoders/data_types.py, without `_compose_varint`, which is in Varint.
use spoe_forge.Prelude.{
  ℕ, ◌^◌, Bool, true, false, ◌&&◌, [], ◌∷◌, ◌++◌, ltb, if◌then◌else◌, length, bit_or,
}
use spoe_forge.Prelude.Int.{ℤ, pos, pos_part, leb_ℤ}
use spoe_forge.Prelude.Buffer.{Bytes}
use spoe_forge.Prelude.Text.{Text}
use spoe_forge.Spop.Result.{
  Exc, Result, ok, err, encode_error, struct_error, unicode_encode_error, rethrow, ◌>>=◌,
}
use spoe_forge.Spop.Types.{
  int32_min, int32_max, int64_min, int64_max, uint32_max, uint64_max, bool_true, bool_false,
  DataType, data_type_number, Value,
}
use spoe_forge.Spop.Octets.{to_bytes, octets, mask}
use spoe_forge.Spop.Varint.{compose_varint}

abbrev pub compose_binary : Bytes → Result Bytes
compose_binary val = do length_var ← compose_varint (pos (length val)); ok (length_var ++ val)

abbrev pub type_data : DataType → ℕ → Result Bytes
type_data data_type flags = to_bytes 1 (bit_or flags (data_type_number data_type))

abbrev pub in_range : ℤ → ℤ → ℤ → Bool
in_range lo hi val = leb_ℤ lo val && leb_ℤ val hi

unfoldable pub encode_tiny_int : ℤ → Result Bytes
encode_tiny_int val =
    if in_range (pos 0) (pos 255) val then to_bytes 1 (pos_part val) else err encode_error

-- `struct.pack("!I", n)`
abbrev pub pack_uint32 : ℕ → Result Bytes
pack_uint32 n = if ltb n (2 ^ 32) then ok (octets 4 n) else err struct_error

abbrev pub is_struct_error : Exc → Bool
is_struct_error struct_error = true
is_struct_error _ = false

abbrev pub is_unicode_encode_error : Exc → Bool
is_unicode_encode_error unicode_encode_error = true
is_unicode_encode_error _ = false

unfoldable pub encode_frame_len : ℕ → Result Bytes
encode_frame_len frame_len = rethrow is_struct_error encode_error (pack_uint32 frame_len)

unfoldable pub encode_int : ℤ → Result Bytes
encode_int val = compose_varint val

-- `val.encode("latin-1")`
unfoldable pub encode_latin1 : Text → Result Bytes
encode_latin1 [] = ok []
encode_latin1 (c ∷ s) =
    let rest = encode_latin1 s in
    if ltb c 256 then (do b ← rest; ok (c ∷ b)) else err unicode_encode_error

unfoldable pub encode_string : Text → Result Bytes
encode_string val =
    rethrow is_unicode_encode_error encode_error (do b ← encode_latin1 val; compose_binary b)

-- `_type_data(data_type) + m`
abbrev pub tagged : DataType → Result Bytes → Result Bytes
tagged data_type m = do head ← type_data data_type 0; body ← m; ok (head ++ body)

unfoldable pub encode_dt_null : Result Bytes
encode_dt_null = type_data DataType.null 0

unfoldable pub encode_dt_int32 : ℤ → Result Bytes
encode_dt_int32 val =
    if in_range int32_min int32_max val
    then tagged DataType.int32 (compose_varint (pos (mask 32 val)))
    else err encode_error

unfoldable pub encode_dt_int64 : ℤ → Result Bytes
encode_dt_int64 val =
    if in_range int64_min int64_max val
    then tagged DataType.int64 (compose_varint (pos (mask 64 val)))
    else err encode_error

unfoldable pub encode_dt_uint32 : ℤ → Result Bytes
encode_dt_uint32 val =
    if in_range (pos 0) uint32_max val
    then tagged DataType.uint32 (compose_varint val)
    else err encode_error

unfoldable pub encode_dt_uint64 : ℤ → Result Bytes
encode_dt_uint64 val =
    if in_range (pos 0) uint64_max val
    then tagged DataType.uint64 (compose_varint val)
    else err encode_error

unfoldable pub encode_dt_bool : Bool → Result Bytes
encode_dt_bool val = type_data DataType.bool (if val then bool_true else bool_false)

-- `val.packed` is the number in 4 or 16 bytes.
unfoldable pub encode_dt_ipv4 : ℕ → Result Bytes
encode_dt_ipv4 val = tagged DataType.ipv4 (to_bytes 4 val)

unfoldable pub encode_dt_ipv6 : ℕ → Result Bytes
encode_dt_ipv6 val = tagged DataType.ipv6 (to_bytes 16 val)

unfoldable pub encode_dt_binary : Bytes → Result Bytes
encode_dt_binary val = tagged DataType.binary (compose_binary val)

unfoldable pub encode_dt_string : Text → Result Bytes
encode_dt_string val =
    rethrow is_unicode_encode_error encode_error
      (tagged DataType.string (do b ← encode_latin1 val; compose_binary b))

unfoldable pub auto_encode_dt_var : Value → Result Bytes
unfolding encode_dt_null encode_dt_bool encode_dt_int64 encode_dt_ipv4 encode_dt_ipv6
    encode_dt_binary encode_dt_string
auto_encode_dt_var Value.null = encode_dt_null
auto_encode_dt_var (Value.bool val) = encode_dt_bool val
auto_encode_dt_var (Value.int val) = encode_dt_int64 val
auto_encode_dt_var (Value.ipv4 val) = encode_dt_ipv4 val
auto_encode_dt_var (Value.ipv6 val) = encode_dt_ipv6 val
auto_encode_dt_var (Value.bytes val) = encode_dt_binary val
auto_encode_dt_var (Value.str val) = encode_dt_string val
auto_encode_dt_var Value.unsupported = err encode_error
