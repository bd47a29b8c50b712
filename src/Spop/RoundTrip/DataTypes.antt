-- ===== src/Spop/RoundTrip/DataTypes.antt =====
-- Round trips of typed values, of spoe_forge/spop/{encoders,decoders}/data_types.py.
use spoe_forge.Prelude.{
  ℕ, ◌+◌, ◌-◌, ◌^◌, ◌≤◌, ◌<◌, ◌≡◌, refl, sym, ap, ◌∙◌, arith, Bool, true, false, [], ◌∷◌, length,
  length-append, ge→ltb, lt→ltb, gt→leb, All,
}
use spoe_forge.Prelude.Text.{Text}
use spoe_forge.Prelude.Buffer.{Bytes, IsByte, At-lt, slice, slice-At}
use spoe_forge.Spop.Result.{Result, ok}
use spoe_forge.Spop.Types.{DataType, Value, IsWire, IsLatin1}
use spoe_forge.Spop.Octets.{
  octets, octets-IsByte, length-octets, from_bytes, from_bytes-octets, to_bytes,
}
use spoe_forge.Spop.Varint.Parse.{byte_at-At}
use spoe_forge.Spop.Encoders.DataTypes.{
  compose_binary, tagged, encode_dt_null, encode_dt_bool, encode_dt_ipv4, encode_dt_ipv6,
  encode_dt_binary, encode_dt_string, encode_string, auto_encode_dt_var,
}
use spoe_forge.Spop.Decoders.DataTypes.{
  SpoaDec, decode_bool, decode_ipv4, decode_ipv6, decode_binary, decode_string, decode_typed,
  auto_decode_var,
}
use spoe_forge.Spop.RoundTrip.Carries.{Reads, Carries}
use spoe_forge.Spop.RoundTrip.Primitives.{binary-Carries, encode_latin1-IsLatin1}
use spoe_forge.Spop.RoundTrip.Integers.{tagged-Carries, int64-Carries}

octets_body :
    (width n : ℕ) (decode : Bytes → ℕ → SpoaDec ℕ)
    → 1 ≤ width
    → n < 256 ^ width
    → ((buf : Bytes) (offset : ℕ)
        → offset + width ≤ length buf
        → decode buf offset ≡ ok (from_bytes (slice buf offset (offset + width)), offset + width))
    → Carries (to_bytes width n) decode n
octets_body width n decode pos_width h reads = record {
  bytes = octets width n;
  written = rw (lt→ltb n (256 ^ width) h);
  are_bytes = octets-IsByte width n;
  nonempty = omega (arith, length-octets width n);
  read = λ buf offset rest a.
      let size : length (octets width n) ≡ width = length-octets width n in
      let fits : offset + width ≤ length buf =
        omega (arith, a.total, length-append (octets width n) rest, size) in
      let cut : slice buf offset (offset + width) ≡ octets width n =
        ap (λ k. slice buf offset (offset + k)) (sym size)
        ∙ slice-At buf offset (octets width n) rest a in
      reads buf offset fits
      ∙ rw (cut, size) (ap (λ k. ok (k, offset + width)) (from_bytes-octets width n h));
}

pub ipv4-Carries : (n : ℕ) → n < 2 ^ 32 → Carries (encode_dt_ipv4 n) auto_decode_var (Value.ipv4 n)
unfolding encode_dt_ipv4 decode_typed decode_ipv4
ipv4-Carries n h =
    tagged-Carries DataType.ipv4 (to_bytes 4 n) decode_ipv4 n Value.ipv4 (λ buf offset. refl)
      (octets_body 4 n decode_ipv4 (omega arith) (omega arith)
        (λ buf offset fits. rw (ge→ltb (length buf) (offset + 4) fits)))

pub ipv6-Carries : (n : ℕ) → n < 2 ^ 128 → Carries (encode_dt_ipv6 n) auto_decode_var (Value.ipv6 n)
unfolding encode_dt_ipv6 decode_typed decode_ipv6
ipv6-Carries n h =
    tagged-Carries DataType.ipv6 (to_bytes 16 n) decode_ipv6 n Value.ipv6 (λ buf offset. refl)
      (octets_body 16 n decode_ipv6 (omega arith) (omega arith)
        (λ buf offset fits. rw (ge→ltb (length buf) (offset + 16) fits)))

dt_binary-Carries :
    (b : Bytes) → All IsByte b → Carries (encode_dt_binary b) auto_decode_var (Value.bytes b)
unfolding encode_dt_binary decode_typed
dt_binary-Carries b h =
    tagged-Carries DataType.binary (compose_binary b) decode_binary b Value.bytes
      (λ buf offset. refl) (binary-Carries b h)

dt_string-Carries :
    (s : Text) → IsLatin1 s → Carries (encode_dt_string s) auto_decode_var (Value.str s)
unfolding encode_dt_string decode_typed encode_string
dt_string-Carries s h = record {
  bytes = t.bytes;
  written = rw (encode_latin1-IsLatin1 s h, t.written);
  are_bytes = t.are_bytes;
  nonempty = t.nonempty;
  read = t.read;
}
  where
    t : Carries (tagged DataType.string (compose_binary s)) auto_decode_var (Value.str s)
    t =
        tagged-Carries DataType.string (compose_binary s) decode_string s Value.str
          (λ buf offset. refl) (unfold decode_string in binary-Carries s h)

-- A value of one byte: null and the booleans.
back : (offset : ℕ) → offset + 1 - 1 ≡ offset
back offset = omega arith

one_byte-Carries :
    (m : Result Bytes) (b : ℕ) (v : Value)
    → b < 256
    → m ≡ ok (b ∷ [])
    → Reads auto_decode_var (b ∷ []) v
    → Carries m auto_decode_var v
one_byte-Carries m b v h e r = record {
  bytes = b ∷ [];
  written = e;
  are_bytes = omega arith;
  nonempty = omega arith;
  read = r;
}

null-Carries : Carries encode_dt_null auto_decode_var Value.null
unfolding encode_dt_null auto_decode_var decode_typed octets
null-Carries = one_byte-Carries encode_dt_null 0 Value.null (omega arith) refl λ buf offset rest a.
    rw (
      ge→ltb (length buf) (offset + 1) (omega (arith, At-lt buf offset 0 rest a)),
      byte_at-At buf offset 0 rest a,
    )

bool-Carries : (b : Bool) → Carries (encode_dt_bool b) auto_decode_var (Value.bool b)
unfolding encode_dt_bool auto_decode_var decode_typed decode_bool octets
bool-Carries true =
    one_byte-Carries (encode_dt_bool true) 17 (Value.bool true) (omega arith) refl
      λ buf offset rest a. rw (
        ge→ltb (length buf) (offset + 1) (omega (arith, At-lt buf offset 17 rest a)),
        byte_at-At buf offset 17 rest a,
        back offset,
        gt→leb (length buf) offset (At-lt buf offset 17 rest a),
        byte_at-At buf offset 17 rest a,
      )
bool-Carries false =
    one_byte-Carries (encode_dt_bool false) 1 (Value.bool false) (omega arith) refl
      λ buf offset rest a. rw (
        ge→ltb (length buf) (offset + 1) (omega (arith, At-lt buf offset 1 rest a)),
        byte_at-At buf offset 1 rest a,
        back offset,
        gt→leb (length buf) offset (At-lt buf offset 1 rest a),
        byte_at-At buf offset 1 rest a,
      )

-- Every value that the wire can carry is encoded, and decoded to itself.
pub value-Carries : (v : Value) → IsWire v → Carries (auto_encode_dt_var v) auto_decode_var v
unfolding auto_encode_dt_var
value-Carries Value.null h = null-Carries
value-Carries (Value.bool b) h = bool-Carries b
value-Carries (Value.int v) h = int64-Carries v h.0 h.1
value-Carries (Value.ipv4 n) h = ipv4-Carries n h
value-Carries (Value.ipv6 n) h = ipv6-Carries n h
value-Carries (Value.bytes b) h = dt_binary-Carries b h
value-Carries (Value.str s) h = dt_string-Carries s h
value-Carries Value.unsupported h = absurd h
