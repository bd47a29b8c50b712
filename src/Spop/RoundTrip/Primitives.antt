-- ===== src/Spop/RoundTrip/Primitives.antt =====
-- Round trips of what typed data is made of: varints, byte strings and texts, of
-- spoe_forge/spop/{encoders,decoders}/data_types.py.
use spoe_forge.Prelude.{
  ℕ, ◌+◌, ◌≡◌, refl, ap, ◌∙◌, arith, [], ◌∷◌, ◌++◌, length, length-append, ge→ltb, lt→ltb, All,
  All-append,
}
use spoe_forge.Prelude.Int.{pos}
use spoe_forge.Prelude.Text.{Text}
use spoe_forge.Prelude.Buffer.{Bytes, IsByte, slice-At}
use spoe_forge.Spop.Result.{ok}
use spoe_forge.Spop.Types.{IsLatin1}
use spoe_forge.Spop.Varint.{compose_nat, compose_varint, parse_varint}
use spoe_forge.Spop.Varint.Format.{Varint-IsByte, Varint-nonempty}
use spoe_forge.Spop.Varint.Compose.{compose_nat-Varint}
use spoe_forge.Spop.Varint.Laws.{parse_varint-compose_nat}
use spoe_forge.Spop.Encoders.DataTypes.{compose_binary, encode_latin1, encode_string}
use spoe_forge.Spop.Decoders.DataTypes.{decode_binary, decode_string}
use spoe_forge.Spop.RoundTrip.Carries.{Carries, At-first, At-second}

pub compose_nat-IsByte : (n : ℕ) → All IsByte (compose_nat n)
compose_nat-IsByte n = Varint-IsByte (compose_nat-Varint n)

pub varint-Carries : (n : ℕ) → Carries (compose_varint (pos n)) parse_varint n
unfolding compose_varint
varint-Carries n = record {
  bytes = compose_nat n;
  written = refl;
  are_bytes = compose_nat-IsByte n;
  nonempty = Varint-nonempty (compose_nat-Varint n);
  read = λ buf offset rest a. parse_varint-compose_nat buf offset n rest a;
}

pub binary-Carries : (b : Bytes) → All IsByte b → Carries (compose_binary b) decode_binary b
unfolding compose_varint decode_binary
binary-Carries b h = record {
  bytes = prefix ++ b;
  written = refl;
  are_bytes = All-append IsByte prefix b (compose_nat-IsByte (length b)) h;
  nonempty = omega (arith, Varint-nonempty (compose_nat-Varint (length b)), length-append prefix b);
  read = λ buf offset rest a.
      let second = At-second buf offset prefix b rest a in
      rw
        (
          parse_varint-compose_nat buf offset (length b) (b ++ rest)
              (At-first buf offset prefix b rest a),
          ge→ltb (length buf) (offset + length prefix + length b)
              (omega (arith, second.total, length-append b rest)),
        )
        (ap (λ s. ok (s, offset + length prefix + length b))
            (slice-At buf (offset + length prefix) b rest second)
          ∙ ap (λ o. ok (b, o)) (omega (arith, length-append prefix b)));
}
  where
    prefix : Bytes
    prefix = compose_nat (length b)

pub encode_latin1-IsLatin1 : (s : Text) → IsLatin1 s → encode_latin1 s ≡ ok s
unfolding encode_latin1
encode_latin1-IsLatin1 [] h = refl
encode_latin1-IsLatin1 (c ∷ s) h = rw (lt→ltb c 256 h.0, encode_latin1-IsLatin1 s h.1)

pub string-Carries : (s : Text) → IsLatin1 s → Carries (encode_string s) decode_string s
unfolding encode_string decode_string
string-Carries s h = record {
  bytes = c.bytes;
  written = rw (encode_latin1-IsLatin1 s h, c.written);
  are_bytes = c.are_bytes;
  nonempty = c.nonempty;
  read = c.read;
}
  where
    c : Carries (compose_binary s) decode_binary s
    c = binary-Carries s h
