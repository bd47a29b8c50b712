-- ===== src/Spop/RoundTrip/MetaData.antt =====
-- Round trips of frame metadata, in spoe_forge/spop/{encoders,decoders}/payloads.py.
use spoe_forge.Prelude.{
  ◌+◌, ◌<◌, ◌≡◌, refl, arith, Bool, true, false, [], ◌∷◌, ◌++◌, length, length-append, All-append,
  ge→ltb, bit_and, ◌==◌,
}
use spoe_forge.Prelude.Buffer.{Bytes, IsByte, At-append, slice-At}
use spoe_forge.Spop.Types.{MetaData, Flags, fin_flag, abort_flag}
use spoe_forge.Spop.Wire.{IsWireMetaData}
use spoe_forge.Spop.Encoders.DataTypes.{encode_int}
use spoe_forge.Spop.Encoders.Payloads.{encode_metadata, flags_byte}
use spoe_forge.Spop.Decoders.DataTypes.{decode_int64}
use spoe_forge.Spop.Decoders.Payloads.{decode_metadata}
use spoe_forge.Spop.RoundTrip.Carries.{Carries, At-first, At-second, same_result}
use spoe_forge.Spop.RoundTrip.Integers.{encode_int-Carries}

-- The flag byte of each pair of flags, read back by the decoder's masks.
flags_fin : (f : Flags) → (bit_and (flags_byte f) fin_flag == fin_flag) ≡ f.fin
flags_fin f = go f.fin f.abort refl refl
  where
    go :
        (a b : Bool)
        → f.fin ≡ a
        → f.abort ≡ b
        → (bit_and (flags_byte f) fin_flag == fin_flag) ≡ f.fin
    go true true p q = rw (p, q)
    go true false p q = rw (p, q)
    go false true p q = rw (p, q)
    go false false p q = rw (p, q)

flags_abort : (f : Flags) → (bit_and (flags_byte f) abort_flag == abort_flag) ≡ f.abort
flags_abort f = go f.fin f.abort refl refl
  where
    go :
        (a b : Bool)
        → f.fin ≡ a
        → f.abort ≡ b
        → (bit_and (flags_byte f) abort_flag == abort_flag) ≡ f.abort
    go true true p q = rw (p, q)
    go true false p q = rw (p, q)
    go false true p q = rw (p, q)
    go false false p q = rw (p, q)

flags_byte-IsByte : (f : Flags) → flags_byte f < 256
flags_byte-IsByte f = go f.fin f.abort refl refl
  where
    go : (a b : Bool) → f.fin ≡ a → f.abort ≡ b → flags_byte f < 256
    go true true p q = rw (p, q) (omega arith)
    go true false p q = rw (p, q) (omega arith)
    go false true p q = rw (p, q) (omega arith)
    go false false p q = rw (p, q) (omega arith)

-- Metadata with identifiers of 63 bits is decoded to itself, flags and identifiers.
pub metadata-Carries :
    (m : MetaData) → IsWireMetaData m → Carries (encode_metadata m) decode_metadata m
unfolding encode_metadata decode_metadata
metadata-Carries m h = record {
  bytes = head ++ (s.bytes ++ f.bytes);
  written = rw (s.written, f.written);
  are_bytes =
      All-append IsByte head (s.bytes ++ f.bytes)
        (omega arith, (omega arith, (omega arith, (flags_byte-IsByte m.flags, tt))))
        (All-append IsByte s.bytes f.bytes s.are_bytes f.are_bytes);
  nonempty = omega arith;
  read = λ buf offset rest a.
      let ids = At-append buf offset head ((s.bytes ++ f.bytes) ++ rest) a in
      rw
        (
          ge→ltb (length buf) (offset + 4) (omega (arith, a.total)),
          slice-At buf offset head ((s.bytes ++ f.bytes) ++ rest) a,
          s.read buf (offset + 4) (f.bytes ++ rest)
              (At-first buf (offset + 4) s.bytes f.bytes rest ids),
          f.read buf (offset + 4 + length s.bytes) rest
              (At-second buf (offset + 4) s.bytes f.bytes rest ids),
          flags_fin m.flags,
          flags_abort m.flags,
        )
        (same_result refl (omega (arith, length-append s.bytes f.bytes)));
}
  where
    head : Bytes
    head = 0 ∷ 0 ∷ 0 ∷ flags_byte m.flags ∷ []

    s : Carries (encode_int m.stream_id) decode_int64 m.stream_id
    s = encode_int-Carries m.stream_id h.0 h.1

    f : Carries (encode_int m.frame_id) decode_int64 m.frame_id
    f = encode_int-Carries m.frame_id h.2 h.3
