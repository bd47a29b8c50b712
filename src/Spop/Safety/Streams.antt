-- ===== src/Spop/Safety/Streams.antt =====
-- Reading a frame from a stream that delivers any bytes: how it can fail.
use spoe_forge.Prelude.{
  ℕ, ◌≡◌, refl, inl, inr, arith, ltb, length, length-take, take, All, All-take, All-drop, drop,
  Bool-cases,
}
use spoe_forge.Prelude.Int.{ℤ, pos, ltb_ℤ}
use spoe_forge.Prelude.Buffer.{Bytes, IsByte}
use spoe_forge.Spop.Result.{
  Exc, Result, ok, err, decode_error, eof_error, frame_too_big, connection_error, attribute_error,
  type_error,
}
use spoe_forge.Spop.Octets.{from_bytes}
use spoe_forge.Spop.Frame.{Frame}
use spoe_forge.Spop.Frame.Codec.{
  Ending, eof, reset, Reader, short_read, readexactly, decode_body, read_body, sized, read_length,
  decode,
}
use spoe_forge.Spop.Decoders.DataTypes.{decode_frame_len}
use spoe_forge.Spop.Safety.Frames.{decode_body_errors}

-- What reading a frame raises.
abbrev pub IsReadFailure : Exc → Type 0
IsReadFailure decode_error = Unit {0}
IsReadFailure eof_error = Unit {0}
IsReadFailure frame_too_big = Unit {0}
IsReadFailure connection_error = Unit {0}
IsReadFailure attribute_error = Unit {0}
IsReadFailure type_error = Unit {0}
IsReadFailure _ = ⊥

-- Reading a frame gives one, or raises one of these.
abbrev pub Reads : Result Frame → Type 0
Reads (ok f) = Unit {0}
Reads (err e) = IsReadFailure e

body-Reads :
    (buf : Bytes) (n : ℕ) (r : Result Frame) → All IsByte buf → decode_body buf n ≡ r → Reads r
body-Reads buf n (ok f) bytes h = tt
body-Reads buf n (err e) bytes h = elim (decode_body_errors buf n e bytes h) [
  | inl late ↦ rw late tt
  | inr (inl late) ↦ rw late tt
  | inr (inr late) ↦ rw late tt
]

read_body-Reads :
    (n : ℕ) (r : Reader) → All IsByte r.buffer → Reads (read_body n (readexactly n r)).0
unfolding readexactly
read_body-Reads n r bytes = elim (Bool-cases (ltb (length r.buffer) n)) [
  | inl short ↦ rw short (cut r.ending)
  | inr enough ↦ rw enough (
      body-Reads (take n r.buffer) n (decode_body (take n r.buffer) n)
        (All-take IsByte n r.buffer bytes) refl)
]
  where
    cut : (e : Ending) → Reads (read_body n (short_read r e)).0
    cut eof = tt
    cut reset = tt

sized-Reads :
    (max : ℤ) (r : Reader) (n : Result ℕ)
    → All IsByte r.buffer
    → ((m : ℕ) × (n ≡ ok m))
    → Reads (sized max r n).0
sized-Reads max r n bytes (m, e) = elim (Bool-cases (ltb_ℤ max (pos m))) [
  | inl over ↦ rw (e, over) tt
  | inr fits ↦ rw (e, fits) (read_body-Reads m r bytes)
]

four : (b : Bytes) → length b ≡ 4 → (m : ℕ) × (decode_frame_len b ≡ ok m)
unfolding decode_frame_len
four b h = (from_bytes b, rw h refl)

-- Reading a frame from a stream, whatever bytes it delivers and however it ends, gives a frame, or
-- raises one of the package's errors, a ConnectionError, an AttributeError or a TypeError.
pub decode-Reads : (r : Reader) (max : ℤ) → All IsByte r.buffer → Reads (decode r max).0
unfolding decode readexactly
decode-Reads r max bytes = elim (Bool-cases (ltb (length r.buffer) 4)) [
  | inl short ↦ rw short (cut r.ending r.ending)
  | inr enough ↦ rw enough (
      sized-Reads max (record r { buffer = drop 4 r.buffer }) (decode_frame_len (take 4 r.buffer))
        (All-drop IsByte 4 r.buffer bytes)
        (four (take 4 r.buffer) (ground (arith, length-take 4 r.buffer))))
]
  where
    cut :
        (e ending : Ending)
        → Reads (read_length max (short_read (record r { ending = ending }) e)).0
    cut eof eof = tt
    cut eof reset = tt
    cut reset ending = tt
