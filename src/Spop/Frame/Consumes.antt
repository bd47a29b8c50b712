-- ===== src/Spop/Frame/Consumes.antt =====
-- What `Frame.decode` of spoe_forge/spop/frame.py takes from a stream.
use spoe_forge.Prelude.{
  ℕ, ◌+◌, ◌≤◌, ◌≡◌, refl, ap, arith, inl, inr, length, length-drop, ltb, Bool-cases,
}
use spoe_forge.Prelude.Int.{ℤ, pos, ltb_ℤ}
use spoe_forge.Prelude.Buffer.{Bytes}
use spoe_forge.Spop.Result.{Result, ok, err}
use spoe_forge.Spop.Frame.{Frame}
use spoe_forge.Spop.Frame.Codec.{
  Reader, Ending, eof, reset, readexactly, decode, short_read, read_length, sized, read_body,
}
use spoe_forge.Spop.Decoders.DataTypes.{decode_frame_len}

-- Bytes that were read are gone; a short read leaves none.
readexactly-consumes :
    (n : ℕ) (r : Reader)
    → (length (readexactly n r).1.buffer ≤ length r.buffer)
      × ((b : Bytes)
          → (readexactly n r).0 ≡ ok b
          → length (readexactly n r).1.buffer + n ≤ length r.buffer)
unfolding readexactly
readexactly-consumes n r = elim (Bool-cases (ltb (length r.buffer) n)) [
  | inl short ↦ rw short (cut r.ending)
  | inr enough ↦
      rw enough
        (omega (arith, length-drop n r.buffer), λ b h. ground (arith, length-drop n r.buffer))
]
  where
    cut :
        (e : Ending)
        → (length (short_read r e).1.buffer ≤ length r.buffer)
          × ((b : Bytes)
              → (short_read r e).0 ≡ ok b
              → length (short_read r e).1.buffer + n ≤ length r.buffer)
    cut eof = (omega arith, λ b h. cc)
    cut reset = (omega arith, λ b h. cc)

read_body-le :
    (n : ℕ) (p : Result Bytes × Reader) → length (read_body n p).1.buffer ≤ length p.1.buffer
read_body-le n (ok b, r) = omega arith
read_body-le n (err e, r) = omega arith

sized-le : (max : ℤ) (r : Reader) (n : Result ℕ) → length (sized max r n).1.buffer ≤ length r.buffer
sized-le max r (err e) = omega arith
sized-le max r (ok n) = elim (Bool-cases (ltb_ℤ max (pos n))) [
  | inl over ↦ rw over (omega arith)
  | inr fits ↦
      rw fits (omega (arith, read_body-le n (readexactly n r), (readexactly-consumes n r).0))
]

-- A frame that was decoded has taken four bytes of the stream at least.
pub decode-consumes :
    (r r' : Reader) (max : ℤ) (f : Frame)
    → decode r max ≡ (ok f, r')
    → length r'.buffer + 4 ≤ length r.buffer
unfolding decode
decode-consumes r r' max f e = by_length (readexactly 4 r) refl
  where
    by_length :
        (p : Result Bytes × Reader) → readexactly 4 r ≡ p → length r'.buffer + 4 ≤ length r.buffer
    by_length (err x, s) p = let bad : read_length max (err x, s) ≡ (ok f, r') = rw p at e in cc
    by_length (ok b, s) p =
        let last : read_length max (ok b, s) ≡ (ok f, r') = rw p at e in
        omega (
          arith,
          sized-le max s (decode_frame_len b),
          ap (λ q. length q.1.buffer) last,
          ap (λ q. length q.1.buffer) p,
          (readexactly-consumes 4 r).1 b (ap (λ q. q.0) p),
        )
