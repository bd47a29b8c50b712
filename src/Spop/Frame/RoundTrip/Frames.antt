-- ===== src/Spop/Frame/RoundTrip/Frames.antt =====
-- `Frame.encode` and `Frame.decode` of spoe_forge/spop/frame.py, one after the other.
use spoe_forge.Prelude.{
  ℕ, suc, ◌+◌, ◌≤◌, ◌<◌, ◌^◌, ◌≡◌, refl, ap, ◌∙◌, subst, arith, true, false, ◌∷◌, ◌++◌,
  append_assoc, length, length-append, take, drop, take-append, drop-append, All, All-append,
  ge→ltb, lt→ltb, ==_iff,
}
use spoe_forge.Prelude.Int.{ℤ, pos, ltb_ℤ}
use spoe_forge.Prelude.Buffer.{Bytes, IsByte, At-whole, At-cons, At-append}
use spoe_forge.Spop.Result.{ok, err, frame_too_big, encode_error}
use spoe_forge.Spop.Types.{FrameType, unset, frame_type_number, frame_type_of}
use spoe_forge.Spop.Wire.{IsWireMetaData}
use spoe_forge.Spop.Octets.{octets, length-octets, from_bytes-octets}
use spoe_forge.Spop.Encoders.DataTypes.{encode_frame_len}
use spoe_forge.Spop.Encoders.Payloads.{encode_metadata}
use spoe_forge.Spop.Decoders.DataTypes.{decode_frame_len}
use spoe_forge.Spop.Decoders.Payloads.{decode_metadata}
use spoe_forge.Spop.RoundTrip.Carries.{Carries}
use spoe_forge.Spop.RoundTrip.Payloads.{tiny_int}
use spoe_forge.Spop.RoundTrip.MetaData.{metadata-Carries}
use spoe_forge.Spop.Frame.{Frame, get_frame_class}
use spoe_forge.Spop.Frame.Codec.{encode_body, encode, Ending, readexactly, decode_body, decode}
use spoe_forge.Spop.Frame.RoundTrip.Payloads.{
  IsWirePayload, class_of, PayloadEncoded, payload-Encoded,
}

-- A frame that the wire can carry: its class is the one registered for its type, and its metadata and
-- payload are ones that the wire carries.
pub record IsWireFrame (f : Frame) : Type 0 where
  pub typed : get_frame_class f.frame_type ≡ ok (class_of f.payload)
  pub metadata : IsWireMetaData f.metadata
  pub payload : IsWirePayload f.payload

frame_type_lem : (t : FrameType) → frame_type_of (frame_type_number t) ≡ ok t
frame_type_lem unset = refl
frame_type_lem _ = refl

frame_type-le : (t : FrameType) → frame_type_number t ≤ 255
frame_type-le unset = omega arith
frame_type-le _ = omega arith

pub record BodyEncoded (f : Frame) : Type 0 where
  pub bytes : Bytes
  pub written : encode_body f ≡ ok bytes
  pub are_bytes : All IsByte bytes
  pub read : decode_body bytes (length bytes) ≡ ok f

pub body-Encoded : (f : Frame) → IsWireFrame f → BodyEncoded f
unfolding encode_body decode_body
body-Encoded f w = record {
  bytes = type ∷ (m.bytes ++ p.bytes);
  written = rw (tiny_int type (frame_type-le f.frame_type), m.written, p.written);
  are_bytes = (
    omega (arith, frame_type-le f.frame_type),
    All-append IsByte m.bytes p.bytes m.are_bytes p.are_bytes,
  );
  read =
      let whole = At-whole (type ∷ (m.bytes ++ p.bytes)) in
      let behind_type = At-cons (type ∷ (m.bytes ++ p.bytes)) 0 type (m.bytes ++ p.bytes) whole in
      rw (
        ge→ltb (suc (length (m.bytes ++ p.bytes))) 1 (omega arith),
        frame_type_lem f.frame_type,
        m.read (type ∷ (m.bytes ++ p.bytes)) 1 p.bytes behind_type,
        w.typed,
        p.read (type ∷ (m.bytes ++ p.bytes)) (1 + length m.bytes)
            (suc (length (m.bytes ++ p.bytes)))
            (At-append (type ∷ (m.bytes ++ p.bytes)) 1 m.bytes p.bytes behind_type)
            (omega (arith, length-append m.bytes p.bytes)),
        (==_iff (suc (length (m.bytes ++ p.bytes))) (suc (length (m.bytes ++ p.bytes)))).1 refl,
      );
}
  where
    type : ℕ
    type = frame_type_number f.frame_type

    m : Carries (encode_metadata f.metadata) decode_metadata f.metadata
    m = metadata-Carries f.metadata w.metadata

    p : PayloadEncoded f.payload
    p = payload-Encoded f.payload w.payload

frame_len_lem : (n : ℕ) → n < 2 ^ 32 → encode_frame_len n ≡ ok (octets 4 n)
unfolding encode_frame_len
frame_len_lem n h = rw (lt→ltb n (2 ^ 32) h)

frame_len-huge : (n : ℕ) → 2 ^ 32 ≤ n → encode_frame_len n ≡ err encode_error
unfolding encode_frame_len
frame_len-huge n h = rw (ge→ltb n (2 ^ 32) h)

decode_frame_len-octets : (n : ℕ) → n < 2 ^ 32 → decode_frame_len (octets 4 n) ≡ ok n
unfolding decode_frame_len
decode_frame_len-octets n h = rw (length-octets 4 n, from_bytes-octets 4 n (omega arith))

-- What a successful `encode` says: the length fits four bytes and the limit, and stands in front.
pub encode-ok :
    (f : Frame) (max : ℤ) (body bytes : Bytes)
    → encode_body f ≡ ok body
    → encode f max ≡ ok bytes
    → (length body < 2 ^ 32)
      × (ltb_ℤ max (pos (length body)) ≡ false)
      × (bytes ≡ octets 4 (length body) ++ body)
unfolding encode encode_frame_len
encode-ok f max body bytes e h = ground arith

-- A frame of any body: the four length bytes, the body, and what follows in the stream.
framed : Bytes → Bytes → Bytes
framed body more = octets 4 (length body) ++ (body ++ more)

take_len : (body more : Bytes) → take 4 (framed body more) ≡ octets 4 (length body)
unfolding framed
take_len body more =
    subst (λ n. take n (framed body more) ≡ octets 4 (length body)) (length-octets 4 (length body))
      (take-append (octets 4 (length body)) (body ++ more))

drop_len : (body more : Bytes) → drop 4 (framed body more) ≡ body ++ more
unfolding framed
drop_len body more =
    subst (λ n. drop n (framed body more) ≡ body ++ more) (length-octets 4 (length body))
      (drop-append (octets 4 (length body)) (body ++ more))

length-framed : (body more : Bytes) → length (framed body more) ≡ 4 + length (body ++ more)
unfolding framed
length-framed body more =
    omega
      (arith, length-append (octets 4 (length body)) (body ++ more), length-octets 4 (length body))

-- `decode` takes exactly the bytes of one frame from the stream, and decodes them.
pub decode-framed :
    (body more : Bytes) (ending : Ending) (max : ℤ)
    → length body < 2 ^ 32
    → ltb_ℤ max (pos (length body)) ≡ false
    → decode (record { buffer = octets 4 (length body) ++ (body ++ more); ending = ending }) max
      ≡ (decode_body body (length body), record { buffer = more; ending = ending })
unfolding decode readexactly framed
decode-framed body more ending max h fits = rw (
  ge→ltb (length (framed body more)) 4 (omega (arith, length-framed body more)),
  take_len body more,
  drop_len body more,
  decode_frame_len-octets (length body) h,
  fits,
  ge→ltb (length (body ++ more)) (length body) (omega (arith, length-append body more)),
  take-append body more,
  drop-append body more,
)

-- A frame that the wire can carry and that `encode` wrote is read back by `decode` under the same
-- limit, from a stream that goes on in any way, and exactly its bytes are taken from the stream.
pub decode-encode :
    (f : Frame) (max : ℤ) (bytes more : Bytes) (ending : Ending)
    → IsWireFrame f
    → encode f max ≡ ok bytes
    → decode (record { buffer = bytes ++ more; ending = ending }) max
      ≡ (ok f, record { buffer = more; ending = ending })
decode-encode f max bytes more ending w e =
    let b = body-Encoded f w in
    let (small, fits, shape) = encode-ok f max b.bytes bytes b.written e in
    ap (λ s. decode (record { buffer = s ++ more; ending = ending }) max) shape
    ∙ ap (λ s. decode (record { buffer = s; ending = ending }) max)
        (append_assoc (octets 4 (length b.bytes)) b.bytes more)
    ∙ decode-framed b.bytes more ending max small fits
    ∙ ap (λ r. (r, record { buffer = more; ending = ending })) b.read

-- Under a limit below 4 GiB a frame that the wire can carry encodes, if its body is no longer than the
-- limit, to the body behind its length, which is not counted; it is refused as too big, if the body is
-- longer than the limit and below 4 GiB, and raises SpopEncodeError, if the body is of 4 GiB or more.
pub encode-total :
    (f : Frame) (max : ℕ)
    → IsWireFrame f
    → max < 2 ^ 32
    → (body : Bytes) × (encode_body f ≡ ok body)
      × (length body ≤ max → encode f (pos max) ≡ ok (octets 4 (length body) ++ body))
      × (max < length body → length body < 2 ^ 32 → encode f (pos max) ≡ err frame_too_big)
      × (2 ^ 32 ≤ length body → encode f (pos max) ≡ err encode_error)
unfolding encode
encode-total f max w h =
    let b = body-Encoded f w in
    (
      b.bytes,
      b.written,
      λ fits.
          rw (
            b.written,
            frame_len_lem (length b.bytes) (omega arith),
            limit_ok (length b.bytes) fits,
          ),
      λ big small.
          rw (b.written, frame_len_lem (length b.bytes) small, limit_exceeded (length b.bytes) big),
      λ huge. rw (b.written, frame_len-huge (length b.bytes) huge),
    )
  where
    limit_ok : (n : ℕ) → n ≤ max → ltb_ℤ (pos max) (pos n) ≡ false
    limit_ok n p = ground arith

    limit_exceeded : (n : ℕ) → max < n → ltb_ℤ (pos max) (pos n) ≡ true
    limit_exceeded n p = ground arith

-- A body within the limit is framed.
pub encode-fits :
    (f : Frame) (max : ℕ) (body : Bytes)
    → encode_body f ≡ ok body
    → length body ≤ max
    → max < 2 ^ 32
    → encode f (pos max) ≡ ok (octets 4 (length body) ++ body)
unfolding encode
encode-fits f max body e fits h = rw (e, frame_len_lem (length body) (omega arith), within)
  where
    within : ltb_ℤ (pos max) (pos (length body)) ≡ false
    within = ground arith

-- A body beyond the limit is refused.
pub encode-exceeds :
    (f : Frame) (max : ℕ) (body : Bytes)
    → encode_body f ≡ ok body
    → max < length body
    → length body < 2 ^ 32
    → encode f (pos max) ≡ err frame_too_big
unfolding encode
encode-exceeds f max body e big h = rw (e, frame_len_lem (length body) h, beyond)
  where
    beyond : ltb_ℤ (pos max) (pos (length body)) ≡ true
    beyond = ground arith
