-- ===== src/Spop/Safety/Decoded.antt =====
-- What kind of frame `Frame.decode` of spoe_forge/spop/frame.py makes of any bytes.
use spoe_forge.Prelude.{
  ℕ, ◌+◌, ◌≡◌, refl, sym, ap, subst, some, ◌∙◌, inl, inr, Bool, Bool-cases, true, false, length,
  ltb, ◌==◌, if◌then◌else◌,
}
use spoe_forge.Prelude.Int.{ℤ, pos, ltb_ℤ, ◌≤ℤ◌}
use spoe_forge.Prelude.Buffer.{Bytes, slice}
use spoe_forge.Spop.Result.{Result, ok, err, decode_error, >>=-eq-ok, rethrow, rethrow-eq-ok}
use spoe_forge.Spop.Types.{frame_type_of, MetaData, int64_min, int64_max}
use spoe_forge.Spop.Octets.{c_int64, c_int64_range}
use spoe_forge.Spop.Varint.{byte_at, parse_varint}
use spoe_forge.Spop.Decoders.DataTypes.{is_value_error, decode_int64, decode_frame_len}
use spoe_forge.Spop.Decoders.Payloads.{
  is_decode_error, last_byte, decode_metadata, decode_kv_list, decode_list_of_messages,
  decode_list_of_actions,
}
use spoe_forge.Spop.Frame.{
  FrameClass, Payload, Frame, get_frame_class, decode_payload, haproxy_hello_of, agent_hello_of,
  disconnect_of,
}
use spoe_forge.Spop.Frame.Construct.{is_key_error}
use spoe_forge.Spop.Frame.Codec.{
  Reader, readexactly, decode_body, read_body, sized, read_length, decode,
}
use spoe_forge.Spop.Frame.RoundTrip.Payloads.{class_of}

-- A signed integer of 64 bits.
abbrev pub IsInt64 : ℤ → Type 0
IsInt64 v = (int64_min ≤ℤ v) × (v ≤ℤ int64_max)

-- Identifiers as they are decoded.
abbrev pub HasInt64Ids : MetaData → Type 0
HasInt64Ids m = IsInt64 m.stream_id × IsInt64 m.frame_id

-- A frame whose payload is of the class registered for its type, with such identifiers.
pub record IsTypedFrame (f : Frame) : Type 0 where
  pub typed : get_frame_class f.frame_type ≡ ok (class_of f.payload)
  pub ids : HasInt64Ids f.metadata

decode_int64-IsInt64 :
    (buf : Bytes) (offset o : ℕ) (v : ℤ) → decode_int64 buf offset ≡ ok (v, o) → IsInt64 v
unfolding decode_int64
decode_int64-IsInt64 buf offset o v e =
    let ((n, end), p, q) = >>=-eq-ok (parse_varint buf offset) (λ x. ok (c_int64 x.0, x.1)) e in
    let same : c_int64 n ≡ v = cc in rw⁻¹ same (c_int64_range n)

first_of :
    {A : Type 0} (a c : A) (b d : ℕ) → ◌≡◌ {A = Result (A × ℕ)} (ok (a, b)) (ok (c, d)) → a ≡ c
first_of a c b d p = cc

metadata-HasInt64Ids :
    (buf : Bytes) (offset o : ℕ) (m : MetaData)
    → decode_metadata buf offset ≡ ok (m, o)
    → HasInt64Ids m
unfolding decode_metadata
metadata-HasInt64Ids buf offset o m e = elim (Bool-cases (ltb (length buf) (offset + 4))) [
  | inl short ↦ let bad = rw short at e in cc
  | inr long ↦
      let (flag, p, e') = >>=-eq-ok (last_byte (slice buf offset (offset + 4))) _ (rw long at e) in
      let ((stream, a), q, e'') =
        >>=-eq-ok (rethrow is_decode_error decode_error (decode_int64 buf (offset + 4))) _ e' in
      let ((frame, b), r, same) =
        >>=-eq-ok (rethrow is_decode_error decode_error (decode_int64 buf a)) _ e'' in
      subst HasInt64Ids (first_of _ m b o same) (
        decode_int64-IsInt64 buf (offset + 4) a stream
            (rethrow-eq-ok is_decode_error decode_error (decode_int64 buf (offset + 4)) q),
        decode_int64-IsInt64 buf a b frame
            (rethrow-eq-ok is_decode_error decode_error (decode_int64 buf a) r),
      )
]

-- The payload is of the class that decodes it.
payload_class :
    (k : FrameClass) (buf : Bytes) (start end o : ℕ) (p : Payload)
    → decode_payload k buf start end ≡ ok (p, o)
    → class_of p ≡ k
unfolding decode_payload
payload_class FrameClass.haproxy_hello buf start end o p e =
    let ((d, a), q, e') = >>=-eq-ok (decode_kv_list buf start end) _ e in
    let (f, r, same) = >>=-eq-ok (haproxy_hello_of d) _ e' in
    let shape : Payload.haproxy_hello f ≡ p = cc in rw⁻¹ shape refl
payload_class FrameClass.agent_hello buf start end o p e =
    let ((d, a), q, e') = >>=-eq-ok (decode_kv_list buf start end) _ e in
    let (f, r, same) = >>=-eq-ok (agent_hello_of d) _ e' in
    let shape : Payload.agent_hello f ≡ p = cc in rw⁻¹ shape refl
payload_class FrameClass.disconnect buf start end o p e =
    let ((d, a), q, e') = >>=-eq-ok (decode_kv_list buf start end) _ e in
    let (f, r, same) = >>=-eq-ok (disconnect_of d) _ e' in
    let shape : Payload.disconnect f ≡ p = cc in rw⁻¹ shape refl
payload_class FrameClass.notify buf start end o p e =
    let ((ms, a), q, same) = >>=-eq-ok (decode_list_of_messages buf start end) _ e in
    let shape : Payload.notify ms ≡ p = cc in rw⁻¹ shape refl
payload_class FrameClass.ack buf start end o p e =
    let ((acts, a), q, same) = >>=-eq-ok (decode_list_of_actions buf start end) _ e in
    let shape : Payload.ack (some acts) ≡ p = cc in rw⁻¹ shape refl

if_ok : (b : Bool) (f g : Frame) → (if b then ok f else err decode_error) ≡ ok g → f ≡ g
if_ok true f g e = cc
if_ok false f g e = cc

body-IsTypedFrame : (buf : Bytes) (n : ℕ) (f : Frame) → decode_body buf n ≡ ok f → IsTypedFrame f
unfolding decode_body
body-IsTypedFrame buf n f e = elim (Bool-cases (ltb (length buf) 1)) [
  | inl short ↦ let bad = rw short at e in cc
  | inr long ↦
      let (byte, p, e1) = >>=-eq-ok (byte_at buf 0) _ (rw long at e) in
      let (t, q, e2) = >>=-eq-ok (rethrow is_value_error decode_error (frame_type_of byte)) _ e1 in
      let ((m, start), r, e3) = >>=-eq-ok (decode_metadata buf 1) _ e2 in
      let (k, s, e4) = >>=-eq-ok (get_frame_class t) _ e3 in
      let ((payload, o), u, e5) =
        >>=-eq-ok (rethrow is_key_error decode_error (decode_payload k buf start n)) _ e4 in
      let made : Frame = record { frame_type = t; metadata = m; payload = payload } in
      let same : made ≡ f = if_ok (o == n) made f e5 in
      let decoded = rethrow-eq-ok is_key_error decode_error (decode_payload k buf start n) u in
      let ids = metadata-HasInt64Ids buf 1 start m r in
      let class = payload_class k buf start n o payload decoded in
      subst IsTypedFrame same (record { typed = s ∙ ap ok (sym class); ids = ids })
]

-- A frame that was decoded, from whatever bytes, has a payload of the class that is registered for the
-- type that it has, and its two identifiers are signed integers of 64 bits.
pub decode-IsTypedFrame :
    (r r' : Reader) (max : ℤ) (f : Frame) → decode r max ≡ (ok f, r') → IsTypedFrame f
unfolding decode
decode-IsTypedFrame r r' max f e = by_length (readexactly 4 r) refl
  where
    by_body : (n : ℕ) (p : Result Bytes × Reader) → read_body n p ≡ (ok f, r') → IsTypedFrame f
    by_body n (ok b, s) h = body-IsTypedFrame b n f (cc)
    by_body n (err x, s) h = cc

    by_size : (s : Reader) (n : Result ℕ) → sized max s n ≡ (ok f, r') → IsTypedFrame f
    by_size s (err x) h = cc
    by_size s (ok n) h = elim (Bool-cases (ltb_ℤ max (pos n))) [
      | inl over ↦ let bad = rw over at h in cc
      | inr fits ↦ by_body n (readexactly n s) (rw fits at h)
    ]

    by_length : (p : Result Bytes × Reader) → readexactly 4 r ≡ p → IsTypedFrame f
    by_length (err x, s) p = let bad : read_length max (err x, s) ≡ (ok f, r') = rw p at e in cc
    by_length (ok b, s) p = by_size s (decode_frame_len b) (rw p at e)
