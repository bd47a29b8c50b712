-- ===== src/Server/Handler/Disconnects.antt =====
-- The size of the disconnect frames that `send_disconnect_on_error` of spoe_forge/server/handler.py
-- sends.
use spoe_forge.Prelude.{
  [], refl, ap, sym, subst, ◌⊎◌, inl, inr, Bool, true, Bool-cases, if◌then◌else◌, ℕ, suc, ◌+◌, ◌^◌,
  zero, ◌≤◌, ◌<◌, ◌≡◌, arith, append-nil, false, ◌∷◌, ◌++◌, length, length-append, length-take,
  take, All-take,
}
use spoe_forge.Spop.Result.{Result, err, connection_error, ok, frame_too_big}
use spoe_forge.Server.Connection.{Connection, Lasts, is_closing}
use spoe_forge.Prelude.Int.{pos}
use spoe_forge.Prelude.Text.{Text, codes}
use spoe_forge.Prelude.Buffer.{Bytes, IsByte}
use spoe_forge.Spop.Types.{Value, IsLatin1, agent_disconnect}
use spoe_forge.Spop.Octets.{octets, length-octets}
use spoe_forge.Spop.Varint.{compose_nat}
use spoe_forge.Spop.Varint.Laws.{length-compose_nat}
use spoe_forge.Spop.Encoders.DataTypes.{auto_encode_dt_var}
use spoe_forge.Spop.Encoders.Payloads.{compose_kv_pair, encode_kv_list}
use spoe_forge.Spop.RoundTrip.Payloads.{tiny_int}
use spoe_forge.Spop.Frame.{Payload, Frame, encode_payload}
use spoe_forge.Spop.Frame.Construct.{construct, final_metadata}
use spoe_forge.Spop.Frame.Codec.{encode, encode_body}
use spoe_forge.Spop.Frame.RoundTrip.Frames.{encode-fits, encode-exceeds}
use spoe_forge.Server.Handler.Sizes.{string_small, code_small, int64_small, string_long, no_ids}
use spoe_forge.Server.Handler.{
  DisconnectCode, disconnect_number, send_frame, send_disconnect_on_error,
}

-- The disconnect frame of a code and a message.
abbrev pub disconnect_frame : DisconnectCode → Text → Frame
disconnect_frame code s = record {
  frame_type = agent_disconnect;
  metadata = final_metadata (pos 0) (pos 0);
  payload =
      Payload.disconnect
        (record { status_code = Value.int (pos (disconnect_number code)); message = Value.str s });
}

-- What a disconnect frame with this message holds behind its length.
disconnect_bytes : DisconnectCode → Text → Bytes
disconnect_bytes code s =
    (102 ∷ 0 ∷ 0 ∷ 0 ∷ 1 ∷ 0 ∷ 0 ∷ 11 ∷ codes "status-code")
    ++ ((4 ∷ disconnect_number code ∷ 7 ∷ codes "message") ++ (8 ∷ (compose_nat (length s) ++ s)))

disconnect_body :
    (code : DisconnectCode) (s : Text)
    → IsLatin1 s
    → encode_body (disconnect_frame code s) ≡ ok (disconnect_bytes code s)
unfolding encode_body encode_payload encode_kv_list compose_kv_pair auto_encode_dt_var
    disconnect_bytes
disconnect_body code s h = rw (
  tiny_int 102 (omega arith),
  no_ids,
  string_small (codes "status-code") (omega arith) (omega arith),
  int64_small (disconnect_number code) (code_small code),
  string_small (codes "message") (omega arith) (omega arith),
  string_long s h,
  append-nil (compose_nat (length s) ++ s),
)

length-disconnect_bytes :
    (code : DisconnectCode) (s : Text)
    → length (disconnect_bytes code s) ≡ 30 + length (compose_nat (length s)) + length s
unfolding disconnect_bytes
length-disconnect_bytes code s = omega (arith, length-append (compose_nat (length s)) s)

at_least_two : (n v : ℕ) → (n ≤ 1 → v < 240) → 240 ≤ v → 2 ≤ n
at_least_two zero v h k = omega (arith, h (omega arith))
at_least_two (suc zero) v h k = omega (arith, h (omega arith))
at_least_two (suc (suc n)) v h k = omega arith

-- The count of a truncated message takes at most two bytes, and two where nothing is missing.
count_size :
    (s : Text)
    → (length (compose_nat (length (take 256 s))) ≤ 2)
      × (256 ≤ length s → 2 ≤ length (compose_nat (length (take 256 s))))
count_size s = (upper, lower)
  where
    t : Text
    t = take 256 s

    upper : length (compose_nat (length t)) ≤ 2
    upper =
        (length-compose_nat.0 1 (length t)).1
          (rw (length-compose_nat.2) (omega (arith, length-take 256 s)))

    lower : 256 ≤ length s → 2 ≤ length (compose_nat (length t))
    lower h =
        at_least_two (length (compose_nat (length t))) (length t)
          (λ p. rw length-compose_nat.1 at ((length-compose_nat.0 0 (length t)).0 p))
          (omega (arith, length-take 256 s))

-- The connection after these bytes were written.
abbrev pub wrote : Bytes → Connection → Connection
wrote bytes c = record c { writer = record c.writer { sent = c.writer.sent ++ bytes } }

-- With 288 bytes or more, below 4 GiB, negotiated, any latin-1 message and any code give a disconnect
-- frame that is sent: on a connection that is open and lasts, nothing is raised, and exactly the disconnect
-- frame with this code and the first 256 characters of the message is written, encoded under the size, in
-- at most that many bytes behind its length.
pub disconnect_fits :
    (code : DisconnectCode) (message : Text) (max : ℕ) (c : Connection)
    → c.config.max_frame_size ≡ Value.int (pos max)
    → 288 ≤ max
    → max < 2 ^ 32
    → c.writer.closing ≡ false
    → Lasts c.writer
    → IsLatin1 message
    → (bytes : Bytes) × (send_disconnect_on_error code message c ≡ (ok true, wrote bytes c))
      × (length bytes ≤ max + 4)
      × (encode (disconnect_frame code (take 256 message)) (pos max) ≡ ok bytes)
unfolding send_disconnect_on_error send_frame construct
disconnect_fits code message max c size low high opened whole h =
    let t = take 256 message in
    let body = disconnect_bytes code t in
    let small : length body ≤ max =
      omega
        (arith, length-disconnect_bytes code t, (count_size message).0, length-take 256 message) in
    let written =
      encode-fits (disconnect_frame code t) max body
        (disconnect_body code t (All-take IsByte 256 message h)) small high in
    (
      octets 4 (length body) ++ body,
      rw (
        opened,
        (whole c.writer.sent).0,
        size,
        written,
        (whole (c.writer.sent ++ (octets 4 (length body) ++ body))).1,
      ),
      omega (arith, length-append (octets 4 (length body)) body, length-octets 4 (length body)),
      written,
    )

-- What a disconnect that is sent on an error, from a connection in any state, ends with: it writes the
-- frame or nothing, and raises nothing but the `ConnectionError` of a connection that breaks.
abbrev pub Parts : Connection → Result Bool × Connection → Type 0
Parts c r =
    (out : Bytes) × (r.1 ≡ wrote out c)
    × (((sent : Bool) × (r.0 ≡ ok sent))
        ⊎ ((r.0 ≡ err connection_error) × (c.writer.broken (c.writer.sent ++ out) ≡ true)))

unsent-Parts : (c : Connection) → Parts c (ok false, c)
unsent-Parts c = (
  [],
  ap (λ s. record c { writer = record c.writer { sent = s } }) (sym (append-nil c.writer.sent)),
  inl (false, refl),
)

drained-Parts :
    (c : Connection) (out : Bytes) (b : Bool)
    → c.writer.broken (c.writer.sent ++ out) ≡ b
    → Parts c (
        if◌then◌else◌ {A = Result Bool × Connection} b
          (err connection_error, wrote out c)
          (ok true, wrote out c))
drained-Parts c out true e = (out, refl, inr (refl, e))
drained-Parts c out false e = (out, refl, inl (true, refl))

pub disconnect-Parts :
    (code : DisconnectCode) (message : Text) (max : ℕ) (c : Connection)
    → c.config.max_frame_size ≡ Value.int (pos max)
    → 288 ≤ max
    → max < 2 ^ 32
    → IsLatin1 message
    → Parts c (send_disconnect_on_error code message c)
unfolding send_disconnect_on_error send_frame construct
disconnect-Parts code message max c size low high h =
    let t = take 256 message in
    let body = disconnect_bytes code t in
    let out = octets 4 (length body) ++ body in
    let written =
      encode-fits (disconnect_frame code t) max body
        (disconnect_body code t (All-take IsByte 256 message h))
        (omega
          (arith, length-disconnect_bytes code t, (count_size message).0, length-take 256 message))
        high in
    elim (Bool-cases (is_closing c.writer)) [
      | inl down ↦ rw down (unsent-Parts c)
      | inr up ↦
          subst (Parts c) (sym (rw (up, size, written) refl))
            (drained-Parts c out (c.writer.broken (c.writer.sent ++ out)) refl)
    ]

-- With fewer than 288 bytes negotiated, a latin-1 message of 256 characters or more is not sent on
-- a connection that is not closing, whatever the code, though it is cut to 256 characters: the frame is too big, and nothing is written.
pub disconnect_too_big :
    (code : DisconnectCode) (message : Text) (max : ℕ) (c : Connection)
    → c.config.max_frame_size ≡ Value.int (pos max)
    → max < 288
    → is_closing c.writer ≡ false
    → IsLatin1 message
    → 256 ≤ length message
    → send_disconnect_on_error code message c ≡ (err frame_too_big, c)
unfolding send_disconnect_on_error send_frame construct
disconnect_too_big code message max c size high opened h long =
    let t = take 256 message in
    let body = disconnect_bytes code t in
    let length_eq = length-disconnect_bytes code t in
    let few = (count_size message).0 in
    let two = (count_size message).1 long in
    let cut = length-take 256 message in
    rw (
      opened,
      size,
      encode-exceeds (disconnect_frame code t) max body
          (disconnect_body code t (All-take IsByte 256 message h)) (omega arith) (omega arith),
    )
