-- ===== src/Server/Core/Framed.antt =====
-- What `ForgeHandler` of spoe_forge/server/handler.py has written when a connection is over.
use spoe_forge.Server.Connection.{is_closing, Connection, write_and_drain, continue}
use spoe_forge.Prelude.{
  ◌^◌, ◌<◌, ◌≡◌, refl, sym, ap, subst, ◌∙◌, arith, Bool, true, false, List, [], ◌++◌, append_assoc,
  append-nil, length, if◌then◌else◌,
}
use spoe_forge.Prelude.Int.{ℤ, pos, ◌≤ℤ◌}
use spoe_forge.Prelude.Text.{Text}
use spoe_forge.Prelude.Buffer.{Bytes}
use spoe_forge.Spop.Result.{◌>>=◌, Result, ok, err, >>=-eq-ok, connection_error}
use spoe_forge.Spop.Types.{Messages, Action}
use spoe_forge.Spop.Octets.{octets}
use spoe_forge.Spop.Frame.{HaproxyHello, Frame}
use spoe_forge.Spop.Frame.Codec.{Reader, encode, encode_body}
use spoe_forge.Spop.Frame.RoundTrip.Frames.{encode-ok}
use spoe_forge.Server.Configuration.{ServerConfiguration, number_of}
use spoe_forge.Server.Handler.{send_frame, encode_within}
use spoe_forge.Server.Handler.Disconnects.{wrote}
use spoe_forge.Server.Configuration.Limits.{negotiate-smaller}
use spoe_forge.Server.Keeps.{Tracks}
use spoe_forge.Server.Keeps.Lives
use spoe_forge.Server.Keeps.Lives.{Negotiates}
use spoe_forge.Server.Core.{Failure, settle, close_connection, Ends}

-- A sequence of whole frames: each a length of four bytes and a body of this length, which is within the
-- limit.
pub data IsFramed (limit : ℤ) : Bytes → Type 0 where
  nothing : IsFramed limit []
  one_more :
      (b body : Bytes)
      → IsFramed limit b
      → pos (length body) ≤ℤ limit
      → length body < 2 ^ 32
      → IsFramed limit (b ++ (octets 4 (length body) ++ body))

append-IsFramed :
    (limit : ℤ) (a b : Bytes) → IsFramed limit a → IsFramed limit b → IsFramed limit (a ++ b)
append-IsFramed limit a _ h nothing = subst (IsFramed limit) (sym (append-nil a)) h
append-IsFramed limit a _ h (one_more b body k few small) =
    subst (IsFramed limit) (append_assoc a b (octets 4 (length body) ++ body))
      (one_more (a ++ b) body (append-IsFramed limit a b h k) few small)

-- What was encoded is one frame.
encode-IsFramed :
    (limit n : ℤ) (f : Frame) (bytes : Bytes)
    → n ≤ℤ limit
    → encode f n ≡ ok bytes
    → IsFramed limit bytes
unfolding encode
encode-IsFramed limit n f bytes low e =
    let (body, p, q) = >>=-eq-ok (encode_body f) _ e in
    let (small, fits, shape) = encode-ok f n body bytes p e in
    subst (IsFramed limit) (sym shape) (one_more [] body nothing (ground arith) small)

-- A frame size that is not above the limit.
abbrev IsLimited : ℤ → ServerConfiguration → Type 0
IsLimited limit config = (n : ℤ) × (number_of config.max_frame_size ≡ ok n) × (n ≤ℤ limit)

-- From a connection on which sizes are within the limit to one on which they still are, and on which
-- whole frames were written.
abbrev WritesFrames : ℤ → Connection → Connection → Type 0
WritesFrames limit c d =
    IsLimited limit c.config
    → IsLimited limit d.config
      × (out : Bytes) × (d.writer.sent ≡ c.writer.sent ++ out)
      × IsFramed limit out

same-WritesFrames :
    (limit : ℤ) (c d : Connection)
    → (IsLimited limit c.config → IsLimited limit d.config)
    → d.writer.sent ≡ c.writer.sent
    → WritesFrames limit c d
same-WritesFrames limit c d k e l = (k l, [], e ∙ sym (append-nil c.writer.sent), nothing)

onward-WritesFrames :
    (limit : ℤ) (c d e : Connection)
    → WritesFrames limit c d
    → WritesFrames limit d e
    → WritesFrames limit c e
onward-WritesFrames limit c d e h k l =
    let (m, out, p, first) = h l in
    let (r, out', q, second) = k m in
    (
      r,
      out ++ out',
      q ∙ ap (λ b. b ++ out') p ∙ append_assoc c.writer.sent out out',
      append-IsFramed limit out out' first second,
    )

written-WritesFrames :
    (limit : ℤ) (c : Connection) (bytes : Bytes) (broken : Bool)
    → IsFramed limit bytes
    → WritesFrames limit c
        (if◌then◌else◌ {A = Result Bool × Connection} broken
          (err connection_error, wrote bytes c)
          (ok true, wrote bytes c)).1
written-WritesFrames limit c bytes true h l = (l, bytes, refl, h)
written-WritesFrames limit c bytes false h l = (l, bytes, refl, h)

-- Sending writes one frame within the size of the connection, or nothing.
send_frame-WritesFrames :
    (limit : ℤ) (f : Frame) (c : Connection) → WritesFrames limit c (send_frame f c).1
unfolding send_frame
send_frame-WritesFrames limit f c (n, sized, low) = by_closing (is_closing c.writer) (n, sized, low)
  where
    by_bytes :
        (r : Result Bytes)
        → encode_within c.config.max_frame_size f ≡ r
        → WritesFrames limit c (continue write_and_drain (r, c)).1
    by_bytes (ok bytes) e =
        written-WritesFrames limit c bytes (c.writer.broken (c.writer.sent ++ bytes)) (
          encode-IsFramed limit n f bytes low
            (ap (λ (q : Result ℤ). q >>= λ k. encode f k) (sym sized) ∙ e))
    by_bytes (err x) e = same-WritesFrames limit c c (λ l. l) refl

    by_closing :
        (b : Bool)
        → WritesFrames limit c
            (if◌then◌else◌ {A = Result Bool × Connection} b
              (ok false, c)
              (continue write_and_drain (encode_within c.config.max_frame_size f, c))).1
    by_closing true = same-WritesFrames limit c c (λ l. l) refl
    by_closing false = by_bytes (encode_within c.config.max_frame_size f) refl

abbrev frames : ℤ → Tracks
frames limit = record {
  To = WritesFrames limit;
  still = λ c. same-WritesFrames limit c c (λ l. l) refl;
  onward = onward-WritesFrames limit;
  sending = send_frame-WritesFrames limit;
}

configuring :
    (limit : ℤ) (c : Connection) (hello : HaproxyHello) (config : ServerConfiguration)
    → Negotiates c hello config
    → WritesFrames limit c (record c { config = config })
configuring limit c hello config e =
    same-WritesFrames limit c (record c { config = config })
      (λ (n, sized, low).
        let (z, y, new, old, smaller) =
          negotiate-smaller c.config config hello.supported_versions hello.capabilities
            hello.max_frame_size e in
        let same : y ≡ n = cc in
        let below : z ≤ℤ n = subst (λ k. z ≤ℤ k) same smaller in (z, new, omega arith))
      refl

-- Whatever a peer sends, whatever the handlers return, in any schedule, and whether the
-- connection breaks, drops or fails, from a connection whose frame size is a number: all that was
-- written when it is over is a sequence of whole frames, each of which has the length that its
-- first four bytes say, and is within that size.
pub writes_frames :
    (notify_handler : Messages → Result (List Action)) (c d d' : Connection)
    (fs raised : List Failure) (limit : ℤ) (too_big_text protocol_text : Text)
    → number_of c.config.max_frame_size ≡ ok limit
    → Ends notify_handler c fs d
    → settle too_big_text protocol_text fs d ≡ (raised, d')
    → (out : Bytes) × (d'.writer.sent ≡ c.writer.sent ++ out) × IsFramed limit out
unfolding close_connection
writes_frames notify_handler c d d' fs raised limit t u sized ended settled =
    let reading : (r : Reader) (e : Connection) → WritesFrames limit e (record e { reader = r }) =
      λ r e. same-WritesFrames limit e (record e { reader = r }) (λ l. l) refl in
    let closing_it : (e : Connection) → WritesFrames limit e (close_connection e) =
      λ e. same-WritesFrames limit e (close_connection e) (λ l. l) refl in
    let lived =
      Lives.ended-To (frames limit) reading (configuring limit) notify_handler c d fs ended in
    let over =
      subst (λ p. WritesFrames limit d p.1) settled
        (Lives.settle-To (frames limit) reading closing_it t u fs d) in
    let (l, out, sent, whole) =
      onward-WritesFrames limit c d d' lived over (limit, sized, omega arith) in
    (out, sent, whole)
