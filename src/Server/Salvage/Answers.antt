-- ===== src/Server/Salvage/Answers.antt =====
-- The answer to a NOTIFY whose handlers return, `_process_notify` of spoe_forge/server/handler.py.
use spoe_forge.Prelude.{
  sym, ℕ, ◌+◌, ◌-◌, ◌^◌, ◌≤◌, ◌<◌, ◌≡◌, ◌⊎◌, inl, inr, refl, ap, ◌∙◌, arith, true, false, List, [],
  ◌∷◌, ◌++◌, ltb, length, length-append, All, Bool-cases,
}
use spoe_forge.Server.Connection.{Lasts, Connection}
use mathlib.Core.List.{Sublist}
use mathlib.Core.List.Sublist
use spoe_forge.Server.Salvage.Ack.{ack_of, ack_frame-ack_of, salvaged_ack-Part}
use spoe_forge.Prelude.Int.{pos, negsuc}
use spoe_forge.Prelude.Buffer.{Bytes}
use spoe_forge.Spop.Result.{Exc, Result, ok, err, encode_error, frame_too_big, ◌>>=◌}
use spoe_forge.Spop.Types.{Value, MetaData, Action, Messages}
use spoe_forge.Spop.Octets.{octets, length-octets}
use spoe_forge.Spop.Varint.{compose_varint}
use spoe_forge.Spop.Encoders.DataTypes.{encode_frame_len, encode_int}
use spoe_forge.Spop.Encoders.Payloads.{compose_action, encode_action_list, encode_metadata}
use spoe_forge.Spop.RoundTrip.Payloads.{tiny_int}
use spoe_forge.Spop.Wire.{IsWireMetaData, ActsOnObject}
use spoe_forge.Spop.Frame.{Frame}
use spoe_forge.Spop.Frame.Construct.{construct}
use spoe_forge.Spop.Frame.Codec.{encode, encode_body}
use spoe_forge.Spop.Frame.RoundTrip.Frames.{encode-fits, encode-exceeds}
use spoe_forge.Server.Configuration.{number_of}
use spoe_forge.Server.Handler.{send_frame}
use spoe_forge.Server.Handler.Disconnects.{wrote}
use spoe_forge.Server.Salvage.{
  ack_frame, is_encode_failure, minus, salvage, salvaged_ack, process_notify,
}
use spoe_forge.Server.Salvage.Fits.{ack_body, one-action, salvaged_ack-fits}
use spoe_forge.Server.Salvage.Total.{Graceful, action-Graceful, metadata-short, salvaged_ack-total}

-- A list fails to encode with its first action.
pub bad_head :
    (a : Action) (actions : List Action)
    → encode_action_list (a ∷ []) ≡ err encode_error
    → encode_action_list (a ∷ actions) ≡ err encode_error
unfolding encode_action_list
bad_head a actions p = go (compose_action a) refl
  where
    go :
        (r : Result Bytes)
        → compose_action a ≡ r
        → encode_action_list (a ∷ actions) ≡ err encode_error
    go (ok b) e = cc
    go (err x) e = cc

-- A list fails to encode with its other actions.
pub bad_tail :
    (a : Action) (actions : List Action) (b : Bytes)
    → encode_action_list (a ∷ []) ≡ ok b
    → encode_action_list actions ≡ err encode_error
    → encode_action_list (a ∷ actions) ≡ err encode_error
unfolding encode_action_list
bad_tail a actions b p bad = go (compose_action a) refl
  where
    go :
        (r : Result Bytes)
        → compose_action a ≡ r
        → encode_action_list (a ∷ actions) ≡ err encode_error
    go (ok c) e = rw (e, bad)
    go (err x) e = cc

actions-Graceful :
    (actions : List Action) → All ActsOnObject actions → Graceful (encode_action_list actions)
unfolding encode_action_list
actions-Graceful [] h = inl ([], refl)
actions-Graceful (a ∷ actions) h = elim (action-Graceful a h.0) [
  | inl (b, e) ↦ elim (actions-Graceful actions h.1) [
    | inl (bs, r) ↦ inl (b ++ bs, one-action a actions b bs e r)
    | inr bad ↦ inr (bad_tail a actions b e bad)
  ]
  | inr bad ↦ inr (bad_head a actions bad)
]

-- What encoding a frame under a limit ends with.
abbrev Encodes : ℕ → Frame → Type 0
Encodes max f =
    ((bytes : Bytes) × (encode f (pos max) ≡ ok bytes) × (length bytes ≤ max + 4))
    ⊎ ((e : Exc) × (encode f (pos max) ≡ err e) × (is_encode_failure e ≡ true))

body-Encodes :
    (max : ℕ) (f : Frame) (body : Bytes) → max < 2 ^ 32 → encode_body f ≡ ok body → Encodes max f
unfolding encode encode_frame_len
body-Encodes max f body high e = elim (Bool-cases (ltb max (length body))) [
  | inl over ↦ elim (Bool-cases (ltb (length body) (2 ^ 32))) [
    | inl short ↦
        inr (frame_too_big, encode-exceeds f max body e (ground arith) (ground arith), refl)
    | inr long ↦ inr (encode_error, rw (e, long), refl)
  ]
  | inr fits ↦ inl (
    octets 4 (length body) ++ body,
    encode-fits f max body e (ground arith) high,
    ground (arith, length-append (octets 4 (length body)) body, length-octets 4 (length body)),
  )
]

ack-Encodes :
    (max : ℕ) (m : MetaData) (actions : List Action)
    → max < 2 ^ 32
    → IsWireMetaData m
    → All ActsOnObject actions
    → Encodes max (ack_of m actions)
unfolding encode encode_body
ack-Encodes max m actions high w h =
    let (mb, meta, few) = metadata-short m w in
    elim (actions-Graceful actions h) [
      | inl (bs, e) ↦
          body-Encodes max (ack_of m actions) (103 ∷ (mb ++ bs)) high
            (ack_body (ack_of m actions) m actions mb bs (ack_frame-ack_of m actions) meta e)
      | inr bad ↦ inr (encode_error, rw (tiny_int 103 (omega arith), meta, bad), refl)
    ]

-- A connection on which frames of at most `max` bytes can be sent, now and later.
pub record IsOpen (max : ℕ) (c : Connection) : Type 0 where
  pub negotiated : c.config.max_frame_size ≡ Value.int (pos max)
  pub open_writer : c.writer.closing ≡ false
  pub sound_writer : Lasts c.writer

pub send_frame-wrote :
    (max : ℕ) (c : Connection) (f : Frame) (bytes : Bytes)
    → IsOpen max c
    → encode f (pos max) ≡ ok bytes
    → send_frame f c ≡ (ok true, wrote bytes c)
unfolding send_frame
send_frame-wrote max c f bytes o e = rw (
  o.open_writer,
  (o.sound_writer c.writer.sent).0,
  o.negotiated,
  e,
  (o.sound_writer (c.writer.sent ++ bytes)).1,
)

pub send_frame-err :
    (max : ℕ) (c : Connection) (f : Frame) (e : Exc)
    → IsOpen max c
    → encode f (pos max) ≡ err e
    → send_frame f c ≡ (err e, c)
unfolding send_frame
send_frame-err max c f e o p = rw (o.open_writer, (o.sound_writer c.writer.sent).0, o.negotiated, p)

-- Every NOTIFY whose identifiers are not negative is answered: on a connection that is open and lasts,
-- with 25 bytes or more, below 4 GiB, negotiated, whatever actions the handlers return (their addresses
-- and bytes being ones that Python objects can hold), the task raises nothing, gives its slot back, and
-- writes exactly one ACK, encoded under that size, with the identifiers of the NOTIFY and a part of the
-- actions, in their order.
pub process_notify_answers :
    (max : ℕ) (notify_handler : Messages → Result (List Action)) (m : MetaData)
    (messages : Messages) (actions : List Action) (c : Connection) (slots : ℕ)
    → 25 ≤ max
    → max < 2 ^ 32
    → IsOpen max c
    → IsWireMetaData m
    → notify_handler messages ≡ ok actions
    → All ActsOnObject actions
    → (bytes : Bytes) × (process_notify notify_handler m messages (c, slots)
        ≡ (ok true, wrote bytes c, slots + 1))
      × (length bytes ≤ max + 4)
      × (kept : List Action) × (encode (ack_of m kept) (pos max) ≡ ok bytes)
      × Sublist kept actions
unfolding process_notify construct
process_notify_answers max notify_handler m messages actions c slots low high o w e h =
    elim (ack-Encodes max m actions high w h) [
      | inl (bytes, p, few) ↦ (
        bytes,
        rw (e, send_frame-wrote max c (ack_of m actions) bytes o p),
        few,
        actions,
        p,
        Sublist.refl actions,
      )
      | inr (x, p, caught) ↦
          let (frame, built) = salvaged_ack-total max m actions low high w h in
          let (bytes, q, few) = salvaged_ack-fits max m actions frame high built in
          let (kept, shape, (part, proper)) = salvaged_ack-Part (pos max) m actions frame built in
          (
            bytes,
            rw (
              e,
              send_frame-err max c (ack_of m actions) x o p,
              caught,
              salvaged_lem frame built,
              send_frame-wrote max c frame bytes o q,
            ),
            few,
            kept,
            ap (λ f. encode f (pos max)) (sym shape) ∙ q,
            part,
          )
    ]
  where
    salvaged_lem :
        (frame : Frame)
        → salvaged_ack (pos max) m actions ≡ ok frame
        → (number_of c.config.max_frame_size >>= λ n. salvaged_ack n m actions) ≡ ok frame
    salvaged_lem frame built =
        ap (λ v. number_of v >>= λ n. salvaged_ack n m actions) o.negotiated ∙ built

negative_id :
    (max n : ℕ) (m : MetaData) (actions : List Action)
    → m.stream_id ≡ negsuc n
    → encode (ack_of m actions) (pos max) ≡ err encode_error
unfolding encode encode_body encode_metadata encode_int compose_varint
negative_id max n m actions h = rw (tiny_int 103 (omega arith), h)

-- A NOTIFY with a negative stream identifier, as a decoder of signed integers makes of one that has
-- its top bit set, is not answered on an open connection that lasts, whatever actions the handlers
-- return: the encode error that salvaging catches comes up again in it, the task raises it, and
-- nothing is written.
pub process_notify_unanswered :
    (max n : ℕ) (notify_handler : Messages → Result (List Action)) (m : MetaData)
    (messages : Messages) (actions : List Action) (c : Connection) (slots : ℕ)
    → IsOpen max c
    → m.stream_id ≡ negsuc n
    → notify_handler messages ≡ ok actions
    → process_notify notify_handler m messages (c, slots) ≡ (err encode_error, c, slots + 1)
unfolding process_notify construct salvaged_ack
process_notify_unanswered max n notify_handler m messages actions c slots o h e = rw (
  e,
  send_frame-err max c (ack_of m actions) encode_error o (negative_id max n m actions h),
  salvaged_lem,
)
  where
    salvaged_lem :
        (number_of c.config.max_frame_size >>= λ b. salvaged_ack b m actions) ≡ err encode_error
    salvaged_lem =
        ap (λ v. number_of v >>= λ b. salvaged_ack b m actions) o.negotiated
        ∙ ap
            (λ r.
              r >>= λ b. salvage (minus (pos max) (length b - 4)) 0 actions >>= λ l. ack_frame m l)
            (negative_id max n m [] h)
