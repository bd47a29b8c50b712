-- ===== src/Server/Service/Reply.antt =====
-- What HAProxy reads of the answer to a NOTIFY, `_process_notify` of spoe_forge/server/handler.py with
-- `Frame.decode` of spoe_forge/spop/frame.py at the other end.
use mathlib.Core.List.Sublist
use mathlib.Core.List.{Sublist}
use spoe_forge.Server.Salvage.Ack.{salvaged_ack-Part, ack_of}
use spoe_forge.Prelude.{◌≡◌, inl, inr, refl, ap, sym, ◌∙◌, arith, Bool-cases, List, ◌++◌, All}
use spoe_forge.Prelude.Int.{ℤ, pos, negsuc, ◌≤ℤ◌}
use spoe_forge.Prelude.Buffer.{Bytes}
use spoe_forge.Spop.Result.{Exc, Result, ok, err, ◌>>=◌, >>=-eq-ok}
use spoe_forge.Spop.Types.{MetaData, Messages, Action, ack, frame_type_number}
use spoe_forge.Spop.Wire.{IsWireMetaData, ActsOnObject}
use spoe_forge.Spop.Encoders.DataTypes.{encode_int, encode_tiny_int}
use spoe_forge.Spop.Encoders.Payloads.{encode_action_list, encode_metadata}
use spoe_forge.Spop.Varint.{compose_varint}
use spoe_forge.Spop.RoundTrip.Encodable.{actions-IsWireAction}
use spoe_forge.Spop.Safety.Decoded.{HasInt64Ids}
use spoe_forge.Spop.Frame.{encode_payload}
use spoe_forge.Spop.Frame.Codec.{Ending, encode_body, encode, decode}
use spoe_forge.Spop.Frame.RoundTrip.Frames.{decode-encode}
use spoe_forge.Server.Salvage.{is_encode_failure, salvaged_ack}
use spoe_forge.Server.Service.{or_salvaged, answer}

-- The actions of an ACK that encodes encode.
actions-encoded :
    (max : ℤ) (m : MetaData) (actions : List Action) (bytes : Bytes)
    → encode (ack_of m actions) max ≡ ok bytes
    → (b : Bytes) × (encode_action_list actions ≡ ok b)
unfolding encode encode_body encode_payload
actions-encoded max m actions bytes e =
    let (body, p, q) = >>=-eq-ok (encode_body (ack_of m actions)) _ e in
    let (t, p', q') = >>=-eq-ok (encode_tiny_int (pos (frame_type_number ack))) _ p in
    let (mb, p'', q'') = >>=-eq-ok (encode_metadata (ack_of m actions).metadata) _ q' in
    let (b, done, end) = >>=-eq-ok (encode_action_list actions) _ q'' in (b, done)

int-pos : (v : ℤ) (b : Bytes) → encode_int v ≡ ok b → pos 0 ≤ℤ v
unfolding encode_int compose_varint
int-pos (pos n) b e = omega arith
int-pos (negsuc n) b e = cc

-- An ACK that encodes has identifiers that the wire carries.
ids-IsWireMetaData :
    (max : ℤ) (m : MetaData) (actions : List Action) (bytes : Bytes)
    → HasInt64Ids m
    → encode (ack_of m actions) max ≡ ok bytes
    → IsWireMetaData m
unfolding encode encode_body encode_metadata
ids-IsWireMetaData max m actions bytes ((lo, hi), (lo', hi')) e =
    let (body, p, q) = >>=-eq-ok (encode_body (ack_of m actions)) _ e in
    let (t, p', q') = >>=-eq-ok (encode_tiny_int (pos (frame_type_number ack))) _ p in
    let (mb, meta, q'') = >>=-eq-ok (encode_metadata (ack_of m actions).metadata) _ q' in
    let (stream, first, rest) = >>=-eq-ok (encode_int m.stream_id) _ meta in
    let (frame, second, done) = >>=-eq-ok (encode_int m.frame_id) _ rest in
    (int-pos m.stream_id stream first, hi, int-pos m.frame_id frame second, hi')

-- An ACK with proper actions is read back.
ack_read :
    (max : ℤ) (m : MetaData) (actions : List Action) (bytes more : Bytes) (ending : Ending)
    → HasInt64Ids m
    → All ActsOnObject actions
    → encode (ack_of m actions) max ≡ ok bytes
    → decode (record { buffer = bytes ++ more; ending = ending }) max
      ≡ (ok (ack_of m actions), record { buffer = more; ending = ending })
ack_read max m actions bytes more ending w h e =
    let (b, written) = actions-encoded max m actions bytes e in
    decode-encode (ack_of m actions) max bytes more ending
      (record {
        typed = refl;
        metadata = ids-IsWireMetaData max m actions bytes w e;
        payload = actions-IsWireAction actions b h written;
      })
      e

-- What comes back for a NOTIFY: an ACK with its identifiers and a part of the handlers' actions, all of
-- them if they encode together.
abbrev pub Answers : ℤ → MetaData → List Action → Bytes → Type 0
Answers max m actions bytes =
    (kept : List Action) × ((more : Bytes) (ending : Ending)
      → decode (record { buffer = bytes ++ more; ending = ending }) max
        ≡ (ok (ack_of m kept), record { buffer = more; ending = ending }))
    × Sublist kept actions
    × ((whole : Bytes) → encode (ack_of m actions) max ≡ ok whole → kept ≡ actions)

salvaged-Answers :
    (max : ℤ) (m : MetaData) (actions : List Action) (bytes : Bytes) (x : Exc)
    → HasInt64Ids m
    → All ActsOnObject actions
    → encode (ack_of m actions) max ≡ err x
    → (salvaged_ack max m actions >>= λ f. encode f max) ≡ ok bytes
    → Answers max m actions bytes
salvaged-Answers max m actions bytes x w h bad e =
    let (f, p, q) = >>=-eq-ok (salvaged_ack max m actions) (λ f. encode f max) e in
    let (kept, shape, (part, proper)) = salvaged_ack-Part max m actions f p in
    (
      kept,
      λ more ending.
          ack_read max m kept bytes more ending w (proper h)
            (ap (λ g. encode g max) (sym shape) ∙ q),
      part,
      λ whole fits. cc,
    )

answered :
    (max : ℤ) (m : MetaData) (actions : List Action) (bytes : Bytes) (r : Result Bytes)
    → HasInt64Ids m
    → All ActsOnObject actions
    → encode (ack_of m actions) max ≡ r
    → or_salvaged max m actions r ≡ ok bytes
    → Answers max m actions bytes
answered max m actions bytes (ok b) w h p e = (
  actions,
  λ more ending. ack_read max m actions bytes more ending w h (p ∙ e),
  Sublist.refl actions,
  λ whole fits. refl,
)
answered max m actions bytes (err x) w h p e = elim (Bool-cases (is_encode_failure x)) [
  | inl caught ↦ salvaged-Answers max m actions bytes x w h p (rw caught at e)
  | inr other ↦ let bad = rw other at e in cc
]

-- The answer to a NOTIFY, if there is one, where the identifiers are signed integers of 64 bits, as
-- they are decoded, and the handlers return proper actions, is, to the one who reads it under the same size, from a stream that goes on in any way, exactly one
-- ACK frame with the identifiers of the NOTIFY; its actions are a part of those that the handlers
-- returned, in their order, and all of them if the ACK with all of them encodes within the size.
pub answer-decode :
    (max : ℤ) (notify_handler : Messages → Result (List Action)) (m : MetaData)
    (messages : Messages) (actions : List Action) (bytes : Bytes)
    → HasInt64Ids m
    → notify_handler messages ≡ ok actions
    → All ActsOnObject actions
    → answer max notify_handler (m, messages) ≡ ok bytes
    → (kept : List Action) × ((more : Bytes) (ending : Ending)
        → decode (record { buffer = bytes ++ more; ending = ending }) max
          ≡ (ok (ack_of m kept), record { buffer = more; ending = ending }))
      × Sublist kept actions
      × ((whole : Bytes) → encode (ack_of m actions) max ≡ ok whole → kept ≡ actions)
unfolding answer
answer-decode max notify_handler m messages actions bytes w p h e =
    answered max m actions bytes (encode (ack_of m actions) max) w h refl (rw p at e)
