-- ===== src/Server/Service.antt =====
-- What one NOTIFY is answered with, as a function of the negotiated size alone: the abstract view of
-- `_process_notify` of spoe_forge/server/handler.py, whose detailed form writes to the connection.
pub mod Accounting
pub mod Refinement
pub mod Stream
pub mod Reply
pub mod Heard
use spoe_forge.Prelude.{
  ℕ, ◌+◌, ◌≡◌, inl, inr, refl, ap, ◌∙◌, Bool, Bool-cases, true, List, [], ◌∷◌, ◌++◌, if◌then◌else◌,
}
use spoe_forge.Prelude.Int.{ℤ, pos}
use spoe_forge.Prelude.Buffer.{Bytes}
use spoe_forge.Spop.Result.{Exc, Result, ok, err, ◌>>=◌}
use spoe_forge.Spop.Types.{Value, MetaData, Messages, Action}
use spoe_forge.Spop.Frame.{Frame}
use spoe_forge.Spop.Frame.Construct.{construct}
use spoe_forge.Spop.Frame.Codec.{encode}
use spoe_forge.Server.Configuration.{number_of}
use spoe_forge.Server.Connection.{Connection}
use spoe_forge.Server.Handler.{send_frame}
use spoe_forge.Server.Handler.Disconnects.{wrote}
use spoe_forge.Server.Salvage.{ack_frame, is_encode_failure, salvaged_ack, process_notify}
use spoe_forge.Server.Salvage.Ack.{ack_of, ack_frame-ack_of}
use spoe_forge.Server.Salvage.Answers.{IsOpen, send_frame-wrote, send_frame-err}
use spoe_forge.Server.Loop.{Notified}

-- A frame that encodes is sent as it is; one that does not, in its salvaged form.
abbrev or_salvaged : ℤ → MetaData → List Action → Result Bytes → Result Bytes
or_salvaged max m actions (ok bytes) = ok bytes
or_salvaged max m actions (err e) =
    if is_encode_failure e then (salvaged_ack max m actions >>= λ f. encode f max) else err e

unfoldable pub answer : ℤ → (Messages → Result (List Action)) → Notified → Result Bytes
answer max notify_handler (m, messages) = do
  actions ← notify_handler messages
  or_salvaged max m actions (encode (ack_of m actions) max)

-- What the task does to the connection, and to the slots, with this answer.
abbrev pub delivered : Connection → ℕ → Result Bytes → Result Bool × Connection × ℕ
delivered c slots (ok bytes) = (ok true, wrote bytes c, slots + 1)
delivered c slots (err e) = (err e, c, slots + 1)

module _ (max : ℕ) (notify_handler : Messages → Result (List Action)) (m : MetaData)
    (messages : Messages) (c : Connection) (slots : ℕ) (open_c : IsOpen max c) where
  sent_salvaged :
      (actions : List Action) (e : Exc) (r : Result Frame)
      → notify_handler messages ≡ ok actions
      → encode (ack_of m actions) (pos max) ≡ err e
      → is_encode_failure e ≡ true
      → salvaged_ack (pos max) m actions ≡ r
      → process_notify notify_handler m messages (c, slots)
        ≡ delivered c slots (r >>= λ f. encode f (pos max))
  unfolding process_notify construct
  sent_salvaged actions e (err x) h p caught s = rw (
    h,
    send_frame-err max c (ack_of m actions) e open_c p,
    caught,
    ap (λ v. number_of v >>= λ n. salvaged_ack n m actions) open_c.negotiated ∙ s,
  )
  sent_salvaged actions e (ok f) h p caught s =
      rw
        (
          h,
          send_frame-err max c (ack_of m actions) e open_c p,
          caught,
          ap (λ v. number_of v >>= λ n. salvaged_ack n m actions) open_c.negotiated ∙ s,
        )
        (sends (encode f (pos max)) refl)
    where
      sends :
          (r : Result Bytes)
          → encode f (pos max) ≡ r
          → ((send_frame f c).0, (send_frame f c).1, slots + 1) ≡ delivered c slots r
      sends (ok bytes) q = rw (send_frame-wrote max c f bytes open_c q)
      sends (err x) q = rw (send_frame-err max c f x open_c q)

  sent :
      (actions : List Action) (r : Result Bytes)
      → notify_handler messages ≡ ok actions
      → encode (ack_of m actions) (pos max) ≡ r
      → process_notify notify_handler m messages (c, slots)
        ≡ delivered c slots (or_salvaged (pos max) m actions r)
  unfolding process_notify construct
  sent actions (ok bytes) h p = rw (h, send_frame-wrote max c (ack_of m actions) bytes open_c p)
  sent actions (err e) h p = elim (Bool-cases (is_encode_failure e)) [
    | inl caught ↦
        rw caught (sent_salvaged actions e (salvaged_ack (pos max) m actions) h p caught refl)
    | inr other ↦ rw (h, send_frame-err max c (ack_of m actions) e open_c p, other)
  ]

  -- On an open connection that lasts, the task of a NOTIFY does what the abstract answer says, and
  -- nothing else: it writes the answer in one piece, or raises what the answer raises and writes
  -- nothing; in both cases the slot is given back.
  pub process_notify-answer :
      process_notify notify_handler m messages (c, slots)
      ≡ delivered c slots (answer (pos max) notify_handler (m, messages))
  unfolding process_notify answer
  process_notify-answer = handled (notify_handler messages) refl
    where
      handled :
          (r : Result (List Action))
          → notify_handler messages ≡ r
          → process_notify notify_handler m messages (c, slots)
            ≡ delivered c slots (answer (pos max) notify_handler (m, messages))
      handled (err e) h = rw h
      handled (ok actions) h = sent actions (encode (ack_of m actions) (pos max)) h refl ∙ (rw h)
