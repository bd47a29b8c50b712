-- ===== src/Server/Service/Heard.antt =====
-- What HAProxy hears of a connection of spoe_forge/server/handler.py: the frames that it reads from
-- what was written.
use mathlib.Core.List.{Perm, Sublist}
use spoe_forge.Prelude.{
  ℕ, ◌≡◌, ap, sym, subst, ◌∙◌, append-nil, List, [], ◌∷◌, ◌++◌, append_assoc, All,
}
use spoe_forge.Prelude.Int.{ℤ, pos}
use spoe_forge.Prelude.Buffer.{Bytes}
use spoe_forge.Spop.Result.{Result, ok, ◌>>=◌, >>=-eq-ok}
use spoe_forge.Spop.Types.{Messages, Action}
use spoe_forge.Spop.Wire.{ActsOnObject}
use spoe_forge.Spop.Safety.Decoded.{HasInt64Ids}
use spoe_forge.Spop.Frame.Codec.{Reader, Ending, eof, decode}
use spoe_forge.Server.Connection.{Connection}
use spoe_forge.Server.Salvage.Ack.{ack_of}
use spoe_forge.Server.Salvage.Answers.{IsOpen}
use spoe_forge.Server.Loop.{Notified, Pool, Reaches}
use spoe_forge.Server.Service.{answer}
use spoe_forge.Server.Service.Reply.{answer-decode}
use spoe_forge.Server.Service.Refinement.{Holds, answers_to, pipelined_service}

-- Reading a stream gives an ACK for each of some NOTIFY frames, in this order: with its identifiers, and
-- a part of the actions that the handlers return for it.
pub data Hears (max : ℤ) (notify_handler : Messages → Result (List Action))
    : Reader → List Notified → Reader → Type 0 where
  silence : (r : Reader) → Hears max notify_handler r [] r
  heard :
      (r r' r'' : Reader) (t : Notified) (ts : List Notified) (actions kept : List Action)
      → notify_handler t.1 ≡ ok actions
      → decode r max ≡ (ok (ack_of t.0 kept), r')
      → Sublist kept actions
      → Hears max notify_handler r' ts r''
      → Hears max notify_handler r (t ∷ ts) r''

-- Handlers that return proper actions for every message.
abbrev pub Returns : (Messages → Result (List Action)) → Type 0
Returns notify_handler =
    (messages : Messages)
    → (actions : List Action) × (notify_handler messages ≡ ok actions) × All ActsOnObject actions

abbrev stream : Bytes → Ending → Reader
stream buffer ending = record { buffer = buffer; ending = ending }

module _ (max : ℤ) (notify_handler : Messages → Result (List Action))
    (returns : Returns notify_handler) where
  answers-heard :
      (ts : List Notified) (out more : Bytes) (ending : Ending)
      → All (λ t. HasInt64Ids t.0) ts
      → answers_to max notify_handler ts ≡ ok out
      → Hears max notify_handler (stream (out ++ more) ending) ts (stream more ending)
  unfolding answers_to
  answers-heard [] out more ending ids e =
      let none : ◌≡◌ {A = Bytes} [] out = cc in rw⁻¹ none (silence (stream more ending))
  answers-heard (t ∷ ts) out more ending ids e =
      let (b, p, e') =
        >>=-eq-ok (answer max notify_handler t)
          (λ x. answers_to max notify_handler ts >>= λ y. ok (x ++ y)) e in
      let (rest, q, e'') = >>=-eq-ok (answers_to max notify_handler ts) (λ y. ok (b ++ y)) e' in
      let (actions, returned, proper) = returns t.1 in
      let (kept, read, part, whole) =
        answer-decode max notify_handler t.0 t.1 actions b ids.0 returned proper p in
      let same : b ++ rest ≡ out = cc in
      heard (stream (out ++ more) ending) (stream (rest ++ more) ending) (stream more ending) t ts
        actions kept returned
        (ap (λ s. decode (stream (s ++ more) ending) max) (sym same)
          ∙ ap (λ s. decode (stream s ending) max) (append_assoc b rest more)
          ∙ read (rest ++ more) ending)
        part (answers-heard ts rest more ending ids.1 q)

-- However the tasks interleave, on a connection that was open and lasts, with a number for its
-- frame size, when the loop began, and with handlers that always return proper actions: at every
-- point of the loop, what was written since its start is, to HAProxy, one ACK for each NOTIFY
-- that was answered, each with the identifiers of its NOTIFY and a part of the actions that the
-- handlers returned for it, in the order in which the tasks ended, and nothing else; the NOTIFY
-- frames that were taken from the stream are, in some order, those and the ones whose tasks still
-- run, each as often.
pub acknowledged :
    (notify_handler : Messages → Result (List Action)) (max : ℕ) (c : Connection) (p : Pool)
    → Returns notify_handler
    → IsOpen max c
    → Reaches notify_handler c p
    → (taken : List Notified) × (answered : List Notified) × (out : Bytes) × Holds
        (pos max)
        c.reader
        taken
        p.connection.reader
      × Perm (answered ++ p.running) taken
      × (p.connection.writer.sent ≡ c.writer.sent ++ out)
      × Hears
          (pos max)
          notify_handler
          (record { buffer = out; ending = eof })
          answered
          (record { buffer = []; ending = eof })
acknowledged notify_handler max c p returns o r =
    let s = pipelined_service notify_handler max c p o r in
    (
      s.taken,
      s.answered,
      s.out,
      s.from_stream,
      s.accounted,
      s.sent,
      subst (λ b. Hears (pos max) notify_handler (stream b eof) s.answered (stream [] eof))
          (append-nil s.out)
          (answers-heard (pos max) notify_handler returns s.answered s.out [] eof s.answered_ids
            s.written),
    )
