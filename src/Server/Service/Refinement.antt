-- ===== src/Server/Service/Refinement.antt =====
-- The loop and its tasks, of spoe_forge/server/handler.py, against a service that answers the NOTIFY
-- frames of a stream.
use mathlib.Core.List.{Perm}
use spoe_forge.Prelude.{
  All, All-append, All-split, ℕ, ◌≡◌, ◌≤◌, refl, sym, ap, subst, ◌∙◌, arith, Bool, false, List, [],
  ◌∷◌, ◌++◌, append-nil, append_assoc, length,
}
use spoe_forge.Prelude.Int.{ℤ, pos}
use spoe_forge.Prelude.Buffer.{Bytes}
use spoe_forge.Spop.Result.{Result, ok, err, ◌>>=◌, >>=-eq-ok}
use spoe_forge.Spop.Types.{Messages, Action}
use spoe_forge.Spop.Frame.{Payload, Frame}
use spoe_forge.Spop.Frame.Codec.{Reader, decode}
use spoe_forge.Spop.Safety.Decoded.{HasInt64Ids, decode-IsTypedFrame}
use spoe_forge.Server.Connection.{Connection}
use spoe_forge.Server.Handler.Disconnects.{wrote}
use spoe_forge.Server.Salvage.{process_notify}
use spoe_forge.Server.Salvage.Answers.{IsOpen}
use spoe_forge.Server.Loop.{
  Notified, slots_limit, Pool, StepsTo, acquires, reads, answers, Reaches, starts, goes_on,
}
use spoe_forge.Server.Configuration.{number_of, pipelining, mem_text}
use spoe_forge.Server.Loop.InFlight.{in_flight}
use spoe_forge.Server.Service.{answer, delivered, process_notify-answer}
use spoe_forge.Server.Service.Accounting.{Accounting, any_order, in_order}
use spoe_forge.Server.Loop.Rounds.{read_round-Took}

-- The NOTIFY frames at the front of a stream, in order, and the stream behind them.
pub data Holds (max : ℤ) (from : Reader) : List Notified → Reader → Type 0 where
  nothing : Holds max from [] from
  further :
      (ts : List Notified) (r r' : Reader) (f : Frame) (messages : Messages)
      → Holds max from ts r
      → decode r max ≡ (ok f, r')
      → f.payload ≡ Payload.notify messages
      → Holds max from (ts ++ ((f.metadata, messages) ∷ [])) r'

-- The answers to some frames, one behind the other.
unfoldable pub answers_to : ℤ → (Messages → Result (List Action)) → List Notified → Result Bytes
answers_to max notify_handler [] = ok []
answers_to max notify_handler (t ∷ ts) = do
  first ← answer max notify_handler t
  rest ← answers_to max notify_handler ts
  ok (first ++ rest)

-- What a pool means for the service: the frames that were taken from the stream, those that were
-- answered, and what was written, which is exactly the answers.
pub record Serves (Accounts : List Notified → List Notified → Type 0)
    (notify_handler : Messages → Result (List Action)) (max : ℕ) (c : Connection) (p : Pool)
    : Type 0 where
  pub taken : List Notified
  pub answered : List Notified
  pub out : Bytes
  pub from_stream : Holds (pos max) c.reader taken p.connection.reader
  pub accounted : Accounts (answered ++ p.running) taken
  pub written : answers_to (pos max) notify_handler answered ≡ ok out
  pub sent : p.connection.writer.sent ≡ c.writer.sent ++ out
  pub still_open : IsOpen max p.connection
  pub answered_ids : All (λ t. HasInt64Ids t.0) answered
  pub running_ids : All (λ t. HasInt64Ids t.0) p.running

module _ (notify_handler : Messages → Result (List Action)) (max : ℕ) (c : Connection) where
  answers_to-snoc :
      (ts : List Notified) (t : Notified) (out b : Bytes)
      → answers_to (pos max) notify_handler ts ≡ ok out
      → answer (pos max) notify_handler t ≡ ok b
      → answers_to (pos max) notify_handler (ts ++ (t ∷ [])) ≡ ok (out ++ b)
  unfolding answers_to
  answers_to-snoc [] t out b e p =
      let bare : ◌≡◌ {A = Bytes} [] out = cc in rw (p, append-nil b) (ap (λ x. ok (x ++ b)) bare)
  answers_to-snoc (u ∷ ts) t out b e p =
      let (first, q, e') = >>=-eq-ok (answer (pos max) notify_handler u) (rest_of ts) e in
      let (rest, r, e'') = >>=-eq-ok (answers_to (pos max) notify_handler ts) (joined first) e' in
      rw (q, answers_to-snoc ts t rest b r p)
        (ap ok (sym (append_assoc first rest b)) ∙ ap (λ x. append_to x b) e'')
    where
      joined : Bytes → Bytes → Result Bytes
      joined x y = ok (x ++ y)

      rest_of : List Notified → Bytes → Result Bytes
      rest_of us x = answers_to (pos max) notify_handler us >>= joined x

      append_to : Result Bytes → Bytes → Result Bytes
      append_to r y = r >>= λ x. ok (x ++ y)

  -- A task that ends without a raise has written its answer.
  answered_lem :
      (d d' : Connection) (t : Notified) (n n' : ℕ) (sent : Bool)
      → IsOpen max d
      → process_notify notify_handler t.0 t.1 (d, n) ≡ (ok sent, d', n')
      → (b : Bytes) × (answer (pos max) notify_handler t ≡ ok b) × (d' ≡ wrote b d)
  answered_lem d d' t n n' sent o e = by_answer (answer (pos max) notify_handler t) refl
    where
      by_answer :
          (r : Result Bytes)
          → answer (pos max) notify_handler t ≡ r
          → (b : Bytes) × (answer (pos max) notify_handler t ≡ ok b) × (d' ≡ wrote b d)
      by_answer (ok b) p =
          let same : delivered d n (ok b) ≡ (ok sent, d', n') =
            ap (delivered d n) (sym p)
            ∙ sym (process_notify-answer max notify_handler t.0 t.1 d n o)
            ∙ e in
          (b, p, cc)
      by_answer (err x) p =
          let same : delivered d n (err x) ≡ (ok sent, d', n') =
            ap (delivered d n) (sym p)
            ∙ sym (process_notify-answer max notify_handler t.0 t.1 d n o)
            ∙ e in
          cc

  module _ (a : Accounting (slots_limit c.config)) where
    step-Serves :
        (p q : Pool)
        → length p.running ≤ slots_limit c.config
        → StepsTo notify_handler p q
        → Serves a.Accounts notify_handler max c p
        → Serves a.Accounts notify_handler max c q
    step-Serves _ _ few (acquires d n running) s = record {
      taken = s.taken;
      answered = s.answered;
      out = s.out;
      from_stream = s.from_stream;
      accounted = s.accounted;
      written = s.written;
      sent = s.sent;
      still_open = s.still_open;
      answered_ids = s.answered_ids;
      running_ids = s.running_ids;
    }
    step-Serves _ _ few (reads d d' n running t e) s =
        let w = read_round-Took (pos max) d d' t (ap number_of s.still_open.negotiated) e in
        subst
          (λ x.
            Serves a.Accounts notify_handler max c (record {
              connection = x;
              slots = n;
              reading = false;
              running = running ++ (t ∷ []);
            }))
          (sym w.after)
          (record {
            taken = s.taken ++ (t ∷ []);
            answered = s.answered;
            out = s.out;
            from_stream =
                subst (λ m. Holds (pos max) c.reader (s.taken ++ ((m, t.1) ∷ [])) w.reader)
                  w.identified
                  (further s.taken d.reader w.reader w.frame t.1 s.from_stream w.decoded
                    w.notified);
            accounted =
                subst (λ l. a.Accounts l (s.taken ++ (t ∷ [])))
                  (append_assoc s.answered running (t ∷ []))
                  (a.one_taken (s.answered ++ running) s.taken t s.accounted);
            written = s.written;
            sent = s.sent;
            still_open = record {
              negotiated = s.still_open.negotiated;
              open_writer = s.still_open.open_writer;
              sound_writer = s.still_open.sound_writer;
            };
            answered_ids = s.answered_ids;
            running_ids =
                All-append (λ u. HasInt64Ids u.0) running (t ∷ []) s.running_ids
                  (
                    subst HasInt64Ids w.identified
                        (decode-IsTypedFrame d.reader w.reader (pos max) w.frame w.decoded).ids,
                    tt,
                  );
          })
    step-Serves _ _ few (answers d d' n n' reading front back t sent e) s =
        let (b, p, same) = answered_lem d d' t n n' sent s.still_open e in
        let (others, ended) = All-split (λ u. HasInt64Ids u.0) front (t ∷ back) s.running_ids in
        subst
          (λ x.
            Serves a.Accounts notify_handler max c
              (record { connection = x; slots = n'; reading = reading; running = front ++ back }))
          (sym same)
          (record {
            taken = s.taken;
            answered = s.answered ++ (t ∷ []);
            out = s.out ++ b;
            from_stream = s.from_stream;
            accounted = a.one_ended s.answered front back s.taken t few s.accounted;
            written = answers_to-snoc s.answered t s.out b s.written p;
            sent = ap (λ x. x ++ b) s.sent ∙ append_assoc c.writer.sent s.out b;
            still_open = record {
              negotiated = s.still_open.negotiated;
              open_writer = s.still_open.open_writer;
              sound_writer = s.still_open.sound_writer;
            };
            answered_ids =
                All-append (λ u. HasInt64Ids u.0) s.answered (t ∷ []) s.answered_ids (ended.0, tt);
            running_ids = All-append (λ u. HasInt64Ids u.0) front back others ended.1;
          })

    pub loop-Serves :
        (p : Pool)
        → IsOpen max c
        → Reaches notify_handler c p
        → Serves a.Accounts notify_handler max c p
    unfolding answers_to
    loop-Serves _ o starts = record {
      taken = [];
      answered = [];
      out = [];
      from_stream = nothing;
      accounted = a.at_start;
      written = refl;
      sent = sym (append-nil c.writer.sent);
      still_open = record {
        negotiated = o.negotiated;
        open_writer = o.open_writer;
        sound_writer = o.sound_writer;
      };
      answered_ids = tt;
      running_ids = tt;
    }
    loop-Serves q o (goes_on p _ r s) =
        step-Serves p q ((in_flight notify_handler c p r).1) s (loop-Serves p o r)

-- However the tasks interleave, on a connection that was open and lasts, with a number for its
-- frame size, when the loop began: the NOTIFY frames that were taken from the stream are, in some
-- order, those that were answered and those that still run, each as often, and what was written
-- behind what stood there at the start is exactly the answers, whole and in the order in which the
-- tasks ended.
pub pipelined_service :
    (notify_handler : Messages → Result (List Action)) (max : ℕ) (c : Connection) (p : Pool)
    → IsOpen max c
    → Reaches notify_handler c p
    → Serves Perm notify_handler max c p
pipelined_service notify_handler max c p o r =
    loop-Serves notify_handler max c (any_order (slots_limit c.config)) p o r

-- Without pipelining, on a connection that was open and lasts, with a number for its frame size,
-- when the loop began, the answers are written in the order of the frames: those that were
-- answered, and then the one that runs, if there is one, are the frames that were taken from the
-- stream, in order.
pub serial_service :
    (notify_handler : Messages → Result (List Action)) (max : ℕ) (c : Connection) (p : Pool)
    → mem_text pipelining c.config.capabilities ≡ false
    → IsOpen max c
    → Reaches notify_handler c p
    → Serves (λ ts us. ts ≡ us) notify_handler max c p
serial_service notify_handler max c p none o r =
    loop-Serves notify_handler max c (in_order (slots_limit c.config) one) p o r
  where
    one : slots_limit c.config ≤ 1
    one = rw none (omega arith)
