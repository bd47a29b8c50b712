-- ===== src/Server/Service/Stream.antt =====
-- A whole stream of NOTIFY frames, from the first byte to the end of the stream.
use spoe_forge.Prelude.{
  ℕ, suc, ◌-◌, ◌≡◌, ◌≤◌, sym, ap, subst, ◌∙◌, arith, true, false, List, [], ◌∷◌, ◌++◌, append-nil,
  append_assoc,
}
use spoe_forge.Prelude.Int.{ℤ, pos}
use spoe_forge.Prelude.Buffer.{Bytes}
use spoe_forge.Spop.Result.{Result, ok, ◌>>=◌, >>=-eq-ok}
use spoe_forge.Spop.Types.{Value, Messages, Action}
use spoe_forge.Spop.Frame.{Payload, Frame}
use spoe_forge.Spop.Frame.Codec.{eof, encode, decode, readexactly}
use spoe_forge.Spop.Frame.RoundTrip.Frames.{IsWireFrame}
use spoe_forge.Server.Connection.{Connection}
use spoe_forge.Server.Handler.{receive}
use spoe_forge.Server.Handler.Disconnects.{wrote}
use spoe_forge.Server.Salvage.{process_notify}
use spoe_forge.Server.Salvage.Answers.{IsOpen}
use spoe_forge.Server.Loop.{
  Notified, closed, slots_limit, read_round, pool, acquires, reads, answers, Reaches, starts,
  goes_on,
}
use spoe_forge.Server.Loop.Reading.{reads_from, read_round-encode}
use spoe_forge.Server.Service.{answer, delivered, process_notify-answer}
use spoe_forge.Server.Service.Refinement.{answers_to}

-- A NOTIFY frame as HAProxy sends it under the negotiated size.
pub record Transmitted (max : ℤ) : Type 0 where
  pub frame : Frame
  pub messages : Messages
  pub bytes : Bytes
  pub notified : frame.payload ≡ Payload.notify messages
  pub wire : IsWireFrame frame
  pub encoded : encode frame max ≡ ok bytes

abbrev pub bytes_of : {max : ℤ} → List (Transmitted max) → Bytes
bytes_of [] = []
bytes_of (s ∷ ss) = s.bytes ++ bytes_of ss

abbrev pub notified_of : {max : ℤ} → List (Transmitted max) → List Notified
notified_of [] = []
notified_of (s ∷ ss) = (s.frame.metadata, s.messages) ∷ notified_of ss

-- The stream has ended between two frames.
closed_at_eof :
    (max : ℕ) (c : Connection)
    → c.config.max_frame_size ≡ Value.int (pos max)
    → read_round (reads_from c [] eof) ≡ (ok closed, reads_from c [] eof)
unfolding read_round receive decode readexactly
closed_at_eof max c size = simp size

module _ (notify_handler : Messages → Result (List Action)) (max : ℕ) (c : Connection) where
  task_writes :
      (d : Connection) (n : ℕ) (t : Notified) (b : Bytes)
      → IsOpen max d
      → answer (pos max) notify_handler t ≡ ok b
      → process_notify notify_handler t.0 t.1 (d, n) ≡ (ok true, wrote b d, suc n)
  task_writes d n t b o p =
      process_notify-answer max notify_handler t.0 t.1 d n o
      ∙ ap (delivered d n) p
      ∙ ap (λ k. (ok true, wrote b d, k)) (omega arith)

  -- From between two frames, with a free slot: one frame is read and answered.
  one_served :
      (d : Connection) (n : ℕ) (s : Transmitted (pos max)) (more b : Bytes)
      → IsOpen max d
      → answer (pos max) notify_handler (s.frame.metadata, s.messages) ≡ ok b
      → Reaches notify_handler c (pool (reads_from d (s.bytes ++ more) eof) (suc n) false [])
      → Reaches notify_handler c (pool (reads_from (wrote b d) more eof) (suc n) false [])
  one_served d n s more b o p r =
      let before = reads_from d (s.bytes ++ more) eof in
      let behind = reads_from d more eof in
      let t : Notified = (s.frame.metadata, s.messages) in
      let opened : IsOpen max behind = record {
        negotiated = o.negotiated;
        open_writer = o.open_writer;
        sound_writer = o.sound_writer;
      } in
      let holding =
        goes_on (pool before (suc n) false []) (pool before n true []) r (acquires before n []) in
      let created = goes_on (pool before n true []) (pool behind n false (t ∷ [])) holding (
        reads before behind n [] t (
          read_round-encode d s.frame s.messages (pos max) s.bytes more eof o.negotiated s.notified
            s.wire s.encoded)) in
      goes_on (pool behind n false (t ∷ [])) (pool (wrote b behind) (suc n) false []) created (
        answers behind (wrote b behind) n (suc n) false [] [] t true
          (task_writes behind n t b opened p))

  rest_served :
      (d : Connection) (n : ℕ) (ss : List (Transmitted (pos max))) (out : Bytes)
      → IsOpen max d
      → answers_to (pos max) notify_handler (notified_of ss) ≡ ok out
      → Reaches notify_handler c (pool (reads_from d (bytes_of ss) eof) (suc n) false [])
      → (x : Connection) × Reaches notify_handler c (pool x n true [])
        × (read_round x ≡ (ok closed, x))
        × (x.writer.sent ≡ d.writer.sent ++ out)
  unfolding answers_to
  rest_served d n [] out o a r =
      let none : ◌≡◌ {A = Bytes} [] out = cc in
      (
        reads_from d [] eof,
        goes_on (pool (reads_from d [] eof) (suc n) false []) (pool (reads_from d [] eof) n true [])
            r (acquires (reads_from d [] eof) n []),
        closed_at_eof max d o.negotiated,
        sym (append-nil d.writer.sent) ∙ ap (λ l. d.writer.sent ++ l) none,
      )
  rest_served d n (s ∷ ss) out o a r =
      let t : Notified = (s.frame.metadata, s.messages) in
      let (b, p, a') =
        >>=-eq-ok (answer (pos max) notify_handler t)
          (λ x. answers_to (pos max) notify_handler (notified_of ss) >>= λ y. ok (x ++ y)) a in
      let (rest, q, e) =
        >>=-eq-ok (answers_to (pos max) notify_handler (notified_of ss)) (λ y. ok (b ++ y)) a' in
      let o' : IsOpen max (wrote b d) = record {
        negotiated = o.negotiated;
        open_writer = o.open_writer;
        sound_writer = o.sound_writer;
      } in
      let (x, reached, ends, sent) =
        rest_served (wrote b d) n ss rest o' q (one_served d n s (bytes_of ss) b o p r) in
      let whole : b ++ rest ≡ out = cc in
      (
        x,
        reached,
        ends,
        sent ∙ append_assoc d.writer.sent b rest ∙ ap (λ l. d.writer.sent ++ l) whole,
      )

  -- Every frame of the stream is read and answered, in order, and the loop then closes: it holds a slot,
  -- no task runs, the next round raises `CloseConnection`, and what was written is all the answers.
  pub stream_served :
      (ss : List (Transmitted (pos max))) (out : Bytes)
      → IsOpen max c
      → 1 ≤ slots_limit c.config
      → c.reader ≡ record { buffer = bytes_of ss; ending = eof }
      → answers_to (pos max) notify_handler (notified_of ss) ≡ ok out
      → (d : Connection) × (n : ℕ) × Reaches notify_handler c (pool d n true [])
        × (read_round d ≡ (ok closed, d))
        × (d.writer.sent ≡ c.writer.sent ++ out)
  stream_served ss out o few e a =
      let n = slots_limit c.config - 1 in
      let slot : slots_limit c.config ≡ suc n = omega arith in
      let same : c ≡ reads_from c (bytes_of ss) eof = ap (λ r. record c { reader = r }) e in
      let at_start : Reaches notify_handler c
          (pool (reads_from c (bytes_of ss) eof) (suc n) false []) =
        subst (λ k. Reaches notify_handler c (pool (reads_from c (bytes_of ss) eof) k false []))
          slot
          (subst (λ x. Reaches notify_handler c (pool x (slots_limit c.config) false [])) same
            starts) in
      let (x, reached, ends, sent) = rest_served c n ss out o a at_start in
      (x, n, reached, ends, sent)
