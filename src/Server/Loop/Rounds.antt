-- ===== src/Server/Loop/Rounds.antt =====
-- What a round of `_read_frames` of spoe_forge/server/handler.py that makes a task has done.
use spoe_forge.Prelude.{◌+◌, ◌≤◌, ◌≡◌, refl, ap, arith, Bool, length}
use spoe_forge.Prelude.Int.{ℤ}
use spoe_forge.Spop.Result.{Exc, Result, ok, err, eof_error}
use spoe_forge.Spop.Frame.{Payload, Frame}
use spoe_forge.Spop.Frame.Codec.{Reader, decode}
use spoe_forge.Spop.Frame.Consumes.{decode-consumes}
use spoe_forge.Server.Configuration.{number_of}
use spoe_forge.Server.Connection.{Connection}
use spoe_forge.Server.Handler.{receive}
use spoe_forge.Server.Loop.{
  Notified, created, closed_after, refuse, say_goodbye, dispatch, dispatched, read_round,
}

-- A round that made the task `t`.
pub record Took (max : ℤ) (c : Connection) (t : Notified) (c' : Connection) : Type 0 where
  pub frame : Frame
  pub reader : Reader
  pub decoded : decode c.reader max ≡ (ok frame, reader)
  pub notified : frame.payload ≡ Payload.notify t.1
  pub identified : frame.metadata ≡ t.0
  pub after : c' ≡ record c { reader = reader }

-- A round that closes makes no task.
closed_after-ne-created :
    (r : Result Bool × Connection) (c' : Connection) (t : Notified)
    → closed_after r ≡ (ok (created t), c')
    → ⊥
closed_after-ne-created (ok b, d) c' t e = cc
closed_after-ne-created (err x, d) c' t e = cc

dispatch-created :
    (frame : Frame) (payload : Payload) (c c' : Connection) (t : Notified)
    → dispatch frame payload c ≡ (ok (created t), c')
    → (payload ≡ Payload.notify t.1) × (frame.metadata ≡ t.0) × (c' ≡ c)
dispatch-created frame (Payload.notify messages) c c' t e =
    let same : ◌≡◌ {A = Notified} (frame.metadata, messages) t = cc in
    (ap (λ u. Payload.notify u.1) same, ap (λ u. u.0) same, cc)
dispatch-created frame (Payload.disconnect d) c c' t e =
    absurd (closed_after-ne-created (say_goodbye c) c' t e)
dispatch-created frame (Payload.haproxy_hello d) c c' t e =
    absurd (closed_after-ne-created (refuse frame c) c' t e)
dispatch-created frame (Payload.agent_hello d) c c' t e =
    absurd (closed_after-ne-created (refuse frame c) c' t e)
dispatch-created frame (Payload.ack d) c c' t e =
    absurd (closed_after-ne-created (refuse frame c) c' t e)

received-Took :
    (max : ℤ) (c c' : Connection) (t : Notified) (r : Result Frame × Reader)
    → decode c.reader max ≡ r
    → dispatched (r.0, record c { reader = r.1 }) ≡ (ok (created t), c')
    → Took max c t c'
received-Took max c c' t (ok frame, reader) d e =
    let (notified, identified, after) =
      dispatch-created frame frame.payload (record c { reader = reader }) c' t e in
    record {
      frame = frame;
      reader = reader;
      decoded = d;
      notified = notified;
      identified = identified;
      after = after;
    }
received-Took max c c' t (err eof_error, reader) d e = cc
received-Took max c c' t (err _, reader) d e = cc

dispatched_err :
    (x : Exc) (c c' : Connection) (t : Notified) → dispatched (err x, c) ≡ (ok (created t), c') → ⊥
dispatched_err eof_error c c' t e = cc
dispatched_err _ c c' t e = cc

pub read_round-Took :
    (max : ℤ) (c c' : Connection) (t : Notified)
    → number_of c.config.max_frame_size ≡ ok max
    → read_round c ≡ (ok (created t), c')
    → Took max c t c'
unfolding read_round receive
read_round-Took max c c' t size e =
    received-Took max c c' t (decode c.reader max) refl (simp size at e)

-- Such a round has taken four bytes of the stream at least, whatever the connection is like.
pub read_round-consumes :
    (c c' : Connection) (t : Notified)
    → read_round c ≡ (ok (created t), c')
    → length c'.reader.buffer + 4 ≤ length c.reader.buffer
unfolding read_round receive
read_round-consumes c c' t e = by_size (number_of c.config.max_frame_size) refl
  where
    by_size :
        (r : Result ℤ)
        → number_of c.config.max_frame_size ≡ r
        → length c'.reader.buffer + 4 ≤ length c.reader.buffer
    by_size (ok max) p =
        let w = read_round-Took max c c' t p e in
        omega (
          arith,
          decode-consumes c.reader w.reader max w.frame w.decoded,
          ap (λ d. length d.reader.buffer) w.after,
        )
    by_size (err x) p = absurd (dispatched_err x c c' t (simp p at e))
