-- ===== src/Server/Keeps/Rounds.antt =====
-- What a round of the loop of spoe_forge/server/handler.py, and the answer to a HELLO, relate a
-- connection to.
use spoe_forge.Prelude.{ℕ, if◌then◌else◌, ◌≡◌, refl, subst, Bool, false, List, ◌++◌}
use spoe_forge.Prelude.Int.{ℤ, pos}
use spoe_forge.Prelude.Text.{Text, codes}
use spoe_forge.Spop.Result.{Result, ok, err, eof_error}
use spoe_forge.Spop.Types.{FrameType, Messages, Action}
use spoe_forge.Spop.Frame.{HaproxyHello, Payload, Frame}
use spoe_forge.Spop.Frame.Construct.{construct}
use spoe_forge.Server.Configuration.{number_of}
use spoe_forge.Server.Connection
use spoe_forge.Server.Connection.{Connection, Step, write_and_drain}
use spoe_forge.Server.Handler.{
  frame_type_name, agent_hello_kwargs, truthy, DisconnectCode, receive, send_frame,
  send_disconnect_on_error, answer_hello,
}
use spoe_forge.Server.Loop.{
  Notified, Pool, closed_after, refuse, say_goodbye, dispatch, dispatched, read_round, StepsTo,
  acquires, reads, answers, Reaches, starts, goes_on,
}
use spoe_forge.Server.Keeps
use spoe_forge.Server.Keeps.{Tracks}
use spoe_forge.Spop.Frame.Codec.{Reader}
use spoe_forge.Server.Salvage.{process_notify}

module _ (R : Tracks) where
  pub on_error-Keeps :
      (code : DisconnectCode) (message : Text)
      → Keeps.Keeps R (send_disconnect_on_error code message)
  unfolding send_disconnect_on_error
  on_error-Keeps code message = Keeps.send_disconnect-Keeps R code _

  pub answer_hello-Keeps : (hello : HaproxyHello) → Keeps.Keeps R (answer_hello hello)
  unfolding answer_hello
  answer_hello-Keeps hello c =
      Keeps.>>=-Keeps R
        (Connection.lift
          (construct FrameType.agent_hello (pos 0) (pos 0) (agent_hello_kwargs c.config)))
        (λ f.
          Connection.◌>>=◌ (send_frame f)
            (λ res. Connection.pure (if truthy hello.healthcheck then false else res)))
        R.still
        (λ f.
          Keeps.>>=-Keeps R (send_frame f)
            (λ res. Connection.pure (if truthy hello.healthcheck then false else res)) (R.sending f)
            (λ res. R.still))
        c

  -- A refusal of the handshake.
  pub refusal-Keeps :
      (code : DisconnectCode) (message : Text)
      → Keeps.Keeps R
          (Connection.◌>>◌ (send_disconnect_on_error code message) (Connection.pure false))
  refusal-Keeps code message =
      Keeps.>>=-Keeps R (send_disconnect_on_error code message) (λ sent. Connection.pure false)
        (on_error-Keeps code message) (λ sent. R.still)

  -- A frame that is no HELLO.
  pub unexpected-Keeps :
      (frame : Frame)
      → Keeps.Keeps R (
          Connection.◌>>◌
            (send_disconnect_on_error DisconnectCode.invalid_frame_received
              (codes "Expected HAPROXY-HELLO, received " ++ frame_type_name frame.frame_type))
            (Connection.pure false))
  unexpected-Keeps frame =
      refusal-Keeps DisconnectCode.invalid_frame_received
        (codes "Expected HAPROXY-HELLO, received " ++ frame_type_name frame.frame_type)

  -- A step that ends in this connection.
  pub after :
      {A : Type 0} (m : Step A) (c d : Connection) (r : Result A)
      → Keeps.Keeps R m
      → m c ≡ (r, d)
      → R.To c d
  after m c d r k e = subst (λ p. R.To c p.1) e (k c)

  pub after_task :
      (notify_handler : Messages → Result (List Action)) (t : Notified) (c d : Connection)
      (n n' : ℕ) (r : Result Bool)
      → process_notify notify_handler t.0 t.1 (c, n) ≡ (r, d, n')
      → R.To c d
  after_task notify_handler t c d n n' r e =
      subst (λ p. R.To c p.1) e (Keeps.process_notify-Keeps R notify_handler t c n)

  module _ (reading : (r : Reader) (c : Connection) → R.To c (record c { reader = r })) where
    pub receive-Keeps : Keeps.Keeps R receive
    unfolding receive
    receive-Keeps c = by_size (number_of c.config.max_frame_size) refl
      where
        by_size : (r : Result ℤ) → number_of c.config.max_frame_size ≡ r → R.To c (receive c).1
        by_size (ok n) e = rw e (reading _ c)
        by_size (err x) e = rw e (R.still c)

    closed_after-To :
        (c : Connection) (p : Result Bool × Connection) → R.To c p.1 → R.To c (closed_after p).1
    closed_after-To c (ok b, d) k = k
    closed_after-To c (err x, d) k = k

    dispatch-Keeps : (frame : Frame) (payload : Payload) → Keeps.Keeps R (dispatch frame payload)
    dispatch-Keeps frame (Payload.notify messages) c = R.still c
    dispatch-Keeps frame (Payload.disconnect d) c =
        closed_after-To c (say_goodbye c) (Keeps.send_disconnect-Keeps R _ _ c)
    dispatch-Keeps frame (Payload.haproxy_hello d) c =
        closed_after-To c (refuse frame c) (on_error-Keeps _ _ c)
    dispatch-Keeps frame (Payload.agent_hello d) c =
        closed_after-To c (refuse frame c) (on_error-Keeps _ _ c)
    dispatch-Keeps frame (Payload.ack d) c =
        closed_after-To c (refuse frame c) (on_error-Keeps _ _ c)

    dispatched-To :
        (c : Connection) (p : Result Frame × Connection) → R.To c p.1 → R.To c (dispatched p).1
    dispatched-To c (ok frame, d) k = R.onward c d _ k (dispatch-Keeps frame frame.payload d)
    dispatched-To c (err eof_error, d) k = k
    dispatched-To c (err _, d) k = k

    pub read_round-Keeps : Keeps.Keeps R read_round
    unfolding read_round
    read_round-Keeps c = dispatched-To c (receive c) (receive-Keeps c)

    pub step-To :
        (notify_handler : Messages → Result (List Action)) (p q : Pool)
        → StepsTo notify_handler p q
        → R.To p.connection q.connection
    step-To notify_handler _ _ (acquires c n running) = R.still c
    step-To notify_handler _ _ (reads c c' n running t e) =
        after read_round c c' _ read_round-Keeps e
    step-To notify_handler _ _ (answers c c' n n' reading front back t sent e) =
        after_task notify_handler t c c' n n' _ e

    pub reached-To :
        (notify_handler : Messages → Result (List Action)) (c : Connection) (p : Pool)
        → Reaches notify_handler c p
        → R.To c p.connection
    reached-To notify_handler c _ starts = R.still c
    reached-To notify_handler c _ (goes_on p q r s) =
        R.onward c p.connection q.connection (reached-To notify_handler c p r)
          (step-To notify_handler p q s)
