-- ===== src/Server/Keeps.antt =====
-- What the operations of spoe_forge/server/handler.py keep of a connection, or relate it to.
pub mod Rounds
pub mod Lives
use spoe_forge.Prelude.{◌++◌, ℕ, ◌≡◌, refl, ◌∙◌, sym, Bool, true, false, if◌then◌else◌, List}
use spoe_forge.Prelude.Text.{Text}
use spoe_forge.Prelude.Buffer.{Bytes}
use spoe_forge.Spop.Result.{Result, ok, err, connection_error}
use spoe_forge.Prelude.Int.{pos}
use spoe_forge.Spop.Frame.Construct.{construct}
use spoe_forge.Spop.Types.{FrameType, MetaData, Messages, Action}
use spoe_forge.Spop.Frame.{Frame}
use spoe_forge.Server.Connection
use spoe_forge.Server.Connection.{is_closing, Connection, Step, continue, write_and_drain}
use spoe_forge.Server.Handler.{
  DisconnectCode, send_frame, encode_within, send_disconnect, disconnect_kwargs,
}
use spoe_forge.Server.Handler.Disconnects.{wrote}
use spoe_forge.Server.Salvage.{
  ack_frame, is_encode_failure, resend, salvaged, send_ack, acknowledge, process_notify,
}
use spoe_forge.Server.Loop.{Notified}

-- What relates a connection to the later ones, through every frame that is sent.
pub record Tracks : Type 1 where
  pub To : Connection → Connection → Type 0
  pub still : (c : Connection) → To c c
  pub onward : (c d e : Connection) → To c d → To d e → To c e
  pub sending : (f : Frame) (c : Connection) → To c (send_frame f c).1

module _ (R : Tracks) where
  -- A step to related connections only.
  abbrev pub Keeps : {A : Type 0} → Step A → Type 0
  Keeps m = (c : Connection) → R.To c (m c).1

  -- Either of two steps.
  pub either_way :
      {A : Type 0} (b : Bool) (p q : Result A × Connection) (c : Connection)
      → R.To c p.1
      → R.To c q.1
      → R.To c (if b then p else q).1
  either_way true p q c h k = h
  either_way false p q c h k = k

  pub >>=-Keeps :
      {A B : Type 0} (m : Step A) (f : A → Step B)
      → Keeps m
      → ((a : A) → Keeps (f a))
      → Keeps (Connection.◌>>=◌ m f)
  >>=-Keeps {A} m f km kf c = ended (m c) (km c)
    where
      ended : (p : Result A × Connection) → R.To c p.1 → R.To c (continue f p).1
      ended (ok a, d) e = R.onward c d _ e (kf a d)
      ended (err x, d) e = e

  pub send_disconnect-Keeps :
      (code : DisconnectCode) (message : Text) → Keeps (send_disconnect code message)
  unfolding send_disconnect
  send_disconnect-Keeps code message =
      >>=-Keeps
        (Connection.lift
          (construct FrameType.agent_disconnect (pos 0) (pos 0) (disconnect_kwargs code message)))
        send_frame R.still R.sending

  resend-Keeps :
      (m : Step Bool) (c : Connection) (p : Result Bool × Connection)
      → Keeps m
      → R.To c p.1
      → R.To c (resend m p).1
  resend-Keeps m c (ok b, d) k e = e
  resend-Keeps m c (err x, d) k e =
      either_way (is_encode_failure x) (m d) (err x, d) c (R.onward c d _ e (k d)) e

  send_ack-Keeps :
      (m : MetaData) (actions : List Action) (ack : Frame) → Keeps (send_ack m actions ack)
  send_ack-Keeps m actions ack c =
      resend-Keeps (Connection.◌>>=◌ (salvaged m actions) send_frame) c (send_frame ack c)
        (>>=-Keeps (salvaged m actions) send_frame R.still R.sending) (R.sending ack c)

  acknowledge-Keeps : (m : MetaData) (actions : List Action) → Keeps (acknowledge m actions)
  acknowledge-Keeps m actions =
      >>=-Keeps (Connection.lift (ack_frame m actions)) (send_ack m actions) R.still
        (send_ack-Keeps m actions)

  pub process_notify-Keeps :
      (notify_handler : Messages → Result (List Action)) (t : Notified) (c : Connection) (n : ℕ)
      → R.To c (process_notify notify_handler t.0 t.1 (c, n)).1
  unfolding process_notify
  process_notify-Keeps notify_handler t c n =
      >>=-Keeps (Connection.lift (notify_handler t.1)) (acknowledge t.0) R.still
        (acknowledge-Keeps t.0) c

-- A part of a connection that writing leaves as it is.
module _ {V : Type 0} (view : Connection → V)
    (writing : (b : Bytes) (c : Connection) → view (wrote b c) ≡ view c) where
  written-view : (b : Bytes) (c : Connection) → view c ≡ view (write_and_drain b c).1
  written-view b c = by_drain (c.writer.broken (c.writer.sent ++ b))
    where
      by_drain :
          (broken : Bool)
          → view c
            ≡ view
                (if◌then◌else◌ {A = Result Bool × Connection} broken
                  (err connection_error, wrote b c)
                  (ok true, wrote b c)).1
      by_drain true = sym (writing b c)
      by_drain false = sym (writing b c)

  pub send_frame-view : (f : Frame) (c : Connection) → view c ≡ view (send_frame f c).1
  unfolding send_frame
  send_frame-view f c = by_closing (is_closing c.writer)
    where
      written : (r : Result Bytes) → view c ≡ view (continue write_and_drain (r, c)).1
      written (ok b) = written-view b c
      written (err x) = refl

      by_closing :
          (b : Bool)
          → view c
            ≡ view
                (if b
                  then (ok false, c)
                  else continue write_and_drain (encode_within c.config.max_frame_size f, c)).1
      by_closing true = refl
      by_closing false = written (encode_within c.config.max_frame_size f)

  -- It is related to itself alone.
  abbrev pub of_view : Tracks
  of_view = record {
    To = λ c d. view c ≡ view d;
    still = λ c. refl;
    onward = λ c d e p q. p ∙ q;
    sending = send_frame-view;
  }
