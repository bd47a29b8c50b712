-- ===== src/Server/Keeps/Lives.antt =====
-- What the handshake, the end of a task group and the `except*` clauses of spoe_forge/server/handler.py
-- relate a connection to.
use spoe_forge.Prelude.{◌≡◌, refl, Bool, true, false, List, [], ◌∷◌, ◌++◌, if◌then◌else◌}
use spoe_forge.Prelude.Text.{Text}
use spoe_forge.Spop.Result.{Result, ok, err}
use spoe_forge.Spop.Types.{Messages, Action}
use spoe_forge.Spop.Frame.{HaproxyHello, Payload, Frame}
use spoe_forge.Spop.Frame.Codec.{Reader}
use spoe_forge.Server.Configuration.{ServerConfiguration, negotiate_server_compatibility}
use spoe_forge.Server.Connection.{Connection}
use spoe_forge.Server.Handler.{
  DisconnectCode, send_disconnect_on_error, receive, answer_hello, negotiated, handle_hello,
  handle_handshake,
}
use spoe_forge.Server.Loop.{Pool, pool, read_round}
use spoe_forge.Server.Core.{
  Failure, Clause, takes, left_over, raised_in, except, finish, settle, close_connection, Winds,
  cancelled, goes_on_too, answers_too, fails_too, closes_too, raises_too, Ends, refused, unshaken,
  served, too_big, protocol,
}
use spoe_forge.Server.Keeps
use spoe_forge.Server.Keeps.{Tracks}
use spoe_forge.Server.Keeps.Rounds

-- A configuration that a HELLO negotiates.
abbrev pub Negotiates : Connection → HaproxyHello → ServerConfiguration → Type 0
Negotiates c hello config =
    negotiate_server_compatibility c.config hello.supported_versions hello.max_frame_size
      hello.capabilities
    ≡ ok config

module _ (R : Tracks)
    (reading : (r : Reader) (c : Connection) → R.To c (record c { reader = r })) where
  module _
      (configuring : (c : Connection) (hello : HaproxyHello) (config : ServerConfiguration)
        → Negotiates c hello config
        → R.To c (record c { config = config })) where
    negotiated-To :
        (hello : HaproxyHello) (c : Connection) (r : Result ServerConfiguration)
        → negotiate_server_compatibility c.config hello.supported_versions hello.max_frame_size
            hello.capabilities
          ≡ r
        → R.To c (negotiated hello c r).1
    negotiated-To hello c (err e) n = R.still c
    negotiated-To hello c (ok config) n =
        let c' : Connection = record c { config = config } in
        R.onward c c' _ (configuring c hello config n) (
          Keeps.either_way R {A = Bool} config.server_compatible (answer_hello hello c') _ c'
            (Rounds.answer_hello-Keeps R hello c') (Rounds.refusal-Keeps R _ _ c'))

    handle_hello-Keeps :
        (frame : Frame) (payload : Payload) → Keeps.Keeps R (handle_hello frame payload)
    unfolding handle_hello
    handle_hello-Keeps frame (Payload.haproxy_hello hello) c = negotiated-To hello c _ refl
    handle_hello-Keeps frame (Payload.notify messages) c = Rounds.unexpected-Keeps R frame c
    handle_hello-Keeps frame (Payload.disconnect d) c = Rounds.unexpected-Keeps R frame c
    handle_hello-Keeps frame (Payload.agent_hello d) c = Rounds.unexpected-Keeps R frame c
    handle_hello-Keeps frame (Payload.ack d) c = Rounds.unexpected-Keeps R frame c

    pub handle_handshake-Keeps : Keeps.Keeps R handle_handshake
    unfolding handle_handshake
    handle_handshake-Keeps =
        Keeps.>>=-Keeps R receive (λ f. handle_hello f f.payload) (Rounds.receive-Keeps R reading)
          (λ f. handle_hello-Keeps f f.payload)

    module _ (notify_handler : Messages → Result (List Action)) where
      wound-To :
          (looping : Bool) (p : Pool) (fs : List Failure) (d : Connection)
          → Winds notify_handler looping p fs d
          → R.To p.connection d
      wound-To _ p _ _ (cancelled _ _) = R.still p.connection
      wound-To _ p fs d (goes_on_too _ q _ _ s w) =
          R.onward p.connection q.connection d (Rounds.step-To R reading notify_handler p q s)
            (wound-To true q fs d w)
      wound-To _ _ fs d (answers_too c c' _ n n' front back t sent _ e w) =
          R.onward c c' d (Rounds.after_task R notify_handler t c c' n n' _ e)
            (wound-To false (pool c' n' false (front ++ back)) fs d w)
      wound-To _ _ _ d (fails_too looping c c' _ n n' slot front back t x fs e w) =
          R.onward c c' d (Rounds.after_task R notify_handler t c c' n n' _ e)
            (wound-To looping (pool c' n' slot (front ++ back)) fs d w)
      wound-To _ _ _ d (closes_too c c' _ n running fs e w) =
          R.onward c c' d (Rounds.after R read_round c c' _ (Rounds.read_round-Keeps R reading) e)
            (wound-To false (pool c' n false running) fs d w)
      wound-To _ _ _ d (raises_too c c' _ n running x fs e w) =
          R.onward c c' d (Rounds.after R read_round c c' _ (Rounds.read_round-Keeps R reading) e)
            (wound-To false (pool c' n false running) fs d w)

      pub ended-To : (c d : Connection) (fs : List Failure) → Ends notify_handler c fs d → R.To c d
      ended-To c _ _ (refused d e) = Rounds.after R handle_handshake c d _ handle_handshake-Keeps e
      ended-To c _ _ (unshaken d x e) =
          Rounds.after R handle_handshake c d _ handle_handshake-Keeps e
      ended-To c _ _ (served c' d p f fs e r w) =
          R.onward c c' d (Rounds.after R handle_handshake c c' _ handle_handshake-Keeps e) (
            R.onward c' p.connection d (Rounds.reached-To R reading notify_handler c' p r)
              (wound-To true p (f ∷ fs) d w))

  module _ (closing_it : (c : Connection) → R.To c (close_connection c)) where
    raised_in-To :
        (c : Connection) (p : Result Bool × Connection) → R.To c p.1 → R.To c (raised_in p).1
    raised_in-To c (ok sent, d) k = k
    raised_in-To c (err e, d) k = k

    except-To :
        (k : Clause) (code : DisconnectCode) (message : Text) (fs : List Failure) (c : Connection)
        → R.To c (except k code message fs c).1
    except-To k code message fs c = by_part (takes k fs)
      where
        by_part :
            (b : Bool)
            → R.To c (if b then raised_in (send_disconnect_on_error code message c) else ([], c)).1
        by_part true =
            raised_in-To c (send_disconnect_on_error code message c)
              (Rounds.on_error-Keeps R code message c)
        by_part false = R.still c

    finish-To : (fs : List Failure) (c : Connection) → R.To c (finish fs c).1
    finish-To [] c = closing_it c
    finish-To (f ∷ fs) c = R.still c

    pub settle-To :
        (too_big_text protocol_text : Text) (fs : List Failure) (c : Connection)
        → R.To c (settle too_big_text protocol_text fs c).1
    unfolding settle
    settle-To t u fs c =
        let first = except too_big DisconnectCode.frame_too_big t fs c in
        let second = except protocol DisconnectCode.protocol_error u fs first.1 in
        R.onward c first.1 _ (except-To too_big DisconnectCode.frame_too_big t fs c) (
          R.onward first.1 second.1 _
            (except-To protocol DisconnectCode.protocol_error u fs first.1)
            (finish-To (first.0 ++ (second.0 ++ left_over fs)) second.1))
