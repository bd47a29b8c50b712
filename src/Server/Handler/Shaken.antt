-- ===== src/Server/Handler/Shaken.antt =====
-- What any handshake of spoe_forge/server/handler.py that goes on has agreed on, whatever the peer sent.
use spoe_forge.Prelude.{
  ◌≡◌, refl, sym, ap, subst, ◌∙◌, inl, inr, ◌⊎◌, ◌++◌, arith, Bool, true, false, List, Bool-cases,
  if◌then◌else◌,
}
use spoe_forge.Prelude.Int.{ℤ, pos, ◌≤ℤ◌, leb_ℤ}
use spoe_forge.Prelude.Text.{Text, codes}
use spoe_forge.Prelude.Buffer.{Bytes}
use spoe_forge.Spop.Result.{Result, ok, err, >>=-eq-ok}
use spoe_forge.Spop.Types.{Value}
use spoe_forge.Spop.Frame.{HaproxyHello, Payload, Frame}
use spoe_forge.Spop.Frame.Codec.{Reader}
use spoe_forge.Server.Configuration.{
  ServerConfiguration, number_of, min_value, find_max_frame_size, find_common_capabilities,
  check_version_compatibility, negotiate_server_compatibility,
}
use spoe_forge.Server.Configuration.Limits.{min_value_lem, checked_lem}
use spoe_forge.Server.Connection
use spoe_forge.Server.Connection.{Connection, Step, write_and_drain, continue}
use spoe_forge.Server.Handler.{
  receive, answer_hello, frame_type_name, negotiated, handle_hello, handle_handshake,
  DisconnectCode, send_disconnect_on_error,
}
use spoe_forge.Server.Keeps.{of_view}
use spoe_forge.Server.Handler.Disconnects.{wrote}
use spoe_forge.Server.Keeps.Rounds

-- The configuration of a connection.
abbrev pub config_of : Connection → ServerConfiguration
config_of c = c.config

pub writing : (b : Bytes) (c : Connection) → config_of (wrote b c) ≡ config_of c
writing b c = refl

pub reading : (r : Reader) (c : Connection) → config_of c ≡ config_of (record c { reader = r })
reading r c = refl

-- A configuration with a positive frame size, no larger than before, and the concurrency bound of
-- before.
pub record IsWithin (old new : ServerConfiguration) : Type 0 where
  pub size : ℤ
  pub sized : number_of new.max_frame_size ≡ ok size
  pub positive : pos 1 ≤ℤ size
  pub limit : ℤ
  pub limited : number_of old.max_frame_size ≡ ok limit
  pub smaller : size ≤ℤ limit
  pub concurrent : new.max_concurrent_frames ≡ old.max_concurrent_frames

find-IsWithin :
    (old new : ServerConfiguration) (v : Value)
    → find_max_frame_size old v ≡ ok new
    → new.server_compatible ≡ true
    → IsWithin old new
unfolding find_max_frame_size
find-IsWithin old new v h compatible =
    let (size, p, h') = >>=-eq-ok (min_value v old.max_frame_size) _ h in
    let (n, q, h'') = >>=-eq-ok (number_of size) _ h' in
    let (z, y, r, s, low) = min_value_lem v old.max_frame_size size p in
    let agreed : ServerConfiguration = record old {
      max_frame_size = size;
      server_compatible = if leb_ℤ n (pos 0) then false else old.server_compatible;
    } in
    let e : agreed ≡ new = cc in
    let same : n ≡ z = cc in
    elim (Bool-cases (leb_ℤ n (pos 0))) [
      | inl none ↦ let k = rw none at (ap (λ c. c.server_compatible) e ∙ compatible) in cc
      | inr some ↦ record {
        size = z;
        sized = ap (λ c. number_of c.max_frame_size) (sym e) ∙ r;
        positive = let k = rw same at some in ground arith;
        limit = y;
        limited = s;
        smaller = low;
        concurrent = ap (λ c. c.max_concurrent_frames) (sym e);
      }
    ]

negotiate-IsWithin :
    (old new : ServerConfiguration) (versions caps : List Text) (v : Value)
    → negotiate_server_compatibility old versions v caps ≡ ok new
    → new.server_compatible ≡ true
    → IsWithin old new
unfolding negotiate_server_compatibility find_common_capabilities
negotiate-IsWithin old new versions caps v h compatible =
    let (checked, p, h') = >>=-eq-ok (check_version_compatibility old versions) _ h in
    let (sized, q, h'') = >>=-eq-ok (find_max_frame_size checked v) _ h' in
    let (p', p'') = checked_lem old checked versions p in
    let e : find_common_capabilities sized caps ≡ new = cc in
    let w = find-IsWithin checked sized v q (ap (λ c. c.server_compatible) e ∙ compatible) in
    record {
      size = w.size;
      sized = ap (λ c. number_of c.max_frame_size) (sym e) ∙ w.sized;
      positive = w.positive;
      limit = w.limit;
      limited = ap number_of (sym p') ∙ w.limited;
      smaller = w.smaller;
      concurrent = ap (λ c. c.max_concurrent_frames) (sym e) ∙ w.concurrent ∙ p'';
    }

-- A step that ends in a refusal does not go on.
refusal-false :
    (code : DisconnectCode) (message : Text) (c c' : Connection)
    → (Connection.◌>>◌ (send_disconnect_on_error code message) (Connection.pure false)) c
      ≡ (ok true, c')
    → ⊥
refusal-false code message c c' h = by_result (send_disconnect_on_error code message c) h
  where
    by_result :
        (r : Result Bool × Connection)
        → continue {A = Bool} (λ sent. Connection.pure false) r ≡ (ok true, c')
        → ⊥
    by_result (ok b, d) k = cc
    by_result (err x, d) k = cc

-- The branch of a condition that gave a value.
chosen :
    {A : Type 0} (b : Bool) (p q x : A)
    → (if b then p else q) ≡ x
    → ((b ≡ true) × (p ≡ x)) ⊎ (q ≡ x)
chosen true p q x h = inl (refl, h)
chosen false p q x h = inr h

negotiated-IsWithin :
    (hello : HaproxyHello) (c c' : Connection) (r : Result ServerConfiguration)
    → negotiate_server_compatibility c.config hello.supported_versions hello.max_frame_size
        hello.capabilities
      ≡ r
    → negotiated hello c r ≡ (ok true, c')
    → IsWithin c.config c'.config
negotiated-IsWithin hello c c' (err e) n h = cc
negotiated-IsWithin hello c c' (ok config) n h =
    let start : Connection = record c { config = config } in
    elim (chosen config.server_compatible (answer_hello hello start) _ (ok true, c') h) [
      | inl (both, answered) ↦
          let e =
            Rounds.after (of_view config_of writing) (answer_hello hello) start c' (ok true)
              (Rounds.answer_hello-Keeps (of_view config_of writing) hello) answered in
          subst (IsWithin c.config) e (
            negotiate-IsWithin c.config config hello.supported_versions hello.capabilities
              hello.max_frame_size n both)
      | inr refused ↦ absurd (refusal-false _ _ start c' refused)
    ]

unexpected-false :
    (frame : Frame) (c c' : Connection)
    → (Connection.◌>>◌
          (send_disconnect_on_error DisconnectCode.invalid_frame_received
            (codes "Expected HAPROXY-HELLO, received " ++ frame_type_name frame.frame_type))
          (Connection.pure false))
        c
      ≡ (ok true, c')
    → ⊥
unexpected-false frame = refusal-false _ _

handle_hello-IsWithin :
    (frame : Frame) (payload : Payload) (c c' : Connection)
    → handle_hello frame payload c ≡ (ok true, c')
    → IsWithin c.config c'.config
unfolding handle_hello
handle_hello-IsWithin frame (Payload.haproxy_hello hello) c c' h =
    negotiated-IsWithin hello c c' _ refl h
handle_hello-IsWithin frame (Payload.notify m) c c' h = absurd (unexpected-false frame c c' h)
handle_hello-IsWithin frame (Payload.disconnect d) c c' h = absurd (unexpected-false frame c c' h)
handle_hello-IsWithin frame (Payload.agent_hello d) c c' h = absurd (unexpected-false frame c c' h)
handle_hello-IsWithin frame (Payload.ack d) c c' h = absurd (unexpected-false frame c c' h)

pub handle_handshake-IsWithin :
    (c c' : Connection) → handle_handshake c ≡ (ok true, c') → IsWithin c.config c'.config
unfolding handle_handshake
handle_handshake-IsWithin c c' h =
    by_frame (receive c) h (Rounds.receive-Keeps (of_view config_of writing) reading c)
  where
    by_frame :
        (r : Result Frame × Connection)
        → continue {A = Frame} (λ f. handle_hello f f.payload) r ≡ (ok true, c')
        → config_of c ≡ config_of r.1
        → IsWithin c.config c'.config
    by_frame (ok f, d) k e =
        subst (λ g. IsWithin g c'.config) (sym e) (handle_hello-IsWithin f f.payload d c' k)
    by_frame (err x, d) k e = cc
