-- ===== src/Sample/Ping.antt =====
-- What the agent of docker/sample_server.py answers.
use spoe_forge.Prelude.{
  ◌≡◌, ◌⊎◌, inl, inr, refl, ap, sym, subst, ◌∙◌, Bool, true, false, List, [], ◌∷◌, All,
  if◌then◌else◌,
}
use spoe_forge.Prelude.Text.{Text, codes, text_eq}
use spoe_forge.Prelude.Dict.{Dict, get}
use spoe_forge.Spop.Result.{Result, ok, err, type_error}
use spoe_forge.Spop.Types.{Value, Action}
use spoe_forge.Spop.Wire.{ActsOnObject}
use spoe_forge.Server.Configuration.{default_max_frame_size, default_max_concurrent_frames}
use spoe_forge.Server.Handler.{truthy}
use spoe_forge.Agent.{
  get_arg, settled, handler_actions, handle_message, notify_handler, empty_registry,
}
use spoe_forge.Agent.Contracts.{Gives}
use spoe_forge.Agent.Dispatch.{handle_message-register, notify_handler-one}
use spoe_forge.Forge.{init, message}
use spoe_forge.Forge.Handlers.{ReturnsActions, init-ReturnsActions, message-ReturnsActions}
use spoe_forge.Sample.{slow_in, message_name, spoe_arg, replied, ping, agent, sample_agent}

-- A value in which the handler finds "slow" or not, or does not look for it.
abbrev pub IsReadable : Value → Type 0
IsReadable ua = (truthy ua ≡ false) ⊎ ((s : Text) × (ua ≡ Value.str s))

module _ (text_of : Value → Text) where
  replied-Acts :
      (ua : Value) (r : Result Bool)
      → All ActsOnObject (handler_actions (settled (replied text_of ua r)))
  replied-Acts ua (ok slow) = (tt, tt)
  replied-Acts ua (err e) = tt

  ping-Gives : Gives ActsOnObject (ping text_of)
  unfolding ping
  ping-Gives ctx =
      let ua = get_arg ctx (codes "ua") Value.null in
      replied-Acts ua (if truthy ua then slow_in ua else ok false)

  -- The agent's handlers return proper actions.
  pub agent-ReturnsActions : ReturnsActions (agent text_of)
  unfolding agent sample_agent init
  agent-ReturnsActions =
      message-ReturnsActions sample_agent message_name (ping text_of)
        (init-ReturnsActions (codes "sample-agent") default_max_frame_size true
          default_max_concurrent_frames)
        ping-Gives

  -- What the handler makes of this user agent.
  abbrev pub Replies : Value → List Action → Type 0
  Replies ua actions =
      (IsReadable ua × (actions ≡ spoe_arg text_of ua ∷ [])) ⊎ ((¬ IsReadable ua) × (actions ≡ []))

  actions_of : Value → List Action
  actions_of ua =
      handler_actions (settled (replied text_of ua (if truthy ua then slow_in ua else ok false)))

  falsy-Replies : (ua : Value) → truthy ua ≡ false → Replies ua (actions_of ua)
  unfolding actions_of
  falsy-Replies ua falsy = inl (inl falsy, rw falsy refl)

  text-Replies :
      (s : Text) (b : Bool)
      → truthy (Value.str s) ≡ b
      → Replies (Value.str s) (actions_of (Value.str s))
  unfolding actions_of
  text-Replies s true e = inl (inr (s, refl), rw e refl)
  text-Replies s false e = inl (inl e, rw e refl)

  torn-Replies :
      (ua : Value)
      → slow_in ua ≡ err type_error
      → ((s : Text) → ua ≡ Value.str s → ⊥)
      → (b : Bool) → truthy ua ≡ b
      → Replies ua (actions_of ua)
  unfolding actions_of
  torn-Replies ua torn other true e = inr (never, rw (e, torn) refl)
    where
      never : ¬ IsReadable ua
      never (inl false_one) = cc
      never (inr (s, p)) = other s p
  torn-Replies ua torn other false e = falsy-Replies ua e

  value-Replies : (ua : Value) → Replies ua (actions_of ua)
  value-Replies (Value.str s) = text-Replies s (truthy (Value.str s)) refl
  value-Replies Value.null = falsy-Replies Value.null refl
  value-Replies (Value.bool b) = torn-Replies (Value.bool b) refl (λ s p. cc) b refl
  value-Replies (Value.int v) =
      torn-Replies (Value.int v) refl (λ s p. cc) (truthy (Value.int v)) refl
  value-Replies (Value.bytes b) =
      torn-Replies (Value.bytes b) refl (λ s p. cc) (truthy (Value.bytes b)) refl
  value-Replies (Value.ipv4 n) = torn-Replies (Value.ipv4 n) refl (λ s p. cc) true refl
  value-Replies (Value.ipv6 n) = torn-Replies (Value.ipv6 n) refl (λ s p. cc) true refl
  value-Replies Value.unsupported = torn-Replies Value.unsupported refl (λ s p. cc) true refl

  empty_message :
      (name : Text) (args : Dict Value)
      → handler_actions (handle_message empty_registry name args) ≡ []
  unfolding handle_message get
  empty_message name args = refl

  -- A NOTIFY of one message to the agent: a message of another name has no actions; the message
  -- `test-ping` has the action with the text of its user agent, if that is text, missing or otherwise
  -- false, and no actions if it is any other value, for which the handler raises.
  pub ping_actions :
      (name : Text) (args : Dict Value)
      → let ua = get_arg (record { message = name; args = args }) (codes "ua") Value.null in
        let actions = notify_handler (agent text_of).registry ((name, args) ∷ []) in
        (text_eq message_name name ≡ false → actions ≡ [])
        × (text_eq message_name name ≡ true → Replies ua actions)
  unfolding agent message ping actions_of handle_message sample_agent
  ping_actions name args =
      let one = notify_handler-one (agent text_of).registry name args in
      let own = handle_message-register empty_registry message_name name (ping text_of) args in
      let ua = get_arg (record { message = name; args = args }) (codes "ua") Value.null in
      (
        λ other. one ∙ ap handler_actions own ∙ (rw other (empty_message name args)),
        λ same.
            subst (Replies ua) (sym (one ∙ ap handler_actions own ∙ (rw same refl)))
              (value-Replies ua),
      )
