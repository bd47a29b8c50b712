-- ===== src/Agent/Dispatch.antt =====
-- How messages reach their handlers, and what one handler can do to the others.
use spoe_forge.Prelude.{
  ◌≡◌, refl, sym, ap, ◌∙◌, Bool, true, false, List, [], ◌∷◌, ◌++◌, append_assoc, append-nil, some,
  if◌then◌else◌, Bool-cases, inl, inr,
}
use spoe_forge.Prelude.Text.{Text, text_eq}
use spoe_forge.Prelude.Dict.{Dict, get, get-put}
use spoe_forge.Spop.Types.{Value, Action, Messages}
use spoe_forge.Agent.{
  AgentContext, MessageHandlerFunc, AgentRegistry, register, settled, run_handler, handle_message,
  handler_actions, notify_loop, notify_handler,
}

-- Registering a handler decides the messages of its name, whatever was registered for it, and leaves
-- the messages of every other name as they were.
pub handle_message-register :
    (r : AgentRegistry) (name message : Text) (handler : MessageHandlerFunc) (args : Dict Value)
    → handle_message (register r name handler) message args ≡ (
        if text_eq name message
        then settled (handler (record { message = message; args = args }))
        else handle_message r message args)
unfolding handle_message register
handle_message-register r name message handler args =
    rw (get-put r.handlers name message handler) (go (text_eq name message))
  where
    go :
        (b : Bool)
        → run_handler
            (if b then some handler else get r.handlers message)
            (record { message = message; args = args })
          ≡ (if b
              then settled (handler (record { message = message; args = args }))
              else run_handler (get r.handlers message) (record { message = message; args = args }))
    go true = refl
    go false = refl

-- The actions collected so far stay in front.
notify_loop-append :
    (r : AgentRegistry) (acc : List Action) (messages : Messages)
    → notify_loop r acc messages ≡ acc ++ notify_loop r [] messages
unfolding notify_loop
notify_loop-append r acc [] = sym (append-nil acc)
notify_loop-append r acc ((message, args) ∷ messages) =
    let own = handler_actions (handle_message r message args) in
    notify_loop-append r (acc ++ own) messages
    ∙ append_assoc acc own (notify_loop r [] messages)
    ∙ ap (λ l. acc ++ l) (sym (notify_loop-append r own messages))

-- The actions of a NOTIFY are those of its messages, in the order of the messages: what handles the
-- front of the frame and what handles the rest follow one another, whatever either contains.
pub notify_handler-append :
    (r : AgentRegistry) (front back : Messages)
    → notify_handler r (front ++ back) ≡ notify_handler r front ++ notify_handler r back
unfolding notify_handler notify_loop
notify_handler-append r [] back = refl
notify_handler-append r ((message, args) ∷ front) back =
    let own = handler_actions (handle_message r message args) in
    notify_loop-append r own (front ++ back)
    ∙ ap (λ l. own ++ l) (notify_handler-append r front back)
    ∙ sym (append_assoc own (notify_handler r front) (notify_handler r back))
    ∙ ap (λ l. l ++ notify_handler r back) (sym (notify_loop-append r own front))

-- A frame with one message.
pub notify_handler-one :
    (r : AgentRegistry) (message : Text) (args : Dict Value)
    → notify_handler r ((message, args) ∷ []) ≡ handler_actions (handle_message r message args)
unfolding notify_handler notify_loop
notify_handler-one r message args = refl

-- The messages of a frame but those of one name.
unfoldable pub without : Text → Messages → Messages
without name [] = []
without name ((message, args) ∷ messages) =
    let rest = without name messages in
    if text_eq name message then rest else (message, args) ∷ rest

-- A handler that gives nothing: it raises, or returns `None` or what is no list, on every context.
abbrev pub GivesNothing : MessageHandlerFunc → Type 0
GivesNothing handler = (ctx : AgentContext) → handler_actions (settled (handler ctx)) ≡ []

-- A handler that raises, or returns nothing of use, costs a frame the actions of its own messages and
-- no others: the frame has the actions that it would have without those messages.
pub failing_handler :
    (r : AgentRegistry) (name : Text) (handler : MessageHandlerFunc) (messages : Messages)
    → GivesNothing handler
    → notify_handler (register r name handler) messages ≡ notify_handler r (without name messages)
unfolding notify_handler notify_loop without
failing_handler r name handler [] h = refl
failing_handler r name handler ((message, args) ∷ messages) h =
    elim (Bool-cases (text_eq name message)) [
      | inl own ↦
          rw
            (
              handle_message-register r name message handler args,
              own,
              h (record { message = message; args = args }),
            )
            (failing_handler r name handler messages h)
      | inr apart ↦
          rw (handle_message-register r name message handler args, apart)
            (notify_loop-append (register r name handler)
                (handler_actions (handle_message r message args)) messages
              ∙ ap (λ l. handler_actions (handle_message r message args) ++ l)
                  (failing_handler r name handler messages h)
              ∙ sym (
                  notify_loop-append r (handler_actions (handle_message r message args))
                    (without name messages)))
    ]
