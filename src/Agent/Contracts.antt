-- ===== src/Agent/Contracts.antt =====
-- Predicates on the actions that handlers return, and the dispatch.
use spoe_forge.Prelude.{inl, inr, Bool-cases, List, [], ◌∷◌, ◌++◌, All, All-append}
use spoe_forge.Prelude.Text.{Text, text_eq}
use spoe_forge.Prelude.Dict.{get}
use spoe_forge.Spop.Types.{Action, Messages}
use spoe_forge.Agent.{
  AgentContext, MessageHandlerFunc, AgentRegistry, empty_registry, register, settled,
  handle_message, handler_actions, notify_loop, notify_handler,
}
use spoe_forge.Agent.Dispatch.{handle_message-register}

module _ (P : Action → Type 0) where
  -- The dispatch gives such actions only, whatever messages come.
  abbrev pub Yields : AgentRegistry → Type 0
  Yields r = (messages : Messages) → All P (notify_handler r messages)

  -- The same of one function, whatever its context.
  abbrev pub Gives : MessageHandlerFunc → Type 0
  Gives func = (ctx : AgentContext) → All P (handler_actions (settled (func ctx)))

  by_message :
      (r : AgentRegistry)
      → ((c : AgentContext) → All P (handler_actions (handle_message r c.message c.args)))
      → (acc : List Action) (messages : Messages) → All P acc
      → All P (notify_loop r acc messages)
  unfolding notify_loop
  by_message r h acc [] k = k
  by_message r h acc ((name, args) ∷ messages) k =
      let own = handler_actions (handle_message r name args) in
      by_message r h (acc ++ own) messages
        (All-append P acc own k (h (record { message = name; args = args })))

  one_message :
      (r : AgentRegistry) (c : AgentContext)
      → Yields r
      → All P (handler_actions (handle_message r c.message c.args))
  unfolding notify_handler notify_loop
  one_message r c h = h ((c.message, c.args) ∷ [])

  pub empty_registry-Yields : Yields empty_registry
  unfolding notify_handler handle_message get
  empty_registry-Yields messages = by_message empty_registry (λ c. tt) [] messages tt

  pub register-Yields :
      (r : AgentRegistry) (name : Text) (func : MessageHandlerFunc)
      → Yields r
      → Gives func
      → Yields (register r name func)
  unfolding notify_handler
  register-Yields r name func h g messages = by_message (register r name func) each [] messages tt
    where
      each :
          (c : AgentContext)
          → All P (handler_actions (handle_message (register r name func) c.message c.args))
      each c = elim (Bool-cases (text_eq name c.message)) [
        | inl own ↦ rw (handle_message-register r name c.message func c.args, own) (g c)
        | inr apart ↦
            rw (handle_message-register r name c.message func c.args, apart) (one_message r c h)
      ]
