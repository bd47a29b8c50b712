-- ===== src/Sample/Tests.antt =====
-- The sample agent on a user agent that is slow, and on values that are no text.
use spoe_forge.Prelude.{◌≡◌, refl, arith, true, false, [], ◌∷◌, ◌++◌}
use spoe_forge.Prelude.Int.{pos}
use spoe_forge.Prelude.Text.{Text, codes, text_eq}
use spoe_forge.Prelude.Dict.{Dict, get}
use spoe_forge.Prelude.Buffer.{Bytes}
use spoe_forge.Spop.Result.{ok}
use spoe_forge.Spop.Types.{Value, ActionScope, set_var_action}
use spoe_forge.Spop.Frame.Construct.{final_metadata}
use spoe_forge.Spop.Frame.Codec.{Ending, decode}
use spoe_forge.Server.Salvage.Ack.{ack_of}
use spoe_forge.Server.Service.{answer}
use spoe_forge.Agent.{get_arg, notify_handler, Outcome}
use spoe_forge.Forge.{answers_of}
use spoe_forge.Sample.{message_name, agent, ping, is_in, starts_with}
use spoe_forge.Sample.Ping.{Replies, ping_actions}
use spoe_forge.Sample.Acknowledged.{answer_text, ping_acknowledged}

-- `str(ua)` of text and of `None`.
abbrev shown : Value → Text
shown (Value.str s) = s
shown Value.null = codes "None"
shown _ = []

abbrev slow_args : Dict Value
slow_args = (codes "ua", Value.str (codes "a slow one")) ∷ []

-- "slow" is found behind other text.
found : is_in (codes "slow") (codes "a slow one") ≡ true
unfolding is_in starts_with
found = refl

-- A number raises.
torn :
    ping shown (record { message = message_name; args = (codes "ua", Value.int (pos 7)) ∷ [] })
    ≡ Outcome.raised
unfolding ping get_arg get text_eq
torn = refl

ping_actions_example :
    let ua =
      get_arg (record { message = message_name; args = slow_args }) (codes "ua") Value.null in
    let actions = notify_handler (agent shown).registry ((message_name, slow_args) ∷ []) in
    (text_eq message_name message_name ≡ false → actions ≡ [])
    × (text_eq message_name message_name ≡ true → Replies shown ua actions)
ping_actions_example = ping_actions shown message_name slow_args

ping_acknowledged_example :
    (bytes : Bytes) × (answer
        (pos 4096)
        (answers_of (agent shown))
        (final_metadata (pos 1) (pos 2), (message_name, slow_args) ∷ [])
      ≡ ok bytes)
    × ((more : Bytes) (ending : Ending)
        → decode (record { buffer = bytes ++ more; ending = ending }) (pos 4096) ≡ (
          ok (
              ack_of (final_metadata (pos 1) (pos 2)) (
                set_var_action ActionScope.request
                  (codes "spoe_arg")
                  (Value.str (answer_text (codes "a slow one")))
                ∷ [])),
          record { buffer = more; ending = ending },
        ))
unfolding get text_eq
ping_acknowledged_example =
    ping_acknowledged shown (λ s. refl) (final_metadata (pos 1) (pos 2)) slow_args
      (codes "a slow one") 4096 (omega arith, omega arith, omega arith, omega arith) refl
      (omega arith) (omega arith) (omega arith)
