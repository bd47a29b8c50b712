-- ===== src/Sample/Acknowledged.antt =====
-- The ACK that HAProxy reads back from the agent of docker/sample_server.py.
use spoe_forge.Prelude.{
  ℕ, ◌+◌, ◌^◌, ◌≤◌, ◌<◌, ◌≡◌, inl, inr, refl, ap, subst, ◌∙◌, arith, append-nil, List, [], ◌∷◌,
  ◌++◌, length, length-append, All-append, some, none, Option,
}
use spoe_forge.Prelude.Int.{pos}
use spoe_forge.Prelude.Text.{Text, codes, text_eq_refl}
use spoe_forge.Prelude.Dict.{Dict, get}
use spoe_forge.Prelude.Buffer.{Bytes, IsByte}
use spoe_forge.Spop.Result.{ok}
use spoe_forge.Spop.Types.{Value, MetaData, Messages, Action, IsLatin1, set_var_action, ActionScope}
use spoe_forge.Spop.Wire.{IsWireMetaData}
use spoe_forge.Spop.Octets.{octets}
use spoe_forge.Spop.Varint.{compose_nat}
use spoe_forge.Spop.Varint.Laws.{length-compose_nat}
use spoe_forge.Spop.Encoders.DataTypes.{auto_encode_dt_var}
use spoe_forge.Spop.Encoders.Payloads.{compose_action, encode_action_list}
use spoe_forge.Spop.Frame.Codec.{Ending, encode, decode}
use spoe_forge.Spop.Frame.RoundTrip.Frames.{encode-fits}
use spoe_forge.Server.Handler.Sizes.{string_small, string_long}
use spoe_forge.Server.Salvage.Ack.{ack_of, ack_frame-ack_of}
use spoe_forge.Server.Salvage.Fits.{ack_body}
use spoe_forge.Server.Salvage.Total.{metadata-short}
use spoe_forge.Server.Service.{answer}
use spoe_forge.Server.Service.Reply.{answer-decode}
use spoe_forge.Agent.{AgentContext, get_arg, notify_handler}
use spoe_forge.Forge.{answers_of}
use spoe_forge.Sample.Ping.{Replies, ping_actions}
use spoe_forge.Sample.{message_name, agent}

-- The bytes of the action.
action_bytes : Text → Bytes
action_bytes s = (1 ∷ 3 ∷ 3 ∷ 8 ∷ codes "spoe_arg") ++ (8 ∷ (compose_nat (length s) ++ s))

action_written :
    (s : Text)
    → IsLatin1 s
    → encode_action_list (set_var_action ActionScope.request (codes "spoe_arg") (Value.str s) ∷ [])
      ≡ ok (action_bytes s)
unfolding action_bytes encode_action_list compose_action auto_encode_dt_var
action_written s h = rw (
  string_small (codes "spoe_arg") (omega arith) (omega arith),
  string_long s h,
  append-nil (compose_nat (length s) ++ s),
)

length-action_bytes : (s : Text) → length s < 2 ^ 32 → length (action_bytes s) ≤ 23 + length s
unfolding action_bytes
length-action_bytes s h =
    omega (
      arith,
      length-append (compose_nat (length s)) s,
      length-compose_nat.6 (length s) (omega arith),
    )

-- The text of the answer.
abbrev pub answer_text : Text → Text
answer_text s = codes "ua was: " ++ s

answer_text-IsLatin1 : (s : Text) → IsLatin1 s → IsLatin1 (answer_text s)
answer_text-IsLatin1 s h = All-append IsByte (codes "ua was: ") s (omega arith) h

-- An answer with one text encodes.
ack_written :
    (m : MetaData) (s : Text) (max : ℕ)
    → IsWireMetaData m
    → IsLatin1 s
    → length s + 48 ≤ max
    → max < 2 ^ 32
    → (whole : Bytes) × (encode
          (ack_of m (set_var_action ActionScope.request (codes "spoe_arg") (Value.str s) ∷ []))
          (pos max)
        ≡ ok whole)
ack_written m s max w h room high =
    let actions : List Action =
      set_var_action ActionScope.request (codes "spoe_arg") (Value.str s) ∷ [] in
    let (mb, written, few) = metadata-short m w in
    let body : Bytes = 103 ∷ (mb ++ action_bytes s) in
    (
      octets 4 (length body) ++ body,
      encode-fits (ack_of m actions) max body
          (ack_body (ack_of m actions) m actions mb (action_bytes s) (ack_frame-ack_of m actions)
            written (action_written s h))
          (omega (arith, length-append mb (action_bytes s), length-action_bytes s (omega arith)))
          high,
    )

module _ (text_of : Value → Text) (text_of-str : (s : Text) → text_of (Value.str s) ≡ s) where
  text_actions :
      (args : Dict Value) (s : Text)
      → get args (codes "ua") ≡ some (Value.str s)
      → notify_handler (agent text_of).registry ((message_name, args) ∷ [])
        ≡ set_var_action ActionScope.request (codes "spoe_arg") (Value.str (answer_text s)) ∷ []
  unfolding get_arg
  text_actions args s e =
      let ctx : AgentContext = record { message = message_name; args = args } in
      let found : get_arg ctx (codes "ua") Value.null ≡ Value.str s =
        ap (λ (o : Option Value). elim o [ none ↦ Value.null | some v ↦ v ]) e in
      by_reply (
        subst
          (λ ua.
            Replies text_of ua
              (notify_handler (agent text_of).registry ((message_name, args) ∷ [])))
          found ((ping_actions text_of message_name args).1 (text_eq_refl message_name)))
    where
      by_reply :
          {actions : List Action}
          → Replies text_of (Value.str s) actions
          → actions
            ≡ set_var_action ActionScope.request (codes "spoe_arg") (Value.str (answer_text s)) ∷ []
      by_reply (inl (readable, p)) =
          p
          ∙ ap
              (λ t.
                set_var_action ActionScope.request (codes "spoe_arg")
                  (Value.str (codes "ua was: " ++ t))
                ∷ [])
              (text_of-str s)
      by_reply (inr (never, p)) = absurd (never (inr (s, refl)))

  -- HAProxy asks with the message `test-ping` for a latin-1 user agent, whose text is the text that
  -- Python makes of it, with identifiers that are not negative, and with room for 56 bytes more than the
  -- user agent in the negotiated size: what it reads back, from a stream that goes on in any way, is
  -- exactly one ACK with the identifiers of the NOTIFY and one action, which sets the variable
  -- `spoe_arg` of the request to "ua was: " and the user agent.
  pub ping_acknowledged :
      (m : MetaData) (args : Dict Value) (s : Text) (max : ℕ)
      → IsWireMetaData m
      → get args (codes "ua") ≡ some (Value.str s)
      → IsLatin1 s
      → length s + 56 ≤ max
      → max < 2 ^ 32
      → (bytes : Bytes) × (answer
            (pos max)
            (answers_of (agent text_of))
            (m, (message_name, args) ∷ [])
          ≡ ok bytes)
        × ((more : Bytes) (ending : Ending)
            → decode (record { buffer = bytes ++ more; ending = ending }) (pos max) ≡ (
              ok (
                  ack_of m (
                    set_var_action ActionScope.request
                      (codes "spoe_arg")
                      (Value.str (answer_text s))
                    ∷ [])),
              record { buffer = more; ending = ending },
            ))
  unfolding answer answers_of
  ping_acknowledged m args s max w e h room high =
      let messages : Messages = (message_name, args) ∷ [] in
      let one : List Action =
        set_var_action ActionScope.request (codes "spoe_arg") (Value.str (answer_text s)) ∷ [] in
      let same = text_actions args s e in
      let (whole, written) =
        ack_written m (answer_text s) max w (answer_text-IsLatin1 s h) (omega arith) high in
      let answered : answer (pos max) (answers_of (agent text_of)) (m, messages) ≡ ok whole =
        rw (same, written) refl in
      let (kept, read, part, all) =
        answer-decode (pos max) (answers_of (agent text_of)) m messages one whole
          ((omega arith, omega arith), (omega arith, omega arith)) (ap ok same) (tt, tt) answered in
      (
        whole,
        answered,
        λ more ending.
            subst
              (λ k.
                decode (record { buffer = whole ++ more; ending = ending }) (pos max)
                ≡ (ok (ack_of m k), record { buffer = more; ending = ending }))
              (all whole written) (read more ending),
      )
