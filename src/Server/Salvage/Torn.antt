-- ===== src/Server/Salvage/Torn.antt =====
-- What an object that is no action does to the answer of its NOTIFY, in `_process_notify` and
-- `_salvaged_ack` of spoe_forge/server/handler.py.
use spoe_forge.Prelude.{
  ℕ, ◌+◌, ◌-◌, ◌^◌, ◌≤◌, ◌<◌, ◌≡◌, refl, inl, inr, ap, ◌∙◌, arith, List, [], ◌∷◌, ◌++◌, length,
  length-append, All, Bool-cases,
}
use spoe_forge.Prelude.Int.{ℤ, pos, ltb_ℤ}
use spoe_forge.Prelude.Buffer.{Bytes}
use spoe_forge.Spop.Result.{Result, ok, err, attribute_error, encode_error, ◌>>=◌}
use spoe_forge.Spop.Types.{Messages, MetaData, Action, other_action}
use spoe_forge.Spop.Octets.{octets}
use spoe_forge.Spop.Encoders.Payloads.{encode_action_list, compose_action}
use spoe_forge.Spop.Wire.{IsWireMetaData, ActsOnObject}
use spoe_forge.Spop.Frame.Codec.{encode, encode_body}
use spoe_forge.Spop.RoundTrip.Payloads.{tiny_int}
use spoe_forge.Spop.Frame.{Frame}
use spoe_forge.Spop.Frame.RoundTrip.Frames.{encode-fits}
use spoe_forge.Server.Connection.{Connection}
use spoe_forge.Server.Salvage.{
  ack_frame, minus, salvage_round, salvage, salvaged_ack, process_notify,
}
use spoe_forge.Server.Salvage.Fits.{ack_body}
use spoe_forge.Server.Salvage.Total.{
  Graceful, action-Graceful, dropped-ActsOnObject, metadata-short,
}
use spoe_forge.Server.Salvage.Ack.{ack_of, ack_frame-ack_of}
use spoe_forge.Server.Salvage.Answers.{bad_head, bad_tail, IsOpen}
use spoe_forge.Server.Service.{answer, process_notify-answer}

-- The list does not encode.
torn_list :
    (front back : List Action)
    → All ActsOnObject front
    → encode_action_list (front ++ (other_action ∷ back)) ≡ err encode_error
unfolding encode_action_list compose_action
torn_list [] back h = refl
torn_list (a ∷ front) back (h, hs) = elim (action-Graceful a h) [
  | inl (b, e) ↦ bad_tail a (front ++ (other_action ∷ back)) b e (torn_list front back hs)
  | inr bad ↦ bad_head a (front ++ (other_action ∷ back)) bad
]

-- A round on a proper action hands the error of the rest on.
round_hands_on :
    (budget : ℤ) (used : ℕ) (a : Action) (r : Result Bytes) (skip : Result (List Action))
    (keep : ℕ → Result (List Action))
    → ActsOnObject a
    → Graceful r
    → skip ≡ err attribute_error
    → ((n : ℕ) → keep n ≡ err attribute_error)
    → salvage_round budget used a r skip keep ≡ err attribute_error
round_hands_on budget used a r skip keep h (inr bad) s k =
    rw bad (dropped-ActsOnObject a skip h ∙ s)
round_hands_on budget used a r skip keep h (inl (b, e)) s k =
    elim (Bool-cases (ltb_ℤ budget (pos (used + length b)))) [
      | inl over ↦ rw (e, over, s)
      | inr fits ↦ rw (e, fits, k (used + length b))
    ]

salvage_torn :
    (budget : ℤ) (used : ℕ) (front back : List Action)
    → All ActsOnObject front
    → salvage budget used (front ++ (other_action ∷ back)) ≡ err attribute_error
unfolding salvage encode_action_list compose_action
salvage_torn budget used [] back h = refl
salvage_torn budget used (a ∷ front) back (h, hs) =
    round_hands_on budget used a (encode_action_list (a ∷ []))
      (salvage budget used (front ++ (other_action ∷ back)))
      (λ n. salvage budget n (front ++ (other_action ∷ back))) h (action-Graceful a h)
      (salvage_torn budget used front back hs) (λ n. salvage_torn budget n front back hs)

-- The ACK of such a list does not encode, and no salvaged form of it is built.
torn_ack :
    (max : ℕ) (m : MetaData) (front back : List Action)
    → 25 ≤ max
    → max < 2 ^ 32
    → IsWireMetaData m
    → All ActsOnObject front
    → (encode (ack_of m (front ++ (other_action ∷ back))) (pos max) ≡ err encode_error)
      × (salvaged_ack (pos max) m (front ++ (other_action ∷ back)) ≡ err attribute_error)
unfolding salvaged_ack encode encode_body
torn_ack max m front back low high w h =
    let (mb, meta, few) = metadata-short m w in
    let body : Bytes = 103 ∷ (mb ++ []) in
    let written : encode (ack_of m []) (pos max) ≡ ok (octets 4 (length body) ++ body) =
      encode-fits (ack_of m []) max body
        (ack_body (ack_of m []) m [] mb [] (ack_frame-ack_of m []) meta
          (unfold encode_action_list in refl))
        (omega (arith, length-append mb [])) high in
    (
      rw (tiny_int 103 (omega arith), meta, torn_list front back h),
      ap (λ r. r >>= λ f. encode f (pos max) >>= rest) (ack_frame-ack_of m [])
          ∙ ap (λ r. r >>= rest) written
          ∙ ap (λ r. r >>= λ l. ack_frame m l)
              (salvage_torn (minus (pos max) (length (octets 4 (length body) ++ body) - 4)) 0 front
                back h),
    )
  where
    rest : Bytes → Result Frame
    rest b = salvage (minus (pos max) (length b - 4)) 0 (front ++ (other_action ∷ back)) >>= λ l.
        ack_frame m l

-- A handler's list that contains an object of no action class, behind actions whose addresses and
-- bytes are ones that Python objects can hold, is not contained: on an open connection that lasts,
-- with 25 bytes or more, below 4 GiB, negotiated, the task of a NOTIFY whose metadata the wire can
-- carry (no identifier is negative) raises AttributeError, writes nothing, and gives its slot back.
pub process_notify_torn :
    (max : ℕ) (notify_handler : Messages → Result (List Action)) (m : MetaData)
    (messages : Messages) (front back : List Action) (c : Connection) (slots : ℕ)
    → 25 ≤ max
    → max < 2 ^ 32
    → IsOpen max c
    → IsWireMetaData m
    → notify_handler messages ≡ ok (front ++ (other_action ∷ back))
    → All ActsOnObject front
    → process_notify notify_handler m messages (c, slots) ≡ (err attribute_error, c, slots + 1)
unfolding answer
process_notify_torn max notify_handler m messages front back c slots low high o w e h =
    let (unencoded, unsalvaged) = torn_ack max m front back low high w h in
    process_notify-answer max notify_handler m messages c slots o
    ∙ rw (e, unencoded, unsalvaged) refl
