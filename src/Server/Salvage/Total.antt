-- ===== src/Server/Salvage/Total.antt =====
-- Whether `_salvaged_ack` of spoe_forge/server/handler.py builds an ACK.
use spoe_forge.Prelude.{
  ℕ, ◌+◌, ◌-◌, ◌^◌, ◌≤◌, ◌<◌, ◌≡◌, ◌⊎◌, inl, inr, refl, ap, ◌∙◌, arith, List, [], ◌∷◌, ◌++◌, ltb,
  length, length-append, All, Bool-cases,
}
use spoe_forge.Prelude.Int.{ℤ, pos, ltb_ℤ, ◌≤ℤ◌, negsuc}
use spoe_forge.Prelude.Text.{Text}
use spoe_forge.Prelude.Buffer.{Bytes}
use spoe_forge.Spop.Result.{Result, ok, err, encode_error, unicode_encode_error, ◌>>=◌}
use spoe_forge.Spop.Types.{
  other_action, Value, MetaData, Action, set_var_action, unset_var_action, action_scope_number,
  int64_min, int64_max,
}
use spoe_forge.Spop.Octets.{octets, mask}
use spoe_forge.Spop.Varint.{compose_nat, compose_varint}
use spoe_forge.Spop.Encoders.DataTypes.{
  encode_latin1, encode_string, encode_dt_int64, encode_dt_string, auto_encode_dt_var, in_range,
  encode_int,
}
use spoe_forge.Spop.Encoders.Payloads.{compose_action, encode_action_list, encode_metadata}
use spoe_forge.Spop.RoundTrip.DataTypes.{value-Carries}
use spoe_forge.Spop.Varint.Laws.{length-compose_nat}
use spoe_forge.Spop.Wire.{IsWireMetaData, IsObject, ActsOnObject}
use spoe_forge.Spop.Frame.{Frame}
use spoe_forge.Spop.Frame.Construct.{construct, final_metadata}
use spoe_forge.Spop.Frame.Codec.{encode}
use spoe_forge.Spop.Frame.RoundTrip.Frames.{encode-fits}
use spoe_forge.Server.Salvage.Fits.{ack_body}
use spoe_forge.Server.Salvage.{dropped, ack_frame, minus, salvage_round, salvage, salvaged_ack}

-- Encoding gives bytes, or raises the encode error that salvaging catches.
abbrev pub Graceful : Result Bytes → Type 0
Graceful r = ((b : Bytes) × (r ≡ ok b)) ⊎ (r ≡ err encode_error)

latin1_outcome :
    (s : Text)
    → ((b : Bytes) × (encode_latin1 s ≡ ok b)) ⊎ (encode_latin1 s ≡ err unicode_encode_error)
unfolding encode_latin1
latin1_outcome [] = inl ([], refl)
latin1_outcome (c ∷ s) = elim (Bool-cases (ltb c 256)) [
  | inl low ↦ elim (latin1_outcome s) [
    | inl (b, e) ↦ inl (c ∷ b, rw (low, e))
    | inr bad ↦ inr (rw (low, bad))
  ]
  | inr high ↦ inr (rw high)
]

string-Graceful : (s : Text) → Graceful (encode_string s)
unfolding encode_string compose_varint
string-Graceful s = elim (latin1_outcome s) [
  | inl (b, e) ↦ inl (compose_nat (length b) ++ b, rw e)
  | inr bad ↦ inr (rw bad)
]

dt_int-Graceful : (v : ℤ) → Graceful (encode_dt_int64 v)
unfolding encode_dt_int64 compose_varint octets
dt_int-Graceful v = elim (Bool-cases (in_range int64_min int64_max v)) [
  | inl within ↦ inl (4 ∷ compose_nat (mask 64 v), rw within)
  | inr beyond ↦ inr (rw beyond)
]

dt_string-Graceful : (s : Text) → Graceful (encode_dt_string s)
unfolding encode_dt_string compose_varint octets
dt_string-Graceful s = elim (latin1_outcome s) [
  | inl (b, e) ↦ inl (8 ∷ (compose_nat (length b) ++ b), rw e)
  | inr bad ↦ inr (rw bad)
]

value-Graceful : (v : Value) → IsObject v → Graceful (auto_encode_dt_var v)
unfolding auto_encode_dt_var
value-Graceful Value.null h = let c = value-Carries Value.null tt in inl (c.bytes, c.written)
value-Graceful (Value.bool b) h =
    let c = value-Carries (Value.bool b) tt in inl (c.bytes, c.written)
value-Graceful (Value.int v) h = dt_int-Graceful v
value-Graceful (Value.ipv4 n) h = let c = value-Carries (Value.ipv4 n) h in inl (c.bytes, c.written)
value-Graceful (Value.ipv6 n) h = let c = value-Carries (Value.ipv6 n) h in inl (c.bytes, c.written)
value-Graceful (Value.bytes b) h =
    let c = value-Carries (Value.bytes b) h in inl (c.bytes, c.written)
value-Graceful (Value.str s) h = dt_string-Graceful s
value-Graceful Value.unsupported h = inr refl

pub action-Graceful : (a : Action) → ActsOnObject a → Graceful (encode_action_list (a ∷ []))
unfolding encode_action_list compose_action
action-Graceful (set_var_action scope name value) h = elim (string-Graceful name) [
  | inl (n, e) ↦ elim (value-Graceful value h) [
    | inl (v, f) ↦ inl ((1 ∷ 3 ∷ action_scope_number scope ∷ (n ++ v)) ++ [], rw (e, f))
    | inr bad ↦ inr (rw (e, bad))
  ]
  | inr bad ↦ inr (rw bad)
]
action-Graceful (unset_var_action scope name) h = elim (string-Graceful name) [
  | inl (n, e) ↦ inl ((2 ∷ 2 ∷ action_scope_number scope ∷ n) ++ [], rw e)
  | inr bad ↦ inr (rw bad)
]
action-Graceful other_action h = elim h [ ]

-- A proper action is dropped without a raise.
pub dropped-ActsOnObject :
    (a : Action) (skip : Result (List Action)) → ActsOnObject a → dropped a skip ≡ skip
dropped-ActsOnObject (set_var_action scope name value) skip h = refl
dropped-ActsOnObject (unset_var_action scope name) skip h = refl
dropped-ActsOnObject other_action skip h = elim h [ ]

round-total :
    (budget : ℤ) (used : ℕ) (a : Action) (r : Result Bytes) (skip : Result (List Action))
    (keep : ℕ → Result (List Action))
    → ActsOnObject a
    → Graceful r
    → ((k : List Action) × (skip ≡ ok k))
    → ((n : ℕ) → (k : List Action) × (keep n ≡ ok k))
    → (k : List Action) × (salvage_round budget used a r skip keep ≡ ok k)
round-total budget used a r skip keep h (inr bad) s k =
    (s.0, rw bad (dropped-ActsOnObject a skip h ∙ s.1))
round-total budget used a r skip keep h (inl (b, e)) s k =
    elim (Bool-cases (ltb_ℤ budget (pos (used + length b)))) [
      | inl over ↦ (s.0, rw (e, over, s.1))
      | inr fits ↦ let (rest, p) = k (used + length b) in (a ∷ rest, rw (e, fits, p))
    ]

salvage-total :
    (budget : ℤ) (used : ℕ) (actions : List Action)
    → All ActsOnObject actions
    → (k : List Action) × (salvage budget used actions ≡ ok k)
unfolding salvage
salvage-total budget used [] h = ([], refl)
salvage-total budget used (a ∷ actions) h =
    round-total budget used a (encode_action_list (a ∷ [])) (salvage budget used actions)
      (λ n. salvage budget n actions) h.0 (action-Graceful a h.0)
      (salvage-total budget used actions h.1) (λ n. salvage-total budget n actions h.1)

-- Metadata that came off the wire is written in at most 24 bytes.
id-short :
    (v : ℤ) → pos 0 ≤ℤ v → v ≤ℤ int64_max → (b : Bytes) × (encode_int v ≡ ok b) × (length b ≤ 10)
unfolding encode_int compose_varint
id-short (pos n) lo hi = (compose_nat n, refl, length-compose_nat.6 n (omega arith))
id-short (negsuc n) lo hi = absurd (omega arith)

pub metadata-short :
    (m : MetaData)
    → IsWireMetaData m
    → (b : Bytes) × (encode_metadata (final_metadata m.stream_id m.frame_id) ≡ ok b)
      × (length b ≤ 24)
unfolding encode_metadata
metadata-short m (lo, hi, lo', hi') =
    let (s, e, few) = id-short m.stream_id lo hi in
    let (f, e', few') = id-short m.frame_id lo' hi' in
    (0 ∷ 0 ∷ 0 ∷ 1 ∷ (s ++ f), rw (e, e'), omega (arith, length-append s f))

ack_frame-some : (m : MetaData) (actions : List Action) → (f : Frame) × (ack_frame m actions ≡ ok f)
unfolding construct
ack_frame-some m actions = (_, refl)

-- With 25 bytes or more, below 4 GiB, negotiated, and identifiers of 63 bits, `_salvaged_ack` builds an
-- ACK whatever actions the handlers returned, their addresses and bytes being ones that Python objects
-- can hold: it raises nothing.
pub salvaged_ack-total :
    (max : ℕ) (m : MetaData) (actions : List Action)
    → 25 ≤ max
    → max < 2 ^ 32
    → IsWireMetaData m
    → All ActsOnObject actions
    → (frame : Frame) × (salvaged_ack (pos max) m actions ≡ ok frame)
unfolding salvaged_ack
salvaged_ack-total max m actions low high w h =
    let (mb, meta, few) = metadata-short m w in
    let (empty, made) = ack_frame-some m [] in
    let body : Bytes = 103 ∷ (mb ++ []) in
    let written : encode empty (pos max) ≡ ok (octets 4 (length body) ++ body) =
      encode-fits empty max body
        (ack_body empty m [] mb [] made meta (unfold encode_action_list in refl))
        (omega (arith, length-append mb [])) high in
    let (kept, loop) =
      salvage-total (minus (pos max) (length (octets 4 (length body) ++ body) - 4)) 0 actions h in
    let (frame, final) = ack_frame-some m kept in
    (
      frame,
      ap (λ r. r >>= λ f. encode f (pos max) >>= rest) made
          ∙ ap (λ r. r >>= rest) written
          ∙ ap (λ r. r >>= λ l. ack_frame m l) loop
          ∙ final,
    )
  where
    rest : Bytes → Result Frame
    rest b = salvage (minus (pos max) (length b - 4)) 0 actions >>= λ l. ack_frame m l
