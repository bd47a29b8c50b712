-- ===== src/Spop/Safety/Frames.antt =====
-- `Frame.decode` of spoe_forge/spop/frame.py on any bytes of a frame.
use spoe_forge.Prelude.{
  ℕ, ◌≤◌, ◌≡◌, ◌⊎◌, inl, inr, refl, subst, arith, Bool, true, false, length, All, ltb, Bool-cases,
  Option, none, some, if◌then◌else◌, ◌==◌,
}
use spoe_forge.Prelude.Text.{Text, codes}
use spoe_forge.Prelude.Dict.{Dict, get}
use spoe_forge.Prelude.Buffer.{Bytes, IsByte}
use spoe_forge.Spop.Result.{
  Exc, Result, ok, err, decode_error, key_error, attribute_error, type_error, value_error, rethrow,
  ◌>>=◌,
}
use spoe_forge.Spop.Types.{Value, FrameType, frame_type_of}
use spoe_forge.Spop.Decoders.DataTypes.{SpoaDec, is_value_error}
use spoe_forge.Spop.Decoders.Payloads.{
  decode_metadata, decode_kv_list, decode_list_of_messages, decode_list_of_actions,
}
use spoe_forge.Spop.Frame.{
  Frame, FrameClass, get_frame_class, item, value_list, haproxy_hello_of, agent_hello_of,
  disconnect_of, decode_payload,
}
use spoe_forge.Spop.Frame.Construct.{is_key_error}
use spoe_forge.Spop.Frame.Codec.{decode_body}
use spoe_forge.Spop.Decoders.Loop.{Moves}
use spoe_forge.Spop.Safety.DataTypes.{byte_at-inside}
use spoe_forge.Spop.Safety.Payloads.{ReadsTo, list_decoders_outcome, decode_metadata-Moves}

-- The exceptions that a payload may raise before `KeyError` is turned into a decode error, and after.
abbrev Early : Exc → Type 0
Early decode_error = Unit {0}
Early key_error = Unit {0}
Early attribute_error = Unit {0}
Early type_error = Unit {0}
Early _ = ⊥

abbrev Late : Exc → Type 0
Late decode_error = Unit {0}
Late attribute_error = Unit {0}
Late type_error = Unit {0}
Late _ = ⊥

abbrev Fails {ℓ} : {A : Type ℓ} → (Exc → Type 0) → Result A → Type 0
Fails P (ok a) = Unit {0}
Fails P (err e) = P e

Fails-bind :
    {A B : Type 0} (P : Exc → Type 0) (m : Result A) (f : A → Result B)
    → Fails P m
    → ((a : A) → Fails P (f a))
    → Fails P (m >>= f)
Fails-bind P (ok a) f h k = k a
Fails-bind P (err e) f h k = h

item-Early : (d : Dict Value) (k : Text) → Fails Early (item d k)
item-Early d k = go (get d k) refl
  where
    go : (o : Option Value) → get d k ≡ o → Fails Early (item d k)
    go none e = rw e tt
    go (some v) e = rw e tt

value_list-Early : (v : Value) → Fails Early (value_list v)
value_list-Early Value.null = tt
value_list-Early _ = tt

ReadsTo-Early :
    {A : Type 0} (buf : Bytes) (offset end : ℕ) (r : SpoaDec A)
    → ReadsTo buf offset end r
    → Fails Early r
ReadsTo-Early buf offset end r (inl e) = rw e tt
ReadsTo-Early buf offset end r (inr (x, o, e, a, b, c)) = rw e tt

haproxy_hello_of-Early : (d : Dict Value) → Fails Early (haproxy_hello_of d)
unfolding haproxy_hello_of
haproxy_hello_of-Early d =
    Fails-bind Early (item d (codes "supported-versions")) _
      (item-Early d (codes "supported-versions"))
      λ v. Fails-bind Early (value_list v) _ (value_list-Early v) λ vs.
        Fails-bind Early (item d (codes "max-frame-size")) _ (item-Early d (codes "max-frame-size"))
          λ m.
            Fails-bind Early (item d (codes "capabilities")) _ (item-Early d (codes "capabilities"))
              λ c. Fails-bind Early (value_list c) _ (value_list-Early c) λ cs. tt

agent_hello_of-Early : (d : Dict Value) → Fails Early (agent_hello_of d)
unfolding agent_hello_of
agent_hello_of-Early d =
    Fails-bind Early (item d (codes "version")) _ (item-Early d (codes "version")) λ v.
      Fails-bind Early (item d (codes "max-frame-size")) _ (item-Early d (codes "max-frame-size"))
        λ m.
          Fails-bind Early (item d (codes "capabilities")) _ (item-Early d (codes "capabilities"))
            λ c. Fails-bind Early (value_list c) _ (value_list-Early c) λ cs. tt

disconnect_of-Early : (d : Dict Value) → Fails Early (disconnect_of d)
unfolding disconnect_of
disconnect_of-Early d =
    Fails-bind Early (item d (codes "status-code")) _ (item-Early d (codes "status-code"))
      λ c. Fails-bind Early (item d (codes "message")) _ (item-Early d (codes "message")) λ m. tt

payload-Early :
    (c : FrameClass) (buf : Bytes) (offset end : ℕ)
    → All IsByte buf
    → offset ≤ length buf
    → Fails Early (decode_payload c buf offset end)
unfolding decode_payload
payload-Early FrameClass.haproxy_hello buf offset end bytes h =
    Fails-bind Early (decode_kv_list buf offset end) _
      (ReadsTo-Early buf offset end _ (list_decoders_outcome buf offset end bytes h).0)
      λ p. Fails-bind Early (haproxy_hello_of p.0) _ (haproxy_hello_of-Early p.0) λ f. tt
payload-Early FrameClass.agent_hello buf offset end bytes h =
    Fails-bind Early (decode_kv_list buf offset end) _
      (ReadsTo-Early buf offset end _ (list_decoders_outcome buf offset end bytes h).0)
      λ p. Fails-bind Early (agent_hello_of p.0) _ (agent_hello_of-Early p.0) λ f. tt
payload-Early FrameClass.disconnect buf offset end bytes h =
    Fails-bind Early (decode_kv_list buf offset end) _
      (ReadsTo-Early buf offset end _ (list_decoders_outcome buf offset end bytes h).0)
      λ p. Fails-bind Early (disconnect_of p.0) _ (disconnect_of-Early p.0) λ f. tt
payload-Early FrameClass.notify buf offset end bytes h =
    Fails-bind Early (decode_list_of_messages buf offset end) _
      (ReadsTo-Early buf offset end _ (list_decoders_outcome buf offset end bytes h).1) λ p. tt
payload-Early FrameClass.ack buf offset end bytes h =
    Fails-bind Early (decode_list_of_actions buf offset end) _
      (ReadsTo-Early buf offset end _ (list_decoders_outcome buf offset end bytes h).2) λ p. tt

-- `except KeyError`.
key-Late :
    {A : Type 0} (r : Result A) → Fails Early r → Fails Late (rethrow is_key_error decode_error r)
key-Late (ok a) h = tt
key-Late (err decode_error) h = tt
key-Late (err key_error) h = tt
key-Late (err attribute_error) h = tt
key-Late (err type_error) h = tt
key-Late (err _) h = absurd h

frame_type_errors : (n : ℕ) (e : Exc) → frame_type_of n ≡ err e → e ≡ value_error
frame_type_errors n e h = ground arith

type-Late : (n : ℕ) → Fails Late (rethrow is_value_error decode_error (frame_type_of n))
type-Late n = go (frame_type_of n) (frame_type_errors n)
  where
    go :
        (r : Result FrameType)
        → ((e : Exc) → r ≡ err e → e ≡ value_error)
        → Fails Late (rethrow is_value_error decode_error r)
    go (ok t) h = tt
    go (err e) h = rw (h e refl) tt

class-Late : (t : FrameType) → Fails Late (get_frame_class t)
class-Late FrameType.unset = tt
class-Late _ = tt

if-Late : (b : Bool) (f : Frame) → Fails Late (if b then ok f else err decode_error)
if-Late true f = tt
if-Late false f = tt

body-Late : (buf : Bytes) (frame_len : ℕ) → All IsByte buf → Fails Late (decode_body buf frame_len)
unfolding decode_body
body-Late buf frame_len bytes = elim (Bool-cases (ltb (length buf) 1)) [
  | inl short ↦ rw short tt
  | inr long ↦
      let (b, e) = byte_at-inside buf 0 (ground arith) in
      rw (long, e)
        (Fails-bind Late (rethrow is_value_error decode_error (frame_type_of b)) _ (type-Late b)
          λ t. meta t (decode_metadata-Moves buf bytes 1))
]
  where
    meta :
        (t : FrameType)
        → Moves buf 1 (decode_metadata buf 1)
        → Fails {A = Frame} Late (
            decode_metadata buf 1 >>= λ m. get_frame_class t >>= λ c.
            rethrow is_key_error decode_error (decode_payload c buf m.1 frame_len) >>= λ p.
            if p.1 == frame_len
            then ok (record { frame_type = t; metadata = m.0; payload = p.0 })
            else err decode_error)
    meta t (inl e) = rw e tt
    meta t (inr (m, o, e, a, h)) = rw e (
        Fails-bind Late (get_frame_class t) _ (class-Late t) λ c.
          Fails-bind Late (rethrow is_key_error decode_error (decode_payload c buf o frame_len)) _
            (key-Late (decode_payload c buf o frame_len) (payload-Early c buf o frame_len bytes h))
            λ p.
              if-Late (p.1 == frame_len) (record { frame_type = t; metadata = m; payload = p.0 }))

Late-cases : (e : Exc) → Late e → (e ≡ decode_error) ⊎ (e ≡ attribute_error) ⊎ (e ≡ type_error)
Late-cases decode_error h = inl refl
Late-cases attribute_error h = inr (inl refl)
Late-cases type_error h = inr (inr refl)
Late-cases _ h = absurd h

same_exc : {A : Type 0} (x e : Exc) → ◌≡◌ {A = Result A} (err x) (err e) → x ≡ e
same_exc x e p = cc

failed : {A : Type 0} (r : Result A) (e : Exc) → Fails Late r → r ≡ err e → Late e
failed (ok a) e h p = cc
failed {A} (err x) e h p = subst (λ y. Late y) (same_exc {A = A} x e p) h

-- Decoding the bytes of a frame, whatever they are, raises a decode error, an `AttributeError` or a
-- `TypeError`, and nothing else: no index or key error escapes, and no loop runs out of rounds.
pub decode_body_errors :
    (buf : Bytes) (frame_len : ℕ) (e : Exc)
    → All IsByte buf
    → decode_body buf frame_len ≡ err e
    → (e ≡ decode_error) ⊎ (e ≡ attribute_error) ⊎ (e ≡ type_error)
decode_body_errors buf frame_len e bytes h =
    Late-cases e (failed (decode_body buf frame_len) e (body-Late buf frame_len bytes) h)
