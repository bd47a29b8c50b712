-- ===== src/Spop/RoundTrip/Lists.antt =====
-- Round trips of lists of items, for the loops of spoe_forge/spop/decoders/payloads.py.
use mathlib.Core.List.{foldl}
use spoe_forge.Prelude.{
  ℕ, ◌+◌, ◌-◌, ◌≡◌, refl, sym, ap, ◌∙◌, arith, List, [], ◌∷◌, ◌++◌, append_assoc, append-nil,
  length, All, All-append,
}
use spoe_forge.Prelude.Buffer.{Bytes, IsByte, At}
use spoe_forge.Prelude.Dict.{Dict, put-new}
use spoe_forge.Spop.Result.{Result, ok, ◌>>=◌}
use spoe_forge.Spop.Types.{Value}
use spoe_forge.Spop.Wire.{Fresh}
use spoe_forge.Spop.Decoders.DataTypes.{SpoaDec}
use spoe_forge.Spop.Decoders.Payloads.{put_pair, append_item}
use spoe_forge.Spop.Decoders.Loop.{Items, next, item_loop, item_loop-Items}
use spoe_forge.Spop.RoundTrip.Carries.{Carries}

-- A list of items is encoded.
pub record Encoded {A : Type 0} (encoded : Result Bytes) (item : Bytes → ℕ → SpoaDec A)
    (xs : List A) : Type 0 where
  pub bytes : Bytes
  pub written : encoded ≡ ok bytes
  pub are_bytes : All IsByte bytes
  pub items : Items item xs bytes

-- A list encoder that writes one item behind the other.
module _ {A : Type 0} (P : A → Type 0) (encode : A → Result Bytes)
    (encode_list : List A → Result Bytes) (item : Bytes → ℕ → SpoaDec A)
    (encode_nil : encode_list [] ≡ ok [])
    (encode_cons : (x : A) (xs : List A)
      → encode_list (x ∷ xs) ≡ (encode x >>= λ b. encode_list xs >>= λ bs. ok (b ++ bs)))
    (each : (x : A) → P x → Carries (encode x) item x) where
  pub list-Encoded : (xs : List A) → All P xs → Encoded (encode_list xs) item xs
  list-Encoded [] h = record { bytes = []; written = encode_nil; are_bytes = tt; items = Items.end }
  list-Encoded (x ∷ xs) h =
      let c = each x h.0 in
      let rest = list-Encoded xs h.1 in
      record {
        bytes = c.bytes ++ rest.bytes;
        written = encode_cons x xs ∙ rw (c.written, rest.written);
        are_bytes = All-append IsByte c.bytes rest.bytes c.are_bytes rest.are_bytes;
        items = next c.bytes refl c.nonempty c.read rest.items;
      }

pub foldl-put_pair :
    (payload d : Dict Value) → Fresh payload d → foldl put_pair payload d ≡ payload ++ d
foldl-put_pair payload [] h = sym (append-nil payload)
foldl-put_pair payload ((k, v) ∷ d) h =
    ap (λ p. foldl put_pair p d) (put-new payload k v h.0)
    ∙ foldl-put_pair (payload ++ ((k, v) ∷ [])) d h.1
    ∙ append_assoc payload ((k, v) ∷ []) d

pub foldl-append_item : {A : Type 0} (acc xs : List A) → foldl append_item acc xs ≡ acc ++ xs
foldl-append_item acc [] = sym (append-nil acc)
foldl-append_item acc (x ∷ xs) =
    foldl-append_item (acc ++ (x ∷ [])) xs ∙ append_assoc acc (x ∷ []) xs

-- A loop that collects a list, from its offset to the end of the list.
pub collect-Items :
    {A : Type 0} (item : Bytes → ℕ → SpoaDec A) {xs : List A} {bs : Bytes} (buf : Bytes)
    (offset : ℕ) (rest : Bytes)
    → Items item xs bs
    → At buf offset (bs ++ rest)
    → item_loop item append_item (offset + length bs - offset) buf offset (offset + length bs) []
      ≡ ok (xs, offset + length bs)
collect-Items item {xs} {bs} buf offset rest i a =
    item_loop-Items item append_item i (offset + length bs - offset) buf offset (offset + length bs)
      rest [] a (omega arith) refl
    ∙ ap (λ l. ok (l, offset + length bs)) (foldl-append_item [] xs)
