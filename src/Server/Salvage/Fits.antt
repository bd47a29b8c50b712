-- ===== src/Server/Salvage/Fits.antt =====
-- The size of the salvaged ACK, `_salvaged_ack` of spoe_forge/server/handler.py.
use spoe_forge.Prelude.{
  ℕ, suc, ◌+◌, ◌-◌, ◌^◌, ◌≤◌, ◌<◌, ◌≡◌, inl, inr, refl, subst, sym, ap, arith, false, List, [], ◌∷◌,
  ◌++◌, append-nil, some, length, length-append, Bool-cases,
}
use spoe_forge.Prelude.Int.{ℤ, pos, ltb_ℤ, ◌≤ℤ◌}
use spoe_forge.Prelude.Buffer.{Bytes}
use spoe_forge.Spop.Result.{Result, ok, err, encode_error, ◌>>=◌, >>=-eq-ok}
use spoe_forge.Spop.Types.{other_action, MetaData, Action, ack}
use spoe_forge.Spop.Octets.{octets, length-octets}
use spoe_forge.Spop.Encoders.Payloads.{compose_action, encode_action_list, encode_metadata}
use spoe_forge.Spop.RoundTrip.Payloads.{tiny_int}
use spoe_forge.Spop.Frame.{Payload, Frame}
use spoe_forge.Spop.Frame.Construct.{construct, final_metadata}
use spoe_forge.Spop.Frame.Codec.{encode_body, encode}
use spoe_forge.Spop.Frame.RoundTrip.Frames.{encode-ok, encode-fits}
use spoe_forge.Server.Salvage.{dropped, ack_frame, minus, salvage_round, salvage, salvaged_ack}

-- What the loop keeps encodes, in no more bytes than the budget has left.
abbrev Kept : ℤ → ℕ → List Action → Type 0
Kept budget used kept =
    (bytes : Bytes) × (encode_action_list kept ≡ ok bytes) × (pos (used + length bytes) ≤ℤ budget)

-- An action that encodes alone encodes in front of others, in as many bytes.
pub one-action :
    (a : Action) (rest : List Action) (b bs : Bytes)
    → encode_action_list (a ∷ []) ≡ ok b
    → encode_action_list rest ≡ ok bs
    → encode_action_list (a ∷ rest) ≡ ok (b ++ bs)
unfolding encode_action_list
one-action a rest b bs e r = go (compose_action a) refl
  where
    go : (c : Result Bytes) → compose_action a ≡ c → encode_action_list (a ∷ rest) ≡ ok (b ++ bs)
    go (ok h) p = rw (p, r) (ap (λ x. ok (x ++ bs)) (same p))
      where
        same : compose_action a ≡ ok h → h ≡ b
        same q = cc (q, e, append-nil h)
    go (err x) p = cc

Kept-more :
    (budget : ℤ) (used : ℕ) (a : Action) (b : Bytes) (rest : List Action)
    → encode_action_list (a ∷ []) ≡ ok b
    → Kept budget (used + length b) rest
    → Kept budget used (a ∷ rest)
Kept-more budget used a b rest e (bs, r, h) =
    (b ++ bs, one-action a rest b bs e r, omega (arith, length-append b bs))

-- An action that was dropped leaves the rest of the loop as it is.
pub dropped-ok :
    (a : Action) (skip : Result (List Action)) (kept : List Action)
    → dropped a skip ≡ ok kept
    → skip ≡ ok kept
dropped-ok other_action skip kept h = cc
dropped-ok _ skip kept h = h

round-Kept :
    (budget : ℤ) (used : ℕ) (a : Action) (r : Result Bytes) (skip : Result (List Action))
    (keep : ℕ → Result (List Action)) (kept : List Action)
    → encode_action_list (a ∷ []) ≡ r
    → ((k : List Action) → skip ≡ ok k → Kept budget used k)
    → ((n : ℕ) (k : List Action) → pos n ≤ℤ budget → keep n ≡ ok k → Kept budget n k)
    → salvage_round budget used a r skip keep ≡ ok kept
    → Kept budget used kept
round-Kept budget used a (ok b) skip keep kept e s k h =
    elim (Bool-cases (ltb_ℤ budget (pos (used + length b)))) [
      | inl over ↦ s kept (rw over at h)
      | inr fits ↦
          let (rest, r, p) = >>=-eq-ok (keep (used + length b)) (λ l. ok (a ∷ l)) (rw fits at h) in
          let more = Kept-more budget used a b rest e (k (used + length b) rest (ground arith) r) in
          subst (λ l. Kept budget used l) (same p) more
    ]
  where
    same : {l : List Action} → ◌≡◌ {A = Result (List Action)} (ok l) (ok kept) → l ≡ kept
    same q = cc
round-Kept budget used a (err encode_error) skip keep kept e s k h =
    s kept (dropped-ok a skip kept h)
round-Kept budget used a (err _) skip keep kept e s k h = cc

salvage-Kept :
    (budget : ℤ) (used : ℕ) (actions kept : List Action)
    → pos used ≤ℤ budget
    → salvage budget used actions ≡ ok kept
    → Kept budget used kept
unfolding salvage
salvage-Kept budget used [] kept h e =
    subst (λ l. Kept budget used l) (same e) ([], unfold encode_action_list in refl, omega arith)
  where
    same : ◌≡◌ {A = Result (List Action)} (ok []) (ok kept) → [] ≡ kept
    same q = cc
salvage-Kept budget used (a ∷ actions) kept h e =
    round-Kept budget used a (encode_action_list (a ∷ [])) (salvage budget used actions)
      (λ n. salvage budget n actions) kept refl (λ k. salvage-Kept budget used actions k h)
      (λ n k p. salvage-Kept budget n actions k p) e

-- The body of an ACK: its type, its metadata and its actions.
pub ack_body :
    (frame : Frame) (m : MetaData) (actions : List Action) (mb bs : Bytes)
    → ack_frame m actions ≡ ok frame
    → encode_metadata (final_metadata m.stream_id m.frame_id) ≡ ok mb
    → encode_action_list actions ≡ ok bs
    → encode_body frame ≡ ok (103 ∷ (mb ++ bs))
unfolding construct encode_body
ack_body frame m actions mb bs f e a =
    subst (λ g. encode_body g ≡ ok (103 ∷ (mb ++ bs))) (same f)
      (rw (tiny_int 103 (omega arith), e, a))
  where
    built : Frame
    built = record {
      frame_type = ack;
      metadata = final_metadata m.stream_id m.frame_id;
      payload = Payload.ack (some actions);
    }

    same : ◌≡◌ {A = Result Frame} (ok built) (ok frame) → built ≡ frame
    same q = cc

-- An ACK that encodes has metadata that encodes.
metadata_of :
    (frame : Frame) (m : MetaData) (actions : List Action) (max : ℤ) (bytes : Bytes)
    → ack_frame m actions ≡ ok frame
    → encode frame max ≡ ok bytes
    → (mb : Bytes) × (encode_metadata (final_metadata m.stream_id m.frame_id) ≡ ok mb)
unfolding construct encode encode_body
metadata_of frame m actions max bytes f e =
    go (encode_metadata (final_metadata m.stream_id m.frame_id)) refl
  where
    built : Frame
    built = record {
      frame_type = ack;
      metadata = final_metadata m.stream_id m.frame_id;
      payload = Payload.ack (some actions);
    }

    same : ◌≡◌ {A = Result Frame} (ok frame) (ok built) → frame ≡ built
    same q = cc

    encoded : encode built max ≡ ok bytes
    encoded = subst (λ g. encode g max ≡ ok bytes) (same (sym f)) e

    go :
        (r : Result Bytes)
        → encode_metadata (final_metadata m.stream_id m.frame_id) ≡ r
        → (mb : Bytes) × (encode_metadata (final_metadata m.stream_id m.frame_id) ≡ ok mb)
    go (ok mb) p = (mb, p)
    go (err x) p = absurd (bad (rw (tiny_int 103 (omega arith), p) at encoded))
      where
        bad : ◌≡◌ {A = Result Bytes} (err x) (ok bytes) → ⊥
        bad q = cc

-- The salvaged ACK, where there is one, encodes under the negotiated size, if that is below 4 GiB, whatever the actions were:
-- the frame on the wire has at most that many bytes behind its length.
pub salvaged_ack-fits :
    (max : ℕ) (m : MetaData) (actions : List Action) (frame : Frame)
    → max < 2 ^ 32
    → salvaged_ack (pos max) m actions ≡ ok frame
    → (bytes : Bytes) × (encode frame (pos max) ≡ ok bytes) × (length bytes ≤ max + 4)
unfolding salvaged_ack
salvaged_ack-fits max m actions frame h e =
    let (empty, made, e') = >>=-eq-ok (ack_frame m []) (λ f. encode f (pos max) >>= rest) e in
    let (eb, written, e'') = >>=-eq-ok (encode empty (pos max)) rest e' in
    let (kept, loop, final) =
      >>=-eq-ok (salvage (minus (pos max) (length eb - 4)) 0 actions) (λ l. ack_frame m l) e'' in
    let (mb, meta) = metadata_of empty m [] (pos max) eb made written in
    let body0 : Bytes = 103 ∷ (mb ++ []) in
    let (small, fits, shape) =
      encode-ok empty (pos max) body0 eb
        (ack_body empty m [] mb [] made meta (unfold encode_action_list in refl)) written in
    let size : length eb ≡ 4 + (1 + length mb) = size_lem eb body0 mb shape refl in
    let room : 1 + length mb ≤ max = room_lem mb fits in
    let (bs, er, le) =
      salvage-Kept (minus (pos max) (length eb - 4)) 0 actions kept (ground arith) loop in
    let body : Bytes = 103 ∷ (mb ++ bs) in
    let total : length body ≤ max = total_lem eb mb bs size room le in
    (
      octets 4 (length body) ++ body,
      encode-fits frame max body (ack_body frame m kept mb bs final meta er) total h,
      omega (arith, length-append (octets 4 (length body)) body, length-octets 4 (length body)),
    )
  where
    rest : Bytes → Result Frame
    rest b = salvage (minus (pos max) (length b - 4)) 0 actions >>= λ l. ack_frame m l

    size_lem :
        (eb body0 mb : Bytes)
        → eb ≡ octets 4 (length body0) ++ body0
        → body0 ≡ 103 ∷ (mb ++ [])
        → length eb ≡ 4 + (1 + length mb)
    size_lem eb body0 mb p q = omega (
      arith,
      ap length p,
      ap length q,
      length-append (octets 4 (length body0)) body0,
      length-octets 4 (length body0),
      length-append mb [],
    )

    room_lem :
        (mb : Bytes)
        → ltb_ℤ (pos max) (pos (length (103 ∷ (mb ++ [])))) ≡ false
        → 1 + length mb ≤ max
    room_lem mb p = ground (arith, length-append mb [])

    total_lem :
        (eb mb bs : Bytes)
        → length eb ≡ 4 + (1 + length mb)
        → 1 + length mb ≤ max
        → pos (0 + length bs) ≤ℤ minus (pos max) (length eb - 4)
        → suc (length (mb ++ bs)) ≤ max
    total_lem eb mb bs p q r = ground (arith, length-append mb bs)
