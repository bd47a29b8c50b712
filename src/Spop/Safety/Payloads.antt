-- ===== src/Spop/Safety/Payloads.antt =====
-- spoe_forge/spop/decoders/payloads.py on any bytes.
use spoe_forge.Prelude.{
  ℕ, zero, suc, ◌+◌, ◌-◌, ◌≤◌, ◌≡◌, ◌⊎◌, inl, inr, refl, arith, false, [], ◌∷◌, length, length-take,
  length-drop, All, ltb, Bool-cases, ◌==◌, bit_and, drop,
}
use spoe_forge.Prelude.Dict.{Dict, put, contains}
use spoe_forge.Prelude.Buffer.{Bytes, IsByte, slice}
use spoe_forge.Spop.Result.{Exc, Result, ok, err, decode_error, value_error, rethrow, ◌>>=◌}
use spoe_forge.Spop.Types.{
  Value, Flags, ActionType, ActionScope, set_var, unset_var, set_var_action, unset_var_action,
  action_type_of, action_scope_of, fin_flag, abort_flag,
}
use spoe_forge.Spop.Varint.{byte_at}
use spoe_forge.Spop.Decoders.DataTypes.{
  SpoaDec, decode_string, decode_tiny_int, decode_int64, auto_decode_var, is_value_error,
}
use spoe_forge.Spop.Decoders.Payloads.{
  parse_kv_pair, last_byte, is_decode_error, decode_metadata, decode_kv_list, put_pair, args_loop,
  decode_message, append_item, decode_list_of_messages, decode_action_args, decode_action,
  decode_list_of_actions,
}
use spoe_forge.Spop.Decoders.Loop.{Reaches, Moves, item_loop-outcome}
use spoe_forge.Spop.Safety.DataTypes.{
  Reaches-bind, Reaches-weaken, byte_at-inside, decode_tiny_int-Moves, decode_int64-Moves,
  decode_string-Moves, auto_decode_var-Moves,
}

last_byte-some : (b : ℕ) (bs : Bytes) → (x : ℕ) × (last_byte (b ∷ bs) ≡ ok x)
last_byte-some b [] = (b, refl)
last_byte-some b (c ∷ bs) = last_byte-some c bs

last_byte-nonempty : (bs : Bytes) → 1 ≤ length bs → (x : ℕ) × (last_byte bs ≡ ok x)
last_byte-nonempty [] h = absurd (omega arith)
last_byte-nonempty (b ∷ bs) h = last_byte-some b bs

action_type_errors : (n : ℕ) (e : Exc) → action_type_of n ≡ err e → e ≡ value_error
action_type_errors n e h = ground arith

action_scope_errors : (n : ℕ) (e : Exc) → action_scope_of n ≡ err e → e ≡ value_error
action_scope_errors n e h = ground arith

-- A `ValueError` alone is turned into a decode error.
rethrown :
    {A B : Type 0} (buf : Bytes) (lo : ℕ) (r : Result A) (f : A → SpoaDec B)
    → ((e : Exc) → r ≡ err e → e ≡ value_error)
    → ((a : A) → Reaches buf lo (f a))
    → Reaches buf lo (rethrow is_value_error decode_error r >>= f)
rethrown buf lo (ok a) f h k = k a
rethrown buf lo (err e) f h k = inl (rw (h e refl))

-- `except SpopDecodeError` that raises `SpopDecodeError` again.
again :
    {A : Type 0} (buf : Bytes) (lo : ℕ) (m : SpoaDec A)
    → Reaches buf lo m
    → Reaches buf lo (rethrow is_decode_error decode_error m)
again buf lo m (inl e) = inl (rw e)
again buf lo m (inr (x, o, e, a, b)) = inr (x, o, rw e, a, b)

module _ (buf : Bytes) (bytes : All IsByte buf) where
  pub parse_kv_pair-Moves : (offset : ℕ) → Moves buf offset (parse_kv_pair buf offset)
  unfolding parse_kv_pair
  parse_kv_pair-Moves offset =
      Reaches-bind buf (suc offset) (decode_string buf offset)
        (λ p. auto_decode_var buf p.1 >>= λ q. ok ((p.0, q.0), q.1))
        (decode_string-Moves buf bytes offset)
        (λ k o a b.
          Reaches-bind buf (suc offset) (auto_decode_var buf o) (λ q. ok ((k, q.0), q.1))
            (Reaches-weaken buf (suc offset) (suc o) (auto_decode_var buf o) (omega arith)
              (auto_decode_var-Moves buf bytes o))
            (λ v o' a' b'. inr ((k, v), o', refl, a', b')))

  pub decode_metadata-Moves : (offset : ℕ) → Moves buf offset (decode_metadata buf offset)
  unfolding decode_metadata
  decode_metadata-Moves offset = elim (Bool-cases (ltb (length buf) (offset + 4))) [
    | inl out ↦ rw out (inl refl)
    | inr inside ↦
        let (flag, e) = last_byte-nonempty (slice buf offset (offset + 4)) (
          omega (
            arith,
            four inside,
            length-take (offset + 4 - offset) (drop offset buf),
            length-drop offset buf,
          )) in
        let flags : Flags = record {
          fin = bit_and flag fin_flag == fin_flag;
          abort = bit_and flag abort_flag == abort_flag;
        } in
        rw (inside, e)
          (Reaches-bind buf (suc offset)
            (rethrow is_decode_error decode_error (decode_int64 buf (offset + 4)))
            (λ p. rethrow is_decode_error decode_error (decode_int64 buf p.1) >>= λ q.
              ok (record { flags = flags; stream_id = p.0; frame_id = q.0 }, q.1))
            (Reaches-weaken buf (suc offset) (suc (offset + 4)) _ (omega arith) (
              again buf (suc (offset + 4)) (decode_int64 buf (offset + 4))
                (decode_int64-Moves buf bytes (offset + 4))))
            (λ s o a b.
              Reaches-bind buf (suc offset)
                (rethrow is_decode_error decode_error (decode_int64 buf o))
                (λ q. ok (record { flags = flags; stream_id = s; frame_id = q.0 }, q.1))
                (Reaches-weaken buf (suc offset) (suc o) _ (omega arith)
                  (again buf (suc o) (decode_int64 buf o) (decode_int64-Moves buf bytes o)))
                (λ f o' a' b'.
                  inr (record { flags = flags; stream_id = s; frame_id = f }, o', refl, a', b'))))
  ]
    where
      four : ltb (length buf) (offset + 4) ≡ false → offset + 4 ≤ length buf
      four h = ground arith

  -- The loop over the arguments of a message stays inside the buffer.
  args_loop-Reaches :
      (rounds offset : ℕ) (args : Dict Value)
      → offset ≤ length buf
      → Reaches buf offset (args_loop rounds buf offset args)
  unfolding args_loop
  args_loop-Reaches zero offset args h = inr (args, offset, refl, omega arith, h)
  args_loop-Reaches (suc rounds) offset args h = elim (parse_kv_pair-Moves offset) [
    | inl e ↦ rw e (inl refl)
    | inr (kv, o, e, a, b) ↦ rw e (elim (Bool-cases (contains args kv.0)) [
      | inl twice ↦ rw twice (inl refl)
      | inr new ↦ rw new (
          Reaches-weaken buf offset o (args_loop rounds buf o (put args kv.0 kv.1)) (omega arith)
            (args_loop-Reaches rounds o (put args kv.0 kv.1) b))
    ])
  ]

  pub decode_message-Moves : (offset : ℕ) → Moves buf offset (decode_message buf offset)
  unfolding decode_message
  decode_message-Moves offset =
      Reaches-bind buf (suc offset) (decode_string buf offset)
        (λ p.
          decode_tiny_int buf p.1 >>= λ q. args_loop q.0 buf q.1 [] >>= λ r. ok ((p.0, r.0), r.1))
        (decode_string-Moves buf bytes offset)
        (λ m o a b.
          Reaches-bind buf (suc offset) (decode_tiny_int buf o)
            (λ q. args_loop q.0 buf q.1 [] >>= λ r. ok ((m, r.0), r.1))
            (Reaches-weaken buf (suc offset) (suc o) (decode_tiny_int buf o) (omega arith)
              (decode_tiny_int-Moves buf bytes o))
            (λ n o' a' b'.
              Reaches-bind buf (suc offset) (args_loop n buf o' []) (λ r. ok ((m, r.0), r.1))
                (Reaches-weaken buf (suc offset) o' (args_loop n buf o' []) a'
                  (args_loop-Reaches n o' [] b'))
                (λ d o'' a'' b''. inr ((m, d), o'', refl, a'', b''))))

  action_args-Moves :
      (t : ActionType) (nb_args : ℕ) (scope : ActionScope) (offset : ℕ)
      → Moves buf offset (decode_action_args t nb_args scope buf offset)
  unfolding decode_action_args
  action_args-Moves set_var nb_args scope offset = elim (Bool-cases (nb_args == 3)) [
    | inl right ↦ rw right (
        Reaches-bind buf (suc offset) (parse_kv_pair buf offset)
          (λ p. ok (set_var_action scope p.0.0 p.0.1, p.1)) (parse_kv_pair-Moves offset)
          (λ kv o a b. inr (set_var_action scope kv.0 kv.1, o, refl, a, b)))
    | inr wrong ↦ rw wrong (inl refl)
  ]
  action_args-Moves unset_var nb_args scope offset = elim (Bool-cases (nb_args == 2)) [
    | inl right ↦ rw right (
        Reaches-bind buf (suc offset) (decode_string buf offset)
          (λ p. ok (unset_var_action scope p.0, p.1)) (decode_string-Moves buf bytes offset)
          (λ s o a b. inr (unset_var_action scope s, o, refl, a, b)))
    | inr wrong ↦ rw wrong (inl refl)
  ]

  pub decode_action-Moves : (offset : ℕ) → Moves buf offset (decode_action buf offset)
  unfolding decode_action
  decode_action-Moves offset = elim (Bool-cases (ltb (length buf) (offset + 3))) [
    | inl out ↦ rw out (inl refl)
    | inr inside ↦
        let (t, type) = byte_at-inside buf offset (ground arith) in
        let (n, nb_args) = byte_at-inside buf (offset + 1) (ground arith) in
        let (s, scope) = byte_at-inside buf (offset + 2) (ground arith) in
        rw (inside, type)
          (rethrown buf (suc offset) (action_type_of t)
            (λ action. byte_at buf (offset + 1) >>= λ nb. byte_at buf (offset + 2) >>= λ sb.
              rethrow is_value_error decode_error (action_scope_of sb) >>= λ sc.
              decode_action_args action nb sc buf (offset + 3))
            (action_type_errors t)
            (λ action.
              rw (nb_args, scope)
                (rethrown buf (suc offset) (action_scope_of s)
                  (λ sc. decode_action_args action n sc buf (offset + 3)) (action_scope_errors s)
                  (λ sc.
                    Reaches-weaken buf (suc offset) (suc (offset + 3)) _ (omega arith)
                      (action_args-Moves action n sc (offset + 3))))))
  ]

-- A list decoder from `offset` to `end`: a decode error, or all of it up to `end` was read.
abbrev pub ReadsTo : {A : Type 0} → Bytes → ℕ → ℕ → SpoaDec A → Type 0
ReadsTo {A} buf offset end r =
    (r ≡ err decode_error)
    ⊎ ((x : A) × (o : ℕ) × (r ≡ ok (x, o)) × (end ≤ o) × (offset ≤ o) × (o ≤ length buf))

-- On any bytes, from any offset inside them, the three list decoders end with a decode error, or with
-- an offset that has reached the end asked for and lies inside the buffer. No other exception comes
-- up, and none of the loops runs out of the rounds that the model gives it.
pub list_decoders_outcome :
    (buf : Bytes) (offset end : ℕ)
    → All IsByte buf
    → offset ≤ length buf
    → ReadsTo buf offset end (decode_kv_list buf offset end)
      × ReadsTo buf offset end (decode_list_of_messages buf offset end)
      × ReadsTo buf offset end (decode_list_of_actions buf offset end)
unfolding decode_kv_list decode_list_of_messages decode_list_of_actions
list_decoders_outcome buf offset end bytes h = (
  item_loop-outcome parse_kv_pair put_pair buf (parse_kv_pair-Moves buf bytes) (end - offset) offset
      end [] (omega arith) h,
  item_loop-outcome decode_message append_item buf (decode_message-Moves buf bytes) (end - offset)
      offset end [] (omega arith) h,
  item_loop-outcome decode_action append_item buf (decode_action-Moves buf bytes) (end - offset)
      offset end [] (omega arith) h,
)
