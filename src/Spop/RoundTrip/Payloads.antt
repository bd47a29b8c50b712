-- ===== src/Spop/RoundTrip/Payloads.antt =====
-- Round trips of spoe_forge/spop/{encoders,decoders}/payloads.py.
use spoe_forge.Prelude.{
  ℕ, ◌+◌, ◌-◌, ◌≤◌, ◌≡◌, refl, sym, ap, ◌∙◌, arith, [], ◌∷◌, ◌++◌, append_assoc, append-nil, length,
  length-append, All, All-append, ge→ltb, gt→leb,
}
use spoe_forge.Prelude.Int.{pos}
use spoe_forge.Prelude.Buffer.{Bytes, IsByte, At, At-cons, At-lt, At-append}
use spoe_forge.Prelude.Text.{Text}
use spoe_forge.Prelude.Dict.{Dict, put-new}
use spoe_forge.Spop.Result.{ok}
use spoe_forge.Spop.Types.{Value, Messages}
use spoe_forge.Spop.Wire.{IsWireEntry, Fresh, IsWireMessage, IsWireMessages}
use spoe_forge.Spop.Octets.{octets}
use spoe_forge.Spop.Varint.Parse.{byte_at-At}
use spoe_forge.Spop.Encoders.DataTypes.{encode_string, encode_tiny_int, auto_encode_dt_var}
use spoe_forge.Spop.Encoders.Payloads.{
  compose_kv_pair, encode_kv_list, encode_message, encode_message_list,
}
use spoe_forge.Spop.Decoders.DataTypes.{decode_string, decode_tiny_int, auto_decode_var}
use spoe_forge.Spop.Decoders.Payloads.{
  parse_kv_pair, decode_kv_list, args_loop, decode_message, put_pair,
}
use spoe_forge.Spop.Decoders.Loop.{Items, next, item_loop-Items}
use spoe_forge.Spop.RoundTrip.Carries.{Carries, joined-Carries, At-first, At-second, same_result}
use spoe_forge.Spop.RoundTrip.DataTypes.{value-Carries}
use spoe_forge.Spop.RoundTrip.Primitives.{string-Carries}
use spoe_forge.Spop.RoundTrip.Lists.{Encoded, list-Encoded, foldl-put_pair}

pub pair-Carries :
    (p : Text × Value) → IsWireEntry p → Carries (compose_kv_pair p.0 p.1) parse_kv_pair p
unfolding compose_kv_pair parse_kv_pair
pair-Carries p h =
    joined-Carries (encode_string p.0) (auto_encode_dt_var p.1) decode_string auto_decode_var p.0
      p.1 (string-Carries p.0 h.0) (value-Carries p.1 h.1)

pub dict-Encoded : (d : Dict Value) → All IsWireEntry d → Encoded (encode_kv_list d) parse_kv_pair d
unfolding encode_kv_list
dict-Encoded =
    list-Encoded IsWireEntry (λ p. compose_kv_pair p.0 p.1) encode_kv_list parse_kv_pair refl
      (λ x xs. refl) pair-Carries

-- A key-value list of the wire is decoded to the dict that was encoded, in its order.
pub decode_kv_list-Items :
    (d : Dict Value) {bs : Bytes} (buf : Bytes) (offset : ℕ) (rest : Bytes)
    → Items parse_kv_pair d bs
    → Fresh [] d
    → At buf offset (bs ++ rest)
    → decode_kv_list buf offset (offset + length bs) ≡ ok (d, offset + length bs)
unfolding decode_kv_list
decode_kv_list-Items d {bs} buf offset rest i f a =
    item_loop-Items parse_kv_pair put_pair i (offset + length bs - offset) buf offset
      (offset + length bs) rest [] a (omega arith) refl
    ∙ ap (λ l. ok (l, offset + length bs)) (foldl-put_pair [] d f)

-- The arguments of a message.
args_loop-Items :
    (d : Dict Value) {bs : Bytes} (buf : Bytes) (offset : ℕ) (rest : Bytes) (args : Dict Value)
    → Items parse_kv_pair d bs
    → Fresh args d
    → At buf offset (bs ++ rest)
    → args_loop (length d) buf offset args ≡ ok (args ++ d, offset + length bs)
unfolding args_loop
args_loop-Items [] buf offset rest args Items.end f a =
    same_result (sym (append-nil args)) (omega arith)
args_loop-Items ((k, v) ∷ d) buf offset rest args (next b {bs} {all} q n r more) f a =
    rw (r buf offset (bs ++ rest) here, f.0, put-new args k v f.0)
      (args_loop-Items d buf (offset + length b) rest (args ++ ((k, v) ∷ [])) more f.1
          (At-append buf offset b (bs ++ rest) here)
        ∙ same_result (append_assoc args ((k, v) ∷ []) d)
            (omega (arith, ap length q, length-append b bs)))
  where
    here : At buf offset (b ++ (bs ++ rest))
    here = rw (q, append_assoc) at a

pub tiny_int : (n : ℕ) → n ≤ 255 → encode_tiny_int (pos n) ≡ ok (n ∷ [])
unfolding encode_tiny_int octets
tiny_int n h = ground arith

tiny_int-At :
    (n : ℕ) (buf : Bytes) (offset : ℕ) (rest : Bytes)
    → At buf offset (n ∷ rest)
    → decode_tiny_int buf offset ≡ ok (n, offset + 1)
unfolding decode_tiny_int
tiny_int-At n buf offset rest a =
    rw (gt→leb (length buf) offset (At-lt buf offset n rest a), byte_at-At buf offset n rest a)

pub tiny_int-Carries : (n : ℕ) → n ≤ 255 → Carries (encode_tiny_int (pos n)) decode_tiny_int n
tiny_int-Carries n h = record {
  bytes = n ∷ [];
  written = tiny_int n h;
  are_bytes = omega arith;
  nonempty = omega arith;
  read = λ buf offset rest a. tiny_int-At n buf offset rest a;
}

-- A message that the wire can carry is decoded to its name and its arguments, in their order.
pub message-Carries :
    (m : Text × Dict Value) → IsWireMessage m → Carries (encode_message m.0 m.1) decode_message m
unfolding encode_message decode_message
message-Carries m h = record {
  bytes = name.bytes ++ (length m.1 ∷ pairs.bytes);
  written =
      rw (ge→ltb 255 (length m.1) h.2, name.written, tiny_int (length m.1) h.2, pairs.written);
  are_bytes =
      All-append IsByte name.bytes (length m.1 ∷ pairs.bytes) name.are_bytes
        (omega arith, pairs.are_bytes);
  nonempty = omega (arith, name.nonempty, length-append name.bytes (length m.1 ∷ pairs.bytes));
  read = λ buf offset rest a.
      let count = At-second buf offset name.bytes (length m.1 ∷ pairs.bytes) rest a in
      rw
        (
          name.read buf offset ((length m.1 ∷ pairs.bytes) ++ rest)
              (At-first buf offset name.bytes (length m.1 ∷ pairs.bytes) rest a),
          tiny_int-At (length m.1) buf (offset + length name.bytes) (pairs.bytes ++ rest) count,
          args_loop-Items m.1 buf (offset + length name.bytes + 1) rest [] pairs.items h.1.1
              (At-cons buf (offset + length name.bytes) (length m.1) (pairs.bytes ++ rest) count),
        )
        (same_result refl (omega (arith, length-append name.bytes (length m.1 ∷ pairs.bytes))));
}
  where
    name : Carries (encode_string m.0) decode_string m.0
    name = string-Carries m.0 h.0

    pairs : Encoded (encode_kv_list m.1) parse_kv_pair m.1
    pairs = dict-Encoded m.1 h.1.0

pub messages-Encoded :
    (messages : Messages)
    → IsWireMessages messages
    → Encoded (encode_message_list messages) decode_message messages
unfolding encode_message_list
messages-Encoded =
    list-Encoded IsWireMessage (λ m. encode_message m.0 m.1) encode_message_list decode_message refl
      (λ x xs. refl) message-Carries
