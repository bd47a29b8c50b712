-- ===== src/Server/Handler/Hello.antt =====
-- The AGENT-HELLO of the handshake of spoe_forge/server/handler.py, and the bytes that it takes.
use spoe_forge.Prelude.{
  ℕ, ◌+◌, ◌^◌, ◌≤◌, ◌<◌, ◌≡◌, inl, inr, arith, List, [], ◌∷◌, ◌++◌, append-nil, ltb, if◌then◌else◌,
  length, length-append, Bool-cases,
}
use spoe_forge.Prelude.Int.{pos}
use spoe_forge.Prelude.Text.{Text, codes}
use spoe_forge.Prelude.Buffer.{Bytes}
use spoe_forge.Spop.Result.{ok}
use spoe_forge.Spop.Types.{Value, IsLatin1, agent_hello}
use spoe_forge.Spop.Octets.{octets}
use spoe_forge.Spop.Varint.{compose_nat}
use spoe_forge.Spop.Varint.Laws.{length-compose_nat}
use spoe_forge.Spop.Encoders.DataTypes.{auto_encode_dt_var}
use spoe_forge.Spop.Encoders.Payloads.{compose_kv_pair, encode_kv_list}
use spoe_forge.Spop.RoundTrip.Payloads.{tiny_int}
use spoe_forge.Spop.SpopList.{to_spop_list, strip_all, strip, lstrip, rstrip, join}
use spoe_forge.Spop.Frame.{Payload, Frame, encode_payload}
use spoe_forge.Spop.Frame.Construct.{final_metadata}
use spoe_forge.Spop.Frame.Codec.{encode_body, encode}
use spoe_forge.Spop.Frame.RoundTrip.Frames.{encode-fits}
use spoe_forge.Server.Configuration.{spoe_version, pipelining, mem_text}
use spoe_forge.Server.Handler.Sizes.{compose_small, string_small, string_long, int64_pos, no_ids}

-- The capabilities of the agent that the peer lists.
abbrev pub shared : List Text → List Text
shared caps = if mem_text pipelining caps then pipelining ∷ [] else []

-- The AGENT-HELLO with this size and these capabilities.
abbrev pub hello_frame : ℕ → List Text → Frame
hello_frame max caps = record {
  frame_type = agent_hello;
  metadata = final_metadata (pos 0) (pos 0);
  payload = Payload.agent_hello (record {
    version = Value.str spoe_version;
    max_frame_size = Value.int (pos max);
    capabilities = caps;
  });
}

hello_bytes : ℕ → Text → Bytes
hello_bytes max s =
    (101 ∷ 0 ∷ 0 ∷ 0 ∷ 1 ∷ 0 ∷ 0 ∷ 7 ∷ codes "version")
    ++ ((8 ∷ 3 ∷ codes "2.0")
        ++ ((14 ∷ codes "max-frame-size")
            ++ (4 ∷ (compose_nat max ++ ((12 ∷ codes "capabilities") ++ (8 ∷ (length s ∷ s)))))))

hello_body :
    (max : ℕ) (caps : List Text) (s : Text)
    → max < 2 ^ 63
    → to_spop_list caps ≡ s
    → IsLatin1 s
    → length s < 240
    → encode_body (hello_frame max caps) ≡ ok (hello_bytes max s)
unfolding encode_body encode_payload encode_kv_list compose_kv_pair auto_encode_dt_var hello_bytes
hello_body max caps s h e l k = rw (
  tiny_int 101 (omega arith),
  no_ids,
  e,
  string_small (codes "version") (omega arith) (omega arith),
  string_long spoe_version (omega arith),
  compose_small 3 (omega arith),
  string_small (codes "max-frame-size") (omega arith) (omega arith),
  int64_pos max h,
  string_small (codes "capabilities") (omega arith) (omega arith),
  string_long s l,
  compose_small (length s) k,
  append-nil s,
)

length-hello_bytes :
    (max : ℕ) (s : Text) → length (hello_bytes max s) ≡ 51 + length (compose_nat max) + length s
unfolding hello_bytes
length-hello_bytes max s =
    omega
      (arith, length-append (compose_nat max) ((12 ∷ codes "capabilities") ++ (8 ∷ (length s ∷ s))))

hello_bytes-le :
    (max : ℕ) (s : Text)
    → 62 ≤ max
    → max < 2 ^ 32
    → length s ≤ 10
    → length (hello_bytes max s) ≤ max
hello_bytes-le max s low high h = elim (Bool-cases (ltb max 240)) [
  | inl one ↦ omega (arith, length-hello_bytes max s, one_byte (ground arith))
  | inr more ↦ omega (arith, length-hello_bytes max s, five_bytes, big (ground arith))
]
  where
    big : 240 ≤ max → 240 ≤ max
    big p = p

    one_byte : max < 240 → length (compose_nat max) ≤ 1
    one_byte p = (length-compose_nat.0 0 max).1 (rw length-compose_nat.1 p)

    five_bytes : length (compose_nat max) ≤ 5
    five_bytes = (length-compose_nat.0 4 max).1 (rw length-compose_nat.5 (omega arith))

-- The capabilities as they are written: pipelining, or nothing.
shared_text :
    (caps : List Text)
    → (s : Text) × (to_spop_list (shared caps) ≡ s) × IsLatin1 s × (length s ≤ 10)
unfolding to_spop_list strip_all strip lstrip rstrip join
shared_text caps = elim (Bool-cases (mem_text pipelining caps)) [
  | inl in_both ↦ (pipelining, rw in_both, omega arith, omega arith)
  | inr other ↦ ([], rw other, tt, omega arith)
]

pub hello-fits :
    (max : ℕ) (caps : List Text)
    → 62 ≤ max
    → max < 2 ^ 32
    → (bytes : Bytes) × (encode (hello_frame max (shared caps)) (pos max) ≡ ok bytes)
hello-fits max caps low high =
    let (s, e, l, few) = shared_text caps in
    let body = hello_bytes max s in
    (
      octets 4 (length body) ++ body,
      encode-fits (hello_frame max (shared caps)) max body
          (hello_body max (shared caps) s (omega arith) e l (omega arith))
          (hello_bytes-le max s low high few) high,
    )
