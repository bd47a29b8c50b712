-- ===== src/Cli/HealthCheck.antt =====
-- The health check of spoe_forge/cli.py against the agent itself: the HELLO of the command, the
-- handshake of the server, and the answer.
use spoe_forge.Server.Connection.{new_writer-Lasts, new_writer}
use spoe_forge.Prelude.{
  ℕ, ◌^◌, ◌≤◌, ◌<◌, ◌≡◌, refl, sym, ap, ◌∙◌, inl, inr, arith, true, false, List, [], ◌∷◌, ◌++◌,
  append-nil, some, Bool-cases,
}
use spoe_forge.Prelude.Int.{pos}
use spoe_forge.Prelude.Text.{Text, codes}
use spoe_forge.Prelude.Buffer.{Bytes}
use spoe_forge.Spop.Result.{ok}
use spoe_forge.Spop.Types.{Value, haproxy_hello}
use spoe_forge.Spop.Octets.{octets, mask}
use spoe_forge.Spop.Varint.{compose_varint, compose_nat, compose_loop}
use spoe_forge.Spop.Encoders.DataTypes.{
  encode_tiny_int, encode_int, encode_string, encode_latin1, auto_encode_dt_var,
}
use spoe_forge.Spop.Encoders.Payloads.{compose_kv_pair, encode_kv_list, encode_metadata}
use spoe_forge.Spop.SpopList.{to_spop_list, strip_all, strip, lstrip, rstrip, join}
use spoe_forge.Spop.SpopList.Laws.{IsToken}
use spoe_forge.Spop.Frame.{HaproxyHello, Payload, Frame, encode_payload}
use spoe_forge.Spop.Frame.Construct.{construct, final_metadata}
use spoe_forge.Spop.Frame.Codec.{Reader, eof, encode_body, encode, decode}
use spoe_forge.Spop.Frame.RoundTrip.Payloads.{IsWireList}
use spoe_forge.Spop.Frame.RoundTrip.Frames.{IsWireFrame, encode-fits, decode-encode}
use spoe_forge.Server.Configuration.{pipelining, fresh, mem_text}
use spoe_forge.Server.Configuration.Versions.{own_version}
use spoe_forge.Server.Handler.{handle_handshake}
use spoe_forge.Server.Handler.Hello.{shared, hello_frame}
use spoe_forge.Server.Handler.Handshake.{smaller, agreed, connected, handshake_agrees}
use spoe_forge.Cli.{default_frame_size, healthcheck, healthcheck_command}

-- The HELLO of the health check.
abbrev pub check_hello : HaproxyHello
check_hello = record {
  supported_versions = codes "2.0" ∷ [];
  max_frame_size = Value.int (pos default_frame_size);
  capabilities = pipelining ∷ [];
  engine_id = Value.null;
  healthcheck = Value.bool true;
}

abbrev pub check_frame : Frame
check_frame = record {
  frame_type = haproxy_hello;
  metadata = final_metadata (pos 0) (pos 0);
  payload = Payload.haproxy_hello check_hello;
}

-- What it is on the wire, behind its length.
pub check_body : Bytes
check_body =
    (1 ∷ 0 ∷ 0 ∷ 0 ∷ 1 ∷ 0 ∷ 0 ∷ 18 ∷ codes "supported-versions")
    ++ ((8 ∷ 3 ∷ codes "2.0")
        ++ ((14 ∷ codes "max-frame-size")
            ++ ((4 ∷ 240 ∷ 241 ∷ 0 ∷ 12 ∷ codes "capabilities")
                ++ ((8 ∷ 10 ∷ codes "pipelining") ++ ((11 ∷ codes "healthcheck") ++ (17 ∷ []))))))

check_written : encode_body check_frame ≡ ok check_body
unfolding check_body encode_body encode_payload encode_kv_list compose_kv_pair encode_metadata
    auto_encode_dt_var compose_varint compose_nat compose_loop encode_tiny_int encode_int
    encode_string encode_latin1 octets mask to_spop_list strip_all strip lstrip rstrip join
check_written = refl

pub check_encoded :
    (size : ℕ)
    → 88 ≤ size
    → size < 2 ^ 32
    → encode check_frame (pos size) ≡ ok (octets 4 88 ++ check_body)
unfolding check_body
check_encoded size low high =
    encode-fits check_frame size check_body check_written (omega arith) high

pub check_tokens-IsToken : (IsToken pipelining) × IsToken (codes "2.0")
unfolding strip lstrip rstrip
check_tokens-IsToken = (
  record { nonempty = refl; no_comma = omega arith; stripped = refl },
  record { nonempty = refl; no_comma = omega arith; stripped = refl },
)

pub check_frame-IsWireFrame : IsWireFrame check_frame
check_frame-IsWireFrame = record {
  typed = refl;
  metadata = (omega arith, omega arith, omega arith, omega arith);
  payload = (
    ((check_tokens-IsToken.1, tt), (omega arith, tt)),
    (omega arith, omega arith),
    ((check_tokens-IsToken.0, tt), (omega arith, tt)),
    tt,
    tt,
  );
}

shared-IsWireList : (caps : List Text) → IsWireList (shared caps)
shared-IsWireList caps = elim (Bool-cases (mem_text pipelining caps)) [
  | inl in_both ↦ rw in_both ((check_tokens-IsToken.0, tt), (omega arith, tt))
  | inr other ↦ rw other (tt, tt)
]

reply-IsWireFrame :
    (max : ℕ) (caps : List Text) → max < 2 ^ 63 → IsWireFrame (hello_frame max (shared caps))
reply-IsWireFrame max caps h = record {
  typed = refl;
  metadata = (omega arith, omega arith, omega arith, omega arith);
  payload = (omega arith, (omega arith, omega arith), shared-IsWireList caps);
}

-- A frame that fits some size fits a larger one.
encode_mono :
    (f : Frame) (m n : ℕ) (bytes : Bytes)
    → m ≤ n
    → encode f (pos m) ≡ ok bytes
    → encode f (pos n) ≡ ok bytes
unfolding encode
encode_mono f m n bytes h e = ground arith

-- The client reads the AGENT-HELLO that the agent wrote.
reply_read :
    (max : ℕ) (caps : List Text) (reply : Bytes)
    → max ≤ default_frame_size
    → encode (hello_frame max (shared caps)) (pos max) ≡ ok reply
    → decode (record { buffer = reply; ending = eof }) (pos default_frame_size)
      ≡ (ok (hello_frame max (shared caps)), record { buffer = []; ending = eof })
reply_read max caps reply h e =
    ap (λ b. decode (record { buffer = b; ending = eof }) (pos default_frame_size))
      (sym (append-nil reply))
    ∙ decode-encode (hello_frame max (shared caps)) (pos default_frame_size) reply [] eof
        (reply-IsWireFrame max caps (omega arith))
        (encode_mono (hello_frame max (shared caps)) max default_frame_size reply h e)

-- An agent of this size, as the other end: what its handshake writes on these bytes.
abbrev pub agent_reply : ℕ → ℕ → Bytes → Reader
agent_reply size concurrent bytes = record {
  buffer =
      (handle_handshake (connected (fresh size concurrent) bytes eof new_writer)).1.writer.sent;
  ending = eof;
}

-- The handshake of an agent with the health check.
agent_shakes :
    (size concurrent : ℕ)
    → 88 ≤ size
    → size < 2 ^ 32
    → (reply : Bytes) × (encode
          (hello_frame (smaller default_frame_size size) (shared (pipelining ∷ [])))
          (pos (smaller default_frame_size size))
        ≡ ok reply)
      × (handle_handshake
            (connected (fresh size concurrent) (octets 4 88 ++ check_body) eof new_writer)
          ≡ (
            ok false,
            connected
                (agreed (smaller default_frame_size size) concurrent (shared (pipelining ∷ [])))
                []
                eof
                (record new_writer { sent = reply }),
          ))
agent_shakes size concurrent low high =
    let (reply, written, shaken) =
      handshake_agrees size concurrent default_frame_size check_frame check_hello
        (octets 4 88 ++ check_body) [] eof new_writer refl refl
        (inl (pos 0, own_version, omega arith)) (omega arith) (omega arith) high
        check_frame-IsWireFrame (check_encoded size low high) refl new_writer-Lasts in
    (
      reply,
      written,
      ap (λ b. handle_handshake (connected (fresh size concurrent) b eof new_writer))
            (sym (append-nil (octets 4 88 ++ check_body)))
          ∙ shaken,
    )

-- The health check of a running agent passes: with a frame size of 88 bytes or more, and below 4 GiB,
-- the agent answers the HELLO of the command, closes without going on, and the command, on an open
-- connection that delivers the answer in time, exits with 0.
pub healthcheck_passes :
    (size concurrent : ℕ)
    → 88 ≤ size
    → size < 2 ^ 32
    → ((handle_handshake
          (connected (fresh size concurrent) (octets 4 88 ++ check_body) eof new_writer)).0
        ≡ ok false)
      × (healthcheck_command (
            some (record {
              broken = false;
              close_fails = false;
              reply = λ bytes. some (agent_reply size concurrent bytes);
            }))
          ≡ ok 0)
unfolding healthcheck_command healthcheck construct
healthcheck_passes size concurrent low high =
    let (reply, written, shaken) = agent_shakes size concurrent low high in
    (
      ap (λ r. r.0) shaken,
      rw (
        check_encoded default_frame_size (omega arith) (omega arith),
        ap
              (λ r.
                decode (record { buffer = r.1.writer.sent; ending = eof }) (pos default_frame_size))
              shaken
            ∙ reply_read (smaller default_frame_size size) (pipelining ∷ []) reply (ground arith)
                written,
      ),
    )
