-- ===== src/Spop/Frame/RoundTrip/Payloads.antt =====
-- `encode_payload` and `decode_payload` of each subclass of `Frame` in spoe_forge/spop/frame.py, one
-- after the other.
use spoe_forge.Prelude.{
  ℕ, ◌+◌, ◌≡◌, refl, sym, subst, arith, List, [], ◌∷◌, append-nil, none, some, length, All,
  All-append,
}
use spoe_forge.Prelude.Text.{Text, codes, text_eq}
use spoe_forge.Prelude.Dict.{Dict, get, contains}
use spoe_forge.Prelude.Buffer.{Bytes, IsByte, At}
use spoe_forge.Spop.Result.{ok}
use spoe_forge.Spop.Types.{Value, IsWire, IsLatin1}
use spoe_forge.Spop.Wire.{IsWireEntry, Fresh, IsWireDict, IsWireMessages, IsWireAction}
use spoe_forge.Spop.SpopList.{join, to_spop_list, comma}
use spoe_forge.Spop.SpopList.Laws.{IsToken, strip_all-tokens, from_spop_list-to_spop_list}
use spoe_forge.Spop.Encoders.Payloads.{encode_kv_list}
use spoe_forge.Spop.Decoders.Payloads.{
  parse_kv_pair, decode_message, decode_action, decode_kv_list, decode_list_of_messages,
  decode_list_of_actions,
}
use spoe_forge.Spop.RoundTrip.Lists.{Encoded, collect-Items}
use spoe_forge.Spop.RoundTrip.Payloads.{dict-Encoded, decode_kv_list-Items, messages-Encoded}
use spoe_forge.Spop.RoundTrip.Actions.{actions-Encoded}
use spoe_forge.Spop.Frame.{
  HaproxyHello, AgentHello, Disconnect, Payload, FrameClass, engine_entry, haproxy_hello_dict,
  agent_hello_dict, disconnect_dict, item_or, haproxy_hello_of, agent_hello_of, disconnect_of,
  encode_payload, decode_payload,
}

-- A list of latin-1 tokens.
abbrev pub IsWireList : List Text → Type 0
IsWireList items = All IsToken items × All IsLatin1 items

abbrev pub IsWirePayload : Payload → Type 0
IsWirePayload (Payload.haproxy_hello f) =
    IsWireList f.supported_versions
    × IsWire f.max_frame_size
    × IsWireList f.capabilities
    × IsWire f.engine_id
    × IsWire f.healthcheck
IsWirePayload (Payload.agent_hello f) =
    IsWire f.version × IsWire f.max_frame_size × IsWireList f.capabilities
IsWirePayload (Payload.disconnect f) = IsWire f.status_code × IsWire f.message
IsWirePayload (Payload.notify messages) = IsWireMessages messages
IsWirePayload (Payload.ack none) = ⊥
IsWirePayload (Payload.ack (some actions)) = All IsWireAction actions

abbrev pub class_of : Payload → FrameClass
class_of (Payload.haproxy_hello f) = FrameClass.haproxy_hello
class_of (Payload.agent_hello f) = FrameClass.agent_hello
class_of (Payload.disconnect f) = FrameClass.disconnect
class_of (Payload.notify messages) = FrameClass.notify
class_of (Payload.ack actions) = FrameClass.ack

join-IsLatin1 : (items : List Text) → All IsLatin1 items → IsLatin1 (join items)
unfolding join
join-IsLatin1 [] h = tt
join-IsLatin1 (item ∷ []) h = h.0
join-IsLatin1 (item ∷ next ∷ items) h =
    All-append IsByte item (comma ∷ join (next ∷ items)) h.0
      (omega arith, join-IsLatin1 (next ∷ items) h.1)

pub to_spop_list-IsLatin1 : (items : List Text) → IsWireList items → IsLatin1 (to_spop_list items)
unfolding to_spop_list
to_spop_list-IsLatin1 items h =
    subst (λ l. IsLatin1 (join l)) (sym (strip_all-tokens items h.0)) (join-IsLatin1 items h.1)

-- The dicts of the frames are ones that the wire carries.
engine_entry-IsWire : (v : Value) → IsWire v → All IsWireEntry (engine_entry v)
engine_entry-IsWire Value.null h = tt
engine_entry-IsWire v h = ((omega arith, h), tt)

hello-Fresh : (f : HaproxyHello) → (e : Value) → e ≡ f.engine_id → Fresh [] (haproxy_hello_dict f)
unfolding contains text_eq
hello-Fresh f Value.null p = rw (← p) (refl, (refl, (refl, (refl, tt))))
hello-Fresh f e p = rw (← p) (refl, (refl, (refl, (refl, (refl, tt)))))

hello-IsWireDict :
    (f : HaproxyHello) → IsWirePayload (Payload.haproxy_hello f) → IsWireDict (haproxy_hello_dict f)
hello-IsWireDict f (versions, size, capabilities, engine, health) = (
  (
    (omega arith, to_spop_list-IsLatin1 f.supported_versions versions),
    (
      (omega arith, size),
      (
        (omega arith, to_spop_list-IsLatin1 f.capabilities capabilities),
        ((omega arith, health), engine_entry-IsWire f.engine_id engine),
      ),
    ),
  ),
  hello-Fresh f f.engine_id refl,
)

agent-IsWireDict :
    (f : AgentHello) → IsWirePayload (Payload.agent_hello f) → IsWireDict (agent_hello_dict f)
unfolding contains text_eq
agent-IsWireDict f (version, size, capabilities) = (
  (
    (omega arith, version),
    ((omega arith, size), ((omega arith, to_spop_list-IsLatin1 f.capabilities capabilities), tt)),
  ),
  (refl, (refl, (refl, tt))),
)

disconnect-IsWireDict :
    (f : Disconnect) → IsWirePayload (Payload.disconnect f) → IsWireDict (disconnect_dict f)
unfolding contains text_eq
disconnect-IsWireDict f (code, message) =
    (((omega arith, code), ((omega arith, message), tt)), (refl, (refl, tt)))

-- The attributes are found again in the dicts.
engine_lookup :
    (a b c d e : Value)
    → item_or Value.null
        ((codes "supported-versions", a)
          ∷ (codes "max-frame-size", b)
          ∷ (codes "capabilities", c)
          ∷ (codes "healthcheck", d)
          ∷ engine_entry e)
        (codes "engine-id")
      ≡ e
unfolding get text_eq
engine_lookup a b c d Value.null = refl
engine_lookup a b c d _ = refl

haproxy_hello_of-dict :
    (f : HaproxyHello)
    → IsWirePayload (Payload.haproxy_hello f)
    → haproxy_hello_of (haproxy_hello_dict f) ≡ ok f
unfolding haproxy_hello_of get text_eq
haproxy_hello_of-dict f (versions, size, capabilities, engine, health) = rw (
  from_spop_list-to_spop_list f.supported_versions versions.0,
  from_spop_list-to_spop_list f.capabilities capabilities.0,
  engine_lookup (Value.str (to_spop_list f.supported_versions)) f.max_frame_size
      (Value.str (to_spop_list f.capabilities)) f.healthcheck f.engine_id,
)

agent_hello_of-dict :
    (f : AgentHello)
    → IsWirePayload (Payload.agent_hello f)
    → agent_hello_of (agent_hello_dict f) ≡ ok f
unfolding agent_hello_of get text_eq
agent_hello_of-dict f (version, size, capabilities) =
    rw (from_spop_list-to_spop_list f.capabilities capabilities.0)

disconnect_of-dict : (f : Disconnect) → disconnect_of (disconnect_dict f) ≡ ok f
unfolding disconnect_of get text_eq
disconnect_of-dict f = refl

-- A payload that was encoded, and that is decoded to itself as the last thing in a buffer.
pub record PayloadEncoded (payload : Payload) : Type 0 where
  pub bytes : Bytes
  pub written : encode_payload payload ≡ ok bytes
  pub are_bytes : All IsByte bytes
  pub read :
      (buf : Bytes) (offset stop : ℕ)
      → At buf offset bytes
      → stop ≡ offset + length bytes
      → decode_payload (class_of payload) buf offset stop ≡ ok (payload, stop)

kv_list-At :
    (d : Dict Value) (e : Encoded (encode_kv_list d) parse_kv_pair d) (buf : Bytes)
    (offset stop : ℕ)
    → Fresh [] d
    → At buf offset e.bytes
    → stop ≡ offset + length e.bytes
    → decode_kv_list buf offset stop ≡ ok (d, stop)
kv_list-At d e buf offset stop f a p =
    rw p (decode_kv_list-Items d buf offset [] e.items f (rw append-nil a))

pub payload-Encoded : (p : Payload) → IsWirePayload p → PayloadEncoded p
unfolding encode_payload decode_payload decode_list_of_messages decode_list_of_actions
payload-Encoded (Payload.haproxy_hello f) h =
    let (entries, fresh) = hello-IsWireDict f h in
    let e = dict-Encoded (haproxy_hello_dict f) entries in
    record {
      bytes = e.bytes;
      written = e.written;
      are_bytes = e.are_bytes;
      read = λ buf offset stop a p. rw (
        kv_list-At (haproxy_hello_dict f) e buf offset stop fresh a p,
        haproxy_hello_of-dict f h,
      );
    }
payload-Encoded (Payload.agent_hello f) h =
    let (entries, fresh) = agent-IsWireDict f h in
    let e = dict-Encoded (agent_hello_dict f) entries in
    record {
      bytes = e.bytes;
      written = e.written;
      are_bytes = e.are_bytes;
      read = λ buf offset stop a p.
          rw (kv_list-At (agent_hello_dict f) e buf offset stop fresh a p, agent_hello_of-dict f h);
    }
payload-Encoded (Payload.disconnect f) h =
    let (entries, fresh) = disconnect-IsWireDict f h in
    let e = dict-Encoded (disconnect_dict f) entries in
    record {
      bytes = e.bytes;
      written = e.written;
      are_bytes = e.are_bytes;
      read = λ buf offset stop a p.
          rw (kv_list-At (disconnect_dict f) e buf offset stop fresh a p, disconnect_of-dict f);
    }
payload-Encoded (Payload.notify messages) h =
    let e = messages-Encoded messages h in
    record {
      bytes = e.bytes;
      written = e.written;
      are_bytes = e.are_bytes;
      read = λ buf offset stop a p.
          rw (p, collect-Items decode_message buf offset [] e.items (rw append-nil a));
    }
payload-Encoded (Payload.ack none) h = absurd h
payload-Encoded (Payload.ack (some actions)) h =
    let e = actions-Encoded actions h in
    record {
      bytes = e.bytes;
      written = e.written;
      are_bytes = e.are_bytes;
      read = λ buf offset stop a p.
          rw (p, collect-Items decode_action buf offset [] e.items (rw append-nil a));
    }
