-- ===== src/Spop/Wire.antt =====
-- What payloads the wire can carry: latin-1 names, values in range, no key twice in a dict, at most
-- 255 arguments, and metadata of 63 bits.
use spoe_forge.Prelude.{◌<◌, ◌^◌, ◌≤◌, ◌≡◌, false, [], ◌∷◌, ◌++◌, length, All}
use spoe_forge.Prelude.Int.{pos, ◌≤ℤ◌}
use spoe_forge.Prelude.Buffer.{IsByte}
use spoe_forge.Prelude.Text.{Text}
use spoe_forge.Prelude.Dict.{Dict, contains}
use spoe_forge.Spop.Types.{
  other_action, Value, IsWire, IsLatin1, MetaData, Action, set_var_action, unset_var_action,
  Messages, int64_max,
}

abbrev pub IsWireEntry : Text × Value → Type 0
IsWireEntry p = IsLatin1 p.0 × IsWire p.1

-- No key of `d` is in `payload`, nor twice in `d`.
abbrev pub Fresh {ℓ} : {V : Type ℓ} → Dict V → Dict V → Type 0
Fresh payload [] = Unit {0}
Fresh payload ((k, v) ∷ d) = (contains payload k ≡ false) × Fresh (payload ++ ((k, v) ∷ [])) d

-- A Python `dict` whose keys and values the wire can carry.
abbrev pub IsWireDict : Dict Value → Type 0
IsWireDict d = All IsWireEntry d × Fresh [] d

abbrev pub IsWireMessage : Text × Dict Value → Type 0
IsWireMessage m = IsLatin1 m.0 × IsWireDict m.1 × (length m.1 ≤ 255)

abbrev pub IsWireMessages : Messages → Type 0
IsWireMessages messages = All IsWireMessage messages

abbrev pub IsWireAction : Action → Type 0
IsWireAction (set_var_action scope name value) = IsLatin1 name × IsWire value
IsWireAction (unset_var_action scope name) = IsLatin1 name
IsWireAction other_action = ⊥

abbrev pub IsWireMetaData : MetaData → Type 0
IsWireMetaData m =
    (pos 0 ≤ℤ m.stream_id)
    × (m.stream_id ≤ℤ int64_max)
    × (pos 0 ≤ℤ m.frame_id)
    × (m.frame_id ≤ℤ int64_max)

-- What a Python object is: an address has the bits of its family, `bytes` are bytes.
abbrev pub IsObject : Value → Type 0
IsObject (Value.ipv4 n) = n < 2 ^ 32
IsObject (Value.ipv6 n) = n < 2 ^ 128
IsObject (Value.bytes b) = All IsByte b
IsObject _ = Unit {0}

-- An action of the two classes, with such a value.
abbrev pub ActsOnObject : Action → Type 0
ActsOnObject (set_var_action scope name value) = IsObject value
ActsOnObject (unset_var_action scope name) = Unit {0}
ActsOnObject other_action = ⊥
