-- ===== src/Spop/Varint.antt =====
-- Variable-length integers: `_compose_varint` of spoe_forge/spop/encoders/data_types.py and
-- `_parse_varint` of spoe_forge/spop/decoders/data_types.py.
pub mod Format
pub mod Compose
pub mod Parse
pub mod Laws
use mathlib.Core.Logic.{dite}
use mathlib.Core.WellFounded.{Acc}
use native.Mathlib.Decide.{dec_le}
use spoe_forge.Prelude.{
  ℕ, zero, suc, ◌+◌, ◌-◌, ◌*◌, ◌/◌, ◌^◌, ◌≤◌, ◌<◌, bit_and, bit_or, List, [], ◌∷◌, ◌++◌, ltb, leb,
  if◌then◌else◌, length, get_elem?, arith,
}
use spoe_forge.Prelude.Int.{ℤ, pos, negsuc}
use spoe_forge.Prelude.Order.{lt_wf}
use spoe_forge.Prelude.Buffer.{Bytes}
use spoe_forge.Spop.Result.{
  Result, ok, err, decode_error, encode_error, index_error, out_of_fuel, or_raise, ◌>>=◌,
}

pub group_shrinks : (val : ℕ) → 128 ≤ val → (val - 128) / 128 < val
group_shrinks val h = omega arith

-- `while val >= 128`, then `out.append(val)`.
unfoldable pub compose_loop : Bytes → (val : ℕ) → Acc ◌<◌ val → Bytes
compose_loop out val (Acc.intro _ smaller) =
    dite (dec_le 128 val)
      (λ h.
        compose_loop (out ++ (bit_and (bit_or val 0x80) 0xFF ∷ [])) ((val - 128) / 2 ^ 7)
          (smaller _ (group_shrinks val h)))
      (λ _. out ++ (val ∷ []))

unfoldable pub compose_nat : ℕ → Bytes
unfolding compose_loop lt_wf dec_le
compose_nat val =
    if ltb val 240
    then val ∷ []
    else compose_loop (bit_and (bit_or val 0xF0) 0xFF ∷ []) ((val - 240) / 2 ^ 4)
        (lt_wf.apply ((val - 240) / 2 ^ 4))

unfoldable pub compose_varint : ℤ → Result Bytes
compose_varint (negsuc n) = err encode_error
compose_varint (pos val) = ok (compose_nat val)

-- `buf[offset]`
abbrev pub byte_at : Bytes → ℕ → Result ℕ
byte_at buf offset = or_raise index_error (get_elem? buf offset)

-- The loop `while True`, on the rounds left.
unfoldable pub parse_loop : ℕ → Bytes → ℕ → ℕ → ℕ → Result (ℕ × ℕ)
parse_loop zero buf offset value shift = err out_of_fuel
parse_loop (suc fuel) buf offset value shift =
    if leb (length buf) (offset + 1) then err decode_error else do
      next_byte ← byte_at buf (offset + 1)
      let value' = value + next_byte * 2 ^ shift
      let more = parse_loop fuel buf (offset + 1) value' (shift + 7)
      if ltb next_byte 128 then ok (value', offset + 1 + 1) else more

-- Each round moves the offset on, so the length of the buffer bounds the rounds.
unfoldable pub parse_varint : Bytes → ℕ → Result (ℕ × ℕ)
unfolding parse_loop
parse_varint buf offset = if leb (length buf) offset then err decode_error else do
  first_byte ← byte_at buf offset
  if ltb first_byte 240
      then ok (first_byte, offset + 1)
      else parse_loop (length buf) buf offset first_byte 4
