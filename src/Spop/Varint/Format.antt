-- ===== src/Spop/Varint/Format.antt =====
-- The wire format of a varint, described apart from the code that writes and reads it.
use spoe_forge.Prelude.{ℕ, ◌+◌, ◌*◌, ◌≤◌, ◌<◌, ◌≡◌, arith, [], ◌∷◌, length, All}
use spoe_forge.Prelude.Buffer.{Bytes, IsByte}

-- Groups of seven bits, lowest first; every byte but the last has its top bit set.
pub data Tail : ℕ → Bytes → Type 0 where
  last : {w : ℕ} → w < 128 → Tail w (w ∷ [])
  more :
      {v w r : ℕ} {xs : Bytes}
      → r < 128
      → v ≡ 128 + r + 128 * w
      → Tail w xs
      → Tail v ((128 + r) ∷ xs)

-- One byte below 240, or four bits under a high nibble of ones and then a tail.
pub data Varint : ℕ → Bytes → Type 0 where
  short : {v : ℕ} → v < 240 → Varint v (v ∷ [])
  long :
      {v w r : ℕ} {xs : Bytes}
      → r < 16
      → v ≡ 240 + r + 16 * w
      → Tail w xs
      → Varint v ((240 + r) ∷ xs)

pub Tail-IsByte : {w : ℕ} {xs : Bytes} → Tail w xs → All IsByte xs
Tail-IsByte (last h) = omega arith
Tail-IsByte (more h e t) = (omega arith, Tail-IsByte t)

pub Varint-IsByte : {v : ℕ} {xs : Bytes} → Varint v xs → All IsByte xs
Varint-IsByte (short h) = omega arith
Varint-IsByte (long h e t) = (omega arith, Tail-IsByte t)

pub Tail-nonempty : {w : ℕ} {xs : Bytes} → Tail w xs → 1 ≤ length xs
Tail-nonempty (last h) = omega arith
Tail-nonempty (more h e t) = omega arith

pub Varint-nonempty : {v : ℕ} {xs : Bytes} → Varint v xs → 1 ≤ length xs
Varint-nonempty (short h) = omega arith
Varint-nonempty (long h e t) = omega arith
