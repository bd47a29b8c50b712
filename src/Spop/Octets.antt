-- ===== src/Spop/Octets.antt =====
-- Python's `int.to_bytes` and `int.from_bytes` in big-endian order, masks and `ctypes` integers.
use spoe_forge.Prelude.{
  ℕ, zero, suc, ◌+◌, ◌-◌, ◌*◌, ◌/◌, ◌%◌, ◌^◌, ◌<◌, ◌≡◌, refl, ap, ◌∙◌, arith, [], ◌∷◌, ◌++◌, ltb,
  if◌then◌else◌, length, length-append, All, All-append,
}
use native.Mathlib.Nat.{pow-suc}
use spoe_forge.Prelude.Int.{ℤ, pos, negsuc, ◌≤ℤ◌}
use spoe_forge.Prelude.Buffer.{Bytes, IsByte}
use spoe_forge.Spop.Result.{Result, ok, err, overflow_error}

-- The last `width` bytes of a number.
unfoldable pub octets : ℕ → ℕ → Bytes
octets zero n = []
octets (suc width) n = octets width (n / 256) ++ (n % 256 ∷ [])

-- `n.to_bytes(width, "big")`
abbrev pub to_bytes : ℕ → ℕ → Result Bytes
to_bytes width n = if ltb n (256 ^ width) then ok (octets width n) else err overflow_error

from_loop : ℕ → Bytes → ℕ
from_loop n [] = n
from_loop n (b ∷ bs) = from_loop (n * 256 + b) bs

-- `int.from_bytes(b, "big")`
unfoldable pub from_bytes : Bytes → ℕ
unfolding from_loop
from_bytes b = from_loop 0 b

-- `val & (2 ** width - 1)`, in two's complement.
unfoldable pub mask : ℕ → ℤ → ℕ
mask width (pos n) = n % 2 ^ width
mask width (negsuc n) = 2 ^ width - 1 - n % 2 ^ width

-- `ctypes.c_int32(n).value` and `ctypes.c_int64(n).value`
unfoldable pub c_int32 : ℕ → ℤ
c_int32 n = if ltb (n % 2 ^ 32) (2 ^ 31) then pos (n % 2 ^ 32) else negsuc (2 ^ 32 - 1 - n % 2 ^ 32)

unfoldable pub c_int64 : ℕ → ℤ
c_int64 n = if ltb (n % 2 ^ 64) (2 ^ 63) then pos (n % 2 ^ 64) else negsuc (2 ^ 64 - 1 - n % 2 ^ 64)

from_loop-append : (n : ℕ) (xs ys : Bytes) → from_loop n (xs ++ ys) ≡ from_loop (from_loop n xs) ys
unfolding from_loop
from_loop-append n [] ys = refl
from_loop-append n (b ∷ xs) ys = from_loop-append (n * 256 + b) xs ys

pub length-octets : (width n : ℕ) → length (octets width n) ≡ width
unfolding octets
length-octets zero n = refl
length-octets (suc width) n =
    omega
      (arith, length-append (octets width (n / 256)) (n % 256 ∷ []), length-octets width (n / 256))

pub octets-IsByte : (width n : ℕ) → All IsByte (octets width n)
unfolding octets
octets-IsByte zero n = tt
octets-IsByte (suc width) n =
    All-append IsByte (octets width (n / 256)) (n % 256 ∷ []) (octets-IsByte width (n / 256))
      (omega arith)

pub from_bytes-octets : (width n : ℕ) → n < 256 ^ width → from_bytes (octets width n) ≡ n
unfolding from_bytes octets
from_bytes-octets zero n h = omega arith
from_bytes-octets (suc width) n h =
    from_loop-append 0 (octets width (n / 256)) (n % 256 ∷ [])
    ∙ omega (arith, from_bytes-octets width (n / 256) (omega arith))

from_loop-lt : (n k : ℕ) (bs : Bytes) → All IsByte bs → n < k → from_loop n bs < k * 256 ^ length bs
unfolding from_loop
from_loop-lt n k [] h lt = omega arith
from_loop-lt n k (b ∷ bs) h lt = omega (
  arith,
  from_loop-lt (n * 256 + b) (k * 256) bs h.1 (omega arith),
  ap (λ t. k * t) (pow-suc 256 (length bs)),
)

pub from_bytes-lt : (bs : Bytes) → All IsByte bs → from_bytes bs < 256 ^ length bs
unfolding from_bytes
from_bytes-lt bs h = omega (arith, from_loop-lt 0 1 bs h (omega arith))

-- A 64-bit integer survives the mask and the reading as a signed integer.
pub c_int64-mask :
    (v : ℤ) → negsuc (2 ^ 63 - 1) ≤ℤ v → v ≤ℤ pos (2 ^ 63 - 1) → c_int64 (mask 64 v) ≡ v
unfolding c_int64 mask
c_int64-mask (pos n) lo hi = ground arith
c_int64-mask (negsuc n) lo hi = ground arith

pub c_int32-mask :
    (v : ℤ) → negsuc (2 ^ 31 - 1) ≤ℤ v → v ≤ℤ pos (2 ^ 31 - 1) → c_int32 (mask 32 v) ≡ v
unfolding c_int32 mask
c_int32-mask (pos n) lo hi = ground arith
c_int32-mask (negsuc n) lo hi = ground arith

pub c_int64_range : (n : ℕ) → (negsuc (2 ^ 63 - 1) ≤ℤ c_int64 n) × (c_int64 n ≤ℤ pos (2 ^ 63 - 1))
unfolding c_int64
c_int64_range n = ground arith

pub c_int32_range : (n : ℕ) → (negsuc (2 ^ 31 - 1) ≤ℤ c_int32 n) × (c_int32 n ≤ℤ pos (2 ^ 31 - 1))
unfolding c_int32
c_int32_range n = ground arith
