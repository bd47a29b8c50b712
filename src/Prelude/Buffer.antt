-- ===== src/Prelude/Buffer.antt =====
-- Reading at an offset of a buffer: `At buf offset tail` says that what follows the offset is `tail`.
use Prim.Native.Nat.{ℕ, ◌+◌, ◌-◌, ◌≤◌, ◌<◌}
use mathlib.Core.Path.{◌≡◌, refl, sym, ap, ◌∙◌}
use mathlib.Core.Option.{some}
use mathlib.Core.List.{List, [], ◌∷◌, ◌++◌}
use native.Mathlib.Omega.{arith}
use spoe_forge.Prelude.Lists.{
  length, take, drop, get_elem?, length-append, length-take, length-drop, drop-append, drop-drop,
  take-append, take-drop-length, get_elem?-drop,
}

abbrev pub Bytes : Type 0
Bytes = List ℕ

abbrev pub IsByte : ℕ → Type 0
IsByte b = b < 256

-- `buf[start:end]`, where `start` does not pass `end`.
abbrev pub slice : Bytes → ℕ → ℕ → Bytes
slice buf start end = take (end - start) (drop start buf)

pub record At (buf : Bytes) (offset : ℕ) (tail : Bytes) : Type 0 where
  pub total : offset + length tail ≡ length buf
  pub rest : drop offset buf ≡ tail

pub At-whole : (buf : Bytes) → At buf 0 buf
At-whole buf = record { total = omega arith; rest = refl }

pub At-drop : (buf : Bytes) (offset : ℕ) → offset ≤ length buf → At buf offset (drop offset buf)
At-drop buf offset h = record { total = omega (arith, length-drop offset buf); rest = refl }

pub At-append :
    (buf : Bytes) (offset : ℕ) (xs ys : Bytes)
    → At buf offset (xs ++ ys)
    → At buf (offset + length xs) ys
At-append buf offset xs ys a = record {
  total = omega (arith, a.total, length-append xs ys);
  rest =
      sym (drop-drop offset (length xs) buf)
      ∙ ap (λ t. drop (length xs) t) a.rest
      ∙ drop-append xs ys;
}

pub At-cons :
    (buf : Bytes) (offset x : ℕ) (ys : Bytes) → At buf offset (x ∷ ys) → At buf (offset + 1) ys
At-cons buf offset x ys a = At-append buf offset (x ∷ []) ys a

pub At-lt : (buf : Bytes) (offset x : ℕ) (ys : Bytes) → At buf offset (x ∷ ys) → offset < length buf
At-lt buf offset x ys a = omega (arith, a.total)

pub get_elem?-At :
    (buf : Bytes) (offset x : ℕ) (ys : Bytes)
    → At buf offset (x ∷ ys)
    → get_elem? buf offset ≡ some x
get_elem?-At buf offset x ys a = get_elem?-drop buf offset x ys a.rest

pub slice-At :
    (buf : Bytes) (offset : ℕ) (xs ys : Bytes)
    → At buf offset (xs ++ ys)
    → slice buf offset (offset + length xs) ≡ xs
slice-At buf offset xs ys a = rw (a.rest, count) (take-append xs ys)
  where
    count : offset + length xs - offset ≡ length xs
    count = omega arith

pub At-slice :
    (buf : Bytes) (start end : ℕ)
    → start ≤ end
    → end ≤ length buf
    → At buf start (slice buf start end ++ drop end buf)
At-slice buf start end h k = record {
  total =
      omega
        (arith, length-append (slice buf start end) (drop end buf), counts, length-drop end buf);
  rest =
      sym (
        ap (λ t. slice buf start end ++ t) joined
        ∙ take-drop-length (end - start) (drop start buf));
}
  where
    counts : length (slice buf start end) ≡ end - start
    counts = omega (arith, length-take (end - start) (drop start buf), length-drop start buf)

    gap : start + (end - start) ≡ end
    gap = omega arith

    joined : drop end buf ≡ drop (end - start) (drop start buf)
    joined = rw (drop-drop, gap)
