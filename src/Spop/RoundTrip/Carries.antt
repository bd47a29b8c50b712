-- ===== src/Spop/RoundTrip/Carries.antt =====
-- `Carries encoded decode v`: the encoder succeeds, and its bytes, at any place of any buffer, are
-- decoded to `v`, the offset moving to their end.
use spoe_forge.Prelude.{
  ℕ, ◌+◌, ◌≤◌, ◌≡◌, ap, arith, ◌++◌, append_assoc, length, length-append, All, All-append,
}
use spoe_forge.Prelude.Buffer.{Bytes, IsByte, At, At-append}
use spoe_forge.Spop.Result.{Result, ok, ◌>>=◌}
use spoe_forge.Spop.Decoders.DataTypes.{SpoaDec}

-- What a decoder makes of these bytes.
abbrev pub Reads {ℓ} : {A : Type ℓ} → (Bytes → ℕ → SpoaDec A) → Bytes → A → Type ℓ
Reads decode bytes v =
    (buf : Bytes) (offset : ℕ) (rest : Bytes)
    → At buf offset (bytes ++ rest)
    → decode buf offset ≡ ok (v, offset + length bytes)

pub record Carries {A : Type 0} (encoded : Result Bytes) (decode : Bytes → ℕ → SpoaDec A) (v : A)
    : Type 0 where
  pub bytes : Bytes
  pub written : encoded ≡ ok bytes
  pub are_bytes : All IsByte bytes
  pub nonempty : 1 ≤ length bytes
  pub read : Reads decode bytes v

-- One encoding behind another.
pub At-first :
    (buf : Bytes) (offset : ℕ) (xs ys rest : Bytes)
    → At buf offset ((xs ++ ys) ++ rest)
    → At buf offset (xs ++ (ys ++ rest))
At-first buf offset xs ys rest a = rw append_assoc at a

pub At-second :
    (buf : Bytes) (offset : ℕ) (xs ys rest : Bytes)
    → At buf offset ((xs ++ ys) ++ rest)
    → At buf (offset + length xs) (ys ++ rest)
At-second buf offset xs ys rest a =
    At-append buf offset xs (ys ++ rest) (At-first buf offset xs ys rest a)

-- Two encodings in a row, and two decoders in a row.
pub joined-Carries :
    {A B : Type 0} (m n : Result Bytes) (d : Bytes → ℕ → SpoaDec A) (e : Bytes → ℕ → SpoaDec B)
    (a : A) (b : B)
    → Carries m d a
    → Carries n e b
    → Carries {A = A × B}
        (m >>= λ x. n >>= λ y. ok (x ++ y))
        (λ buf offset. d buf offset >>= λ p. e buf p.1 >>= λ q. ok ((p.0, q.0), q.1))
        (a, b)
joined-Carries m n d e a b first second = record {
  bytes = first.bytes ++ second.bytes;
  written = rw (first.written, second.written);
  are_bytes = All-append IsByte first.bytes second.bytes first.are_bytes second.are_bytes;
  nonempty = omega (arith, first.nonempty, length-append first.bytes second.bytes);
  read = λ buf offset rest at_both.
      rw
        (
          first.read buf offset (second.bytes ++ rest)
              (At-first buf offset first.bytes second.bytes rest at_both),
          second.read buf (offset + length first.bytes) rest
              (At-second buf offset first.bytes second.bytes rest at_both),
        )
        (ap (λ o. ok ((a, b), o)) (omega (arith, length-append first.bytes second.bytes)));
}

-- The same bytes decoded by a decoder that finishes with a function of the value.
pub mapped-Carries :
    {A B : Type 0} (m : Result Bytes) (d : Bytes → ℕ → SpoaDec A) (e : Bytes → ℕ → SpoaDec B)
    (f : A → B) (a : A)
    → ((buf : Bytes) (offset : ℕ) → e buf offset ≡ (d buf offset >>= λ p. ok (f p.0, p.1)))
    → Carries m d a
    → Carries m e (f a)
mapped-Carries m d e f a same c = record {
  bytes = c.bytes;
  written = c.written;
  are_bytes = c.are_bytes;
  nonempty = c.nonempty;
  read = λ buf offset rest a'. rw (same buf offset, c.read buf offset rest a');
}

pub same_result :
    {A : Type 0} {x y : A} {o o' : ℕ}
    → x ≡ y
    → o ≡ o'
    → ◌≡◌ {A = Result (A × ℕ)} (ok (x, o)) (ok (y, o'))
same_result p q = cc
