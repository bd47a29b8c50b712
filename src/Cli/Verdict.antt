-- ===== src/Cli/Verdict.antt =====
-- What the health check of spoe_forge/cli.py makes of anything that can come back.
use spoe_forge.Prelude.{
  ℕ, ◌≡◌, ◌⊎◌, refl, sym, ap, subst, ◌∙◌, inl, inr, arith, Bool, true, false, ◌++◌, All, Option,
  none, some, if◌then◌else◌,
}
use spoe_forge.Prelude.Int.{pos}
use spoe_forge.Prelude.Buffer.{Bytes, IsByte}
use spoe_forge.Spop.Result.{
  Exc, Result, ok, err, decode_error, eof_error, frame_too_big, attribute_error, type_error,
  connection_error, ◌>>=◌,
}
use spoe_forge.Spop.Octets.{octets}
use spoe_forge.Spop.Frame.{Frame}
use spoe_forge.Spop.Frame.Construct.{construct}
use spoe_forge.Spop.Frame.Codec.{Reader, decode}
use spoe_forge.Spop.Safety.Streams.{IsReadFailure, Reads, decode-Reads}
use spoe_forge.Cli.{
  default_frame_size, Link, is_agent_hello, judge, await_hello, handled, healthcheck,
  healthcheck_command,
}
use spoe_forge.Cli.HealthCheck.{check_body, check_encoded}

-- The HELLO of the health check, with its length.
abbrev pub check_bytes : Bytes
check_bytes = octets 4 88 ++ check_body

-- The HELLO went out, an AGENT-HELLO came back, and the connection was closed without an error.
abbrev pub Greeted : Link → Type 0
Greeted link =
    (link.broken ≡ false)
    × (link.close_fails ≡ false)
    × (reader : Reader) × (link.reply check_bytes ≡ some reader)
    × (f : Frame) × ((decode reader (pos default_frame_size)).0 ≡ ok f)
    × (is_agent_hello f.frame_type ≡ true)

-- What comes back is bytes.
abbrev pub DeliversBytes : Link → Type 0
DeliversBytes link =
    (sent : Bytes) (reader : Reader) → link.reply sent ≡ some reader → All IsByte reader.buffer

-- The exit code 0 for a greeting, 1 or one of two errors for anything else.
abbrev Judges : Type 0 → Result ℕ → Type 0
Judges Good r =
    ((r ≡ ok 0) × Good)
    ⊎ ((r ≡ ok 1) × ¬ Good)
    ⊎ (((r ≡ err attribute_error) ⊎ (r ≡ err type_error)) × ¬ Good)

abbrev pub exit_code : Result Bool → Result ℕ
exit_code r = r >>= λ b. if b then ok 0 else ok 1

-- A raise of reading.
raised :
    (Good : Type 0) (e : Exc) → IsReadFailure e → ¬ Good → Judges Good (exit_code (handled (err e)))
raised Good decode_error h never = inr (inl (refl, never))
raised Good eof_error h never = inr (inl (refl, never))
raised Good frame_too_big h never = inr (inl (refl, never))
raised Good connection_error h never = inr (inl (refl, never))
raised Good attribute_error h never = inr (inr (inl refl, never))
raised Good type_error h never = inr (inr (inr refl, never))
raised Good _ h never = absurd h

-- A frame that was read.
judged :
    (Good : Type 0) (close_fails hello : Bool)
    → (close_fails ≡ false → hello ≡ true → Good)
    → (Good → (close_fails ≡ false) × (hello ≡ true))
    → Judges Good (exit_code (handled (if close_fails then err connection_error else ok hello)))
judged Good true hello is_good good_is = inr (inl (refl, λ g. let bad = (good_is g).0 in cc))
judged Good false true is_good good_is = inl (refl, is_good refl refl)
judged Good false false is_good good_is = inr (inl (refl, λ g. let bad = (good_is g).1 in cc))

same_reader : (o : Option Reader) (r r' : Reader) → o ≡ some r → o ≡ some r' → r ≡ r'
same_reader o r r' p q = cc

module _ (link : Link) (bytes : DeliversBytes link) where
  came_back :
      (reader : Reader) (r : Result Frame)
      → link.broken ≡ false
      → link.reply check_bytes ≡ some reader
      → (decode reader (pos default_frame_size)).0 ≡ r
      → Reads r
      → Judges (Greeted link) (exit_code (handled (judge link.close_fails r)))
  came_back reader (err e) sound p q h = raised (Greeted link) e h not_greeted
    where
      not_greeted : ¬ Greeted link
      not_greeted (s, c, reader', p', f, q', y) =
          let same = same_reader (link.reply check_bytes) reader reader' p p' in
          let both : (decode reader (pos default_frame_size)).0 ≡ ok f =
            ap (λ x. (decode x (pos default_frame_size)).0) same ∙ q' in
          cc
  came_back reader (ok f) sound p q h =
      judged (Greeted link) link.close_fails (is_agent_hello f.frame_type)
        (λ c y. (sound, c, reader, p, f, q, y)) greeted
    where
      greeted : Greeted link → (link.close_fails ≡ false) × (is_agent_hello f.frame_type ≡ true)
      greeted (s, c, reader', p', f', q', y) =
          let same = same_reader (link.reply check_bytes) reader reader' p p' in
          let both : (decode reader (pos default_frame_size)).0 ≡ ok f' =
            ap (λ x. (decode x (pos default_frame_size)).0) same ∙ q' in
          let frames : f ≡ f' = cc in (c, ap (λ x. is_agent_hello x.frame_type) frames ∙ y)

  awaited :
      (o : Option Reader)
      → link.broken ≡ false
      → link.reply check_bytes ≡ o
      → Judges (Greeted link) (exit_code (handled (await_hello link.close_fails o)))
  awaited none sound p = inr (inl (refl, not_greeted))
    where
      not_greeted : ¬ Greeted link
      not_greeted (s, c, reader', p', f, q', y) = cc
  awaited (some reader) sound p =
      came_back reader (decode reader (pos default_frame_size)).0 sound p refl
        (decode-Reads reader (pos default_frame_size) (bytes check_bytes reader p))

-- What the command does once the HELLO is encoded.
pub command_sends :
    (link : Link)
    → healthcheck_command (some link)
      ≡ exit_code (
          handled (
            if link.broken
            then err connection_error
            else await_hello link.close_fails (link.reply check_bytes)))
unfolding healthcheck_command healthcheck construct
command_sends link = rw (check_encoded default_frame_size (omega arith) (omega arith)) refl

command_judged :
    (link : Link) (broken : Bool)
    → DeliversBytes link
    → link.broken ≡ broken
    → Judges (Greeted link) (
        exit_code (
          handled (
            if broken
            then err connection_error
            else await_hello link.close_fails (link.reply check_bytes))))
command_judged link true bytes p = inr (inl (refl, not_greeted))
  where
    not_greeted : ¬ Greeted link
    not_greeted g = let sound = g.0 in cc
command_judged link false bytes p = awaited link bytes (link.reply check_bytes) p refl

-- The health check, whatever bytes come back and however the connection ends: it exits with 0 exactly
-- if its HELLO went out, an AGENT-HELLO came back in time and the connection closed without an error;
-- in every other case it exits with 1, or an AttributeError or a TypeError leaves it.
pub healthcheck_verdict :
    (link : Link)
    → DeliversBytes link
    → ((healthcheck_command (some link) ≡ ok 0) × Greeted link)
      ⊎ ((healthcheck_command (some link) ≡ ok 1) × ¬ Greeted link)
      ⊎ (((healthcheck_command (some link) ≡ err attribute_error)
            ⊎ (healthcheck_command (some link) ≡ err type_error))
          × ¬ Greeted link)
healthcheck_verdict link bytes =
    subst (Judges (Greeted link)) (sym (command_sends link))
      (command_judged link link.broken bytes refl)
