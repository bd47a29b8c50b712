-- ===== src/Forge/Serve/Bounds.antt =====
-- The limits that every connection of a serving agent of spoe_forge/spoe_forge.py keeps to.
use spoe_forge.Prelude.{
  ℕ, ◌≤◌, ◌≡◌, sym, ap, subst, ◌∙◌, true, List, [], ◌∷◌, All, length, if◌then◌else◌,
}
use spoe_forge.Prelude.Int.{ℤ, pos, ◌≤ℤ◌}
use spoe_forge.Spop.Result.{ok}
use spoe_forge.Server.Configuration.{ServerConfiguration, number_of, pipelining, mem_text}
use spoe_forge.Server.Connection.{Connection}
use spoe_forge.Server.Handler.Shaken.{handle_handshake-IsWithin, config_of, writing, reading}
use spoe_forge.Server.Loop.{Pool}
use spoe_forge.Server.Loop.InFlight.{in_flight}
use spoe_forge.Server.Keeps.{of_view}
use spoe_forge.Server.Keeps.Rounds
use spoe_forge.Server.Core.{Failure, settle, finish, close_connection}
use spoe_forge.Forge.{SpoeForge, answers_of, handler}
use spoe_forge.Forge.Serve.{Stage, greeting, looping, over, Serving}
use spoe_forge.Forge.Serve.Lives.{IsLooping, IsOver, IsAlone, serves-IsAlone}

-- The frames that a connection may have in flight.
abbrev pub concurrency : SpoeForge → ServerConfiguration → ℕ
concurrency agent config =
    if mem_text pipelining config.capabilities then agent.max_concurrent_frames else 1

abbrev pub IsBounded : SpoeForge → Stage → Type 0
IsBounded agent (greeting c) = Unit
IsBounded agent (looping p) =
    (size : ℤ) × (number_of p.connection.config.max_frame_size ≡ ok size)
    × (pos 1 ≤ℤ size)
    × (size ≤ℤ pos agent.max_frame_size)
    × (length p.running ≤ concurrency agent p.connection.config)
IsBounded agent (over raised d) = raised ≡ [] → d.writer.closing ≡ true

looping-IsBounded : (agent : SpoeForge) (p : Pool) → IsLooping agent p → IsBounded agent (looping p)
unfolding handler
looping-IsBounded agent p l =
    let within = handle_handshake-IsWithin (handler agent l.reader l.writer) l.shaken l.agreed in
    let same =
      Rounds.reached-To (of_view config_of writing) reading (answers_of agent) l.shaken p
        l.reached in
    let (all, few) = in_flight (answers_of agent) l.shaken p l.reached in
    let limit : within.limit ≡ pos agent.max_frame_size = (let e = within.limited in cc) in
    (
      within.size,
      ap (λ c. number_of c.max_frame_size) (sym same) ∙ within.sized,
      within.positive,
      subst (λ n. within.size ≤ℤ n) limit within.smaller,
      subst (λ c. length p.running ≤ concurrency agent c) same
          (subst
            (λ n.
              length p.running
              ≤ (if mem_text pipelining l.shaken.config.capabilities then n else 1))
            within.concurrent few),
    )

finish-closing :
    (left raised : List Failure) (c d : Connection)
    → finish left c ≡ (raised, d)
    → raised ≡ []
    → d.writer.closing ≡ true
unfolding close_connection
finish-closing [] raised c d e none = ap (λ p. p.1.writer.closing) (sym e)
finish-closing (f ∷ fs) raised c d e none = cc

over-IsBounded :
    (agent : SpoeForge) (raised : List Failure) (d : Connection)
    → IsOver agent raised d
    → IsBounded agent (over raised d)
unfolding settle
over-IsBounded agent raised d o = finish-closing _ raised _ d o.settled

stage-IsBounded : (agent : SpoeForge) (s : Stage) → IsAlone agent s → IsBounded agent s
stage-IsBounded agent (greeting c) alone = tt
stage-IsBounded agent (looping p) alone = looping-IsBounded agent p alone
stage-IsBounded agent (over raised d) alone = over-IsBounded agent raised d alone

All-map :
    {A : Type 0} {P Q : A → Type 0} (f : (x : A) → P x → Q x) (xs : List A) → All P xs → All Q xs
All-map f [] h = tt
All-map f (x ∷ xs) h = (f x h.0, All-map f xs h.1)

-- While an agent serves, whatever its peers send and however the steps of its connections interleave:
-- each connection in the NOTIFY loop has agreed on a frame size that is positive and not above the
-- agent's, and runs no more tasks than the agent's bound, or one where pipelining was not agreed on;
-- and each connection that ended without raising anything is closed.
pub serves_bounds :
    (agent : SpoeForge) (stages : List Stage) → Serving agent stages → All (IsBounded agent) stages
serves_bounds agent stages s =
    All-map (stage-IsBounded agent) stages (serves-IsAlone agent stages s)
