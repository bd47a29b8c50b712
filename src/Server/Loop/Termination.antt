-- ===== src/Server/Loop/Termination.antt =====
-- How many steps the NOTIFY loop of spoe_forge/server/handler.py makes.
use spoe_forge.Prelude.{
  ℕ, suc, ◌+◌, ◌*◌, ◌≤◌, ◌<◌, ◌≡◌, refl, ap, sym, ◌∙◌, arith, List, [], ◌∷◌, length, length-append,
  if◌then◌else◌,
}
use spoe_forge.Spop.Result.{Result}
use spoe_forge.Spop.Types.{Messages, Action}
use spoe_forge.Server.Connection.{Connection}
use spoe_forge.Server.Salvage.{process_notify}
use spoe_forge.Server.Loop.{Notified, Pool, StepsTo, acquires, reads, answers, start}
use spoe_forge.Server.Keeps.{of_view, process_notify-Keeps}
use spoe_forge.Server.Loop.Rounds.{read_round-consumes}

-- No task takes anything from the stream.
pub process_notify-reader :
    (notify_handler : Messages → Result (List Action)) (t : Notified) (c : Connection) (n : ℕ)
    → (process_notify notify_handler t.0 t.1 (c, n)).1.reader ≡ c.reader
process_notify-reader notify_handler t c n =
    sym (process_notify-Keeps (of_view (λ d. d.reader) (λ b d. refl)) notify_handler t c n)

-- What the loop can still do: it falls with every step.
abbrev pub work_left : Pool → ℕ
work_left p =
    2 * length p.connection.reader.buffer + 2 * length p.running + (if p.reading then 0 else 1)

step-work_left :
    (notify_handler : Messages → Result (List Action)) (p q : Pool)
    → StepsTo notify_handler p q
    → work_left q < work_left p
step-work_left h _ _ (acquires c n running) = omega arith
step-work_left h _ _ (reads c c' n running t e) =
    omega (arith, read_round-consumes c c' t e, length-append running (t ∷ []))
step-work_left h _ _ (answers c c' n n' reading front back t sent e) = omega (
  arith,
  ap length
      (ap (λ r. r.1.reader.buffer) (sym e) ∙ ap (λ r. r.buffer) (process_notify-reader h t c n)),
  length-append front (t ∷ back),
  length-append front back,
)

-- So many steps in a row.
pub data Runs (notify_handler : Messages → Result (List Action)) (p : Pool)
    : ℕ → Pool → Type 0 where
  stays : Runs notify_handler p 0 p
  then_steps :
      (n : ℕ) (q r : Pool)
      → Runs notify_handler p n q
      → StepsTo notify_handler q r
      → Runs notify_handler p (suc n) r

run-work_left :
    (notify_handler : Messages → Result (List Action)) (p q : Pool) (n : ℕ)
    → Runs notify_handler p n q
    → n + work_left q ≤ work_left p
run-work_left h p _ _ stays = omega arith
run-work_left h p r _ (then_steps n q _ before step) =
    omega (arith, run-work_left h p q n before, step-work_left h q r step)

-- The loop terminates: from its start it makes at most two steps for each byte that the connection
-- delivers, and one more, whatever the handlers return and in whatever order the tasks end.
pub loop_terminates :
    (notify_handler : Messages → Result (List Action)) (c : Connection) (n : ℕ) (q : Pool)
    → Runs notify_handler (start c) n q
    → n ≤ 2 * length c.reader.buffer + 1
loop_terminates h c n q r = omega (arith, run-work_left h (start c) q n r)
