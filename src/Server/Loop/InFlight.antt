-- ===== src/Server/Loop/InFlight.antt =====
-- How many NOTIFY frames a connection of spoe_forge/server/handler.py has in flight.
use spoe_forge.Prelude.{
  ℕ, ◌+◌, ◌≤◌, ◌≡◌, refl, ap, arith, Bool, true, false, List, [], ◌∷◌, length, length-append,
}
use spoe_forge.Spop.Result.{Result, ok}
use spoe_forge.Spop.Types.{Messages, Action}
use spoe_forge.Server.Configuration.{pipelining, mem_text}
use spoe_forge.Server.Connection.{Connection}
use spoe_forge.Server.Salvage.{process_notify}
use spoe_forge.Server.Loop.{
  Notified, slots_limit, Pool, StepsTo, acquires, reads, answers, Reaches, starts, goes_on,
}

-- The slot that the loop holds while it reads.
abbrev held : Bool → ℕ
held reading = elim reading [ true ↦ 1 | false ↦ 0 ]

released :
    (notify_handler : Messages → Result (List Action)) (t : Notified) (c c' : Connection) (n n' : ℕ)
    (sent : Bool)
    → process_notify notify_handler t.0 t.1 (c, n) ≡ (ok sent, c', n')
    → n + 1 ≡ n'
unfolding process_notify
released notify_handler t c c' n n' sent e = ap (λ r. r.2) e

abbrev slots_of : Pool → ℕ
slots_of p = p.slots + (held p.reading + length p.running)

-- No slot is made, and none is lost.
step-slots_of :
    (notify_handler : Messages → Result (List Action)) (p q : Pool)
    → StepsTo notify_handler p q
    → slots_of q ≡ slots_of p
step-slots_of h _ _ (acquires c n running) = omega arith
step-slots_of h _ _ (reads c c' n running t e) = omega (arith, length-append running (t ∷ []))
step-slots_of h _ _ (answers c c' n n' reading front back t sent e) =
    omega (
      arith,
      released h t c c' n n' sent e,
      length-append front (t ∷ back),
      length-append front back,
    )

pool-slots_of :
    (notify_handler : Messages → Result (List Action)) (c : Connection) (p : Pool)
    → Reaches notify_handler c p
    → slots_of p ≡ slots_limit c.config
pool-slots_of h c _ starts = omega arith
pool-slots_of h c q (goes_on p _ r s) = omega (arith, pool-slots_of h c p r, step-slots_of h p q s)

-- However the tasks interleave, the free slots, the one that the loop reads with and those of the
-- running tasks are together the negotiated limit, so that no more NOTIFY frames are in flight.
pub in_flight :
    (notify_handler : Messages → Result (List Action)) (c : Connection) (p : Pool)
    → Reaches notify_handler c p
    → (p.slots + held p.reading + length p.running ≡ slots_limit c.config)
      × (length p.running ≤ slots_limit c.config)
in_flight h c p r = let e = pool-slots_of h c p r in (omega (arith, e), omega (arith, e))

empty_of : {A : Type 0} (xs : List A) → length xs ≤ 0 → xs ≡ []
empty_of [] h = refl
empty_of (x ∷ xs) h = absurd (omega arith)

-- Without pipelining a connection is served serially: while the loop holds its slot to read the next
-- frame, no task runs, so that every NOTIFY read before has been answered.
pub serial :
    (notify_handler : Messages → Result (List Action)) (c : Connection) (p : Pool)
    → mem_text pipelining c.config.capabilities ≡ false
    → Reaches notify_handler c p
    → p.reading ≡ true
    → p.running ≡ []
serial h c p none r reading =
    let e = rw (none, reading) at (pool-slots_of h c p r) in empty_of p.running (omega (arith, e))
