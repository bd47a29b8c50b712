-- ===== src/Forge/Serve.antt =====
-- `serve` and `run` of spoe_forge/spoe_forge.py: the connections that an agent serves at the same time.
-- Opening the port and accepting connections are asyncio's, which calls `_handler` for each of them.
pub mod Lives
pub mod Bounds
use spoe_forge.Prelude.{◌≡◌, true, false, List, [], ◌∷◌, ◌++◌}
use spoe_forge.Prelude.Text.{Text}
use spoe_forge.Spop.Result.{Exc, Result, ok, err}
use spoe_forge.Spop.Frame.Codec.{Reader}
use spoe_forge.Server.Connection.{Connection, Writer}
use spoe_forge.Server.Handler.{handle_handshake}
use spoe_forge.Server.Loop.{Pool, start, StepsTo}
use spoe_forge.Server.Core.{Failure, closing, failed, Winds, settle}
use spoe_forge.Forge.{SpoeForge, answers_of, handler}

-- How far the handler of a connection has come: it waits for the HELLO, it runs the NOTIFY loop, or it
-- has ended with the exceptions that `core_handler` raised.
pub data Stage : Type 0 where
  greeting : Connection → Stage
  looping : Pool → Stage
  over : List Failure → Connection → Stage

-- One step of a connection. The connections of an agent share nothing that a step changes, so that the
-- handshake and the end of a task group are one step each.
pub data Advances (agent : SpoeForge) : Stage → Stage → Type 0 where
  shakes :
      (c c' : Connection)
      → handle_handshake c ≡ (ok true, c')
      → Advances agent (greeting c) (looping (start c'))
  runs : (p q : Pool) → StepsTo (answers_of agent) p q → Advances agent (looping p) (looping q)
  refuses :
      (c d d' : Connection) (too_big_text protocol_text : Text) (raised : List Failure)
      → handle_handshake c ≡ (ok false, d)
      → settle too_big_text protocol_text (closing ∷ []) d ≡ (raised, d')
      → Advances agent (greeting c) (over raised d')
  fails :
      (c d d' : Connection) (e : Exc) (too_big_text protocol_text : Text) (raised : List Failure)
      → handle_handshake c ≡ (err e, d)
      → settle too_big_text protocol_text (failed e ∷ []) d ≡ (raised, d')
      → Advances agent (greeting c) (over raised d')
  winds :
      (p : Pool) (f : Failure) (fs : List Failure) (d d' : Connection)
      (too_big_text protocol_text : Text) (raised : List Failure)
      → Winds (answers_of agent) true p (f ∷ fs) d
      → settle too_big_text protocol_text (f ∷ fs) d ≡ (raised, d')
      → Advances agent (looping p) (over raised d')

-- The connections of a serving agent, in the order in which they were accepted: one more is accepted,
-- or any of them takes a step.
pub data Serving (agent : SpoeForge) : List Stage → Type 0 where
  listens : Serving agent []
  accepts :
      (stages : List Stage) (reader : Reader) (writer : Writer)
      → Serving agent stages
      → Serving agent (stages ++ (greeting (handler agent reader writer) ∷ []))
  advances :
      (front back : List Stage) (s s' : Stage)
      → Serving agent (front ++ (s ∷ back))
      → Advances agent s s'
      → Serving agent (front ++ (s' ∷ back))

-- How the event loop of `run` ends, which `serve_forever` by itself does not.
pub data Stop : Type 0 where
  keyboard_interrupt : Stop
  raised_by_serve : Exc → Stop

-- `run`, from the way its event loop ends.
unfoldable pub run : Stop → Result (Unit {0})
run keyboard_interrupt = ok tt
run (raised_by_serve e) = err e
