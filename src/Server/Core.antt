-- ===== src/Server/Core.antt =====
-- The life of one connection, `core_handler` and `close_connection` of spoe_forge/server/handler.py:
-- how its task group ends, and what is made of the exceptions that it ends with.
pub mod Open
pub mod Closes
pub mod Outcome
pub mod Life
pub mod Framed
use spoe_forge.Prelude.{ℕ, ◌≡◌, Bool, true, false, List, [], ◌∷◌, ◌++◌, ◌||◌, if◌then◌else◌}
use spoe_forge.Prelude.Text.{Text}
use spoe_forge.Spop.Result.{
  Exc, Result, ok, err, decode_error, encode_error, eof_error, frame_too_big, forge_error,
  connection_error,
}
use spoe_forge.Spop.Types.{Messages, Action}
use spoe_forge.Server.Connection.{Connection, Step}
use spoe_forge.Server.Handler.{DisconnectCode, send_disconnect_on_error, handle_handshake}
use spoe_forge.Server.Salvage.{process_notify}
use spoe_forge.Server.Loop.{Notified, Pool, pool, closed, read_round, StepsTo, Reaches}

-- A member of the exception group that the task group raises: `CloseConnection`, or another exception.
pub data Failure : Type 0 where
  closing : Failure
  failed : Exc → Failure

-- The `except*` clauses, and `uncaught` for what none of them takes.
pub data Clause : Type 0 where
  graceful too_big protocol teardown uncaught : Clause

-- The first clause whose class an exception has.
abbrev pub clause_of : Failure → Clause
clause_of closing = graceful
clause_of (failed frame_too_big) = too_big
clause_of (failed decode_error) = protocol
clause_of (failed encode_error) = protocol
clause_of (failed eof_error) = protocol
clause_of (failed forge_error) = protocol
clause_of (failed connection_error) = teardown
clause_of (failed _) = uncaught

abbrev is_clause : Clause → Clause → Bool
is_clause too_big too_big = true
is_clause protocol protocol = true
is_clause uncaught uncaught = true
is_clause _ _ = false

-- Whether a clause that does anything takes a part of the group.
abbrev pub takes : Clause → List Failure → Bool
takes k [] = false
takes k (f ∷ fs) = is_clause k (clause_of f) || takes k fs

-- The part of the group that no clause takes.
abbrev pub left_over : List Failure → List Failure
left_over [] = []
left_over (f ∷ fs) =
    let rest = left_over fs in if is_clause uncaught (clause_of f) then f ∷ rest else rest

abbrev pub raised_in : Result Bool × Connection → List Failure × Connection
raised_in (ok sent, c) = ([], c)
raised_in (err e, c) = (failed e ∷ [], c)

-- One clause: it runs if it takes a part of the group, and what it raises joins the group that is left.
abbrev pub except :
    Clause → DisconnectCode → Text → List Failure → Connection → List Failure × Connection
except k status_code message fs c =
    if takes k fs then raised_in (send_disconnect_on_error status_code message c) else ([], c)

-- `wait_closed` may raise a `ConnectionError`, which the caller drops.
unfoldable pub close_connection : Connection → Connection
close_connection c = record c { writer = record c.writer { closing = true } }

-- The connection is closed only where nothing is left to raise.
abbrev pub finish : List Failure → Connection → List Failure × Connection
finish [] c = ([], close_connection c)
finish (f ∷ fs) c = (f ∷ fs, c)

-- What follows the task group. The two texts are those of the first exception that the clause takes;
-- the exceptions that come back are those that `core_handler` raises.
unfoldable pub settle : Text → Text → List Failure → Connection → List Failure × Connection
unfolding send_disconnect_on_error
settle too_big_text protocol_text fs c =
    let (raised, c') = except too_big DisconnectCode.frame_too_big too_big_text fs c in
    let (raised', c'') = except protocol DisconnectCode.protocol_error protocol_text fs c' in
    finish (raised ++ (raised' ++ left_over fs)) c''

-- The task group from its first exception on, with a loop that still runs or has raised: until the
-- cancellation reaches them, the loop and the tasks may go on. What is cancelled takes no further step.
pub data Winds (notify_handler : Messages → Result (List Action))
    : Bool → Pool → List Failure → Connection → Type 0 where
  cancelled : (looping : Bool) (p : Pool) → Winds notify_handler looping p [] p.connection
  goes_on_too :
      (p q : Pool) (fs : List Failure) (d : Connection)
      → StepsTo notify_handler p q
      → Winds notify_handler true q fs d
      → Winds notify_handler true p fs d
  answers_too :
      (c c' d : Connection) (n n' : ℕ) (front back : List Notified) (t : Notified) (sent : Bool)
      (fs : List Failure)
      → process_notify notify_handler t.0 t.1 (c, n) ≡ (ok sent, c', n')
      → Winds notify_handler false (pool c' n' false (front ++ back)) fs d
      → Winds notify_handler false (pool c n false (front ++ (t ∷ back))) fs d
  fails_too :
      (looping : Bool) (c c' d : Connection) (n n' : ℕ) (reading : Bool)
      (front back : List Notified) (t : Notified) (e : Exc) (fs : List Failure)
      → process_notify notify_handler t.0 t.1 (c, n) ≡ (err e, c', n')
      → Winds notify_handler looping (pool c' n' reading (front ++ back)) fs d
      → Winds notify_handler looping (pool c n reading (front ++ (t ∷ back))) (failed e ∷ fs) d
  closes_too :
      (c c' d : Connection) (n : ℕ) (running : List Notified) (fs : List Failure)
      → read_round c ≡ (ok closed, c')
      → Winds notify_handler false (pool c' n false running) fs d
      → Winds notify_handler true (pool c n true running) (closing ∷ fs) d
  raises_too :
      (c c' d : Connection) (n : ℕ) (running : List Notified) (e : Exc) (fs : List Failure)
      → read_round c ≡ (err e, c')
      → Winds notify_handler false (pool c' n false running) fs d
      → Winds notify_handler true (pool c n true running) (failed e ∷ fs) d

-- How the task group of a connection ends: with the exceptions of a failed handshake, or with those of
-- the loop and its tasks. It ends in no other way, since the loop has no end but a raise.
pub data Ends (notify_handler : Messages → Result (List Action)) (c : Connection)
    : List Failure → Connection → Type 0 where
  refused :
      (d : Connection) → handle_handshake c ≡ (ok false, d) → Ends notify_handler c (closing ∷ []) d
  unshaken :
      (d : Connection) (e : Exc)
      → handle_handshake c ≡ (err e, d)
      → Ends notify_handler c (failed e ∷ []) d
  served :
      (c' d : Connection) (p : Pool) (f : Failure) (fs : List Failure)
      → handle_handshake c ≡ (ok true, c')
      → Reaches notify_handler c' p
      → Winds notify_handler true p (f ∷ fs) d
      → Ends notify_handler c (f ∷ fs) d
