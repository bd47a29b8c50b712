-- ===== src/Server/Loop.antt =====
-- The NOTIFY loop of spoe_forge/server/handler.py: one round of `_read_frames`, and the loop with its
-- tasks as a step relation.
pub mod InFlight
pub mod Reading
pub mod Rounds
pub mod Termination
use spoe_forge.Prelude.{ℕ, suc, Bool, true, false, List, [], ◌∷◌, ◌++◌, ◌≡◌, if◌then◌else◌}
use spoe_forge.Prelude.Text.{codes}
use spoe_forge.Spop.Result.{Result, ok, err, eof_error}
use spoe_forge.Spop.Types.{MetaData, Messages, Action}
use spoe_forge.Spop.Frame.{Payload, Frame}
use spoe_forge.Server.Configuration.{ServerConfiguration, pipelining, mem_text}
use spoe_forge.Server.Connection
use spoe_forge.Server.Connection.{Connection, Step}
use spoe_forge.Server.Handler.{
  DisconnectCode, receive, send_disconnect, send_disconnect_on_error, frame_type_name,
}
use spoe_forge.Server.Salvage.{process_notify}

-- A NOTIFY that a task was made for.
abbrev pub Notified : Type 0
Notified = MetaData × Messages

-- What a round ends with: a task is made, or `CloseConnection` is raised.
pub data Round : Type 0 where
  created : Notified → Round
  closed : Round

abbrev pub closed_after : Result Bool × Connection → Result Round × Connection
closed_after (ok sent, c) = (ok closed, c)
closed_after (err e, c) = (err e, c)

abbrev pub refuse : Frame → Step Bool
refuse frame =
    send_disconnect_on_error DisconnectCode.invalid_frame_received
      (codes "Expected NOTIFY or HAPROXY_DISCONNECT, received " ++ frame_type_name frame.frame_type)

abbrev pub say_goodbye : Step Bool
say_goodbye = send_disconnect DisconnectCode.normal (codes "Disconnecting normally")

abbrev pub dispatch : Frame → Payload → Step Round
dispatch frame (Payload.notify messages) c = (ok (created (frame.metadata, messages)), c)
dispatch frame (Payload.disconnect _) c = closed_after (say_goodbye c)
dispatch frame _ c = closed_after (refuse frame c)

abbrev pub dispatched : Result Frame × Connection → Result Round × Connection
dispatched (ok frame, c) = dispatch frame frame.payload c
dispatched (err eof_error, c) = (ok closed, c)
dispatched (err e, c) = (err e, c)

-- A round of the loop, from the slot that it holds.
unfoldable pub read_round : Step Round
unfolding receive send_disconnect send_disconnect_on_error
read_round c = dispatched (receive c)

-- The slots of a connection.
abbrev pub slots_limit : ServerConfiguration → ℕ
slots_limit config =
    if mem_text pipelining config.capabilities then config.max_concurrent_frames else 1

-- The loop with its tasks: the free slots, whether the loop holds a slot and reads, and the tasks that
-- run, in the order in which they were made.
pub record Pool : Type 0 where
  pub connection : Connection
  pub slots : ℕ
  pub reading : Bool
  pub running : List Notified

abbrev pub pool : Connection → ℕ → Bool → List Notified → Pool
pool c n reading running = record {
  connection = c;
  slots = n;
  reading = reading;
  running = running;
}

-- One step: the loop takes a free slot, or reads a NOTIFY and makes its task; or a task, any of those
-- that run, comes to its end. A task touches the connection at its end only, where it writes its ACK in
-- one call. A step that raises leaves the loop and is none of these.
pub data StepsTo (notify_handler : Messages → Result (List Action)) : Pool → Pool → Type 0 where
  acquires :
      (c : Connection) (n : ℕ) (running : List Notified)
      → StepsTo notify_handler (pool c (suc n) false running) (pool c n true running)
  reads :
      (c c' : Connection) (n : ℕ) (running : List Notified) (t : Notified)
      → read_round c ≡ (ok (created t), c')
      → StepsTo notify_handler (pool c n true running) (pool c' n false (running ++ (t ∷ [])))
  answers :
      (c c' : Connection) (n n' : ℕ) (reading : Bool) (front back : List Notified) (t : Notified)
      (sent : Bool)
      → process_notify notify_handler t.0 t.1 (c, n) ≡ (ok sent, c', n')
      → StepsTo notify_handler
          (pool c n reading (front ++ (t ∷ back)))
          (pool c' n' reading (front ++ back))

-- The loop as it starts.
abbrev pub start : Connection → Pool
start c = pool c (slots_limit c.config) false []

-- The pools that the loop comes to.
pub data Reaches (notify_handler : Messages → Result (List Action)) (c : Connection)
    : Pool → Type 0 where
  starts : Reaches notify_handler c (start c)
  goes_on :
      (p q : Pool)
      → Reaches notify_handler c p
      → StepsTo notify_handler p q
      → Reaches notify_handler c q
