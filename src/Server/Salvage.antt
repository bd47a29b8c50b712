-- ===== src/Server/Salvage.antt =====
-- The answer to one NOTIFY frame in spoe_forge/server/handler.py: `_process_notify` and
-- `_salvaged_ack`.
pub mod Fits
pub mod Ack
pub mod Total
pub mod Answers
pub mod Torn
use spoe_forge.Prelude.{
  ℕ, ◌+◌, ◌-◌, Bool, true, false, List, [], ◌∷◌, Option, some, leb, ltb, if◌then◌else◌, length,
}
use spoe_forge.Prelude.Int.{ℤ, pos, negsuc, ltb_ℤ}
use spoe_forge.Prelude.Buffer.{Bytes}
use spoe_forge.Spop.Result.{
  Exc, Result, ok, err, attribute_error, encode_error, frame_too_big, ◌>>=◌,
}
use spoe_forge.Spop.Types.{other_action, Value, Messages, MetaData, Action, FrameType}
use spoe_forge.Spop.Encoders.Payloads.{encode_action_list}
use spoe_forge.Spop.Frame.{Frame}
use spoe_forge.Spop.Frame.Construct.{Kwargs, no_kwargs, construct}
use spoe_forge.Spop.Frame.Codec.{encode}
use spoe_forge.Server.Configuration.{number_of}
use spoe_forge.Server.Connection
use spoe_forge.Server.Connection.{Connection, Step}
use spoe_forge.Server.Handler.{send_frame}

-- `Frame.construct(FrameType.ACK, ...)` with the identifiers of the NOTIFY.
abbrev pub ack_frame : MetaData → List Action → Result Frame
ack_frame metadata actions =
    construct FrameType.ack metadata.stream_id metadata.frame_id
      (record no_kwargs { actions = some (some actions) })

-- `a - n`
abbrev pub minus : ℤ → ℕ → ℤ
minus (pos a) n = if leb n a then pos (a - n) else negsuc (n - a - 1)
minus (negsuc a) n = negsuc (a + n)

-- The line in the log that an action is dropped names it; an object of no action class has no `name`.
abbrev pub dropped : Action → Result (List Action) → Result (List Action)
dropped other_action skip = err attribute_error
dropped _ skip = skip

-- One round of the loop, on what `encode_action_list([action])` gives. `skip` and `keep` are the rest
-- of the loop after the action was dropped, or kept with so many bytes.
abbrev pub salvage_round :
    ℤ
    → ℕ
    → Action
    → Result Bytes
    → Result (List Action)
    → (ℕ → Result (List Action))
    → Result (List Action)
salvage_round budget used action (ok encoded) skip keep =
    if ltb_ℤ budget (pos (used + length encoded))
    then skip
    else (do salvaged ← keep (used + length encoded); ok (action ∷ salvaged))
salvage_round budget used action (err encode_error) skip keep = dropped action skip
salvage_round budget used action (err e) skip keep = err e

unfoldable pub salvage : ℤ → ℕ → List Action → Result (List Action)
salvage budget used [] = ok []
salvage budget used (action ∷ actions) =
    let skip = salvage budget used actions in
    let keep = λ (n : ℕ). salvage budget n actions in
    salvage_round budget used action (encode_action_list (action ∷ [])) skip keep

unfoldable pub salvaged_ack : ℤ → MetaData → List Action → Result Frame
unfolding salvage construct
salvaged_ack max_frame_size metadata actions = do
  empty_ack ← ack_frame metadata []
  empty ← encode empty_ack max_frame_size
  salvaged ← salvage (minus max_frame_size (length empty - 4)) 0 actions
  ack_frame metadata salvaged

-- `except (SpopEncodeError, SpopFrameTooBigError)`
abbrev pub is_encode_failure : Exc → Bool
is_encode_failure encode_error = true
is_encode_failure frame_too_big = true
is_encode_failure _ = false

abbrev pub resend : Step Bool → Result Bool × Connection → Result Bool × Connection
resend handler (ok sent, c) = (ok sent, c)
resend handler (err e, c) = if is_encode_failure e then handler c else (err e, c)

abbrev pub salvaged : MetaData → List Action → Step Frame
salvaged metadata actions c =
    (number_of c.config.max_frame_size >>= λ n. salvaged_ack n metadata actions, c)

-- The ACK, or its salvaged form where it does not encode.
abbrev pub send_ack : MetaData → List Action → Frame → Step Bool
send_ack metadata actions ack c =
    resend (Connection.◌>>=◌ (salvaged metadata actions) send_frame) (send_frame ack c)

abbrev pub acknowledge : MetaData → List Action → Step Bool
acknowledge metadata actions =
    Connection.◌>>=◌ (Connection.lift (ack_frame metadata actions)) (send_ack metadata actions)

abbrev pub notify_task : (Messages → Result (List Action)) → MetaData → Messages → Step Bool
notify_task notify_handler metadata messages =
    Connection.◌>>=◌ (Connection.lift (notify_handler messages)) (acknowledge metadata)

-- The task of one NOTIFY, with what its handler returns. The concurrency slot is given back however
-- the task ends: the last component is the number of free slots.
unfoldable pub process_notify :
    (Messages → Result (List Action))
    → MetaData
    → Messages
    → Connection × ℕ
    → Result Bool × Connection × ℕ
unfolding salvaged_ack send_frame
process_notify notify_handler metadata messages (c, slots) =
    let (r, c') = notify_task notify_handler metadata messages c in (r, c', slots + 1)
