-- ===== src/Server/Tests/Heard.antt =====
-- What HAProxy hears of the streams of the tests of the service.
use mathlib.Core.List.{Perm, Sublist}
use spoe_forge.Prelude.{◌≡◌, refl, arith, false, List, [], ◌∷◌, ◌++◌}
use spoe_forge.Prelude.Int.{pos}
use spoe_forge.Prelude.Buffer.{Bytes}
use spoe_forge.Spop.Result.{ok}
use spoe_forge.Spop.Types.{Action}
use spoe_forge.Spop.Frame.Codec.{Ending, eof, encode, decode}
use spoe_forge.Server.Handler.Disconnects.{wrote}
use spoe_forge.Server.Salvage.Ack.{ack_of}
use spoe_forge.Server.Loop.{Notified, pool}
use spoe_forge.Server.Loop.Reading.{reads_from}
use spoe_forge.Server.Service.Refinement.{Holds}
use spoe_forge.Server.Service.Reply.{answer-decode}
use spoe_forge.Server.Service.Heard.{Hears, acknowledged}
use spoe_forge.Server.Tests.{forgets, forgetting, ids}
use spoe_forge.Server.Tests.Service.{ack_bytes, forgotten, pipelined, second_first}

answer-decode_example :
    (kept : List Action) × ((more : Bytes) (ending : Ending)
      → decode (record { buffer = ack_bytes 1 ++ more; ending = ending }) (pos 4096)
        ≡ (ok (ack_of ids kept), record { buffer = more; ending = ending }))
    × Sublist kept forgets
    × ((whole : Bytes) → encode (ack_of ids forgets) (pos 4096) ≡ ok whole → kept ≡ forgets)
answer-decode_example =
    answer-decode (pos 4096) forgetting ids [] forgets (ack_bytes 1)
      ((omega arith, omega arith), (omega arith, omega arith)) refl (tt, (tt, (tt, tt))) forgotten

acknowledged_example :
    (taken : List Notified) × (answered : List Notified) × (out : Bytes) × Holds
      (pos 4096)
      pipelined.reader
      taken
      (record { buffer = []; ending = eof })
    × Perm (answered ++ ((ids, []) ∷ [])) taken
    × ([] ++ ack_bytes 2 ≡ [] ++ out)
    × Hears
        (pos 4096)
        forgetting
        (record { buffer = out; ending = eof })
        answered
        (record { buffer = []; ending = eof })
acknowledged_example =
    acknowledged forgetting 4096 pipelined
      (pool (wrote (ack_bytes 2) (reads_from pipelined [] eof)) 99 false ((ids, []) ∷ []))
      (λ messages. (forgets, refl, (tt, (tt, (tt, tt)))))
      (record { negotiated = refl; open_writer = refl; sound_writer = λ sent. (refl, refl) })
      second_first
