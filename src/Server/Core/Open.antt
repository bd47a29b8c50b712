-- ===== src/Server/Core/Open.antt =====
-- The stream to write, through every operation of spoe_forge/server/handler.py but `close_connection`.
use spoe_forge.Prelude.{sym, ◌≡◌, refl, Bool, List}
use spoe_forge.Prelude.Buffer.{Bytes}
use spoe_forge.Spop.Result.{Result}
use spoe_forge.Spop.Types.{Messages, Action}
use spoe_forge.Spop.Frame.{HaproxyHello}
use spoe_forge.Server.Configuration.{ServerConfiguration}
use spoe_forge.Server.Connection.{Connection}
use spoe_forge.Server.Keeps.{of_view}
use spoe_forge.Server.Handler.Disconnects.{wrote}
use spoe_forge.Server.Keeps.Lives.{Negotiates}
use spoe_forge.Server.Keeps.Lives
use spoe_forge.Spop.Frame.Codec.{Reader}
use spoe_forge.Server.Core.{Failure, Ends}

-- Whether the stream was closed, and when it goes down.
abbrev pub state : Connection → Bool × (Bytes → Bool) × (Bytes → Bool)
state c = (c.writer.closing, c.writer.lost, c.writer.broken)

writing : (b : Bytes) (c : Connection) → state (wrote b c) ≡ state c
writing b c = refl

reading : (r : Reader) (c : Connection) → state c ≡ state (record c { reader = r })
reading r c = refl

configuring :
    (c : Connection) (hello : HaproxyHello) (config : ServerConfiguration)
    → Negotiates c hello config
    → state c ≡ state (record c { config = config })
configuring c hello config n = refl

-- A connection through its whole life.
pub Ends-state :
    (notify_handler : Messages → Result (List Action)) (c d : Connection) (fs : List Failure)
    → Ends notify_handler c fs d
    → state d ≡ state c
Ends-state notify_handler c d fs e =
    sym (Lives.ended-To (of_view state writing) reading configuring notify_handler c d fs e)
