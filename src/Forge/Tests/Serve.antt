-- ===== src/Forge/Tests/Serve.antt =====
-- An agent that serves two connections, one of which has shaken hands.
use spoe_forge.Server.Connection.{new_writer-Lasts, new_writer, Connection}
use spoe_forge.Prelude.{List, ◌≡◌, refl, arith, inl, true, [], ◌∷◌, ◌++◌, All}
use spoe_forge.Prelude.Int.{pos}
use spoe_forge.Prelude.Buffer.{Bytes}
use spoe_forge.Spop.Result.{ok}
use spoe_forge.Spop.Frame.Codec.{Reader, eof, encode}
use spoe_forge.Server.Configuration.{pipelining, fresh}
use spoe_forge.Server.Configuration.Versions.{own_version}
use spoe_forge.Server.Handler.{handle_handshake}
use spoe_forge.Server.Handler.Hello.{shared, hello_frame}
use spoe_forge.Server.Handler.Handshake.{agreed, connected, handshake_agrees}
use spoe_forge.Server.Loop.{start}
use spoe_forge.Forge.{handler}
use spoe_forge.Forge.Serve.{greeting, looping, Serving, listens, accepts, advances, Stage, shakes}
use spoe_forge.Forge.Serve.Bounds.{IsBounded, serves_bounds}
use spoe_forge.Forge.Tests.{
  scoring, hello, hello_of, hello_bytes, hello_of-IsWireFrame, hello_written,
}

abbrev incoming : Reader
incoming = record { buffer = hello_bytes ++ []; ending = eof }

-- The greeting of the first connection.
shaken :
    (reply : Bytes) × (encode (hello_frame 4096 (shared (pipelining ∷ []))) (pos 4096) ≡ ok reply)
    × (handle_handshake (connected (fresh 16380 100) (hello_bytes ++ []) eof new_writer) ≡ (
      ok true,
      connected
          (agreed 4096 100 (shared (pipelining ∷ [])))
          []
          eof
          (record new_writer { sent = [] ++ reply }),
    ))
shaken =
    handshake_agrees 16380 100 4096 hello_of hello hello_bytes [] eof new_writer refl refl
      (inl (pos 0, own_version, omega arith)) (omega arith) (omega arith) (omega arith)
      hello_of-IsWireFrame hello_written refl new_writer-Lasts

abbrev first : Connection
first =
    connected (agreed 4096 100 (shared (pipelining ∷ []))) [] eof
      (record new_writer { sent = [] ++ shaken.0 })

abbrev two_stages : List Stage
unfolding handler scoring
two_stages = looping (start first) ∷ (greeting (handler scoring incoming new_writer) ∷ [])

serving : Serving scoring two_stages
unfolding two_stages handler scoring
serving =
    advances [] (greeting (handler scoring incoming new_writer) ∷ [])
      (greeting (handler scoring incoming new_writer)) (looping (start first))
      (accepts (greeting (handler scoring incoming new_writer) ∷ []) incoming new_writer
        (accepts [] incoming new_writer listens))
      (shakes (handler scoring incoming new_writer) first shaken.2)

serves_bounds_example : All (IsBounded scoring) two_stages
serves_bounds_example = serves_bounds scoring two_stages serving
