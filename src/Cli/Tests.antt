-- ===== src/Cli/Tests.antt =====
-- The health check and the handshake, run on an agent of the default size.
mod Main
mod Untyped
use spoe_forge.Server.Connection.{new_writer-Lasts, new_writer}
use spoe_forge.Prelude.{◌≡◌, ◌⊎◌, refl, arith, inl, false, [], ◌∷◌, ◌++◌, some}
use spoe_forge.Prelude.Int.{pos}
use spoe_forge.Prelude.Buffer.{Bytes}
use spoe_forge.Spop.Result.{err, attribute_error, type_error, ok}
use spoe_forge.Spop.Octets.{octets}
use spoe_forge.Spop.Frame.Codec.{eof, encode}
use spoe_forge.Server.Configuration.{fresh, pipelining}
use spoe_forge.Server.Configuration.Versions.{own_version}
use spoe_forge.Server.Handler.{handle_handshake}
use spoe_forge.Server.Handler.Hello.{shared, hello_frame}
use spoe_forge.Server.Handler.Handshake.{agreed, connected, handshake_agrees}
use spoe_forge.Cli.{Link, healthcheck_command}
use spoe_forge.Cli.Verdict.{Greeted, DeliversBytes, healthcheck_verdict}
use spoe_forge.Cli.HealthCheck.{
  check_body, check_hello, check_frame, check_frame-IsWireFrame, check_encoded, agent_reply,
  healthcheck_passes,
}

handshake_agrees_example :
    (reply : Bytes) × (encode (hello_frame 4096 (shared (pipelining ∷ []))) (pos 4096) ≡ ok reply)
    × (handle_handshake
          (connected (fresh 16384 100) ((octets 4 88 ++ check_body) ++ (0 ∷ [])) eof new_writer)
        ≡ (
          ok false,
          connected
              (agreed 4096 100 (shared (pipelining ∷ [])))
              (0 ∷ [])
              eof
              (record new_writer { sent = [] ++ reply }),
        ))
handshake_agrees_example =
    handshake_agrees 16384 100 4096 check_frame check_hello (octets 4 88 ++ check_body) (0 ∷ []) eof
      new_writer refl refl (inl (pos 0, own_version, omega arith)) (omega arith) (omega arith)
      (omega arith) check_frame-IsWireFrame (check_encoded 16384 (omega arith) (omega arith)) refl
      new_writer-Lasts

-- An agent that refuses the health check closes the connection, or sends a frame of no known type.
abbrev pub refusing : Link
refusing = record {
  broken = false;
  close_fails = false;
  reply = λ bytes. some (record { buffer = 0 ∷ 0 ∷ 0 ∷ 1 ∷ 9 ∷ []; ending = eof });
}

pub refusing-DeliversBytes : DeliversBytes refusing
refusing-DeliversBytes sent reader h =
    let same : reader ≡ record { buffer = 0 ∷ 0 ∷ 0 ∷ 1 ∷ 9 ∷ []; ending = eof } = cc in
    rw same (omega arith)

healthcheck_verdict_example :
    ((healthcheck_command (some refusing) ≡ ok 0) × Greeted refusing)
    ⊎ ((healthcheck_command (some refusing) ≡ ok 1) × ¬ Greeted refusing)
    ⊎ (((healthcheck_command (some refusing) ≡ err attribute_error)
          ⊎ (healthcheck_command (some refusing) ≡ err type_error))
        × ¬ Greeted refusing)
healthcheck_verdict_example = healthcheck_verdict refusing refusing-DeliversBytes
