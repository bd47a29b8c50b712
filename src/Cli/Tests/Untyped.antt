-- ===== src/Cli/Tests/Untyped.antt =====
-- A peer whose AGENT-HELLO has a number for its capabilities.
use spoe_forge.Prelude.{◌≡◌, refl, false, [], ◌∷◌, ◌++◌, some, ap, ◌∙◌}
use spoe_forge.Prelude.Int.{pos}
use spoe_forge.Prelude.Text.{codes, text_eq}
use spoe_forge.Prelude.Dict.{get, put}
use spoe_forge.Spop.Result.{err, attribute_error}
use spoe_forge.Spop.Octets.{from_bytes, c_int64}
use spoe_forge.Spop.Varint.{parse_varint, parse_loop}
use spoe_forge.Spop.Decoders.DataTypes.{
  decode_frame_len, decode_int64, decode_string, auto_decode_var, decode_binary, decode_typed,
}
use spoe_forge.Spop.Decoders.Payloads.{decode_metadata, decode_kv_list, parse_kv_pair}
use spoe_forge.Spop.Frame.{agent_hello_of}
use spoe_forge.Spop.Frame.Codec.{Reader, eof, decode}
use spoe_forge.Cli.{Link, judge, handled, healthcheck_command}
use spoe_forge.Cli.Verdict.{exit_code, command_sends}

abbrev numbered : Reader
numbered = record {
  buffer =
      (0 ∷ 0 ∷ 0 ∷ 54 ∷ 101 ∷ 0 ∷ 0 ∷ 0 ∷ 1 ∷ 0 ∷ 0 ∷ 7 ∷ codes "version")
      ++ ((8 ∷ 3 ∷ codes "2.0")
          ++ ((14 ∷ codes "max-frame-size")
              ++ ((4 ∷ 240 ∷ 241 ∷ 0 ∷ 12 ∷ codes "capabilities") ++ (4 ∷ 7 ∷ []))));
  ending = eof;
}

numbered_read : (decode numbered (pos 4096)).0 ≡ err attribute_error
unfolding decode decode_frame_len from_bytes decode_metadata decode_int64 parse_varint parse_loop
    c_int64 decode_kv_list decode_string auto_decode_var agent_hello_of get put text_eq
    parse_kv_pair decode_binary decode_typed
numbered_read = refl

abbrev numbering : Link
numbering = record { broken = false; close_fails = false; reply = λ bytes. some numbered }

-- The AttributeError leaves the health check.
untyped_reply : healthcheck_command (some numbering) ≡ err attribute_error
untyped_reply =
    command_sends numbering ∙ ap (λ r. exit_code (handled (judge false r))) numbered_read
