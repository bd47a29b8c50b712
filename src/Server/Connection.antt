-- ===== src/Server/Connection.antt =====
-- What one connection of spoe_forge/server/handler.py works on: its configuration, the stream that it
-- reads and the stream that it writes; and its steps, which change these and may raise.
use spoe_forge.Prelude.{Bool, true, false, ◌≡◌, refl, ◌||◌, [], ◌++◌, if◌then◌else◌}
use spoe_forge.Prelude.Buffer.{Bytes}
use spoe_forge.Spop.Result.{Result, ok, err, connection_error}
use spoe_forge.Spop.Frame.Codec.{Reader}
use spoe_forge.Server.Configuration.{ServerConfiguration}

-- `asyncio.StreamWriter`: what was written, and whether `close` was called. What the peer and the
-- network do to it is told by `lost`, whether the transport is found closing once these bytes were
-- written, and by `broken`, whether `drain` raises a `ConnectionError` after them: a connection can go
-- down at any frame.
pub record Writer : Type 0 where
  pub sent : Bytes
  pub closing : Bool
  pub lost : Bytes → Bool
  pub broken : Bytes → Bool

-- `is_closing`
abbrev pub is_closing : Writer → Bool
is_closing w = w.closing || w.lost w.sent

-- The transport never goes down by itself.
abbrev pub Lasts : Writer → Type 0
Lasts w = (sent : Bytes) → (w.lost sent ≡ false) × (w.broken sent ≡ false)

-- A stream to write on which nothing was written yet, and which lasts.
abbrev pub new_writer : Writer
new_writer = record { sent = []; closing = false; lost = λ s. false; broken = λ s. false }

pub new_writer-Lasts : Lasts new_writer
new_writer-Lasts sent = (refl, refl)

pub record Connection : Type 0 where
  pub config : ServerConfiguration
  pub reader : Reader
  pub writer : Writer

-- What was written or read before a raise stays so.
abbrev pub Step : Type 0 → Type 0
Step A = Connection → Result A × Connection

abbrev pub continue : {A B : Type 0} → (A → Step B) → Result A × Connection → Result B × Connection
continue f (ok a, c) = f a c
continue f (err e, c) = (err e, c)

infixl 5 ◌>>=◌ ◌>>◌
abbrev pub ◌>>=◌ : {A B : Type 0} → Step A → (A → Step B) → Step B
◌>>=◌ m f c = continue f (m c)

abbrev pub ◌>>◌ : {A B : Type 0} → Step A → Step B → Step B
m >> n = m >>= λ _. n

abbrev pub pure : {A : Type 0} → A → Step A
pure a c = (ok a, c)

abbrev pub lift : {A : Type 0} → Result A → Step A
lift r c = (r, c)

-- `self.writer.write(b)` and `await self.writer.drain()`
abbrev pub write_and_drain : Bytes → Step Bool
write_and_drain b c =
    let c' : Connection = record c { writer = record c.writer { sent = c.writer.sent ++ b } } in
    if c.writer.broken c'.writer.sent then (err connection_error, c') else (ok true, c')
