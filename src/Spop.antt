-- ===== src/Spop.antt =====
-- The protocol layer, spoe_forge/spop/: exceptions, types, varints, typed data, payloads, frames.
pub mod Result
pub mod Types
pub mod Varint
pub mod Octets
pub mod Wire
pub mod Encoders
pub mod Decoders
pub mod RoundTrip
pub mod SpopList
pub mod Frame
pub mod Safety
mod Tests
