-- ===== src/Spop/RoundTrip.antt =====
-- Decoding what was encoded: for each encoder, the bytes that it writes and what its decoder makes
-- of them wherever they stand in a buffer.
pub mod Carries
pub mod Primitives
pub mod Encodable
pub mod Integers
pub mod DataTypes
pub mod Lists
pub mod Payloads
pub mod Actions
pub mod MetaData
