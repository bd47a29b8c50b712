-- ===== src/Spop/Safety.antt =====
-- The decoders on any bytes, well formed or not: how they can fail, and how far they read.
pub mod DataTypes
pub mod Payloads
pub mod Frames
pub mod Streams
pub mod Decoded
