-- ===== src/Spop/Frame/RoundTrip.antt =====
-- Frames that the wire can carry, and their round trip through `Frame.encode` and `Frame.decode`.
pub mod Payloads
pub mod Frames
