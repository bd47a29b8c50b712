-- ===== src/Spop/Decoders.antt =====
-- spoe_forge/spop/decoders/.
pub mod DataTypes
pub mod Payloads
pub mod Loop
