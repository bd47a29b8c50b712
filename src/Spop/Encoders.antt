-- ===== src/Spop/Encoders.antt =====
-- spoe_forge/spop/encoders/.
pub mod DataTypes
pub mod Payloads
