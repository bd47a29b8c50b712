-- ===== src/Server.antt =====
-- The server layer, spoe_forge/server/: negotiation and the handling of one connection.
pub mod Configuration
pub mod Connection
pub mod Handler
pub mod Salvage
pub mod Loop
pub mod Keeps
pub mod Service
pub mod Core
mod Tests
