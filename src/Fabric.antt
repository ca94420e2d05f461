-- ===== src/Fabric.antt =====
-- The device fabric: brain election and the device registry table.
pub mod Arbiter
pub mod Drt
pub mod Tokens
