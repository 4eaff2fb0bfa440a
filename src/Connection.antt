-- ===== src/Connection.antt =====
-- The connections between gateway and engine, one module for each end.
pub mod Frames
pub mod EngineConnection
pub mod GatewayConnection
mod Delivery
mod Tests
