-- ===== src/Gateway.antt =====
-- src/gateway: the server that takes calls from outside.
pub mod Server
pub mod Context
pub mod Http
