-- ===== src/Server.antt =====
-- src/server: what gateway and engine share of a server.
pub mod IoWorker
