-- ===== src/Engine.antt =====
-- src/engine: tracer, dispatchers, worker manager, and the engine that joins them.
pub mod World
pub mod Tracer
pub mod Manager
pub mod Dispatcher
pub mod Routing
pub mod MessageConnection
