-- ===== src/Worker.antt =====
-- src/worker: what runs in a worker process.
pub mod WorkerLib
pub mod FuncWorker
pub mod EventDriven
