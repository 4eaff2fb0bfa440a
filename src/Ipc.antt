-- ===== src/Ipc.antt =====
-- src/ipc: what processes of one machine share.
pub mod SpscQueue
