-- ===== src/Engine/Dispatcher.antt =====
-- src/engine/dispatcher.cpp: which worker runs which call. A method returns the new dispatcher and
-- the new world beside its result. Collectors that only report, and log lines, are left out.
pub mod State
pub mod Limits
pub mod Dispatch
pub mod Events
pub mod Invariant
pub mod Queue
pub mod Disconnect
pub mod Completed
pub mod Sound
pub mod Idle
pub mod Tests
