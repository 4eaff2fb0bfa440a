-- ===== src/Utils.antt =====
-- src/utils: containers that the engine, the gateway and the workers share.
pub mod Buffer
pub mod Framing
pub mod Average
pub mod RankingBst
pub mod Pool
pub mod Stat
