-- ===== src/PoolManager.antt =====
-- winval_blastbox/pool_manager.py: the root service that claims jobs and validates them.
pub mod Store
pub mod Paths
pub mod Process
pub mod Start
pub mod Removal
pub mod Retention
pub mod Orphans
