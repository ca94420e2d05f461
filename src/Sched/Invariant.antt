-- ===== src/Sched/Invariant.antt =====
-- The state of kernel/src/sched/mod.rs over time: what its functions keep true of the table of
-- tasks, the run queue and the map from processes to slots.
pub mod Table
pub mod Consistent
pub mod Turns
pub mod Waking
pub mod Slots
pub mod Spawning
pub mod Reach
