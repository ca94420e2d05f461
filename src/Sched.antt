-- ===== src/Sched.antt =====
-- kernel/src/sched: scheduling classes, the ready queue and the scheduler.
pub mod Class
pub mod ReadyQueue
pub mod Core
pub mod Invariant
pub mod Sleep
