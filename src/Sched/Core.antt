-- ===== src/Sched/Core.antt =====
-- kernel/src/sched/mod.rs and the states of sched/task.rs: the table of tasks, the run queue, the
-- map from processes to slots and the sleep queue. A function here is all of its source from start to
-- end, which takes the locks of the sleep queue, of the scheduler and of the map one after the other;
-- what comes between two of them is in Sched.Invariant.Reach. `tick_sleep_queue` gives up when a
-- lock is taken. A switch is what it does to `CURRENT_RUNNING`; stacks and registers are not
-- modelled.
mod State
mod Switching
mod Tasks
unfoldable pub use State.*
unfoldable pub use Switching.*
unfoldable pub use Tasks.*
