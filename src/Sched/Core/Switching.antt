-- ===== src/Sched/Core/Switching.antt =====
-- kernel/src/sched/mod.rs: giving up the processor, leaving, and waking a task.
use karte_os.Base.{
  ℕ, ◌-◌, Bool, true, false, ◌&&◌, Option, none, some, List, [], ◌∷◌, ◌==◌, ltb, if◌then◌else◌,
  get_elem?, set,
}
use karte_os.Sched.Class.{priority, quantum}
use karte_os.Sched.ReadyQueue.{ReadyQueue, push, pop_next, remove}
use karte_os.Sched.Core.State.{
  ready, running, blocked, exited, user, no_slot, TaskNode, Scheduler, is_user, is_ready,
  is_running, is_blocked, modify, with_state, exited_node, proc_slot_get, proc_slot_set, dispatch,
  dispatch_next,
}

-- The quantum gate: the running task has ticks left.
unfoldable pub keeps_quantum : TaskNode → Bool
keeps_quantum n = is_user n && is_running n && ltb 0 n.quantum_left

-- Running -> Ready
unfoldable pub requeue_node : TaskNode → TaskNode
requeue_node n = record n { state = ready; quantum_left = quantum n.class }

unfoldable pub requeue_current : Scheduler → Scheduler
requeue_current s = elim (get_elem? s.nodes s.current) [
  | none ↦ s
  | some n ↦
      if is_user n && is_running n
      then record s {
        nodes = set s.nodes s.current (requeue_node n);
        queue = push s.queue s.current (priority n.class);
      }
      else s
]

-- No other task is ready: the current one goes on.
unfoldable pub keep_current : Scheduler → Scheduler
keep_current s = modify s s.current (λ n. if is_ready n then with_state running n else n)

unfoldable pub dispatch_or_keep : Scheduler → Option ℕ × ReadyQueue → Scheduler
dispatch_or_keep s (none, q) = keep_current (record s { queue = q })
dispatch_or_keep s (some next, q) = dispatch (record s { queue = q }) next

abbrev pub reschedule : Scheduler → Scheduler
reschedule s = dispatch_or_keep s (pop_next s.queue)

unfoldable pub schedule : Scheduler → Scheduler
schedule s = elim (get_elem? s.nodes s.current) [
  | none ↦ reschedule (requeue_current s)
  | some n ↦
      if keeps_quantum n
      then record s {
        nodes = set s.nodes s.current (record n { quantum_left = n.quantum_left - 1 });
      }
      else reschedule (requeue_current s)
]

unfoldable pub schedule_block : Scheduler → Scheduler
schedule_block s = elim (get_elem? s.nodes s.current) [
  | none ↦ s
  | some n ↦
      if is_user n
      then dispatch_next (record s {
        nodes = set s.nodes s.current (with_state blocked n);
        queue = (remove s.queue s.current).1;
      })
      else s
]

unfoldable pub remove_slot : List (ℕ × ℕ) → ℕ → List (ℕ × ℕ)
remove_slot [] slot = []
remove_slot ((s, t) ∷ q) slot =
    let rest = remove_slot q slot in if s == slot then rest else (s, t) ∷ rest

abbrev pub remove_sleep : Scheduler → ℕ → Scheduler
remove_sleep s slot = record s { sleepq = remove_slot s.sleepq slot }

-- The slot is marked, taken out of the run queue and given back.
unfoldable pub retire : Scheduler → ℕ → Scheduler
retire s slot = elim (get_elem? s.nodes slot) [
  | none ↦ s
  | some n ↦ record s {
    nodes = set s.nodes slot (exited_node n);
    queue = (remove s.queue slot).1;
    free = slot ∷ s.free;
  }
]

abbrev pub proc_of : Scheduler → ℕ → Option ℕ
proc_of s slot = elim (get_elem? s.nodes slot) [
  | none ↦ none
  | some n ↦ elim n.kind [ user p ↦ some p | _ ↦ none ]
]

unfoldable pub schedule_exit : Scheduler → Scheduler
schedule_exit s =
    let t = dispatch_next (retire (remove_sleep s s.current_running) s.current) in
    elim (proc_of s s.current) [ none ↦ t | some p ↦ proc_slot_set t p no_slot ]

unfoldable pub mark_current_exited : Scheduler → Scheduler
mark_current_exited s = modify (remove_sleep s s.current_running) s.current (with_state exited)

unfoldable pub mark_task_exited_by_proc : Scheduler → ℕ → Scheduler
mark_task_exited_by_proc s proc_idx =
    let slot = proc_slot_get s proc_idx in
    if slot == no_slot
    then s
    else proc_slot_set (retire (remove_sleep s slot) slot) proc_idx no_slot

-- Blocked -> Ready, for one slot; the answer says whether it was blocked.
unfoldable pub wake_slot : Scheduler → ℕ → Bool × Scheduler
wake_slot s slot = elim (get_elem? s.nodes slot) [
  | none ↦ (false, s)
  | some n ↦
      if is_blocked n
      then (
        true,
        record s {
          nodes = set s.nodes slot (with_state ready n);
          queue = push s.queue slot (priority n.class);
        },
      )
      else (false, s)
]

unfoldable pub wake_task : Scheduler → ℕ → Bool × Scheduler
wake_task s proc_idx =
    let slot = proc_slot_get s proc_idx in
    if slot == no_slot then (false, s) else wake_slot (remove_sleep s slot) slot
