-- ===== src/Sched/Invariant/Reach.antt =====
-- The scheduler of kernel/src/sched/mod.rs as a system: any of its functions may be called in any
-- state, with the conditions that their callers keep. Some functions let go of one lock before they
-- take the next, and the timer may come between: their parts are steps too. Not so the store to
-- PROC_TO_SLOT at the end of schedule_exit, mark_task_exited_by_proc and allocate_user_slot, which
-- belongs to the step before it: the timer does not read that map. set_slot_process is no step, since
-- nothing calls it.
use mathlib.Core.Path.{subst}
use karte_os.Base.{
  ℕ, zero, suc, ◌∷◌, ◌==◌, ◌≤◌, Bool, true, false, Option, none, some, [], ◌≡◌, refl, sym, ap, ◌∙◌,
  arith, ◌≢◌, ◌⊎◌, inl, get_elem?, set, if◌then◌else◌,
}
use karte_os.Sched.Class.{SchedClass}
use karte_os.Sched.ReadyQueue.{ReadyQueue, new}
use karte_os.Sched.ReadyQueue.Bitmap.{new-IsValid}
use karte_os.Sched.ReadyQueue.Counts.{
  queued, one_if, Popped, popped, none_ready, pop_next-Popped, count,
}
use karte_os.Sched.Core.{
  TaskNode, Scheduler, running, init, new_idle, proc_of, proc_slot_get, no_slot, schedule,
  schedule_block, schedule_exit, mark_current_exited, mark_task_exited_by_proc, wake_task,
  wake_slot, remove_sleep, queue_sleep, sleep_until, tick_sleep_queue, allocate_user_slot,
  set_task_class, start_first_task, dispatch_first, dispatch_or_idle, dispatch, with_state,
  is_ready, is_empty_kind,
}
use karte_os.Sched.Invariant.Table.{
  Table, at_node, at_node-set, at_node-here, set-Table, runs_user, is_settled, is_of, is_idle,
}
use karte_os.Sched.Invariant.Consistent.{
  Quiet, IsConsistent, set-Mapped, node_there, modify_lem, Switched-IsConsistent,
  dispatch_or_idle-Switched,
}
use karte_os.Sched.Invariant.Turns.{schedule-IsConsistent, schedule_block-IsConsistent}
use karte_os.Sched.Invariant.Waking.{
  sleepq-IsConsistent, wake_slot-IsConsistent, wake_task-IsConsistent,
  tick_sleep_queue-IsConsistent, sleep_until-IsConsistent, set_task_class-IsConsistent,
}
use karte_os.Sched.Invariant.Slots.{
  mark_current_exited-IsConsistent, schedule_exit-IsConsistent,
  mark_task_exited_by_proc-IsConsistent,
}
use karte_os.Sched.Invariant.Spawning.{allocate_user_slot-IsConsistent}

-- Only a user task leaves, no task kills its own process, and the first task is started from the
-- idle task.
pub data Step (s : Scheduler) : Scheduler → Type 0 where
  tick : Step s (schedule s)
  block : Step s (schedule_block s)
  leave : (p : ℕ) → proc_of s s.current ≡ some p → Step s (schedule_exit s)
  mark_left : Step s (mark_current_exited s)
  kill : (p : ℕ) → proc_slot_get s p ≢ s.current → Step s (mark_task_exited_by_proc s p)
  wake : (p : ℕ) → Step s (wake_task s p).1
  -- wake_task, schedule_exit and mark_task_exited_by_proc start with the first of these two, and
  -- wake_task ends with the second
  forget : (slot : ℕ) → Step s (remove_sleep s slot)
  wake_found : (slot : ℕ) → Step s (wake_slot s slot).1
  -- sleep_until starts with this, and ends with `block`
  enqueue : (slot wake_tick : ℕ) → Step s (queue_sleep s slot wake_tick)
  sleep : (now wake_tick : ℕ) → Step s (sleep_until s now wake_tick)
  timer :
      (now : ℕ) (sleepq_free sched_free : Bool)
      → Step s (tick_sleep_queue s now sleepq_free sched_free)
  spawn :
      (p kernel_stack_top initial_sp : ℕ)
      → Step s (allocate_user_slot s p kernel_stack_top initial_sp).1
  reclass : (p : ℕ) (class : SchedClass) → Step s (set_task_class s p class).1
  first : {t : Scheduler} → s.current ≡ 0 → start_first_task s ≡ some t → Step s t

-- The states that a booted scheduler comes to.
pub data Reach : Scheduler → Type 0 where
  booted : Reach init
  later : {s t : Scheduler} → Reach s → Step s t → Reach t

at_single :
    (f : TaskNode → Bool) (t : ℕ)
    → at_node f (new_idle ∷ []) t ≡ (if t == 0 then f new_idle else false)
at_single f zero = refl
at_single f (suc t) = ground arith

init-IsConsistent : IsConsistent init
unfolding init new_idle new count queued proc_slot_get
init-IsConsistent = record {
  table = record {
    valid = new-IsValid;
    counts = λ t. ground (arith, at_single is_ready t);
    freed = λ t. omega arith;
    left = λ t h. absurd (ground (arith, at_single is_empty_kind t));
    idles = refl;
  };
  runs = λ t h. absurd (ground (arith, at_single runs_user t));
  settled = refl;
  mapped = λ p. inl refl;
}

-- The state in which the first task is picked.
idle_running :
    (s : Scheduler)
    → s.current ≡ 0
    → IsConsistent s
    → (n : TaskNode) → get_elem? s.nodes 0 ≡ some n
    → Table (set s.nodes 0 (with_state running n)) s.queue s.free
      × Quiet (set s.nodes 0 (with_state running n))
idle_running s z c n e =
    let known : is_idle n ≡ true =
      ground (arith, c.table.idles, at_node-here is_idle s.nodes 0 n e) in
    let unready : is_ready n ≡ false =
      ground (arith, c.settled, at_node-here is_settled s.nodes 0 n e) in
    (
      set-Table s.nodes s.queue s.queue s.free s.free 0 n (with_state running n) e c.table.valid
          (λ t. ground (arith, c.table.counts t, at_node-here is_ready s.nodes 0 n e))
          (λ t. ground (arith, c.table.freed t, at_node-here is_empty_kind s.nodes 0 n e))
          (λ h. absurd (ground arith)) (λ y h. h) c.table,
      λ t. ground (arith, at_node-set runs_user s.nodes 0 t n (with_state running n) e, c.runs t),
    )

some-inj : {s t : Scheduler} → some s ≡ some t → s ≡ t
some-inj {s} e = ap (λ o. elim o [ none ↦ s | some x ↦ x ]) e

start_first_task-IsConsistent :
    (s t : Scheduler)
    → s.current ≡ 0
    → start_first_task s ≡ some t
    → IsConsistent s
    → IsConsistent t
unfolding start_first_task
start_first_task-IsConsistent s t z e c = first_of _ (pop_next-Popped s.queue c.table.valid) e
  where
    first_of :
        (r : Option ℕ × ReadyQueue)
        → Popped s.queue r
        → dispatch_first s r ≡ some t
        → IsConsistent t
    first_of r (none_ready q valid before after) h = absurd (unfold dispatch_first in ground arith)
    first_of r (popped next q valid counts) h =
        let (n, there, known) = node_there is_idle s.nodes 0 c.table.idles in
        let s1 : Scheduler = record s { nodes = set s.nodes 0 (with_state running n) } in
        let (table, quiet) = idle_running s z c n there in
        let (nx, w) =
          dispatch_or_idle-Switched s1 (some next, q) (popped next q valid counts) table quiet in
        let c1 =
          Switched-IsConsistent w
            (λ p. set-Mapped s s1 0 p n _ there refl refl refl (c.mapped p)) in
        let e1 : some (dispatch (record s1 { queue = q }) next) ≡ some t =
          ap {A = Scheduler} (λ r. some (dispatch r next))
            (sym (modify_lem (record s { queue = q }) 0 (with_state running) n there))
          ∙ (unfold dispatch_first in h) in
        let c2 : IsConsistent (dispatch (record s1 { queue = q }) next) =
          unfold dispatch_or_idle in c1 in
        let e2 : dispatch (record s1 { queue = q }) next ≡ t = some-inj e1 in
        subst IsConsistent e2 c2

Step-IsConsistent : {s t : Scheduler} → Step s t → IsConsistent s → IsConsistent t
Step-IsConsistent {s = s} tick c = schedule-IsConsistent s c
Step-IsConsistent {s = s} block c = schedule_block-IsConsistent s c
Step-IsConsistent {s = s} (leave p h) c = schedule_exit-IsConsistent s p (ground arith) c
Step-IsConsistent {s = s} mark_left c = mark_current_exited-IsConsistent s c
Step-IsConsistent {s = s} (kill p ne) c = mark_task_exited_by_proc-IsConsistent s p ne c
Step-IsConsistent {s = s} (wake p) c = wake_task-IsConsistent s p c
Step-IsConsistent {s = s} (forget slot) c = sleepq-IsConsistent s _ c
Step-IsConsistent {s = s} (wake_found slot) c = wake_slot-IsConsistent s slot c
Step-IsConsistent {s = s} (enqueue slot wake_tick) c = sleepq-IsConsistent s _ c
Step-IsConsistent {s = s} (sleep now wake_tick) c = sleep_until-IsConsistent s now wake_tick c
Step-IsConsistent {s = s} (timer now a b) c = tick_sleep_queue-IsConsistent s now a b c
Step-IsConsistent {s = s} (spawn p k i) c = allocate_user_slot-IsConsistent s p k i c
Step-IsConsistent {s = s} (reclass p class) c = set_task_class-IsConsistent s p class c
Step-IsConsistent {s = s} (first {t = t} z e) c = start_first_task-IsConsistent s t z e c

pub Reach-IsConsistent : {s : Scheduler} → Reach s → IsConsistent s
Reach-IsConsistent booted = init-IsConsistent
Reach-IsConsistent (later r st) = Step-IsConsistent st (Reach-IsConsistent r)

-- In every state that a booted scheduler comes to by its functions and their parts, where only
-- a user task leaves, no task kills its own process, the first task is started from the idle
-- task and set_slot_process is not called, a slot is queued once if its task is ready and not
-- at all otherwise, a free slot is listed once and is empty, at most one user task runs and it
-- is the current one, and a process that has a slot owns the task there.
pub reached :
    {s : Scheduler}
    → Reach s
    → ((t : ℕ) → queued s.queue.queues t ≡ one_if (at_node is_ready s.nodes t))
      × ((t : ℕ) → count s.free t ≤ one_if (at_node is_empty_kind s.nodes t))
      × ((t : ℕ) → at_node runs_user s.nodes t ≡ true → t ≡ s.current)
      × ((p : ℕ)
          → (proc_slot_get s p ≡ no_slot) ⊎ (at_node (is_of p) s.nodes (proc_slot_get s p) ≡ true))
reached r = let c = Reach-IsConsistent r in (c.table.counts, c.table.freed, c.runs, c.mapped)
