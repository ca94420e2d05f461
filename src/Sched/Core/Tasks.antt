-- ===== src/Sched/Core/Tasks.antt =====
-- kernel/src/sched/mod.rs: the sleep queue, new tasks, and the classes of tasks.
use karte_os.Base.{
  ℕ, ◌+◌, Bool, true, false, Option, none, some, List, [], ◌∷◌, ◌++◌, ◌==◌, leb, if◌then◌else◌,
  get_elem?, set, length, min,
}
use karte_os.Base.Words.{usize_max}
use karte_os.Sched.Class.{SchedClass, normal, priority, quantum}
use karte_os.Sched.ReadyQueue.{ReadyQueue, push, pop_next, remove, empty? as queue_empty?}
use karte_os.Sched.Core.State.{
  user, running, idle_slot, no_slot, TaskNode, new_idle, new_user, Scheduler, is_user,
  is_empty_kind, is_ready, modify, with_state, proc_slot_get, proc_slot_set, dispatch,
}
use karte_os.Sched.Core.Switching.{schedule_block, wake_slot, proc_of}

unfoldable pub is_slot_active : Scheduler → ℕ → Bool
is_slot_active s slot = elim (get_elem? s.nodes slot) [
  | none ↦ false
  | some n ↦ if is_empty_kind n then false else true
]

unfoldable pub put_sleep : List (ℕ × ℕ) → ℕ → ℕ → List (ℕ × ℕ)
put_sleep [] slot wake_tick = (slot, wake_tick) ∷ []
put_sleep ((s, t) ∷ q) slot wake_tick =
    let rest = put_sleep q slot wake_tick in if s == slot then (s, wake_tick) ∷ q else (s, t) ∷ rest

abbrev pub queue_sleep : Scheduler → ℕ → ℕ → Scheduler
queue_sleep s slot wake_tick = record s { sleepq = put_sleep s.sleepq slot wake_tick }

-- `now` is what `uptime_ms` answers. A slot without a task waits in a loop that changes nothing.
unfoldable pub sleep_until : Scheduler → ℕ → ℕ → Scheduler
sleep_until s now wake_tick =
    if leb wake_tick now
    then s
    else if is_slot_active s s.current_running
    then schedule_block (queue_sleep s s.current_running wake_tick)
    else s

-- The least tick in the sleep queue.
unfoldable pub next_sleep_deadline : List (ℕ × ℕ) → Option ℕ
next_sleep_deadline [] = none
next_sleep_deadline ((s, t) ∷ q) = elim (next_sleep_deadline q) [
  | none ↦ some t
  | some u ↦ some (min t u)
]

unfoldable pub no_ready_tasks : Scheduler → Bool
no_ready_tasks s = queue_empty? s.queue

-- The slots of the entries that are due, and the entries that are not.
unfoldable pub due_slots : ℕ → List (ℕ × ℕ) → List ℕ
due_slots now [] = []
due_slots now ((s, t) ∷ q) = let rest = due_slots now q in if leb t now then s ∷ rest else rest

unfoldable pub not_due_yet : ℕ → List (ℕ × ℕ) → List (ℕ × ℕ)
not_due_yet now [] = []
not_due_yet now ((s, t) ∷ q) =
    let rest = not_due_yet now q in if leb t now then rest else (s, t) ∷ rest

unfoldable pub wake_slots : Scheduler → List ℕ → Scheduler
wake_slots s [] = s
wake_slots s (slot ∷ slots) = wake_slots (wake_slot s slot).1 slots

-- The two tests say whether `try_lock` gets the sleep queue and the scheduler.
unfoldable pub tick_sleep_queue : Scheduler → ℕ → Bool → Bool → Scheduler
tick_sleep_queue s now sleepq_free sched_free =
    let drained = record s { sleepq = not_due_yet now s.sleepq } in
    if sleepq_free
    then if sched_free then wake_slots drained (due_slots now s.sleepq) else drained
    else s

-- The slot for a new task: the one that was given back last, or a new one at the end.
unfoldable pub take_slot_from : Scheduler → List ℕ → ℕ × Scheduler
take_slot_from s [] = (length s.nodes, record s { nodes = s.nodes ++ new_idle ∷ [] })
take_slot_from s (slot ∷ free) = (slot, record s { free = free })

unfoldable pub take_slot : Scheduler → ℕ × Scheduler
take_slot s = take_slot_from s s.free

-- None is `SchedError::NoFreeSlot`.
unfoldable pub allocate_user_slot : Scheduler → ℕ → ℕ → ℕ → Option ℕ × Scheduler
allocate_user_slot s proc_idx kernel_stack_top initial_sp =
    let (slot, t) = take_slot s in
    elim (get_elem? t.nodes slot) [
      | none ↦ (none, t)
      | some old ↦ (
        some slot,
        proc_slot_set
            (record t {
              nodes =
                  set t.nodes slot
                    (record (new_user proc_idx normal initial_sp) { kstack = kernel_stack_top });
              high_water = if leb t.high_water slot then slot + 1 else t.high_water;
              queue = push t.queue slot (priority normal);
            })
            proc_idx slot,
      )
    ]

-- None is a panic: there is no first task.
unfoldable pub dispatch_first : Scheduler → Option ℕ × ReadyQueue → Option Scheduler
dispatch_first s (none, q) = none
dispatch_first s (some next, q) =
    some (dispatch (modify (record s { queue = q }) idle_slot (with_state running)) next)

unfoldable pub start_first_task : Scheduler → Option Scheduler
start_first_task s = dispatch_first s (pop_next s.queue)

abbrev pub with_class : SchedClass → TaskNode → TaskNode
with_class class n = record n { class = class; quantum_left = quantum class }

-- A task that is ready moves to its new level.
unfoldable pub set_slot_class : Scheduler → ℕ → SchedClass → Bool × Scheduler
set_slot_class s slot class = elim (get_elem? s.nodes slot) [
  | none ↦ (false, s)
  | some n ↦ if is_empty_kind n then (false, s) else (
    true,
    record s {
      nodes = set s.nodes slot (with_class class n);
      queue = if is_ready n then push (remove s.queue slot).1 slot (priority class) else s.queue;
    },
  )
]

unfoldable pub set_task_class : Scheduler → ℕ → SchedClass → Bool × Scheduler
set_task_class s proc_idx class =
    let slot = proc_slot_get s proc_idx in
    if slot == no_slot then (false, s) else set_slot_class s slot class

unfoldable pub get_task_class : Scheduler → ℕ → Option SchedClass
get_task_class s proc_idx =
    let slot = proc_slot_get s proc_idx in
    if slot == no_slot
    then none
    else (elim (get_elem? s.nodes slot) [ none ↦ none | some n ↦ some n.class ])

unfoldable pub children : List TaskNode → ℕ
children [] = 0
children (n ∷ ns) = (if is_user n then 1 else 0) + children ns

abbrev pub child_count : Scheduler → ℕ
child_count s = children s.nodes

unfoldable pub slot_to_process : Scheduler → ℕ → ℕ
slot_to_process s slot = elim (proc_of s slot) [ none ↦ usize_max | some p ↦ p ]

-- Nothing calls it.
unfoldable pub set_slot_process : Scheduler → ℕ → ℕ → Scheduler
set_slot_process s slot proc_idx =
    proc_slot_set (modify s slot (λ n. record n { kind = user proc_idx })) proc_idx slot
