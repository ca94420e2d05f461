-- ===== src/Sched/Core/State.antt =====
-- The state of kernel/src/sched/mod.rs and sched/task.rs, and the functions on one slot.
use karte_os.Base.{
  ℕ, ◌+◌, ◌-◌, Bool, true, false, Option, none, some, List, [], ◌∷◌, ◌++◌, get_or, get_elem?, set,
  replicate, length,
}
use karte_os.Base.Words.{usize_max}
use karte_os.Sched.Class.{SchedClass, normal, quantum}
use karte_os.Sched.ReadyQueue.{ReadyQueue, pop_next, new as new_queue}

pub data TaskState : Type 0 where
  ready : TaskState
  running : TaskState
  blocked : TaskState
  exited : TaskState

pub data TaskKind : Type 0 where
  empty : TaskKind
  idle : TaskKind
  user : ℕ → TaskKind

abbrev pub idle_slot : ℕ
idle_slot = 0

abbrev pub no_slot : ℕ
no_slot = usize_max

pub record TaskNode : Type 0 where
  pub kind : TaskKind
  pub state : TaskState
  pub class : SchedClass
  pub initial_sp : ℕ
  pub quantum_left : ℕ
  pub kstack : ℕ

unfoldable pub new_idle : TaskNode
new_idle = record {
  kind = idle;
  state = running;
  class = normal;
  initial_sp = 0;
  quantum_left = usize_max;
  kstack = 0;
}

unfoldable pub new_user : ℕ → SchedClass → ℕ → TaskNode
new_user proc_idx class initial_sp = record {
  kind = user proc_idx;
  state = ready;
  class = class;
  initial_sp = initial_sp;
  quantum_left = quantum class;
  kstack = 0;
}

-- SCHEDULER, CURRENT_RUNNING, PROC_TO_SLOT and SLEEPQ. The head of `free` was pushed last; every
-- entry of `nodes` is `Some`, since nothing takes a box out.
pub record Scheduler : Type 0 where
  pub nodes : List TaskNode
  pub free : List ℕ
  pub queue : ReadyQueue
  pub current : ℕ
  pub high_water : ℕ
  pub current_running : ℕ
  pub slots : List ℕ
  pub sleepq : List (ℕ × ℕ)

unfoldable pub init : Scheduler
init = record {
  nodes = new_idle ∷ [];
  free = [];
  queue = new_queue;
  current = idle_slot;
  high_water = 1;
  current_running = idle_slot;
  slots = [];
  sleepq = [];
}

abbrev pub is_user : TaskNode → Bool
is_user n = elim n.kind [ user p ↦ true | _ ↦ false ]

abbrev pub is_empty_kind : TaskNode → Bool
is_empty_kind n = elim n.kind [ empty ↦ true | _ ↦ false ]

abbrev pub is_ready : TaskNode → Bool
is_ready n = elim n.state [ ready ↦ true | _ ↦ false ]

abbrev pub is_running : TaskNode → Bool
is_running n = elim n.state [ running ↦ true | _ ↦ false ]

abbrev pub is_blocked : TaskNode → Bool
is_blocked n = elim n.state [ blocked ↦ true | _ ↦ false ]

-- `if let Some(n) = node_mut(&mut sched, slot)` with no `else`
abbrev pub modify : Scheduler → ℕ → (TaskNode → TaskNode) → Scheduler
modify s slot f = record s {
  nodes = elim (get_elem? s.nodes slot) [ none ↦ s.nodes | some n ↦ set s.nodes slot (f n) ];
}

abbrev pub with_state : TaskState → TaskNode → TaskNode
with_state st n = record n { state = st }

abbrev pub exited_node : TaskNode → TaskNode
exited_node n = record n { state = exited; kind = empty }

unfoldable pub proc_slot_get : Scheduler → ℕ → ℕ
proc_slot_get s proc_idx = get_or s.slots proc_idx no_slot

-- `resize_with(proc_idx + 1, NO_SLOT)`, then the store
unfoldable pub proc_slot_set : Scheduler → ℕ → ℕ → Scheduler
proc_slot_set s proc_idx slot =
    let grown = s.slots ++ replicate (proc_idx + 1 - length s.slots) no_slot in
    record s { slots = set grown proc_idx slot }

-- `switch_to`, after the next task has been marked as running
unfoldable pub dispatch : Scheduler → ℕ → Scheduler
dispatch s next = record (modify s next (with_state running)) {
  current = next;
  current_running = next;
}

-- `find_next_ready_user(..).unwrap_or(IDLE_SLOT)`, and the switch
unfoldable pub dispatch_or_idle : Scheduler → Option ℕ × ReadyQueue → Scheduler
dispatch_or_idle s (none, q) = dispatch (record s { queue = q }) idle_slot
dispatch_or_idle s (some next, q) = dispatch (record s { queue = q }) next

abbrev pub dispatch_next : Scheduler → Scheduler
dispatch_next s = dispatch_or_idle s (pop_next s.queue)
