-- ===== src/Sched/Invariant/Table.antt =====
-- The table of tasks of kernel/src/sched/mod.rs in step with the run queue and the free list.
use karte_os.Base.{
  ℕ, ◌≤◌, Bool, true, false, ◌&&◌, ◌||◌, not, none, some, List, ◌==◌, if◌then◌else◌, get_elem?, set,
  ◌≡◌, arith, get_elem?-set, when_some,
}
use karte_os.Sched.ReadyQueue.{ReadyQueue}
use karte_os.Sched.ReadyQueue.Bitmap.{IsValid}
use karte_os.Sched.ReadyQueue.Counts.{count, queued, one_if}
use karte_os.Sched.Core.{
  TaskNode, exited, user, idle, is_user, is_ready, is_running, is_empty_kind, is_blocked,
}

abbrev pub is_idle : TaskNode → Bool
is_idle n = elim n.kind [ idle ↦ true | _ ↦ false ]

abbrev pub is_exited : TaskNode → Bool
is_exited n = elim n.state [ exited ↦ true | _ ↦ false ]

abbrev pub runs_user : TaskNode → Bool
runs_user n = is_user n && is_running n

-- The task that has the processor runs, or has left and not been given back.
abbrev pub is_settled : TaskNode → Bool
is_settled n = not (is_ready n || is_blocked n || is_empty_kind n)

abbrev pub is_of : ℕ → TaskNode → Bool
is_of p n = elim n.kind [ user q ↦ q == p | _ ↦ false ]

-- Whether there is a node at the slot, with the given property.
abbrev pub at_node : (TaskNode → Bool) → List TaskNode → ℕ → Bool
at_node f nodes t = elim (get_elem? nodes t) [ none ↦ false | some n ↦ f n ]

pub at_node-set :
    (f : TaskNode → Bool) (nodes : List TaskNode) (i t : ℕ) (n v : TaskNode)
    → get_elem? nodes i ≡ some n
    → at_node f (set nodes i v) t ≡ (if i == t then f v else at_node f nodes t)
at_node-set f nodes i t n v e = ground (arith, get_elem?-set nodes i t n v e)

pub at_node-here :
    (f : TaskNode → Bool) (nodes : List TaskNode) (i : ℕ) (n : TaskNode)
    → get_elem? nodes i ≡ some n
    → at_node f nodes i ≡ f n
at_node-here f nodes i n e = when_some _ _ e

-- A task is queued once if it is ready and not at all otherwise; a slot is free at most once, and
-- only if it is empty; an empty slot has an exited task; slot 0 is the idle task.
pub record Table (nodes : List TaskNode) (queue : ReadyQueue) (free : List ℕ) : Type 0 where
  pub valid : IsValid queue
  pub counts : (t : ℕ) → queued queue.queues t ≡ one_if (at_node is_ready nodes t)
  pub freed : (t : ℕ) → count free t ≤ one_if (at_node is_empty_kind nodes t)
  pub left : (t : ℕ) → at_node is_empty_kind nodes t ≡ true → at_node is_exited nodes t ≡ true
  pub idles : at_node is_idle nodes 0 ≡ true

-- One node changes, and the queue and the free list with it.
pub set-Table :
    (nodes : List TaskNode) (queue queue' : ReadyQueue) (free free' : List ℕ) (i : ℕ)
    (n v : TaskNode)
    → get_elem? nodes i ≡ some n
    → IsValid queue'
    → ((t : ℕ)
        → queued queue'.queues t ≡ (if i == t then one_if (is_ready v) else queued queue.queues t))
    → ((t : ℕ) → count free' t ≤ (if i == t then one_if (is_empty_kind v) else count free t))
    → (is_empty_kind v ≡ true → is_exited v ≡ true)
    → (i ≡ 0 → is_idle n ≡ true → is_idle v ≡ true)
    → Table nodes queue free
    → Table (set nodes i v) queue' free'
set-Table nodes queue queue' free free' i n v e valid counts freed left idles w = record {
  valid = valid;
  counts = λ t. ground (arith, at_node-set is_ready nodes i t n v e, counts t, w.counts t);
  freed = λ t. ground (arith, at_node-set is_empty_kind nodes i t n v e, freed t, w.freed t);
  left = λ t. ground (
    arith,
    at_node-set is_empty_kind nodes i t n v e,
    at_node-set is_exited nodes i t n v e,
    w.left t,
  );
  idles =
      ground
        (arith, at_node-set is_idle nodes i 0 n v e, at_node-here is_idle nodes i n e, w.idles);
}
