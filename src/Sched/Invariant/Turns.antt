-- ===== src/Sched/Invariant/Turns.antt =====
-- schedule and schedule_block of kernel/src/sched/mod.rs.
use karte_os.Base.{
  ℕ, ◌-◌, false, ◌&&◌, some, List, ◌==◌, if◌then◌else◌, get_elem?, set, ◌≡◌, refl, arith, when_some,
  if_cases,
}
use karte_os.Sched.Class.{priority}
use karte_os.Sched.ReadyQueue.{ReadyQueue, push, remove, pop_next}
use karte_os.Sched.ReadyQueue.Bitmap.{IsValid, push-IsValid}
use karte_os.Sched.ReadyQueue.Counts.{queued, one_if, queued-push, queued-remove, pop_next-Popped}
use karte_os.Sched.Core.{
  TaskNode, blocked, is_user, is_ready, is_running, is_empty_kind, Scheduler, with_state,
  dispatch_next, reschedule, requeue_node, requeue_current, schedule, schedule_block, keeps_quantum,
}
use karte_os.Sched.Invariant.Table.{
  Table, at_node-set, at_node-here, set-Table, runs_user, is_settled,
}
use karte_os.Sched.Invariant.Consistent.{
  Quiet, Mapped, IsConsistent, node_there, set-Mapped, dispatch_or_idle-Switched,
  dispatch_or_keep-Switched, Switched-IsConsistent, same-IsConsistent,
}

-- The current task stops running: its node changes, and the queue with it.
pub record Stopped (s : Scheduler) (nodes : List TaskNode) (queue : ReadyQueue) : Type 0 where
  pub table : Table nodes queue s.free
  pub quiet : Quiet nodes
  pub mapped : (p : ℕ) → Mapped s p → Mapped (record s { nodes = nodes; queue = queue }) p

pub stop_current :
    (s : Scheduler) (n v : TaskNode) (queue : ReadyQueue)
    → IsConsistent s
    → get_elem? s.nodes s.current ≡ some n
    → v.kind ≡ n.kind
    → is_running v ≡ false
    → IsValid queue
    → ((t : ℕ)
        → queued queue.queues t
          ≡ (if s.current == t then one_if (is_ready v) else queued s.queue.queues t))
    → Stopped s (set s.nodes s.current v) queue
stop_current s n v queue c e kind stopped valid counts =
    let full : is_empty_kind n ≡ false =
      ground (arith, c.settled, at_node-here is_settled s.nodes s.current n e) in
    record {
      table =
          set-Table s.nodes s.queue queue s.free s.free s.current n v e valid counts
            (λ t. ground (arith, c.table.freed t, at_node-here is_empty_kind s.nodes s.current n e))
            (λ h. absurd (ground arith)) (λ z h. ground arith) c.table;
      quiet = λ t. ground (arith, at_node-set runs_user s.nodes s.current t n v e, c.runs t);
      mapped = λ p m. set-Mapped s _ s.current p n v e refl refl (ground arith) m;
    }

-- Taking the current task out of the queue, in which it is not.
pub removed_counts :
    (s : Scheduler) (n : TaskNode)
    → IsConsistent s
    → get_elem? s.nodes s.current ≡ some n
    → (t : ℕ)
    → queued (remove s.queue s.current).1.queues t
      ≡ (if s.current == t then 0 else queued s.queue.queues t)
removed_counts s n c e t = ground (
  arith,
  (queued-remove s.queue s.current t c.table.valid).0,
  c.table.counts t,
  c.settled,
  at_node-here is_settled s.nodes s.current n e,
  at_node-here is_ready s.nodes s.current n e,
)

pub schedule_block_lem :
    (s : Scheduler) (n : TaskNode)
    → get_elem? s.nodes s.current ≡ some n
    → schedule_block s ≡ (
        if is_user n
        then dispatch_next (record s {
          nodes = set s.nodes s.current (with_state blocked n);
          queue = (remove s.queue s.current).1;
        })
        else s)
unfolding schedule_block
schedule_block_lem s n e = when_some _ _ e

pub schedule_block-IsConsistent : (s : Scheduler) → IsConsistent s → IsConsistent (schedule_block s)
schedule_block-IsConsistent s c =
    let (n, e, h) = node_there is_settled s.nodes s.current c.settled in
    rw (schedule_block_lem s n e)
      (if_cases IsConsistent (is_user n) _ _ (λ u. blocked_next n e) (λ u. c))
  where
    blocked_next :
        (n : TaskNode)
        → get_elem? s.nodes s.current ≡ some n
        → IsConsistent (
            dispatch_next (record s {
              nodes = set s.nodes s.current (with_state blocked n);
              queue = (remove s.queue s.current).1;
            }))
    blocked_next n e =
        let q = (remove s.queue s.current).1 in
        let valid = (queued-remove s.queue s.current 0 c.table.valid).1 in
        let w =
          stop_current s n (with_state blocked n) q c e refl refl valid (removed_counts s n c e) in
        let (next, sw) =
          dispatch_or_idle-Switched
            (record s { nodes = set s.nodes s.current (with_state blocked n); queue = q })
            (pop_next q) (pop_next-Popped q valid) w.table w.quiet in
        Switched-IsConsistent sw (λ p. w.mapped p (c.mapped p))

-- The task that runs is not queued, and the queue holds it once when it has been requeued.
pushed_counts :
    (s : Scheduler) (n : TaskNode) (prio : ℕ)
    → IsConsistent s
    → get_elem? s.nodes s.current ≡ some n
    → (t : ℕ)
    → queued (push s.queue s.current prio).queues t
      ≡ (if s.current == t then 1 else queued s.queue.queues t)
pushed_counts s n prio c e t =
    let z : queued s.queue.queues s.current ≡ 0 = ground (
      arith,
      c.table.counts s.current,
      c.settled,
      at_node-here is_settled s.nodes s.current n e,
      at_node-here is_ready s.nodes s.current n e,
    ) in
    ground (arith, queued-push s.queue s.current prio t c.table.valid z)

requeue_current_lem :
    (s : Scheduler) (n : TaskNode)
    → get_elem? s.nodes s.current ≡ some n
    → requeue_current s ≡ (
        if is_user n && is_running n
        then record s {
          nodes = set s.nodes s.current (requeue_node n);
          queue = push s.queue s.current (priority n.class);
        }
        else s)
unfolding requeue_current
requeue_current_lem s n e = when_some _ _ e

reschedule-IsConsistent :
    (s : Scheduler) → IsConsistent s → IsConsistent (reschedule (requeue_current s))
unfolding requeue_node
reschedule-IsConsistent s c =
    let (n, e, h) = node_there is_settled s.nodes s.current c.settled in
    rw (requeue_current_lem s n e) (
      if_cases (λ r. IsConsistent (reschedule r)) (is_user n && is_running n) _ _
        (λ u. requeued n e) (λ u. unchanged n e u))
  where
    requeued :
        (n : TaskNode)
        → get_elem? s.nodes s.current ≡ some n
        → IsConsistent (
            reschedule (record s {
              nodes = set s.nodes s.current (requeue_node n);
              queue = push s.queue s.current (priority n.class);
            }))
    requeued n e =
        let q = push s.queue s.current (priority n.class) in
        let valid = push-IsValid s.queue s.current (priority n.class) c.table.valid in
        let w =
          stop_current s n (requeue_node n) q c e refl refl valid
            (pushed_counts s n (priority n.class) c e) in
        let (next, sw) =
          dispatch_or_keep-Switched
            (record s { nodes = set s.nodes s.current (requeue_node n); queue = q }) (pop_next q)
            (pop_next-Popped q valid) w.table w.quiet
            (λ h. absurd (
              ground
                (arith, at_node-set is_ready s.nodes s.current s.current n (requeue_node n) e))) in
        Switched-IsConsistent sw (λ p. w.mapped p (c.mapped p))

    unchanged :
        (n : TaskNode)
        → get_elem? s.nodes s.current ≡ some n
        → (is_user n && is_running n) ≡ false
        → IsConsistent (reschedule s)
    unchanged n e u =
        let quiet : Quiet s.nodes =
          λ t. ground (arith, c.runs t, at_node-here runs_user s.nodes s.current n e) in
        let (next, sw) =
          dispatch_or_keep-Switched s (pop_next s.queue) (pop_next-Popped s.queue c.table.valid)
            c.table quiet (λ h. c.settled) in
        Switched-IsConsistent sw c.mapped

schedule_lem :
    (s : Scheduler) (n : TaskNode)
    → get_elem? s.nodes s.current ≡ some n
    → schedule s ≡ (
        if keeps_quantum n
        then record s {
          nodes = set s.nodes s.current (record n { quantum_left = n.quantum_left - 1 });
        }
        else reschedule (requeue_current s))
unfolding schedule
schedule_lem s n e = when_some _ _ e

pub schedule-IsConsistent : (s : Scheduler) → IsConsistent s → IsConsistent (schedule s)
schedule-IsConsistent s c =
    let (n, e, h) = node_there is_settled s.nodes s.current c.settled in
    rw (schedule_lem s n e) (
      if_cases IsConsistent (keeps_quantum n) _ _
        (λ k.
          same-IsConsistent s s.current n (record n { quantum_left = n.quantum_left - 1 }) c e refl
            refl)
        (λ k. reschedule-IsConsistent s c))
