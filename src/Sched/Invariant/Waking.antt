-- ===== src/Sched/Invariant/Waking.antt =====
-- wake_task, the sleep queue and set_task_class of kernel/src/sched/mod.rs.
use karte_os.Base.{
  ℕ, Bool, true, false, none, some, List, [], ◌∷◌, ◌==◌, if◌then◌else◌, get_elem?, set, ◌≡◌, refl,
  arith, ◌≢◌, ◌⊎◌, inl, inr, leb, Bool-cases, Option-cases, when_some, when_none, if_cases,
}
use karte_os.Sched.Class.{SchedClass, priority}
use karte_os.Sched.ReadyQueue.{ReadyQueue, push, remove}
use karte_os.Sched.ReadyQueue.Bitmap.{IsValid, push-IsValid}
use karte_os.Sched.ReadyQueue.Counts.{queued, queued-push, queued-remove}
use karte_os.Sched.Core.{
  TaskNode, ready, Scheduler, no_slot, proc_slot_get, is_ready, is_running, is_empty_kind,
  is_blocked, with_state, with_class, wake_slot, wake_task, wake_slots, tick_sleep_queue,
  sleep_until, is_slot_active, set_slot_class, set_task_class, due_slots,
}
use karte_os.Sched.Invariant.Table.{
  at_node-set, at_node-here, set-Table, runs_user, is_settled, is_exited,
}
use karte_os.Sched.Invariant.Consistent.{IsConsistent, set-Mapped, same-IsConsistent}
use karte_os.Sched.Invariant.Turns.{schedule_block-IsConsistent}

-- The sleep queue plays no part.
pub sleepq-IsConsistent :
    (s : Scheduler) (q : List (ℕ × ℕ)) → IsConsistent s → IsConsistent (record s { sleepq = q })
unfolding proc_slot_get
sleepq-IsConsistent s q c = record {
  table = c.table;
  runs = c.runs;
  settled = c.settled;
  mapped = c.mapped;
}

-- A task that does not run and is not the current one changes its state or class, and the queue
-- with it.
queue-IsConsistent :
    (s : Scheduler) (i : ℕ) (n v : TaskNode) (q : ReadyQueue)
    → IsConsistent s
    → get_elem? s.nodes i ≡ some n
    → v.kind ≡ n.kind
    → is_empty_kind n ≡ false
    → is_ready v ≡ true
    → is_running n ≡ false
    → i ≢ s.current
    → IsValid q
    → ((t : ℕ) → queued q.queues t ≡ (if i == t then 1 else queued s.queue.queues t))
    → IsConsistent (record s { nodes = set s.nodes i v; queue = q })
queue-IsConsistent s i n v q c e kind full was stops ne valid counts = record {
  table =
      set-Table s.nodes s.queue q s.free s.free i n v e valid (λ t. ground (arith, counts t))
        (λ t. ground (arith, c.table.freed i, at_node-here is_empty_kind s.nodes i n e))
        (λ h. absurd (ground arith)) (λ z h. ground arith) c.table;
  runs = λ t h. ground (arith, at_node-set runs_user s.nodes i t n v e, c.runs t);
  settled = ground (arith, at_node-set is_settled s.nodes i s.current n v e, c.settled);
  mapped = λ p. set-Mapped s _ i p n v e refl refl (ground arith) (c.mapped p);
}

pub wake_slot_lem :
    (s : Scheduler) (slot : ℕ) (n : TaskNode)
    → get_elem? s.nodes slot ≡ some n
    → wake_slot s slot ≡ (
        if is_blocked n
        then (
          true,
          record s {
            nodes = set s.nodes slot (with_state ready n);
            queue = push s.queue slot (priority n.class);
          },
        )
        else (false, s))
unfolding wake_slot
wake_slot_lem s slot n e = when_some _ _ e

pub wake_slot-none :
    (s : Scheduler) (slot : ℕ) → get_elem? s.nodes slot ≡ none → wake_slot s slot ≡ (false, s)
unfolding wake_slot
wake_slot-none s slot e = when_none _ _ e

pub wake_slot-IsConsistent :
    (s : Scheduler) (slot : ℕ) → IsConsistent s → IsConsistent (wake_slot s slot).1
wake_slot-IsConsistent s slot c = elim (Option-cases (get_elem? s.nodes slot)) [
  | inl e ↦ rw (wake_slot-none s slot e) c
  | inr (n, e) ↦ rw (wake_slot_lem s slot n e) (
      if_cases {A = Bool × Scheduler} (λ r. IsConsistent r.1) (is_blocked n) _ _ (λ b. woken n e b)
        (λ b. c))
]
  where
    woken :
        (n : TaskNode)
        → get_elem? s.nodes slot ≡ some n
        → is_blocked n ≡ true
        → IsConsistent (record s {
          nodes = set s.nodes slot (with_state ready n);
          queue = push s.queue slot (priority n.class);
        })
    woken n e b =
        let z : queued s.queue.queues slot ≡ 0 =
          ground (arith, c.table.counts slot, at_node-here is_ready s.nodes slot n e) in
        queue-IsConsistent s slot n (with_state ready n) _ c e refl
          (ground (
            arith,
            c.table.left slot,
            at_node-here is_empty_kind s.nodes slot n e,
            at_node-here is_exited s.nodes slot n e,
          ))
          refl (ground arith)
          (λ same. ground (arith, c.settled, at_node-here is_settled s.nodes slot n e))
          (push-IsValid s.queue slot (priority n.class) c.table.valid)
          (λ t. ground (arith, queued-push s.queue slot (priority n.class) t c.table.valid z))

pub wake_task-IsConsistent :
    (s : Scheduler) (proc_idx : ℕ) → IsConsistent s → IsConsistent (wake_task s proc_idx).1
unfolding wake_task
wake_task-IsConsistent s proc_idx c =
    if_cases {A = Bool × Scheduler} (λ r. IsConsistent r.1) (proc_slot_get s proc_idx == no_slot) _
      _ (λ h. c) (λ h. wake_slot-IsConsistent _ _ (sleepq-IsConsistent s _ c))

wake_slots-IsConsistent :
    (slots : List ℕ) (s : Scheduler) → IsConsistent s → IsConsistent (wake_slots s slots)
unfolding wake_slots
wake_slots-IsConsistent [] s c = c
wake_slots-IsConsistent (slot ∷ slots) s c =
    wake_slots-IsConsistent slots (wake_slot s slot).1 (wake_slot-IsConsistent s slot c)

pub tick_sleep_queue-IsConsistent :
    (s : Scheduler) (now : ℕ) (sleepq_free sched_free : Bool)
    → IsConsistent s
    → IsConsistent (tick_sleep_queue s now sleepq_free sched_free)
unfolding tick_sleep_queue
tick_sleep_queue-IsConsistent s now false sched_free c = c
tick_sleep_queue-IsConsistent s now true false c = sleepq-IsConsistent s _ c
tick_sleep_queue-IsConsistent s now true true c =
    wake_slots-IsConsistent (due_slots now s.sleepq) _ (sleepq-IsConsistent s _ c)

pub sleep_until-IsConsistent :
    (s : Scheduler) (now wake_tick : ℕ)
    → IsConsistent s
    → IsConsistent (sleep_until s now wake_tick)
unfolding sleep_until
sleep_until-IsConsistent s now wake_tick c =
    if_cases IsConsistent (leb wake_tick now) _ _ (λ h. c)
      (λ h.
        if_cases IsConsistent (is_slot_active s s.current_running) _ _
          (λ a. schedule_block-IsConsistent _ (sleepq-IsConsistent s _ c)) (λ a. c))

set_slot_class_lem :
    (s : Scheduler) (slot : ℕ) (class : SchedClass) (n : TaskNode)
    → get_elem? s.nodes slot ≡ some n
    → set_slot_class s slot class ≡ (
        if is_empty_kind n then (false, s) else (
          true,
          record s {
            nodes = set s.nodes slot (with_class class n);
            queue =
                if is_ready n then push (remove s.queue slot).1 slot (priority class) else s.queue;
          },
        ))
unfolding set_slot_class
set_slot_class_lem s slot class n e = when_some _ _ e

set_slot_class-none :
    (s : Scheduler) (slot : ℕ) (class : SchedClass)
    → get_elem? s.nodes slot ≡ none
    → set_slot_class s slot class ≡ (false, s)
unfolding set_slot_class
set_slot_class-none s slot class e = when_none _ _ e

-- A ready task leaves its level and joins another one.
requeued_counts :
    (s : Scheduler) (slot prio : ℕ) (n : TaskNode)
    → IsConsistent s
    → get_elem? s.nodes slot ≡ some n
    → is_ready n ≡ true
    → (t : ℕ)
    → queued (push (remove s.queue slot).1 slot prio).queues t
      ≡ (if slot == t then 1 else queued s.queue.queues t)
requeued_counts s slot prio n c e r t =
    let once : queued s.queue.queues slot ≡ 1 =
      ground (arith, c.table.counts slot, at_node-here is_ready s.nodes slot n e) in
    let (self, valid) = queued-remove s.queue slot slot c.table.valid in
    let gone : queued (remove s.queue slot).1.queues slot ≡ 0 = ground arith in
    ground (
      arith,
      queued-push (remove s.queue slot).1 slot prio t valid gone,
      (queued-remove s.queue slot t c.table.valid).0,
    )

set_slot_class-IsConsistent :
    (s : Scheduler) (slot : ℕ) (class : SchedClass)
    → IsConsistent s
    → IsConsistent (set_slot_class s slot class).1
set_slot_class-IsConsistent s slot class c = elim (Option-cases (get_elem? s.nodes slot)) [
  | inl e ↦ rw (set_slot_class-none s slot class e) c
  | inr (n, e) ↦ rw (set_slot_class_lem s slot class n e) (
      if_cases {A = Bool × Scheduler} (λ r. IsConsistent r.1) (is_empty_kind n) _ _ (λ b. c)
        (λ full. changed n e full (Bool-cases (is_ready n))))
]
  where
    changed :
        (n : TaskNode)
        → get_elem? s.nodes slot ≡ some n
        → is_empty_kind n ≡ false
        → (is_ready n ≡ true) ⊎ (is_ready n ≡ false)
        → IsConsistent (record s {
          nodes = set s.nodes slot (with_class class n);
          queue =
              if is_ready n then push (remove s.queue slot).1 slot (priority class) else s.queue;
        })
    changed n e full (inr r) = rw r (same-IsConsistent s slot n (with_class class n) c e refl refl)
    changed n e full (inl r) =
        let valid = (queued-remove s.queue slot 0 c.table.valid).1 in
        rw r (
          queue-IsConsistent s slot n (with_class class n) _ c e refl full r (ground arith)
            (λ same. ground (arith, c.settled, at_node-here is_settled s.nodes slot n e))
            (push-IsValid (remove s.queue slot).1 slot (priority class) valid)
            (requeued_counts s slot (priority class) n c e r))

pub set_task_class-IsConsistent :
    (s : Scheduler) (proc_idx : ℕ) (class : SchedClass)
    → IsConsistent s
    → IsConsistent (set_task_class s proc_idx class).1
unfolding set_task_class
set_task_class-IsConsistent s proc_idx class c =
    if_cases {A = Bool × Scheduler} (λ r. IsConsistent r.1) (proc_slot_get s proc_idx == no_slot) _
      _ (λ h. c) (λ h. set_slot_class-IsConsistent s _ class c)
