-- ===== src/Sched/Invariant/Consistent.antt =====
-- When the state of kernel/src/sched/mod.rs is consistent, and what a switch does to it.
use karte_os.Base.{
  ℕ, Bool, true, false, Option, some, List, ◌==◌, if◌then◌else◌, get_elem?, set, ◌≡◌, refl, sym, ap,
  ◌∙◌, arith, ◌⊎◌, inl, inr, Option-cases, when_some, set_same,
}
use karte_os.Sched.ReadyQueue.{ReadyQueue}
use karte_os.Sched.ReadyQueue.Bitmap.{IsValid}
use karte_os.Sched.ReadyQueue.Counts.{queued, Popped, popped, none_ready}
use karte_os.Sched.Core.{
  TaskNode, running, is_ready, is_empty_kind, Scheduler, no_slot, proc_slot_get, modify, with_state,
  dispatch, dispatch_or_idle, dispatch_or_keep, keep_current,
}
use karte_os.Sched.Invariant.Table.{
  Table, at_node, at_node-set, at_node-here, set-Table, runs_user, is_settled, is_of, is_idle,
  is_exited,
}

abbrev pub Quiet : List TaskNode → Type 0
Quiet nodes = (t : ℕ) → at_node runs_user nodes t ≡ false

abbrev pub Mapped : Scheduler → ℕ → Type 0
Mapped s p = (proc_slot_get s p ≡ no_slot) ⊎ (at_node (is_of p) s.nodes (proc_slot_get s p) ≡ true)

-- The table is in step with the queue, no user task runs but the current one, the current slot
-- has a task that has not been given back, and a process that has a slot owns the task there.
pub record IsConsistent (s : Scheduler) : Type 0 where
  pub table : Table s.nodes s.queue s.free
  pub runs : (t : ℕ) → at_node runs_user s.nodes t ≡ true → t ≡ s.current
  pub settled : at_node is_settled s.nodes s.current ≡ true
  pub mapped : (p : ℕ) → Mapped s p

pub node_there :
    (f : TaskNode → Bool) (nodes : List TaskNode) (i : ℕ)
    → at_node f nodes i ≡ true
    → (n : TaskNode) × (get_elem? nodes i ≡ some n) × (f n ≡ true)
node_there f nodes i h = elim (Option-cases (get_elem? nodes i)) [
  | inl e ↦ absurd (ground arith)
  | inr (n, e) ↦ (n, e, ground arith)
]

-- A node that keeps its kind keeps its owner.
pub set-Mapped :
    (s s' : Scheduler) (i p : ℕ) (n v : TaskNode)
    → get_elem? s.nodes i ≡ some n
    → s'.nodes ≡ set s.nodes i v
    → s'.slots ≡ s.slots
    → is_of p v ≡ is_of p n
    → Mapped s p
    → Mapped s' p
unfolding proc_slot_get
set-Mapped s s' i p n v e nodes slots k m =
    rw (nodes, slots)
      (ground (
        arith,
        at_node-set (is_of p) s.nodes i (proc_slot_get s p) n v e,
        at_node-here (is_of p) s.nodes i n e,
      ))

-- The switch to a slot whose task the queue has just given, or to the idle task when it has none.
pub record Switched (s s' : Scheduler) (next : ℕ) : Type 0 where
  pub table : Table s'.nodes s'.queue s'.free
  pub runs : (t : ℕ) → at_node runs_user s'.nodes t ≡ true → t ≡ s'.current
  pub settled : at_node is_settled s'.nodes s'.current ≡ true
  pub mapped : (p : ℕ) → Mapped s p → Mapped s' p

pub modify_lem :
    (s : Scheduler) (slot : ℕ) (f : TaskNode → TaskNode) (n : TaskNode)
    → get_elem? s.nodes slot ≡ some n
    → modify s slot f ≡ record s { nodes = set s.nodes slot (f n) }
modify_lem s slot f n e = ap (λ ns. record s { nodes = ns }) (when_some _ _ e)

pub dispatch_lem :
    (s : Scheduler) (next : ℕ) (n : TaskNode)
    → get_elem? s.nodes next ≡ some n
    → dispatch s next ≡ record s {
      nodes = set s.nodes next (with_state running n);
      current = next;
      current_running = next;
    }
unfolding dispatch
dispatch_lem s next n e =
    ap {A = Scheduler} (λ r. record r { current = next; current_running = next })
      (modify_lem s next (with_state running) n e)

pub dispatch-Switched :
    (s : Scheduler) (q : ReadyQueue) (next : ℕ) (n : TaskNode)
    → get_elem? s.nodes next ≡ some n
    → IsValid q
    → ((t : ℕ) → queued q.queues t ≡ (if next == t then 0 else queued s.queue.queues t))
    → is_empty_kind n ≡ false
    → Table s.nodes s.queue s.free
    → Quiet s.nodes
    → Switched s (dispatch (record s { queue = q }) next) next
dispatch-Switched s q next n e valid counts full w quiet =
    let v = with_state running n in
    rw (dispatch_lem (record s { queue = q }) next n e) (record {
      table =
          set-Table s.nodes s.queue q s.free s.free next n v e valid counts
            (λ t. ground (arith, w.freed t, at_node-here is_empty_kind s.nodes next n e))
            (λ h. absurd (ground arith)) (λ z h. h) w;
      runs = λ t h. ground (arith, at_node-set runs_user s.nodes next t n v e, quiet t);
      settled = ground (arith, at_node-set is_settled s.nodes next next n v e);
      mapped = λ p m. set-Mapped s _ next p n v e refl refl refl m;
    })

-- A switch to what the queue gives.
pub dispatch_or_idle-Switched :
    (s : Scheduler) (r : Option ℕ × ReadyQueue)
    → Popped s.queue r
    → Table s.nodes s.queue s.free
    → Quiet s.nodes
    → (next : ℕ) × Switched s (dispatch_or_idle s r) next
unfolding dispatch_or_idle
dispatch_or_idle-Switched s r (popped next q valid counts) w quiet =
    let at_next : at_node is_ready s.nodes next ≡ true =
      ground (arith, w.counts next, counts next) in
    let (n, e, h) = node_there is_ready s.nodes next at_next in
    (
      next,
      dispatch-Switched s q next n e valid (λ t. ground (arith, counts t, w.counts t))
          (ground (
            arith,
            w.left next,
            at_node-here is_empty_kind s.nodes next n e,
            at_node-here is_exited s.nodes next n e,
          ))
          w quiet,
    )
dispatch_or_idle-Switched s r (none_ready q valid before after) w quiet =
    let (n, e, h) = node_there is_idle s.nodes 0 w.idles in
    (
      0,
      dispatch-Switched s q 0 n e valid (λ t. ground (arith, before t, after t)) (ground arith) w
          quiet,
    )

keep_current_lem :
    (s : Scheduler) (n : TaskNode)
    → get_elem? s.nodes s.current ≡ some n
    → is_ready n ≡ false
    → keep_current s ≡ s
unfolding keep_current
keep_current_lem s n e h =
    modify_lem s s.current _ n e
    ∙ ap {A = List TaskNode} (λ ns. record s { nodes = ns }) (rw h (set_same s.nodes s.current n e))

pub dispatch_or_keep-Switched :
    (s : Scheduler) (r : Option ℕ × ReadyQueue)
    → Popped s.queue r
    → Table s.nodes s.queue s.free
    → Quiet s.nodes
    → (at_node is_ready s.nodes s.current ≡ false → at_node is_settled s.nodes s.current ≡ true)
    → (next : ℕ) × Switched s (dispatch_or_keep s r) next
unfolding dispatch_or_keep dispatch_or_idle proc_slot_get
dispatch_or_keep-Switched s r (popped next q valid counts) w quiet known =
    dispatch_or_idle-Switched s (some next, q) (popped next q valid counts) w quiet
dispatch_or_keep-Switched s r (none_ready q valid before after) w quiet known =
    let unready : at_node is_ready s.nodes s.current ≡ false =
      ground (arith, before s.current, w.counts s.current) in
    let (n, e, h) = node_there is_settled s.nodes s.current (known unready) in
    (
      s.current,
      rw (keep_current_lem (record s { queue = q }) n e (ground arith)) (record {
        table = record {
          valid = valid;
          counts = λ t. after t ∙ sym (before t) ∙ w.counts t;
          freed = w.freed;
          left = w.left;
          idles = w.idles;
        };
        runs = λ t h. absurd (ground (arith, quiet t));
        settled = known unready;
        mapped = λ p m. m;
      }),
    )

-- After a switch the state is consistent again.
pub Switched-IsConsistent :
    {s s' : Scheduler} {next : ℕ} → Switched s s' next → ((p : ℕ) → Mapped s p) → IsConsistent s'
Switched-IsConsistent w m = record {
  table = w.table;
  runs = w.runs;
  settled = w.settled;
  mapped = λ p. w.mapped p (m p);
}

-- A node that keeps its kind and its state.
pub same-IsConsistent :
    (s : Scheduler) (i : ℕ) (n v : TaskNode)
    → IsConsistent s
    → get_elem? s.nodes i ≡ some n
    → v.kind ≡ n.kind
    → v.state ≡ n.state
    → IsConsistent (record s { nodes = set s.nodes i v })
same-IsConsistent s i n v c e kind state = record {
  table =
      set-Table s.nodes s.queue s.queue s.free s.free i n v e c.table.valid
        (λ t. ground (arith, c.table.counts i, at_node-here is_ready s.nodes i n e))
        (λ t. ground (arith, c.table.freed i, at_node-here is_empty_kind s.nodes i n e))
        (λ h. ground (
          arith,
          c.table.left i,
          at_node-here is_empty_kind s.nodes i n e,
          at_node-here is_exited s.nodes i n e,
        ))
        (λ z h. ground arith) c.table;
  runs = λ t h. ground (
    arith,
    at_node-set runs_user s.nodes i t n v e,
    c.runs t,
    at_node-here runs_user s.nodes i n e,
  );
  settled = ground (
    arith,
    at_node-set is_settled s.nodes i s.current n v e,
    c.settled,
    at_node-here is_settled s.nodes i n e,
  );
  mapped = λ p. set-Mapped s _ i p n v e refl refl (ground arith) (c.mapped p);
}
