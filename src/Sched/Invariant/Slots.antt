-- ===== src/Sched/Invariant/Slots.antt =====
-- Leaving the processor for good, and new tasks, of kernel/src/sched/mod.rs.
use mathlib.Core.Path.{subst}
use karte_os.Base.{
  ℕ, ◌+◌, ◌-◌, ◌<◌, true, false, some, ◌∷◌, ◌++◌, ◌==◌, if◌then◌else◌, get_elem?, set, length, ◌≡◌,
  refl, sym, ◌∙◌, arith, ◌≢◌, ◌⊎◌, inl, inr, Bool-cases, when_some, if_cases, get_or-set,
  get_or-append, get_or-replicate, length-append, length-replicate, get_or, replicate, get_or_out,
}
use karte_os.Sched.ReadyQueue.{remove}
use karte_os.Sched.ReadyQueue.Counts.{count, queued-remove, pop_next-Popped}
use karte_os.Sched.Core.{
  TaskNode, exited, Scheduler, no_slot, proc_slot_get, proc_slot_set, is_ready, is_empty_kind,
  with_state, exited_node, retire, remove_sleep, remove_slot, dispatch_next, schedule_exit,
  mark_current_exited, mark_task_exited_by_proc, proc_of,
}
use karte_os.Sched.Invariant.Table.{
  Table, at_node, at_node-set, at_node-here, set-Table, runs_user, is_settled, is_of, is_idle,
}
use karte_os.Sched.Invariant.Consistent.{
  Mapped, Quiet, IsConsistent, node_there, modify_lem, dispatch_or_idle-Switched,
}
use karte_os.Sched.Invariant.Turns.{stop_current}
use karte_os.Sched.Invariant.Waking.{sleepq-IsConsistent}

-- `PROC_TO_SLOT` after a store.
pub proc_slot_get-proc_slot_set :
    (s : Scheduler) (p j slot : ℕ)
    → proc_slot_get (proc_slot_set s p slot) j ≡ (if p == j then slot else proc_slot_get s j)
unfolding proc_slot_get proc_slot_set
proc_slot_get-proc_slot_set s p j slot =
    let pad = replicate (p + 1 - length s.slots) no_slot in
    let len : p < length (s.slots ++ pad) =
      omega (arith, length-append s.slots pad, length-replicate (p + 1 - length s.slots) no_slot) in
    let padded : get_or (s.slots ++ pad) j no_slot ≡ get_or s.slots j no_slot =
      get_or-append s.slots pad j no_slot
      ∙ ground (
        arith,
        get_or-replicate (p + 1 - length s.slots) (j - length s.slots) no_slot,
        get_or_out s.slots j no_slot,
      ) in
    get_or-set (s.slots ++ pad) p j slot no_slot len ∙ ground (arith, padded)

pub mark_current_exited-IsConsistent :
    (s : Scheduler) → IsConsistent s → IsConsistent (mark_current_exited s)
unfolding mark_current_exited
mark_current_exited-IsConsistent s0 c0 =
    let s = remove_sleep s0 s0.current_running in
    let c = sleepq-IsConsistent s0 (remove_slot s0.sleepq s0.current_running) c0 in
    let (n, e, h) = node_there is_settled s.nodes s.current c.settled in
    let w =
      stop_current s n (with_state exited n) s.queue c e refl refl c.table.valid
        (λ t. ground (arith, c.table.counts t, at_node-here is_ready s.nodes s.current n e)) in
    rw (modify_lem s s.current (with_state exited) n e) (record {
      table = w.table;
      runs = λ t h. absurd (ground (arith, w.quiet t));
      settled =
          ground
            (arith, at_node-set is_settled s.nodes s.current s.current n (with_state exited n) e);
      mapped = λ p. w.mapped p (c.mapped p);
    })

-- A slot whose user task has been given back.
record Retired (s s' : Scheduler) (slot owner : ℕ) : Type 0 where
  table : Table s'.nodes s'.queue s'.free
  same : s'.current ≡ s.current
  runs : (t : ℕ) → at_node runs_user s'.nodes t ≡ true → (t ≡ s.current) × (slot ≢ t)
  settled : slot ≢ s.current → at_node is_settled s'.nodes s'.current ≡ true
  mapped : (p : ℕ) → p ≢ owner → Mapped s' p

retire_lem :
    (s : Scheduler) (slot : ℕ) (n : TaskNode)
    → get_elem? s.nodes slot ≡ some n
    → retire s slot ≡ record s {
      nodes = set s.nodes slot (exited_node n);
      queue = (remove s.queue slot).1;
      free = slot ∷ s.free;
    }
unfolding retire
retire_lem s slot n e = when_some _ _ e

retire-Retired :
    (s : Scheduler) (slot owner : ℕ)
    → IsConsistent s
    → at_node (is_of owner) s.nodes slot ≡ true
    → Retired s (retire s slot) slot owner
unfolding count proc_slot_get
retire-Retired s slot owner c h =
    let (n, e, own) = node_there (is_of owner) s.nodes slot h in
    let v = exited_node n in
    let q = (remove s.queue slot).1 in
    let full : is_empty_kind n ≡ false = ground arith in
    let no_idle : is_idle n ≡ false = ground arith in
    rw (retire_lem s slot n e) (record {
      table =
          set-Table s.nodes s.queue q s.free (slot ∷ s.free) slot n v e
            (queued-remove s.queue slot 0 c.table.valid).1
            (λ t.
              ground (arith, (queued-remove s.queue slot t c.table.valid).0, c.table.counts slot))
            (λ t. ground (arith, c.table.freed slot, at_node-here is_empty_kind s.nodes slot n e))
            (λ h. refl) (λ z h. ground arith) c.table;
      same = refl;
      runs = λ t h. ground (arith, at_node-set runs_user s.nodes slot t n v e, c.runs t);
      settled =
          λ ne. ground (arith, at_node-set is_settled s.nodes slot s.current n v e, c.settled);
      mapped = λ p ne. ground (
        arith,
        at_node-set (is_of p) s.nodes slot (get_or s.slots p no_slot) n v e,
        c.mapped p,
        at_node-here (is_of p) s.nodes slot n e,
      );
    })

-- A store that is right for its process, when every other process is right already.
pub stored-IsConsistent :
    (s : Scheduler) (owner slot : ℕ)
    → Table s.nodes s.queue s.free
    → ((t : ℕ) → at_node runs_user s.nodes t ≡ true → t ≡ s.current)
    → at_node is_settled s.nodes s.current ≡ true
    → ((p : ℕ) → p ≢ owner → Mapped s p)
    → (slot ≡ no_slot) ⊎ (at_node (is_of owner) s.nodes slot ≡ true)
    → IsConsistent (proc_slot_set s owner slot)
stored-IsConsistent s owner slot table runs settled others own = record {
  table = unfold proc_slot_set in table;
  runs = unfold proc_slot_set in runs;
  settled = unfold proc_slot_set in settled;
  mapped = λ p. stored p (Bool-cases (owner == p));
}
  where
    Owns : ℕ → ℕ → Type 0
    Owns p k = (k ≡ no_slot) ⊎ (at_node (is_of p) s.nodes k ≡ true)

    stored :
        (p : ℕ) → (owner == p ≡ true) ⊎ (owner == p ≡ false) → Mapped (proc_slot_set s owner slot) p
    stored p (inl same) =
        let e : owner ≡ p = ground arith in
        let k : slot ≡ proc_slot_get (proc_slot_set s owner slot) p =
          ground (arith, proc_slot_get-proc_slot_set s owner p slot) in
        unfold proc_slot_set in subst (Owns p) k (subst (λ q. Owns q slot) e own)
    stored p (inr other) =
        let k : proc_slot_get s p ≡ proc_slot_get (proc_slot_set s owner slot) p =
          ground (arith, proc_slot_get-proc_slot_set s owner p slot) in
        unfold proc_slot_set in subst (Owns p) k (others p (ground arith))

proc_of_lem :
    (s : Scheduler) (slot p : ℕ) → at_node (is_of p) s.nodes slot ≡ true → proc_of s slot ≡ some p
proc_of_lem s slot p h = ground arith

schedule_exit_lem :
    (s : Scheduler) (p : ℕ)
    → at_node (is_of p) s.nodes s.current ≡ true
    → schedule_exit s
      ≡ proc_slot_set
          (dispatch_next (retire (remove_sleep s s.current_running) s.current))
          p
          no_slot
unfolding schedule_exit
schedule_exit_lem s p h = when_some _ _ (proc_of_lem s s.current p h)

pub schedule_exit-IsConsistent :
    (s : Scheduler) (p : ℕ)
    → at_node (is_of p) s.nodes s.current ≡ true
    → IsConsistent s
    → IsConsistent (schedule_exit s)
schedule_exit-IsConsistent s0 p h c0 =
    let s = remove_sleep s0 s0.current_running in
    let c = sleepq-IsConsistent s0 (remove_slot s0.sleepq s0.current_running) c0 in
    let r = retire-Retired s s.current p c h in
    let quiet : Quiet (retire s s.current).nodes = λ t. ground (arith, r.runs t) in
    let popped = pop_next-Popped (retire s s.current).queue r.table.valid in
    let (next, w) = dispatch_or_idle-Switched (retire s s.current) _ popped r.table quiet in
    rw (schedule_exit_lem s0 p h) (
      stored-IsConsistent (dispatch_next (retire s s.current)) p no_slot w.table w.runs w.settled
        (λ j ne. w.mapped j (r.mapped j ne)) (inl refl))

pub mark_task_exited_by_proc-IsConsistent :
    (s : Scheduler) (p : ℕ)
    → proc_slot_get s p ≢ s.current
    → IsConsistent s
    → IsConsistent (mark_task_exited_by_proc s p)
unfolding mark_task_exited_by_proc
mark_task_exited_by_proc-IsConsistent s0 p ne c0 =
    let slot = proc_slot_get s0 p in
    if_cases IsConsistent (slot == no_slot) _ _ (λ h. c0)
      (λ h. marked (ground (arith, c0.mapped p)))
  where
    marked :
        at_node (is_of p) s0.nodes (proc_slot_get s0 p) ≡ true
        → IsConsistent (
            proc_slot_set
              (retire (remove_sleep s0 (proc_slot_get s0 p)) (proc_slot_get s0 p))
              p
              no_slot)
    marked own =
        let slot = proc_slot_get s0 p in
        let s = remove_sleep s0 slot in
        let c = sleepq-IsConsistent s0 (remove_slot s0.sleepq slot) c0 in
        let r = retire-Retired s slot p c own in
        stored-IsConsistent (retire s slot) p no_slot r.table (λ t h. (r.runs t h).0 ∙ sym r.same)
          (r.settled ne) r.mapped (inl refl)
