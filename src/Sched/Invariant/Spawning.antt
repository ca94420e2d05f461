-- ===== src/Sched/Invariant/Spawning.antt =====
-- allocate_user_slot of kernel/src/sched/mod.rs: which slot a new task gets.
use karte_os.Base.{
  ℕ, ◌+◌, Bool, true, false, some, List, [], ◌∷◌, ◌++◌, ◌==◌, if◌then◌else◌, get_elem?, set, length,
  ◌≡◌, refl, ap, arith, ◌≢◌, inr, leb, when_some, get_elem?-snoc, get_or,
}
use karte_os.Sched.Class.{normal, priority}
use karte_os.Sched.ReadyQueue.{push}
use karte_os.Sched.ReadyQueue.Bitmap.{push-IsValid}
use karte_os.Sched.ReadyQueue.Counts.{count, queued, queued-push}
use karte_os.Sched.Core.{
  TaskNode, user, Scheduler, no_slot, proc_slot_get, proc_slot_set, is_ready, is_empty_kind,
  new_idle, new_user, take_slot, take_slot_from, allocate_user_slot,
}
use karte_os.Sched.Invariant.Table.{
  at_node, at_node-set, at_node-here, set-Table, runs_user, is_settled, is_of, is_idle, is_exited,
}
use karte_os.Sched.Invariant.Consistent.{IsConsistent, node_there}
use karte_os.Sched.Invariant.Slots.{stored-IsConsistent}

-- The slot that a new task gets holds a node, no process owns it, and it is neither queued, nor
-- free any more, nor the current one.
record Taken (s : Scheduler) (slot : ℕ) : Type 0 where
  consistent : IsConsistent s
  old : TaskNode
  there : get_elem? s.nodes slot ≡ some old
  unowned : (p : ℕ) → is_of p old ≡ false
  unready : is_ready old ≡ false
  not_free : count s.free slot ≡ 0
  not_current : slot ≢ s.current
  not_first : slot ≢ 0

at_node-snoc :
    (f : TaskNode → Bool) (nodes : List TaskNode) (v : TaskNode) (t : ℕ)
    → at_node f (nodes ++ v ∷ []) t ≡ (if length nodes == t then f v else at_node f nodes t)
at_node-snoc f nodes v t = ground (arith, get_elem?-snoc nodes v t)

at_node_end : (f : TaskNode → Bool) (nodes : List TaskNode) → at_node f nodes (length nodes) ≡ false
at_node_end f [] = refl
at_node_end f (n ∷ ns) = at_node_end f ns

-- A new node at the end of the table.
snoc-Taken :
    (s : Scheduler)
    → IsConsistent s
    → Taken (record s { nodes = s.nodes ++ new_idle ∷ [] }) (length s.nodes)
unfolding new_idle proc_slot_get
snoc-Taken s c =
    let end_of = λ (f : TaskNode → Bool). at_node_end f s.nodes in
    record {
      consistent = record {
        table = record {
          valid = c.table.valid;
          counts = λ t.
              ground (
                arith,
                at_node-snoc is_ready s.nodes new_idle t,
                c.table.counts t,
                end_of is_ready,
              );
          freed = λ t. ground (
            arith,
            at_node-snoc is_empty_kind s.nodes new_idle t,
            c.table.freed t,
            end_of is_empty_kind,
          );
          left = λ t. ground (
            arith,
            at_node-snoc is_empty_kind s.nodes new_idle t,
            at_node-snoc is_exited s.nodes new_idle t,
            c.table.left t,
          );
          idles = ground (arith, at_node-snoc is_idle s.nodes new_idle 0, c.table.idles);
        };
        runs = λ t h. ground (arith, at_node-snoc runs_user s.nodes new_idle t, c.runs t);
        settled = ground (
          arith,
          at_node-snoc is_settled s.nodes new_idle s.current,
          c.settled,
          end_of is_settled,
        );
        mapped = λ p. ground (
          arith,
          c.mapped p,
          at_node-snoc (is_of p) s.nodes new_idle (get_or s.slots p no_slot),
          end_of (is_of p),
        );
      };
      old = new_idle;
      there = ground (arith, get_elem?-snoc s.nodes new_idle (length s.nodes));
      unowned = λ p. refl;
      unready = refl;
      not_free = ground (arith, c.table.freed (length s.nodes), end_of is_empty_kind);
      not_current = λ e. ground (arith, c.settled, end_of is_settled);
      not_first = λ e. ground (arith, c.table.idles, end_of is_idle);
    }

-- The slot that was given back last.
free-Taken :
    (s : Scheduler) (slot : ℕ) (free : List ℕ)
    → IsConsistent s
    → s.free ≡ slot ∷ free
    → Taken (record s { free = free }) slot
unfolding count proc_slot_get
free-Taken s slot free c e =
    let counted = λ (t : ℕ). ap (λ xs. count xs t) e in
    let at_slot : at_node is_empty_kind s.nodes slot ≡ true =
      ground (arith, c.table.freed slot, counted slot) in
    let (old, there, gone) = node_there is_empty_kind s.nodes slot at_slot in
    record {
      consistent = record {
        table = record {
          valid = c.table.valid;
          counts = c.table.counts;
          freed = λ t. omega (arith, c.table.freed t, counted t);
          left = c.table.left;
          idles = c.table.idles;
        };
        runs = c.runs;
        settled = c.settled;
        mapped = c.mapped;
      };
      old = old;
      there = there;
      unowned = λ p. ground arith;
      unready =
          ground (arith, c.table.left slot at_slot, at_node-here is_exited s.nodes slot old there);
      not_free = ground (arith, c.table.freed slot, counted slot);
      not_current = λ h. ground (arith, c.settled, at_node-here is_settled s.nodes slot old there);
      not_first = λ h. ground (arith, c.table.idles, at_node-here is_idle s.nodes slot old there);
    }

take_slot_lem :
    (s : Scheduler) (free : List ℕ) → s.free ≡ free → take_slot s ≡ take_slot_from s free
unfolding take_slot
take_slot_lem s free e = ap (take_slot_from s) e

take_slot-Taken :
    (s : Scheduler) (free : List ℕ)
    → s.free ≡ free
    → IsConsistent s
    → Taken (take_slot s).1 (take_slot s).0
unfolding take_slot_from
take_slot-Taken s [] e c = rw (take_slot_lem s [] e) (snoc-Taken s c)
take_slot-Taken s (slot ∷ free) e c =
    rw (take_slot_lem s (slot ∷ free) e) (free-Taken s slot free c e)

abbrev spawned : ℕ → ℕ → ℕ → TaskNode
spawned p kernel_stack_top initial_sp = record (new_user p normal initial_sp) {
  kstack = kernel_stack_top;
}

-- The table with the new task in its slot.
abbrev filled : Scheduler → ℕ → ℕ → TaskNode → Scheduler
filled t slot high_water v = record t {
  nodes = set t.nodes slot v;
  high_water = high_water;
  queue = push t.queue slot (priority normal);
}

filled-IsConsistent :
    (t : Scheduler) (slot p high_water : ℕ) (v : TaskNode)
    → Taken t slot
    → is_ready v ≡ true
    → v.kind ≡ user p
    → IsConsistent (proc_slot_set (filled t slot high_water v) p slot)
unfolding proc_slot_get
filled-IsConsistent t slot p high_water v k r u =
    let c = k.consistent in
    let n = k.old in
    let e = k.there in
    let z : queued t.queue.queues slot ≡ 0 =
      ground (arith, c.table.counts slot, at_node-here is_ready t.nodes slot n e, k.unready) in
    stored-IsConsistent (filled t slot high_water v) p slot
      (set-Table t.nodes t.queue _ t.free t.free slot n v e
        (push-IsValid t.queue slot (priority normal) c.table.valid)
        (λ j. ground (arith, queued-push t.queue slot (priority normal) j c.table.valid z))
        (λ j. ground (arith, k.not_free)) (λ h. absurd (ground arith)) (λ h. absurd (k.not_first h))
        c.table)
      (λ j h. ground (arith, at_node-set runs_user t.nodes slot j n v e, c.runs j))
      (ground
        (arith, at_node-set is_settled t.nodes slot t.current n v e, c.settled, k.not_current))
      (λ j ne. ground (
        arith,
        c.mapped j,
        at_node-set (is_of j) t.nodes slot (get_or t.slots j no_slot) n v e,
        at_node-here (is_of j) t.nodes slot n e,
        k.unowned j,
      ))
      (inr (ground (arith, at_node-set (is_of p) t.nodes slot slot n v e)))

allocate_user_slot_lem :
    (s : Scheduler) (p kernel_stack_top initial_sp : ℕ) (old : TaskNode)
    → get_elem? (take_slot s).1.nodes (take_slot s).0 ≡ some old
    → let (slot, t) = take_slot s in
      allocate_user_slot s p kernel_stack_top initial_sp ≡ (
        some slot,
        proc_slot_set
            (filled t slot
              (if leb t.high_water slot then slot + 1 else t.high_water)
              (spawned p kernel_stack_top initial_sp))
            p
            slot,
      )
unfolding allocate_user_slot
allocate_user_slot_lem s p kernel_stack_top initial_sp old e = when_some _ _ e

pub allocate_user_slot-IsConsistent :
    (s : Scheduler) (p kernel_stack_top initial_sp : ℕ)
    → IsConsistent s
    → IsConsistent (allocate_user_slot s p kernel_stack_top initial_sp).1
allocate_user_slot-IsConsistent s p kernel_stack_top initial_sp c =
    let k = take_slot-Taken s s.free refl c in
    rw (allocate_user_slot_lem s p kernel_stack_top initial_sp k.old k.there) (
      filled-IsConsistent (take_slot s).1 (take_slot s).0 p _
        (spawned p kernel_stack_top initial_sp) k (unfold new_user in refl)
        (unfold new_user in refl))
