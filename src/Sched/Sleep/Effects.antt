-- ===== src/Sched/Sleep/Effects.antt =====
-- What schedule_block and waking a list of slots do to one task of kernel/src/sched/mod.rs.
use karte_os.Base.{
  ℕ, true, false, ◌&&◌, ◌||◌, not, Option, some, List, [], ◌∷◌, ◌==◌, if◌then◌else◌, get_elem?, set,
  ◌≡◌, refl, ◌∙◌, arith, ◌≢◌, inl, inr, Bool-cases, Option-cases,
}
use karte_os.Sched.ReadyQueue.{ReadyQueue, remove, pop_next, contains}
use karte_os.Sched.ReadyQueue.Counts.{Popped, popped, none_ready, pop_next-Popped, queued-remove}
use karte_os.Sched.Core.{
  TaskNode, ready, running, blocked, is_user, Scheduler, is_ready, is_blocked, with_state,
  wake_slot, wake_slots, schedule_block, dispatch_or_idle, dispatch,
}
use karte_os.Sched.Invariant.Table.{Table, at_node, at_node-set, at_node-here, is_of, is_idle}
use karte_os.Sched.Invariant.Consistent.{IsConsistent, node_there, dispatch_lem}
use karte_os.Sched.Invariant.Turns.{stop_current, schedule_block_lem, removed_counts}
use karte_os.Sched.Invariant.Waking.{wake_slot_lem, wake_slot-none}

-- A switch to another slot.
dispatch_other :
    (s : Scheduler) (next i : ℕ) (n : TaskNode)
    → get_elem? s.nodes next ≡ some n
    → next ≢ i
    → at_node is_blocked s.nodes i ≡ true
    → (at_node is_blocked (dispatch s next).nodes i ≡ true) × ((dispatch s next).sleepq ≡ s.sleepq)
dispatch_other s next i n e ne b =
    rw (dispatch_lem s next n e)
      (ground (arith, at_node-set is_blocked s.nodes next i n (with_state running n) e), refl)

-- The switch leaves the node of a task that is neither ready nor the idle one as it is.
dispatch_or_idle_other :
    (s : Scheduler) (r : Option ℕ × ReadyQueue) (i : ℕ)
    → Popped s.queue r
    → Table s.nodes s.queue s.free
    → at_node is_blocked s.nodes i ≡ true
    → at_node is_idle s.nodes i ≡ false
    → (at_node is_blocked (dispatch_or_idle s r).nodes i ≡ true)
      × ((dispatch_or_idle s r).sleepq ≡ s.sleepq)
unfolding dispatch_or_idle
dispatch_or_idle_other s r i (popped next q valid counts) w b idle =
    let at_next : at_node is_ready s.nodes next ≡ true =
      ground (arith, w.counts next, counts next) in
    let (n, e, h) = node_there is_ready s.nodes next at_next in
    let ne : next ≢ i = λ same. ground arith in
    dispatch_other (record s { queue = q }) next i n e ne b
dispatch_or_idle_other s r i (none_ready q valid before after) w b idle =
    let (n, e, h) = node_there is_idle s.nodes 0 w.idles in
    let ne : 0 ≢ i = λ same. ground arith in dispatch_other (record s { queue = q }) 0 i n e ne b

-- A user task that blocks is blocked, and stays in the sleep queue.
pub schedule_block_blocked :
    (s : Scheduler) (p : ℕ)
    → IsConsistent s
    → at_node (is_of p) s.nodes s.current ≡ true
    → (at_node is_blocked (schedule_block s).nodes s.current ≡ true)
      × ((schedule_block s).sleepq ≡ s.sleepq)
schedule_block_blocked s p c own =
    let (n, e, h) = node_there (is_of p) s.nodes s.current own in
    let q = (remove s.queue s.current).1 in
    let valid = (queued-remove s.queue s.current 0 c.table.valid).1 in
    let v = with_state blocked n in
    let w = stop_current s n v q c e refl refl valid (removed_counts s n c e) in
    let u : is_user n ≡ true = ground arith in
    rw (schedule_block_lem s n e, u)
      (dispatch_or_idle_other (record s { nodes = set s.nodes s.current v; queue = q }) (pop_next q)
        s.current (pop_next-Popped q valid) w.table
        (ground (arith, at_node-set is_blocked s.nodes s.current s.current n v e))
        (ground (arith, at_node-set is_idle s.nodes s.current s.current n v e)))

-- What waking one slot does to the state at another one.
wake_slot_at :
    (s : Scheduler) (slot t : ℕ)
    → (at_node is_blocked (wake_slot s slot).1.nodes t
        ≡ (if slot == t then false else at_node is_blocked s.nodes t))
      × (at_node is_ready (wake_slot s slot).1.nodes t
          ≡ (at_node is_ready s.nodes t || ((slot == t) && at_node is_blocked s.nodes t)))
wake_slot_at s slot t = elim (Option-cases (get_elem? s.nodes slot)) [
  | inl e ↦ rw (wake_slot-none s slot e) (ground arith, ground arith)
  | inr (n, e) ↦ elim (Bool-cases (is_blocked n)) [
    | inl b ↦
        let v = with_state ready n in
        rw (wake_slot_lem s slot n e, b)
          (
            ground (arith, at_node-set is_blocked s.nodes slot t n v e),
            ground (
              arith,
              at_node-set is_ready s.nodes slot t n v e,
              at_node-here is_ready s.nodes slot n e,
              at_node-here is_blocked s.nodes slot n e,
            ),
          )
    | inr b ↦
        rw (wake_slot_lem s slot n e, b)
          (
            ground (arith, at_node-here is_blocked s.nodes slot n e),
            ground (arith, at_node-here is_blocked s.nodes slot n e),
          )
  ]
]

pub wake_slots_at :
    (slots : List ℕ) (s : Scheduler) (t : ℕ)
    → (at_node is_blocked (wake_slots s slots).nodes t
        ≡ (at_node is_blocked s.nodes t && not (contains slots t)))
      × (at_node is_ready (wake_slots s slots).nodes t
          ≡ (at_node is_ready s.nodes t || (contains slots t && at_node is_blocked s.nodes t)))
unfolding wake_slots contains
wake_slots_at [] s t = (ground arith, ground arith)
wake_slots_at (slot ∷ slots) s t =
    let (b, r) = wake_slots_at slots (wake_slot s slot).1 t in
    let (b1, r1) = wake_slot_at s slot t in (ground arith, ground arith)

wake_slot-sleepq : (s : Scheduler) (slot : ℕ) → (wake_slot s slot).1.sleepq ≡ s.sleepq
wake_slot-sleepq s slot = elim (Option-cases (get_elem? s.nodes slot)) [
  | inl e ↦ rw (wake_slot-none s slot e) refl
  | inr (n, e) ↦ elim (Bool-cases (is_blocked n)) [
    | inl b ↦ rw (wake_slot_lem s slot n e, b) refl
    | inr b ↦ rw (wake_slot_lem s slot n e, b) refl
  ]
]

pub wake_slots-sleepq : (slots : List ℕ) (s : Scheduler) → (wake_slots s slots).sleepq ≡ s.sleepq
unfolding wake_slots
wake_slots-sleepq [] s = refl
wake_slots-sleepq (slot ∷ slots) s =
    wake_slots-sleepq slots (wake_slot s slot).1 ∙ wake_slot-sleepq s slot

-- Waking a slot changes no owner and not who has the processor.
wake_slot-keeps :
    (s : Scheduler) (slot p t : ℕ)
    → (at_node (is_of p) (wake_slot s slot).1.nodes t ≡ at_node (is_of p) s.nodes t)
      × ((wake_slot s slot).1.current ≡ s.current)
wake_slot-keeps s slot p t = elim (Option-cases (get_elem? s.nodes slot)) [
  | inl e ↦ rw (wake_slot-none s slot e) (refl, refl)
  | inr (n, e) ↦ elim (Bool-cases (is_blocked n)) [
    | inl b ↦
        rw (wake_slot_lem s slot n e, b)
          (
            ground (
              arith,
              at_node-set (is_of p) s.nodes slot t n (with_state ready n) e,
              at_node-here (is_of p) s.nodes slot n e,
            ),
            refl,
          )
    | inr b ↦ rw (wake_slot_lem s slot n e, b) (refl, refl)
  ]
]

pub wake_slots-keeps :
    (slots : List ℕ) (s : Scheduler) (p t : ℕ)
    → (at_node (is_of p) (wake_slots s slots).nodes t ≡ at_node (is_of p) s.nodes t)
      × ((wake_slots s slots).current ≡ s.current)
unfolding wake_slots
wake_slots-keeps [] s p t = (refl, refl)
wake_slots-keeps (slot ∷ slots) s p t =
    let (o, c) = wake_slots-keeps slots (wake_slot s slot).1 p t in
    let (o1, c1) = wake_slot-keeps s slot p t in (o ∙ o1, c ∙ c1)
