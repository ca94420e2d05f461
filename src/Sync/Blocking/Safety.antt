-- ===== src/Sync/Blocking/Safety.antt =====
-- Mutual exclusion of BlockingMutex of kernel/src/sync/mutex.rs.
use karte_os.Base.{
  ℕ, Bool, true, false, ◌≡◌, ◌==◌, arith, refl, ◌∙◌, ap, Bool-cases, inl, inr, sym, ◌↔◌,
}
use karte_os.Sync.Blocking.{
  Pc, idle, register, retry, clear, block, asleep, held, unlocking, waking, Mutex, new, update,
  woken, wake_task, step_at, Reach, start, later,
}

-- The task has the right to the data, or has not given the lock back.
unfoldable pub inside : Pc → Bool
inside clear = true
inside held = true
inside (unlocking w) = true
inside p = false

pub record Inv (m : Mutex) : Type 0 where
  pub unique : (i j : ℕ) → inside (m.pc i) ≡ true → inside (m.pc j) ≡ true → i ≡ j
  pub locks : (i : ℕ) → inside (m.pc i) ≡ true → m.locked ≡ true
  pub owner : m.locked ≡ true → (i : ℕ) × (inside (m.pc i) ≡ true)

inside-woken : (p : Pc) → inside (woken p) ≡ inside p
unfolding inside woken
inside-woken idle = refl
inside-woken register = refl
inside-woken retry = refl
inside-woken clear = refl
inside-woken block = refl
inside-woken asleep = refl
inside-woken held = refl
inside-woken (unlocking w) = refl
inside-woken (waking w) = refl

-- A step that changes only its own task's place, and not whether the task is inside.
same-Inv :
    (m : Mutex) (locked : Bool) (waiter i : ℕ) (q : Pc)
    → locked ≡ m.locked
    → inside q ≡ inside (m.pc i)
    → Inv m
    → Inv (record { locked = locked; waiter = waiter; pc = update m.pc i q })
same-Inv m locked waiter i q l e inv = record {
  unique = λ j k a b. inv.unique j k (ground arith) (ground arith);
  locks = λ j a. l ∙ inv.locks j (ground arith);
  owner = λ h. let (j, a) = inv.owner (sym l ∙ h) in (j, ground arith);
}

-- A task that finds the lock free is alone inside.
enter-Inv :
    (m : Mutex) (waiter i : ℕ) (q : Pc)
    → m.locked ≡ false
    → inside q ≡ true
    → Inv m
    → Inv (record { locked = true; waiter = waiter; pc = update m.pc i q })
enter-Inv m waiter i q free e inv = record {
  unique = λ j k a b. ground (arith, inv.locks j, inv.locks k);
  locks = λ j a. refl;
  owner = λ h. (i, ground arith);
}

-- The task that was inside leaves a lock that no task holds.
leave-Inv :
    (m : Mutex) (waiter i : ℕ) (q : Pc)
    → inside (m.pc i) ≡ true
    → inside q ≡ false
    → Inv m
    → Inv (record { locked = false; waiter = waiter; pc = update m.pc i q })
leave-Inv m waiter i q was e inv = record {
  unique = λ j k a b. absurd (ground (arith, inv.unique i j was));
  locks = λ j a. absurd (ground (arith, inv.unique i j was));
  owner = λ h. cc;
}

-- A task that wakes another one is outside, also when it names itself.
outside : (m : Mutex) (i w : ℕ) → m.pc i ≡ waking w → inside (wake_task m.pc w i) ≡ false
unfolding inside
outside m i w e = ground (arith, inside-woken (m.pc w), ap inside e)

step_at-Inv : (m : Mutex) (i : ℕ) (p : Pc) → m.pc i ≡ p → Inv m → Inv (step_at m i p)
unfolding step_at inside
step_at-Inv m i idle e inv = elim (Bool-cases m.locked) [
  | inl l ↦ rw l (same-Inv m true m.waiter i register (sym l) (sym (ap inside e)) inv)
  | inr l ↦ rw l (enter-Inv m m.waiter i held l refl inv)
]
step_at-Inv m i register e inv = same-Inv m m.locked i i retry refl (sym (ap inside e)) inv
step_at-Inv m i retry e inv = elim (Bool-cases m.locked) [
  | inl l ↦ rw l (same-Inv m true m.waiter i block (sym l) (sym (ap inside e)) inv)
  | inr l ↦ rw l (enter-Inv m m.waiter i clear l refl inv)
]
step_at-Inv m i clear e inv = same-Inv m m.locked 0 i held refl (sym (ap inside e)) inv
step_at-Inv m i block e inv = same-Inv m m.locked m.waiter i asleep refl (sym (ap inside e)) inv
step_at-Inv m i asleep e inv = inv
step_at-Inv m i held e inv =
    same-Inv m m.locked 0 i (unlocking m.waiter) refl (sym (ap inside e)) inv
step_at-Inv m i (unlocking w) e inv = leave-Inv m m.waiter i (waking w) (ap inside e) refl inv
step_at-Inv m i (waking w) e inv = elim (Bool-cases (w == 0)) [
  | inl z ↦ rw z (same-Inv m m.locked m.waiter i idle refl (sym (ap inside e)) inv)
  | inr z ↦
      let woke = same-Inv m m.locked m.waiter w (woken (m.pc w)) refl (inside-woken (m.pc w)) inv in
      rw z (
        same-Inv (record m { pc = wake_task m.pc w }) m.locked m.waiter i idle refl
          (sym (outside m i w e)) woke)
]

pub Reach-Inv : {m : Mutex} → Reach m → Inv m
unfolding inside new
Reach-Inv start = record { unique = λ j k a b. cc; locks = λ j a. cc; owner = λ h. cc }
Reach-Inv (later {m = m} r i) = step_at-Inv m i (m.pc i) refl (Reach-Inv r)

-- Whatever order the tasks take their steps in from a new lock, two tasks never have the lock
-- together, and the lock is taken when and only when a task has it.
pub mutual_exclusion :
    {m : Mutex}
    → Reach m
    → ((i j : ℕ) → inside (m.pc i) ≡ true → inside (m.pc j) ≡ true → i ≡ j)
      × ((m.locked ≡ true) ↔ ((i : ℕ) × (inside (m.pc i) ≡ true)))
mutual_exclusion r = let inv = Reach-Inv r in (inv.unique, (inv.owner, λ h. inv.locks h.0 h.1))
