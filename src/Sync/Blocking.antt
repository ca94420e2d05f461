-- ===== src/Sync/Blocking.antt =====
-- BlockingMutex of kernel/src/sync/mutex.rs. Any number of tasks share one lock; a step is one
-- access to an atomic cell or one call of the scheduler by one task, and the tasks' steps mix in
-- any order. A task is named by its process index. `schedule_block` puts the calling task to
-- sleep, and `wake_task` has an effect on a task that sleeps and on no other.
pub mod Safety
pub mod Wakeups
use karte_os.Base.{ℕ, Bool, true, false, List, [], ◌∷◌, ◌==◌, if◌then◌else◌}

-- Where a task is in `lock` or `unlock`.
pub data Pc : Type 0 where
  -- outside
  idle : Pc
  -- at the top of the loop of the slow path
  register : Pc
  -- before the second swap
  retry : Pc
  -- has the lock, before it clears the waiter slot
  clear : Pc
  -- before `schedule_block`
  block : Pc
  asleep : Pc
  -- has its guard
  held : Pc
  -- in `unlock`, with the waiter it has taken out of the slot
  unlocking : ℕ → Pc
  waking : ℕ → Pc

pub record Mutex : Type 0 where
  pub locked : Bool
  pub waiter : ℕ
  pub pc : ℕ → Pc

abbrev pub update {ℓ} : {A : Type ℓ} → (ℕ → A) → ℕ → A → ℕ → A
update f i v j = if j == i then v else f j

unfoldable pub new : Mutex
new = record { locked = false; waiter = 0; pc = λ i. idle }

-- A task that has been woken retries.
unfoldable pub woken : Pc → Pc
woken asleep = register
woken p = p

abbrev pub wake_task : (ℕ → Pc) → ℕ → ℕ → Pc
wake_task pc w = update pc w (woken (pc w))

-- The next step of task `i`, which stands at the given place.
unfoldable pub step_at : Mutex → ℕ → Pc → Mutex
step_at m i idle = record m {
  locked = true;
  pc = update m.pc i (if m.locked then register else held);
}
step_at m i register = record m { waiter = i; pc = update m.pc i retry }
step_at m i retry = record m {
  locked = true;
  pc = update m.pc i (if m.locked then block else clear);
}
step_at m i clear = record m { waiter = 0; pc = update m.pc i held }
step_at m i block = record m { pc = update m.pc i asleep }
step_at m i asleep = m
step_at m i held = record m { waiter = 0; pc = update m.pc i (unlocking m.waiter) }
step_at m i (unlocking w) = record m { locked = false; pc = update m.pc i (waking w) }
step_at m i (waking w) =
    let pc = if w == 0 then m.pc else wake_task m.pc w in record m { pc = update pc i idle }

abbrev pub step : Mutex → ℕ → Mutex
step m i = step_at m i (m.pc i)

-- The tasks in the list take one step each.
unfoldable pub run : Mutex → List ℕ → Mutex
run m [] = m
run m (i ∷ is) = run (step m i) is

-- What any order of steps leads to from a new lock.
pub data Reach : Mutex → Type 0 where
  start : Reach new
  later : {m : Mutex} → Reach m → (i : ℕ) → Reach (step m i)
