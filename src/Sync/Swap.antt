-- ===== src/Sync/Swap.antt =====
-- SpinLock of kernel/src/sync/spinlock.rs and YieldMutex of kernel/src/sync/mutex.rs, whose `lock`
-- both repeat one swap until it finds the lock free. Each task that has the lock reads the data,
-- writes what it makes of them and drops its guard. A step is one access to the lock or to the
-- data, and the tasks' steps mix in any order.
pub mod Serial
use karte_os.Base.{
  ℕ, Bool, true, false, List, [], ◌∷◌, ◌≡◌, ◌==◌, refl, sym, ap, arith, if◌then◌else◌, Bool-cases,
  inl, inr,
}

pub data Pc {ℓ} (T : Type ℓ) : Type ℓ where
  -- in the loop of `lock`, or outside
  waiting : Pc T
  entered : Pc T
  loaded : T → Pc T
  stored : Pc T

-- `order` lists the tasks that have written, the last one first.
pub record Lock {ℓ} (T : Type ℓ) : Type ℓ where
  pub locked : Bool
  pub value : T
  pub pc : ℕ → Pc T
  pub order : List ℕ

module _ {ℓ} {T : Type ℓ} where
  -- `Lock::new`
  unfoldable pub new : T → Lock T
  new value = record { locked = false; value = value; pc = λ i. waiting; order = [] }

  abbrev pub place : (ℕ → Pc T) → ℕ → Pc T → ℕ → Pc T
  place pc i p j = if j == i then p else pc j

  -- `locked.swap(true)`: `try_lock`, and one round of `lock`
  unfoldable pub try_lock : Lock T → ℕ → Lock T
  try_lock m i = record m { locked = true; pc = if m.locked then m.pc else place m.pc i entered }

  unfoldable pub unlock : Lock T → ℕ → Lock T
  unlock m i = record m { locked = false; pc = place m.pc i waiting }

  unfoldable pub inside : Pc T → Bool
  inside waiting = false
  inside p = true

-- Task `i` makes `write i x` of the value `x`.
module _ {ℓ} {T : Type ℓ} (write : ℕ → T → T) where
  unfoldable pub step_at : Lock T → ℕ → Pc T → Lock T
  step_at m i waiting = try_lock m i
  step_at m i entered = record m { pc = place m.pc i (loaded m.value) }
  step_at m i (loaded x) = record m {
    value = write i x;
    pc = place m.pc i stored;
    order = i ∷ m.order;
  }
  step_at m i stored = unlock m i

  abbrev pub step : Lock T → ℕ → Lock T
  step m i = step_at m i (m.pc i)

  pub data Reach (value : T) : Lock T → Type ℓ where
    start : Reach value (new value)
    later : {m : Lock T} → Reach value m → (i : ℕ) → Reach value (step m i)

  -- The writes one after the other.
  unfoldable pub one_by_one : List ℕ → T → T
  one_by_one [] x = x
  one_by_one (i ∷ is) x = write i (one_by_one is x)
