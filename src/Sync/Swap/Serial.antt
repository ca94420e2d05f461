-- ===== src/Sync/Swap/Serial.antt =====
-- What SpinLock of kernel/src/sync/spinlock.rs and YieldMutex of kernel/src/sync/mutex.rs promise
-- of the data behind them.
use karte_os.Base.{ℕ, true, ◌≡◌, refl, ap, ◌∙◌, arith, Bool-cases, inl, inr}
use karte_os.Sync.Swap.{
  Pc, waiting, entered, loaded, stored, Lock, new, try_lock, unlock, step_at, Reach, start, later,
  one_by_one, inside,
}

module _ {ℓ} {T : Type ℓ} (write : ℕ → T → T) (value : T) where
  record Inv (m : Lock T) : Type ℓ where
    unique : (i j : ℕ) → inside (m.pc i) ≡ true → inside (m.pc j) ≡ true → i ≡ j
    locks : (i : ℕ) → inside (m.pc i) ≡ true → m.locked ≡ true
    fresh : (i : ℕ) (x : T) → m.pc i ≡ loaded x → x ≡ m.value
    serial : m.value ≡ one_by_one write m.order value

  step_at-Inv : (m : Lock T) (i : ℕ) (p : Pc T) → m.pc i ≡ p → Inv m → Inv (step_at write m i p)
  unfolding step_at inside try_lock unlock one_by_one
  step_at-Inv m i waiting e inv = elim (Bool-cases m.locked) [
    | inl l ↦ rw l (record {
      unique = inv.unique;
      locks = λ j a. refl;
      fresh = inv.fresh;
      serial = inv.serial;
    })
    | inr l ↦ rw l (record {
      unique = λ j k a b. ground (arith, inv.locks j, inv.locks k);
      locks = λ j a. refl;
      fresh = λ j x h. ground (arith, inv.fresh j x);
      serial = inv.serial;
    })
  ]
  step_at-Inv m i entered e inv = record {
    unique = λ j k a b. ground (arith, inv.unique j k);
    locks = λ j a. ground (arith, inv.locks j);
    fresh = λ j x h. ground (arith, inv.fresh j x);
    serial = inv.serial;
  }
  step_at-Inv m i (loaded x) e inv = record {
    unique = λ j k a b. ground (arith, inv.unique j k);
    locks = λ j a. ground (arith, inv.locks j);
    fresh = λ j y h. absurd (ground (arith, inv.unique i j, ap inside h));
    serial = ap (write i) (inv.fresh i x e ∙ inv.serial);
  }
  step_at-Inv m i stored e inv = record {
    unique = λ j k a b. ground (arith, inv.unique j k);
    locks = λ j a. absurd (ground (arith, inv.unique i j));
    fresh = λ j y h. ground (arith, inv.fresh j y);
    serial = inv.serial;
  }

  Reach-Inv : {m : Lock T} → Reach write value m → Inv m
  unfolding inside new one_by_one
  Reach-Inv start = record {
    unique = λ j k a b. cc;
    locks = λ j a. cc;
    fresh = λ j x h. absurd (ground arith);
    serial = refl;
  }
  Reach-Inv (later {m = m} r i) = step_at-Inv m i (m.pc i) refl (Reach-Inv r)

  -- Whatever order the tasks take their steps in, at most one of them has the lock, and the
  -- value is what the writes make of the first value one after the other, in the order of the
  -- list.
  pub serial_writes :
      {m : Lock T}
      → Reach write value m
      → ((i j : ℕ) → inside (m.pc i) ≡ true → inside (m.pc j) ≡ true → i ≡ j)
        × (m.value ≡ one_by_one write m.order value)
  serial_writes r = let inv = Reach-Inv r in (inv.unique, inv.serial)
