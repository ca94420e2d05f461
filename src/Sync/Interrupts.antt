-- ===== src/Sync/Interrupts.antt =====
-- IntSpinLock of kernel/src/sync/int_spinlock.rs on one hart: what its guards do to the interrupt
-- flag. The guards that are alive are listed, the newest first, each with the flag it has saved;
-- they are guards of different locks, so that every swap finds its lock free.
use karte_os.Base.{
  ℕ, suc, zero, Bool, true, false, List, [], ◌∷◌, ◌++◌, ◌≡◌, refl, if◌then◌else◌, is_empty,
  replicate, get_or,
}

pub record Hart : Type 0 where
  pub interrupts : Bool
  pub guards : List Bool

-- `lock`
unfoldable pub lock : Hart → Hart
lock h = record { interrupts = false; guards = h.interrupts ∷ h.guards }

unfoldable pub without : List Bool → ℕ → List Bool
without [] n = []
without (g ∷ gs) zero = gs
without (g ∷ gs) (suc n) = g ∷ without gs n

-- `drop` of the guard at place `n`
unfoldable pub drop_guard : Hart → ℕ → Hart
drop_guard h n = record {
  interrupts = if get_or h.guards n false then true else h.interrupts;
  guards = without h.guards n;
}

pub data Op : Type 0 where
  acquire : Op
  -- the newest guard goes first
  release : Op

unfoldable pub run : Hart → List Op → Hart
run h [] = h
run h (acquire ∷ ops) = run (lock h) ops
run h (release ∷ ops) = run (drop_guard h 0) ops

-- All guards but the oldest have found interrupts off, and the oldest has saved `before`.
pub data Nested (before : Bool) : Hart → Type 0 where
  none_held : Nested before (record { interrupts = before; guards = [] })
  held :
      (n : ℕ)
      → Nested before (record { interrupts = false; guards = replicate n false ++ before ∷ [] })

lock-Nested : {before : Bool} {h : Hart} → Nested before h → Nested before (lock h)
unfolding lock
lock-Nested none_held = held 0
lock-Nested (held n) = held (suc n)

drop_guard-Nested : {before : Bool} {h : Hart} → Nested before h → Nested before (drop_guard h 0)
unfolding drop_guard without
drop_guard-Nested none_held = none_held
drop_guard-Nested {before = true} (held zero) = none_held
drop_guard-Nested {before = false} (held zero) = none_held
drop_guard-Nested (held (suc n)) = held n

run-Nested :
    {before : Bool} (ops : List Op) (h : Hart) → Nested before h → Nested before (run h ops)
unfolding run
run-Nested [] h n = n
run-Nested (acquire ∷ ops) h n = run-Nested ops (lock h) (lock-Nested n)
run-Nested (release ∷ ops) h n = run-Nested ops (drop_guard h 0) (drop_guard-Nested n)

Nested-interrupts :
    {before : Bool} {h : Hart}
    → Nested before h
    → h.interrupts ≡ (if is_empty h.guards then before else false)
Nested-interrupts none_held = refl
Nested-interrupts (held zero) = refl
Nested-interrupts (held (suc n)) = refl

-- As long as guards are dropped in the reverse order of their locks, interrupts are off while any
-- guard is alive, and back as they were once none is.
pub masked :
    (before : Bool) (ops : List Op)
    → let h = run (record { interrupts = before; guards = [] }) ops in
      h.interrupts ≡ (if is_empty h.guards then before else false)
masked before ops = Nested-interrupts (run-Nested ops _ none_held)
