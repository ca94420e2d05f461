-- ===== src/Tests/Locks.antt =====
-- Locks at concrete inputs.
use karte_os.Base.{ℕ, ◌+◌, List, [], ◌∷◌, true, false, ◌≡◌, ◌↔◌, refl, arith, inr}
use karte_os.Sync.Blocking
use karte_os.Sync.Blocking.{Mutex, asleep, register, held, step_at, run, Reach, start, later}
use karte_os.Sync.Blocking.Safety.{inside, mutual_exclusion}
use karte_os.Sync.Blocking.Wakeups.{Stranded, carries, never_woken, handover}
use karte_os.Sync.Swap
use karte_os.Sync.Swap.{Lock, one_by_one}
use karte_os.Sync.Swap.Serial.{serial_writes}

Reach-run : {m : Mutex} → Reach m → (is : List ℕ) → Reach (run m is)
unfolding run
Reach-run {m = m} r [] = r
Reach-run {m = m} r (i ∷ is) = Reach-run {m = Blocking.step m i} (later r i) is

-- Task 1 has the lock, and task 2 sleeps in the waiter slot.
abbrev one_sleeps : Mutex
one_sleeps = run Blocking.new (1 ∷ 2 ∷ 2 ∷ 2 ∷ 2 ∷ [])

-- Task 3 has taken the slot and sleeps too.
abbrev two_sleep : Mutex
two_sleep = run one_sleeps (3 ∷ 3 ∷ 3 ∷ 3 ∷ [])

two_sleep-Stranded : Stranded two_sleep 2
unfolding run step_at Blocking.new carries
two_sleep-Stranded = record {
  sleeps = refl;
  unnamed = inr (λ e. omega arith);
  uncarried = λ i. inr (ground arith);
}

-- The holder leaves, and task 3 gets the lock and leaves.
never_woken_example : (run two_sleep (1 ∷ 1 ∷ 1 ∷ 3 ∷ 3 ∷ 3 ∷ 3 ∷ 3 ∷ 3 ∷ [])).pc 2 ≡ asleep
never_woken_example =
    never_woken two_sleep 2 (1 ∷ 1 ∷ 1 ∷ 3 ∷ 3 ∷ 3 ∷ 3 ∷ 3 ∷ 3 ∷ []) two_sleep-Stranded

holder : one_sleeps.pc 1 ≡ held
unfolding run step_at Blocking.new
holder = refl

sleeping : one_sleeps.pc 2 ≡ asleep
unfolding run step_at Blocking.new
sleeping = refl

named : one_sleeps.waiter ≡ 2
unfolding run step_at Blocking.new
named = refl

handover_example :
    ((run one_sleeps (1 ∷ 1 ∷ 1 ∷ [])).pc 2 ≡ register)
    × ((run one_sleeps (1 ∷ 1 ∷ 1 ∷ [])).locked ≡ false)
    × ((run one_sleeps (1 ∷ 1 ∷ 1 ∷ 2 ∷ 2 ∷ 2 ∷ [])).pc 2 ≡ held)
    × ((run one_sleeps (1 ∷ 1 ∷ 1 ∷ 2 ∷ 2 ∷ 2 ∷ [])).waiter ≡ 0)
handover_example = handover one_sleeps 1 2 holder sleeping named (λ e. omega arith)

two_sleep-Reach : Reach two_sleep
two_sleep-Reach = Reach-run (Reach-run start (1 ∷ 2 ∷ 2 ∷ 2 ∷ 2 ∷ [])) (3 ∷ 3 ∷ 3 ∷ 3 ∷ [])

mutual_exclusion_example :
    ((i j : ℕ) → inside (two_sleep.pc i) ≡ true → inside (two_sleep.pc j) ≡ true → i ≡ j)
    × ((two_sleep.locked ≡ true) ↔ ((i : ℕ) × (inside (two_sleep.pc i) ≡ true)))
mutual_exclusion_example = mutual_exclusion two_sleep-Reach

-- Task `i` adds `i`.
abbrev add : ℕ → ℕ → ℕ
add i x = x + i

abbrev add_step : Lock ℕ → ℕ → Lock ℕ
add_step m i = Swap.step add m i

-- Tasks 1 and 2 start together; task 1 writes and leaves, then task 2 writes.
abbrev counter : Lock ℕ
counter =
    let m1 = add_step (add_step (add_step (add_step (Swap.new 0) 1) 2) 1) 1 in
    add_step (add_step (add_step (add_step m1 1) 2) 2) 2

counter-Reach : Swap.Reach add 0 counter
counter-Reach =
    let r1 = Swap.later (Swap.later (Swap.later (Swap.later Swap.start 1) 2) 1) 1 in
    Swap.later (Swap.later (Swap.later (Swap.later r1 1) 2) 2) 2

serial_writes_example :
    ((i j : ℕ) → Swap.inside (counter.pc i) ≡ true → Swap.inside (counter.pc j) ≡ true → i ≡ j)
    × (counter.value ≡ one_by_one add counter.order 0)
serial_writes_example = serial_writes add 0 counter-Reach
