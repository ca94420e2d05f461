-- ===== src/Sync/Blocking/Wakeups.antt =====
-- Who is woken by BlockingMutex::unlock of kernel/src/sync/mutex.rs, and who is not.
use karte_os.Base.{
  ℕ, Bool, true, false, List, [], ◌∷◌, ◌≡◌, ◌≢◌, ◌⊎◌, ◌==◌, arith, refl, ap, ◌∙◌, inl, inr,
  Bool-cases, ==_refl,
}
use karte_os.Sync.Blocking.{
  Pc, idle, register, retry, clear, block, asleep, held, unlocking, waking, Mutex, update, woken,
  wake_task, step_at, step, run,
}

-- The task that a task in `unlock` is about to wake.
unfoldable pub carries : Pc → ℕ
carries (unlocking w) = w
carries (waking w) = w
carries p = 0

-- Task `t` sleeps, and neither the waiter slot nor a task in `unlock` names it; or it sleeps and
-- has index 0, which the slot takes for no task.
pub record Stranded (m : Mutex) (t : ℕ) : Type 0 where
  pub sleeps : m.pc t ≡ asleep
  pub unnamed : (t ≡ 0) ⊎ (m.waiter ≢ t)
  pub uncarried : (i : ℕ) → (t ≡ 0) ⊎ (carries (m.pc i) ≢ t)

-- A step of a task that is awake and names another task neither in the slot nor for waking.
awake-Stranded :
    (m : Mutex) (locked : Bool) (waiter i t : ℕ) (q : Pc)
    → i ≢ t
    → (t ≡ 0) ⊎ (waiter ≢ t)
    → (t ≡ 0) ⊎ (carries q ≢ t)
    → Stranded m t
    → Stranded (record { locked = locked; waiter = waiter; pc = update m.pc i q }) t
awake-Stranded m locked waiter i t q ne w c s = record {
  sleeps = ground (arith, s.sleeps);
  unnamed = w;
  uncarried = λ j. ground (arith, s.uncarried j);
}

zero_unnamed : (t : ℕ) → (t ≡ 0) ⊎ (0 ≢ t)
zero_unnamed t = ground arith

other_place : {m : Mutex} {i t : ℕ} {p : Pc} → m.pc i ≡ p → p ≢ asleep → Stranded m t → i ≢ t
other_place e ne s = λ same. ground (arith, s.sleeps)

carries-woken : (p : Pc) → carries (woken p) ≡ carries p
unfolding carries woken
carries-woken idle = refl
carries-woken register = refl
carries-woken retry = refl
carries-woken clear = refl
carries-woken block = refl
carries-woken asleep = refl
carries-woken held = refl
carries-woken (unlocking w) = refl
carries-woken (waking w) = refl

-- Waking a task that `t` is not.
wake_task-Stranded :
    (m : Mutex) (w t : ℕ) → w ≢ t → Stranded m t → Stranded (record m { pc = wake_task m.pc w }) t
wake_task-Stranded m w t ne s =
    let c : (t ≡ 0) ⊎ (carries (woken (m.pc w)) ≢ t) =
      rw (carries-woken (m.pc w)) (s.uncarried w) in
    awake-Stranded m m.locked m.waiter w t (woken (m.pc w)) ne s.unnamed c s

step_at-Stranded :
    (m : Mutex) (i t : ℕ) (p : Pc) → m.pc i ≡ p → Stranded m t → Stranded (step_at m i p) t
unfolding step_at carries woken
step_at-Stranded m i t idle e s =
    let ne = other_place e (λ q. cc) s in
    elim (Bool-cases m.locked) [
      | inl l ↦ rw l (awake-Stranded m true m.waiter i t register ne s.unnamed (zero_unnamed t) s)
      | inr l ↦ rw l (awake-Stranded m true m.waiter i t held ne s.unnamed (zero_unnamed t) s)
    ]
step_at-Stranded m i t register e s =
    let ne = other_place e (λ q. cc) s in
    awake-Stranded m m.locked i i t retry ne (inr ne) (zero_unnamed t) s
step_at-Stranded m i t retry e s =
    let ne = other_place e (λ q. cc) s in
    elim (Bool-cases m.locked) [
      | inl l ↦ rw l (awake-Stranded m true m.waiter i t block ne s.unnamed (zero_unnamed t) s)
      | inr l ↦ rw l (awake-Stranded m true m.waiter i t clear ne s.unnamed (zero_unnamed t) s)
    ]
step_at-Stranded m i t clear e s =
    let ne = other_place e (λ q. cc) s in
    awake-Stranded m m.locked 0 i t held ne (zero_unnamed t) (zero_unnamed t) s
step_at-Stranded m i t block e s =
    let ne = other_place e (λ q. cc) s in
    awake-Stranded m m.locked m.waiter i t asleep ne s.unnamed (zero_unnamed t) s
step_at-Stranded m i t asleep e s = s
step_at-Stranded m i t held e s =
    let ne = other_place e (λ q. cc) s in
    awake-Stranded m m.locked 0 i t (unlocking m.waiter) ne (zero_unnamed t) s.unnamed s
step_at-Stranded m i t (unlocking w) e s =
    let ne = other_place e (λ q. cc) s in
    let c : (t ≡ 0) ⊎ (w ≢ t) = ground (arith, s.uncarried i) in
    awake-Stranded m false m.waiter i t (waking w) ne s.unnamed c s
step_at-Stranded m i t (waking w) e s =
    let ne = other_place e (λ q. cc) s in
    let c : (t ≡ 0) ⊎ (w ≢ t) = ground (arith, s.uncarried i) in
    elim (Bool-cases (w == 0)) [
      | inl z ↦ rw z (awake-Stranded m m.locked m.waiter i t idle ne s.unnamed (zero_unnamed t) s)
      | inr z ↦
          let s' = wake_task-Stranded m w t (ground arith) s in
          rw z (
            awake-Stranded (record m { pc = wake_task m.pc w }) m.locked m.waiter i t idle ne
              s.unnamed (zero_unnamed t) s')
    ]

-- Once a task sleeps and neither the waiter slot nor a task in `unlock` names it, no order of
-- steps ever wakes it; the same holds of a task with index 0 that sleeps.
pub never_woken : (m : Mutex) (t : ℕ) (is : List ℕ) → Stranded m t → (run m is).pc t ≡ asleep
unfolding run
never_woken m t [] s = s.sleeps
never_woken m t (i ∷ is) s = never_woken (step m i) t is (step_at-Stranded m i t (m.pc i) refl s)

-- The holder's three steps through `unlock`.
release : (m : Mutex) (h t : ℕ) → Mutex
release m h t =
    let pc = update (update m.pc h (unlocking t)) h (waking t) in
    record { locked = false; waiter = 0; pc = update (wake_task pc t) h idle }

run-release :
    (m : Mutex) (h t : ℕ)
    → m.pc h ≡ held
    → m.waiter ≡ t
    → t ≢ 0
    → run m (h ∷ h ∷ h ∷ []) ≡ release m h t
unfolding run step_at release
run-release m h t at_h named pos =
    let m1 : Mutex = record m { waiter = 0; pc = update m.pc h (unlocking t) } in
    let m2 : Mutex = record m1 { locked = false; pc = update m1.pc h (waking t) } in
    let s1 : step m h ≡ m1 = rw (at_h, named) refl in
    let s2 : step m1 h ≡ m2 = rw (==_refl h) refl in
    let tz : (t == 0) ≡ false = ground arith in
    let s3 : step m2 h ≡ release m h t = rw (==_refl h, tz) refl in
    ap (λ r. step (step r h) h) s1 ∙ ap (λ r. step r h) s2 ∙ s3

-- A woken task goes through the loop of `lock` once more and finds the lock free.
run-reacquire :
    (m : Mutex) (t : ℕ)
    → m.pc t ≡ register
    → m.locked ≡ false
    → ((run m (t ∷ t ∷ t ∷ [])).pc t ≡ held) × ((run m (t ∷ t ∷ t ∷ [])).waiter ≡ 0)
unfolding run step_at
run-reacquire m t at_t free =
    let m1 : Mutex = record m { waiter = t; pc = update m.pc t retry } in
    let m2 : Mutex = record m1 { locked = true; pc = update m1.pc t clear } in
    let m3 : Mutex = record m2 { waiter = 0; pc = update m2.pc t held } in
    let s1 : step m t ≡ m1 = rw at_t refl in
    let s2 : step m1 t ≡ m2 = rw (==_refl t, free) refl in
    let s3 : step m2 t ≡ m3 = rw (==_refl t) refl in
    let e = ap (λ r. step (step r t) t) s1 ∙ ap (λ r. step r t) s2 ∙ s3 in
    rw e (rw (==_refl t) refl, refl)

-- The holder gives the lock back in three steps, and then the task that slept in the waiter
-- slot, with an index above 0, is awake, and if no other task steps in between it has the lock
-- after three steps of its own and no task is in the slot.
pub handover :
    (m : Mutex) (h t : ℕ)
    → m.pc h ≡ held
    → m.pc t ≡ asleep
    → m.waiter ≡ t
    → t ≢ 0
    → ((run m (h ∷ h ∷ h ∷ [])).pc t ≡ register)
      × ((run m (h ∷ h ∷ h ∷ [])).locked ≡ false)
      × ((run m (h ∷ h ∷ h ∷ t ∷ t ∷ t ∷ [])).pc t ≡ held)
      × ((run m (h ∷ h ∷ h ∷ t ∷ t ∷ t ∷ [])).waiter ≡ 0)
unfolding run release woken
handover m h t at_h at_t named pos =
    let e = run-release m h t at_h named pos in
    let th : (t == h) ≡ false = ground arith in
    let at3 : (release m h t).pc t ≡ register = rw (th, ==_refl t, at_t) refl in
    let (again, empty) = run-reacquire (release m h t) t at3 refl in rw e (at3, refl, again, empty)
