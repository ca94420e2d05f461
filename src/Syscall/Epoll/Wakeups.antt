-- ===== src/Syscall/Epoll/Wakeups.antt =====
-- Who wakes a task that sleeps in epoll_wait of kernel/src/syscall/epoll/mod.rs, and how often.
use karte_os.Base.{
  ℕ, true, false, ◌||◌, Option, none, some, List, [], ◌∷◌, ◌++◌, ◌==◌, ltb, if◌then◌else◌, ◌≡◌,
  refl, sym, ap, ◌∙◌, arith, Option-cases, when_some, when_none, if_cases, ◌⊎◌, inl, inr,
}
use karte_os.Base.Int.{ℤ, pos}
use karte_os.Base.Assoc.{Assoc, get, insert, has}
use karte_os.Driver.FdTable.{FdTable, Devices}
use karte_os.Syscall.Epoll.{
  EpollEvent, EpollEntry, Epoll, contains, wake_waiters_for_fd, waiting_on, register_waiter,
  unregister_waiter,
}
use karte_os.Syscall.Epoll.Calls.{
  Outcome, done, sleep, answer, expired, collect_ready_events, wait_loop, wait_resume,
  wait_registered, wait_enter, is_poll, deadline_of,
}
use mathlib.Core.Path.{subst}
use karte_os.Syscall.Epoll.Waiters.{
  Ascending, Unlisted, slots_of, contains-watchers, registered_woken, register_waiter-contains,
  register_waiter_other, register_waiter-Ascending, wake_waiters_for_fd-Unlisted, woken-Unlisted,
}

-- A look at the descriptors leaves the waiters as they are.
collect_waiters :
    (fds : FdTable) (d : Devices) (st : Epoll) (epfd max_events : ℕ)
    → (collect_ready_events fds d st epfd max_events).1.waiters ≡ st.waiters
unfolding collect_ready_events
collect_waiters fds d st epfd max_events = elim (Option-cases (get st.instances epfd)) [
  | inl e ↦ ap (λ (r : Option (List EpollEvent) × Epoll). r.1.waiters) (when_none _ _ e)
  | inr (entries, e) ↦ ap (λ (r : Option (List EpollEvent) × Epoll). r.1.waiters) (when_some _ _ e)
]

-- Where the call sleeps, it leaves the given lists of waiters.
Asleep : Assoc (List ℕ) → Outcome × Epoll → Type 0
Asleep ws r = (deadline : Option ℕ) → r.0 ≡ sleep deadline → r.1.waiters ≡ ws

wait_loop-Asleep :
    (st : Epoll) (epfd proc_idx now : ℕ) (deadline : Option ℕ)
    → Asleep st.waiters (wait_loop st epfd proc_idx deadline now)
unfolding Asleep wait_loop
wait_loop-Asleep st epfd proc_idx now deadline =
    if_cases {A = Outcome × Epoll} (Asleep st.waiters) (expired deadline now) _ _
      (λ h other e. absurd (ground arith)) (λ h other e. refl)

wait_resume-Asleep :
    (fds : FdTable) (d : Devices) (st : Epoll) (epfd max_events proc_idx now : ℕ)
    (deadline : Option ℕ)
    → Asleep st.waiters (wait_resume fds d st epfd max_events proc_idx deadline now)
unfolding wait_resume answer
wait_resume-Asleep fds d st epfd max_events proc_idx now deadline =
    by_look (collect_ready_events fds d st epfd max_events).0
  where
    after : Epoll
    after = (collect_ready_events fds d st epfd max_events).1

    by_look :
        (r : Option (List EpollEvent))
        → Asleep st.waiters (elim (answer r) as (λ x. Outcome × Epoll) [
          | some out ↦ (out, unregister_waiter after epfd proc_idx)
          | none ↦ wait_loop after epfd proc_idx deadline now
        ])
    by_look none = unfold Asleep in λ t e. absurd (ground arith)
    by_look (some []) =
        unfold Asleep in
        λ t e.
          wait_loop-Asleep after epfd proc_idx now deadline t e
          ∙ collect_waiters fds d st epfd max_events
    by_look (some (x ∷ xs)) = unfold Asleep in λ t e. absurd (ground arith)

-- Registering depends on the waiters alone.
registered_same :
    (st st' : Epoll) (epfd proc_idx : ℕ)
    → st'.waiters ≡ st.waiters
    → (register_waiter st' epfd proc_idx).waiters ≡ (register_waiter st epfd proc_idx).waiters
unfolding register_waiter
registered_same st st' epfd proc_idx e =
    ap
      (λ (ws : Assoc (List ℕ)). insert ws epfd (
        if contains (slots_of ws epfd) proc_idx
        then slots_of ws epfd
        else slots_of ws epfd ++ proc_idx ∷ []))
      e

wait_enter-Asleep :
    (fds : FdTable) (d : Devices) (st : Epoll) (epfd events_ptr max_events : ℕ) (timeout_ms : ℤ)
    (proc_idx now : ℕ)
    → Asleep
        (register_waiter st epfd proc_idx).waiters
        (wait_enter fds d st epfd events_ptr max_events timeout_ms proc_idx now)
unfolding Asleep answer wait_registered wait_enter
wait_enter-Asleep fds d st epfd events_ptr max_events timeout_ms proc_idx now =
    if_cases {A = Outcome × Epoll} (Asleep ws) (max_events == 0 || ltb 1024 max_events) _ _
      (λ p t e. absurd (ground arith))
      (λ p.
        if_cases {A = Outcome × Epoll} (Asleep ws) (events_ptr == 0) _ _
          (λ z t e. absurd (ground arith))
          (λ z.
            by_look (collect_ready_events fds d st epfd max_events).0
              (collect_ready_events fds d st epfd max_events).1
              (collect_waiters fds d st epfd max_events)))
  where
    ws : Assoc (List ℕ)
    ws = (register_waiter st epfd proc_idx).waiters

    by_look :
        (r : Option (List EpollEvent)) (st' : Epoll)
        → st'.waiters ≡ st.waiters
        → Asleep ws (elim (answer r) as (λ x. Outcome × Epoll) [
          | some out ↦ (out, st')
          | none ↦
              if is_poll timeout_ms
              then (done (pos 0) [], st')
              else wait_registered fds d st' epfd max_events timeout_ms proc_idx now
        ])
    by_look none st' same = λ t e. absurd (ground arith)
    by_look (some (x ∷ xs)) st' same = λ t e. absurd (ground arith)
    by_look (some []) st' same =
        if_cases {A = Outcome × Epoll} (Asleep ws) (is_poll timeout_ms) _ _
          (λ p t e. absurd (ground arith))
          (λ p t e.
            wait_resume-Asleep fds d (register_waiter st' epfd proc_idx) epfd max_events proc_idx
              now (deadline_of timeout_ms now) t e
            ∙ registered_same st st' epfd proc_idx same)

-- The call is over.
abbrev pub IsOver : Outcome → Type 0
IsOver out = (ret : ℤ) × (events : List EpollEvent) × (out ≡ done ret events)

-- A call that goes on from a state in which its task is on no list is over, or sleeps where no
-- descriptor wakes its task.
resumed_unwoken :
    (fds : FdTable) (d : Devices) (st : Epoll) (epfd max_events proc_idx now fd : ℕ)
    (deadline : Option ℕ)
    → Unlisted st.waiters proc_idx
    → let (out, st') = wait_resume fds d st epfd max_events proc_idx deadline now in
      IsOver out ⊎ (contains (wake_waiters_for_fd st' fd).0 proc_idx ≡ false)
unfolding Asleep
resumed_unwoken fds d st epfd max_events proc_idx now fd deadline u = by_out _ refl
  where
    again : Outcome × Epoll
    again = wait_resume fds d st epfd max_events proc_idx deadline now

    by_out :
        (out : Outcome)
        → again.0 ≡ out
        → IsOver again.0 ⊎ (contains (wake_waiters_for_fd again.1 fd).0 proc_idx ≡ false)
    by_out (done ret events) e = inl (ret, events, e)
    by_out (sleep t) e =
        let same = wait_resume-Asleep fds d st epfd max_events proc_idx now deadline t e in
        inr (
          wake_waiters_for_fd-Unlisted again.1 proc_idx fd
            (subst (λ ws. Unlisted ws proc_idx) (sym same) u))

-- If epoll_wait puts to sleep a task that waits on no instance, any descriptor that the
-- instance watches then wakes the task. When the task goes on from there with nothing in
-- between, its call is over, or it sleeps again and no descriptor wakes it.
pub sleeper_woken_once :
    (fds : FdTable) (d : Devices) (st : Epoll) (epfd events_ptr max_events : ℕ) (timeout_ms : ℤ)
    (proc_idx now fd : ℕ) (deadline : Option ℕ) (entries : Assoc EpollEntry) (fds' : FdTable)
    (d' : Devices) (deadline' : Option ℕ) (now' fd' : ℕ)
    → Ascending st.waiters 0
    → Unlisted st.waiters proc_idx
    → let (out, st') = wait_enter fds d st epfd events_ptr max_events timeout_ms proc_idx now in
      let (woken, st2) = wake_waiters_for_fd st' fd in
      let (out3, st3) = wait_resume fds' d' st2 epfd max_events proc_idx deadline' now' in
      out ≡ sleep deadline
      → get st'.instances epfd ≡ some entries
      → has entries fd ≡ true
      → (contains woken proc_idx ≡ true)
        × (IsOver out3 ⊎ (contains (wake_waiters_for_fd st3 fd').0 proc_idx ≡ false))
unfolding Asleep
sleeper_woken_once fds d st epfd events_ptr max_events timeout_ms proc_idx now fd deadline entries
      fds' d' deadline' now' fd' a u s e h =
    let st' = (wait_enter fds d st epfd events_ptr max_events timeout_ms proc_idx now).1 in
    let same =
      wait_enter-Asleep fds d st epfd events_ptr max_events timeout_ms proc_idx now deadline s in
    let there : contains (waiting_on st' epfd) proc_idx ≡ true =
      ap (λ ws. contains (slots_of ws epfd) proc_idx) same
      ∙ register_waiter-contains st epfd proc_idx in
    let only : (i : ℕ) → (epfd == i) ≡ false → contains (slots_of st'.waiters i) proc_idx ≡ false =
      λ i ne.
        ap (λ ws. contains (slots_of ws i) proc_idx) same
        ∙ ap (λ l. contains l proc_idx) (register_waiter_other st epfd proc_idx i ne)
        ∙ u i in
    let sorted : Ascending st'.waiters 0 =
      subst (λ ws. Ascending ws 0) (sym same) (register_waiter-Ascending st epfd proc_idx a) in
    (
      registered_woken st' epfd proc_idx fd entries there e h,
      resumed_unwoken fds' d' (wake_waiters_for_fd st' fd).1 epfd max_events proc_idx now' fd'
          deadline'
          (woken-Unlisted st' epfd proc_idx fd sorted only
            (contains-watchers st'.instances epfd fd entries e h)),
    )
