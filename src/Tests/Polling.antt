-- ===== src/Tests/Polling.antt =====
-- Polling at concrete inputs.
use karte_os.Base.{◌⊎◌, [], ◌∷◌, true, false, none, some, ◌≡◌, refl, arith}
use karte_os.Base.Int.{negsuc}
use karte_os.Base.Assoc.{Assoc, get, insert, has}
use karte_os.Base.Strings.{same}
use karte_os.Driver.FdTable.{Devices, new, is_readable, is_writable}
use karte_os.Syscall.Epoll.{
  Epoll, EpollEvent, EpollEntry, contains, wake_waiters_for_fd, collect_from, poll_entry, is_stale,
  revents_of, skip, report, timerfd_peek, register_waiter,
}
use karte_os.Syscall.Epoll.Calls.{
  Outcome, sleep, control, epoll_ctl_add, wait_enter, wait_registered, wait_resume, wait_loop,
  answer, expired, deadline_of, collect_ready_events,
}
use karte_os.Syscall.Epoll.Wakeups.{IsOver, sleeper_woken_once}
use karte_os.Syscall.Epoll.Waiters.{Unlisted}
use karte_os.Syscall.Epoll.Control.{Controls, control-Controls}
use karte_os.Syscall.Epoll.Events.{EdgeOnly, no_entries, edge, Settled, collect_from-Settled}

-- Nothing has happened anywhere.
abbrev quiet : Devices
quiet = record {
  has_input = false;
  pipe_available = λ i. 0;
  eventfd_peek = λ i. 0;
  timerfd_peek = λ i. false;
}

-- Input on the terminal, reported once for each change.
abbrev on_input : EpollEvent
on_input = record { events = 0x80000001; user_data = 77 }

abbrev entries : Assoc EpollEntry
entries = (0, record { event = on_input; last_revents = 0 }) ∷ []

-- Instance 7 watches the standard input.
abbrev watching : Epoll
watching = record { instances = (7, entries) ∷ []; waiters = []; timers = [] }

-- Process 3 waits without limit.
abbrev waited : Outcome × Epoll
waited = wait_enter new quiet watching 7 4096 8 (negsuc 0) 3 100

control-Controls_example :
    Controls entries epoll_ctl_add 1 on_input (control new entries epoll_ctl_add 1 4096 on_input)
control-Controls_example = control-Controls new entries epoll_ctl_add 1 4096 on_input

entries-EdgeOnly : EdgeOnly new entries
unfolding new
entries-EdgeOnly = edge 0 _ _ [] refl refl refl no_entries

collect_from-Settled_example : Settled new quiet [] (collect_from new quiet 8 entries [])
collect_from-Settled_example =
    collect_from-Settled new quiet 8 entries [] entries-EdgeOnly (omega arith)

sleeps : waited.0 ≡ sleep none
unfolding wait_enter wait_registered wait_resume wait_loop answer expired deadline_of
    collect_ready_events collect_from poll_entry is_stale revents_of skip report timerfd_peek
    register_waiter new is_readable is_writable same get insert
sleeps = refl

still_there : get waited.1.instances 7 ≡ some entries
unfolding wait_enter wait_registered wait_resume wait_loop answer expired deadline_of
    collect_ready_events collect_from poll_entry is_stale revents_of skip report timerfd_peek
    register_waiter new is_readable is_writable same get insert
still_there = refl

watched : has entries 0 ≡ true
unfolding get
watched = refl

no_waiters : Unlisted watching.waiters 3
unfolding get contains
no_waiters e = refl

-- It is woken for the standard input and finds nothing.
sleeper_woken_once_example :
    let woken_st = (wake_waiters_for_fd waited.1 0).1 in
    let again = wait_resume new quiet woken_st 7 8 3 none 101 in
    (contains (wake_waiters_for_fd waited.1 0).0 3 ≡ true)
    × (IsOver again.0 ⊎ (contains (wake_waiters_for_fd again.1 0).0 3 ≡ false))
sleeper_woken_once_example =
    sleeper_woken_once new quiet watching 7 4096 8 (negsuc 0) 3 100 0 none entries new quiet none
      101 0 tt no_waiters sleeps still_there watched
