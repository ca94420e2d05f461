-- ===== src/Syscall/Epoll/Calls.antt =====
-- kernel/src/syscall/epoll/mod.rs: epoll_ctl and epoll_wait. The event at the user's pointer is an
-- argument; the events that are written there are a result.
use karte_os.Base.{
  ℕ, Bool, true, false, ◌||◌, Option, none, some, List, [], ◌∷◌, ◌==◌, ltb, leb, if◌then◌else◌,
  length,
}
use karte_os.Base.Int.{ℤ, pos, negsuc, neg}
use karte_os.Base.Assoc.{Assoc, get, insert, remove}
use karte_os.Base.Words.{saturating_add}
use karte_os.Driver.FdTable.{
  get as get_fd, FdTable, FdType, stdio, pipe_read, pipe_write, eventfd, timerfd, Devices,
}
use karte_os.Syscall.Epoll.{
  EpollEvent, EpollEntry, Epoll, collect_from, register_waiter, unregister_waiter,
}

abbrev pub epoll_ctl_add : ℕ
epoll_ctl_add = 1

abbrev pub epoll_ctl_del : ℕ
epoll_ctl_del = 2

abbrev pub epoll_ctl_mod : ℕ
epoll_ctl_mod = 3

-- None is -EBADF; the ready events, and the state after the look.
unfoldable pub collect_ready_events :
    FdTable → Devices → Epoll → ℕ → ℕ → Option (List EpollEvent) × Epoll
collect_ready_events fds d st epfd max_events = elim (get st.instances epfd) [
  | none ↦ (none, st)
  | some entries ↦
      let (ready, entries', timers) = collect_from fds d max_events entries st.timers in
      (some ready, record st { instances = insert st.instances epfd entries'; timers = timers })
]

unfoldable pub epoll_target_supported : FdType → Bool
epoll_target_supported t = elim t [
  | stdio ↦ true
  | pipe_read ↦ true
  | pipe_write ↦ true
  | eventfd ↦ true
  | timerfd ↦ true
  | _ ↦ false
]

-- None is no error.
unfoldable pub validate_epoll_target : FdTable → ℕ → Option ℤ
validate_epoll_target fds fd = elim (get_fd fds fd) [
  | none ↦ some (neg 9)
  | some desc ↦ if epoll_target_supported desc.fd_type then none else some (neg 1)
]

abbrev pub fresh_entry : EpollEvent → EpollEntry
fresh_entry event = record { event = event; last_revents = 0 }

-- What EPOLL_CTL_ADD and EPOLL_CTL_MOD check before they touch the entries.
unfoldable pub refuses : FdTable → ℕ → ℕ → Option ℤ
refuses fds fd event_ptr = if event_ptr == 0 then some (neg 14) else validate_epoll_target fds fd

-- The call's answer and the entries after it.
unfoldable pub control : FdTable → Assoc EpollEntry → ℕ → ℕ → ℕ → EpollEvent → ℤ × Assoc EpollEntry
control fds entries op fd event_ptr event =
    if op == epoll_ctl_add
    then (elim (refuses fds fd event_ptr) [
      | some e ↦ (e, entries)
      | none ↦ (pos 0, insert entries fd (fresh_entry event))
    ])
    else if op == epoll_ctl_mod
    then (elim (refuses fds fd event_ptr) [
      | some e ↦ (e, entries)
      | none ↦ elim (get entries fd) [
        | none ↦ (neg 2, entries)
        | some entry ↦ (pos 0, insert entries fd (fresh_entry event))
      ]
    ])
    else if op == epoll_ctl_del
    then (elim (get entries fd) [
      | none ↦ (neg 2, entries)
      | some entry ↦ (pos 0, remove entries fd)
    ])
    else (neg 22, entries)

unfoldable pub sys_epoll_ctl : FdTable → Epoll → ℕ → ℕ → ℕ → ℕ → EpollEvent → ℤ × Epoll
sys_epoll_ctl fds st epfd op fd event_ptr event = elim (get st.instances epfd) [
  | none ↦ (neg 9, st)
  | some entries ↦
      let (ret, entries') = control fds entries op fd event_ptr event in
      (ret, record st { instances = insert st.instances epfd entries' })
]

-- The call is over, with its answer and the events that it has written; or the task sleeps, until
-- a tick or without limit.
pub data Outcome : Type 0 where
  done : ℤ → List EpollEvent → Outcome
  sleep : Option ℕ → Outcome

-- What a look makes of the call: it is over, or there is nothing yet.
unfoldable pub answer : Option (List EpollEvent) → Option Outcome
answer none = some (done (neg 9) [])
answer (some []) = none
answer (some (e ∷ es)) = some (done (pos (length (e ∷ es))) (e ∷ es))

unfoldable pub expired : Option ℕ → ℕ → Bool
expired none now = false
expired (some wake_tick) now = leb wake_tick now

-- The head of the loop of `sys_epoll_wait`.
unfoldable pub wait_loop : Epoll → ℕ → ℕ → Option ℕ → ℕ → Outcome × Epoll
wait_loop st epfd proc_idx deadline now =
    if expired deadline now
    then (done (pos 0) [], unregister_waiter st epfd proc_idx)
    else (sleep deadline, st)

-- The rest of the loop: a look, and the head again.
unfoldable pub wait_resume : FdTable → Devices → Epoll → ℕ → ℕ → ℕ → Option ℕ → ℕ → Outcome × Epoll
wait_resume fds d st epfd max_events proc_idx deadline now =
    let (ready, st') = collect_ready_events fds d st epfd max_events in
    elim (answer ready) [
      | some out ↦ (out, unregister_waiter st' epfd proc_idx)
      | none ↦ wait_loop st' epfd proc_idx deadline now
    ]

-- A timeout above 0 ends at a tick, one below 0 never.
unfoldable pub deadline_of : ℤ → ℕ → Option ℕ
deadline_of (pos t) now = if ltb 0 t then some (saturating_add now t) else none
deadline_of (negsuc t) now = none

abbrev pub is_poll : ℤ → Bool
is_poll t = elim t [ pos n ↦ n == 0 | negsuc n ↦ false ]

-- The first look did not find anything: the task registers and looks again.
unfoldable pub wait_registered : FdTable → Devices → Epoll → ℕ → ℕ → ℤ → ℕ → ℕ → Outcome × Epoll
wait_registered fds d st epfd max_events timeout_ms proc_idx now =
    wait_resume fds d (register_waiter st epfd proc_idx) epfd max_events proc_idx
      (deadline_of timeout_ms now) now

unfoldable pub wait_enter : FdTable → Devices → Epoll → ℕ → ℕ → ℕ → ℤ → ℕ → ℕ → Outcome × Epoll
wait_enter fds d st epfd events_ptr max_events timeout_ms proc_idx now =
    let (ready, st') = collect_ready_events fds d st epfd max_events in
    if max_events == 0 || ltb 1024 max_events
    then (done (neg 22) [], st)
    else if events_ptr == 0
    then (done (neg 14) [], st)
    else (elim (answer ready) [
      | some out ↦ (out, st')
      | none ↦
          if is_poll timeout_ms
          then (done (pos 0) [], st')
          else wait_registered fds d st' epfd max_events timeout_ms proc_idx now
    ])
