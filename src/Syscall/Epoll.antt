-- ===== src/Syscall/Epoll.antt =====
-- kernel/src/syscall/epoll/mod.rs: EPOLL_INSTANCES, EPOLL_WAITERS and TIMERFD_STATES as one state,
-- epoll_create1, epoll_ctl and epoll_wait. The calling process's descriptor table and the devices
-- behind it are arguments, as they are at each look; so is what `uptime_ms` answers. A wait is cut
-- where it gives up the processor: `wait_enter` runs up to the first sleep, `wait_resume` from one
-- sleep to the next.
pub mod Calls
pub mod Events
pub mod Control
pub mod Waiters
pub mod Wakeups
use Prim.Native.Nat.{bit_and, bit_or}
use karte_os.Base.{
  ℕ, zero, suc, ◌+◌, ◌-◌, ◌^◌, Bool, true, false, not, ◌&&◌, ◌||◌, Option, none, some, List, [],
  ◌∷◌, ◌++◌, ◌==◌, ltb, leb, if◌then◌else◌, length, take, drop, is_empty,
}
use karte_os.Base.Int.{ℤ, pos, negsuc, neg}
use karte_os.Base.Assoc.{Assoc, get, insert, remove, has}
use karte_os.Base.Words.{saturating_add}
use karte_os.Base.Bytes.{from_bytes_le, to_bytes_le}
use karte_os.Driver.FdTable.{
  get as get_fd, FdTable, FileDescriptor, FdType, stdio, pipe_read, pipe_write, eventfd, timerfd,
  Devices, is_readable, is_writable,
}

pub record EpollEvent : Type 0 where
  pub events : ℕ
  pub user_data : ℕ

abbrev pub event_size : ℕ
event_size = 12

unfoldable pub read_epoll_event : List ℕ → EpollEvent
read_epoll_event raw = record {
  events = from_bytes_le (take 4 raw);
  user_data = from_bytes_le (take 8 (drop 4 raw));
}

unfoldable pub write_epoll_event : EpollEvent → List ℕ
write_epoll_event e = to_bytes_le 4 e.events ++ to_bytes_le 8 e.user_data

pub record EpollEntry : Type 0 where
  pub event : EpollEvent
  pub last_revents : ℕ

pub record Epoll : Type 0 where
  pub instances : Assoc (Assoc EpollEntry)
  pub waiters : Assoc (List ℕ)
  pub timers : Assoc Bool

abbrev pub epollin : ℕ
epollin = 0x001

abbrev pub epollout : ℕ
epollout = 0x004

abbrev pub epollhup : ℕ
epollhup = 0x010

abbrev pub epollet : ℕ
epollet = 0x80000000

unfoldable pub timerfd_peek : Assoc Bool → ℕ → Bool
timerfd_peek timers fd = elim (get timers fd) [ none ↦ false | some b ↦ b ]

-- The first argument is what `alloc_special_fd` has answered.
unfoldable pub sys_epoll_create1 : Option ℕ → Epoll → ℤ × Epoll
sys_epoll_create1 none st = (neg 24, st)
sys_epoll_create1 (some fd) st = (pos fd, record st { instances = insert st.instances fd [] })

unfoldable pub forget_fd : Assoc (Assoc EpollEntry) → ℕ → Assoc (Assoc EpollEntry)
forget_fd [] fd = []
forget_fd ((epfd, entries) ∷ is) fd = (epfd, remove entries fd) ∷ forget_fd is fd

unfoldable pub close_fd : Epoll → ℕ → Epoll
close_fd st fd = record {
  instances = forget_fd (remove st.instances fd) fd;
  waiters = remove st.waiters fd;
  timers = remove st.timers fd;
}

-- The instances that watch a descriptor.
unfoldable pub watchers : Assoc (Assoc EpollEntry) → ℕ → List ℕ
watchers [] fd = []
watchers ((epfd, entries) ∷ is) fd =
    let rest = watchers is fd in if has entries fd then epfd ∷ rest else rest

-- The tasks that wait on these instances, and the waiters once those lists are cleared.
unfoldable pub wake_all : Assoc (List ℕ) → List ℕ → List ℕ × Assoc (List ℕ)
wake_all waiters [] = ([], waiters)
wake_all waiters (epfd ∷ epfds) = elim (get waiters epfd) [
  | none ↦ wake_all waiters epfds
  | some slots ↦
      let (woken, rest) = wake_all (insert waiters epfd []) epfds in (slots ++ woken, rest)
]

unfoldable pub retain_waiting : Assoc (List ℕ) → Assoc (List ℕ)
retain_waiting [] = []
retain_waiting ((epfd, slots) ∷ ws) =
    let rest = retain_waiting ws in if is_empty slots then rest else (epfd, slots) ∷ rest

unfoldable pub wake_waiters_for_fd : Epoll → ℕ → List ℕ × Epoll
wake_waiters_for_fd st fd =
    let (woken, waiters) = wake_all st.waiters (watchers st.instances fd) in
    (woken, record st { waiters = retain_waiting waiters })

unfoldable pub contains : List ℕ → ℕ → Bool
contains [] x = false
contains (y ∷ ys) x = y == x || contains ys x

unfoldable pub without : List ℕ → ℕ → List ℕ
without [] x = []
without (y ∷ ys) x = let rest = without ys x in if y == x then rest else y ∷ rest

abbrev pub waiting_on : Epoll → ℕ → List ℕ
waiting_on st epfd = elim (get st.waiters epfd) [ none ↦ [] | some slots ↦ slots ]

unfoldable pub register_waiter : Epoll → ℕ → ℕ → Epoll
register_waiter st epfd proc_idx =
    let slots = waiting_on st epfd in
    record st {
      waiters =
          insert st.waiters epfd
            (if contains slots proc_idx then slots else slots ++ proc_idx ∷ []);
    }

unfoldable pub unregister_waiter : Epoll → ℕ → ℕ → Epoll
unregister_waiter st epfd proc_idx = elim (get st.waiters epfd) [
  | none ↦ st
  | some slots ↦
      let left = without slots proc_idx in
      record st {
        waiters = if is_empty left then remove st.waiters epfd else insert st.waiters epfd left;
      }
]

abbrev pub is_timerfd : FileDescriptor → Bool
is_timerfd desc = elim desc.fd_type [ timerfd ↦ true | _ ↦ false ]

-- `self & mask != 0`
abbrev pub has_bits : ℕ → ℕ → Bool
has_bits x mask = not (bit_and x mask == 0)

-- What has happened on an open descriptor, of the events that are asked for.
unfoldable pub revents_of : Devices → FileDescriptor → ℕ → ℕ
revents_of d desc events =
    let in_bits = if has_bits events epollin && is_readable d desc then epollin else 0 in
    let out_bits = if has_bits events epollout && is_writable desc then epollout else 0 in
    bit_or in_bits out_bits

-- One round of the loop of `collect_ready_events`: what has happened, and the timers after it.
unfoldable pub poll_entry : FdTable → Devices → Assoc Bool → ℕ → EpollEntry → ℕ × Assoc Bool
poll_entry fds d timers fd entry = elim (get_fd fds fd) [
  | none ↦ (epollhup, timers)
  | some desc ↦
      let revents =
        revents_of (record d { timerfd_peek = timerfd_peek timers }) desc entry.event.events in
      (
        revents,
        if is_timerfd desc && has_bits revents epollin then insert timers fd false else timers,
      )
]

-- Edge-triggered, and nothing is new.
unfoldable pub is_stale : EpollEntry → ℕ → Bool
is_stale entry revents =
    has_bits entry.event.events epollet
    && revents == entry.last_revents
    && not (revents == epollhup)

unfoldable pub report :
    ℕ
    → EpollEntry
    → ℕ
    → List EpollEvent × Assoc EpollEntry × Assoc Bool
    → List EpollEvent × Assoc EpollEntry × Assoc Bool
report fd entry revents (ready, entries, timers) = (
  if revents == 0
      then ready
      else record { events = revents; user_data = entry.event.user_data } ∷ ready,
  (fd, record entry { last_revents = revents }) ∷ entries,
  timers,
)

unfoldable pub skip :
    ℕ
    → EpollEntry
    → List EpollEvent × Assoc EpollEntry × Assoc Bool
    → List EpollEvent × Assoc EpollEntry × Assoc Bool
skip fd entry (ready, entries, timers) = (ready, (fd, entry) ∷ entries, timers)

-- The loop, with room for so many more events.
unfoldable pub collect_from :
    FdTable
    → Devices
    → ℕ
    → Assoc EpollEntry
    → Assoc Bool
    → List EpollEvent × Assoc EpollEntry × Assoc Bool
collect_from fds d room [] timers = ([], [], timers)
collect_from fds d zero ((fd, entry) ∷ es) timers = ([], (fd, entry) ∷ es, timers)
collect_from fds d (suc room) ((fd, entry) ∷ es) timers =
    let (revents, after) = poll_entry fds d timers fd entry in
    elim (is_stale entry revents) [
      | true ↦ skip fd entry (collect_from fds d (suc room) es after)
      | false ↦ elim (revents == 0) [
        | true ↦ report fd entry revents (collect_from fds d (suc room) es after)
        | false ↦ report fd entry revents (collect_from fds d room es after)
      ]
    ]
