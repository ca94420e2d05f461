-- ===== src/Syscall/Eventfd.antt =====
-- kernel/src/syscall/epoll/eventfd.rs: counters behind descriptors, EVENTFD_STATES. A descriptor
-- stands for its 32-bit pattern. The value at the user's buffer is an argument of `eventfd_write` and
-- a result of `eventfd_read`; the descriptors whose waiters are woken are a result.
pub mod Flow
use karte_os.Base.{
  ℕ, ◌-◌, ◌^◌, Bool, true, false, Option, none, some, List, [], ◌∷◌, ◌==◌, ltb, if◌then◌else◌,
}
use karte_os.Base.Int.{ℤ, pos, neg}
use karte_os.Base.Assoc.{Assoc, get, insert, remove}
use karte_os.Base.Words.{usize_max, saturating_add}

abbrev pub States : Type 0
States = Assoc ℕ

-- The first argument is what `alloc_special_fd` has answered.
pub sys_eventfd2 : Option ℕ → States → ℕ → ℤ × States
sys_eventfd2 none st initval = (neg 24, st)
sys_eventfd2 (some fd) st initval = (pos fd, insert st fd initval)

pub close_eventfd : States → ℕ → States
close_eventfd st fd = remove st fd

pub is_eventfd : States → ℕ → Bool
is_eventfd st fd = elim (get st fd) [ none ↦ false | some v ↦ true ]

pub eventfd_read : States → ℕ → ℕ → ℤ × Option ℕ × States
eventfd_read st fd len = if ltb len 8 then (neg 22, none, st) else (elim (get st fd) [
  | none ↦ (neg 9, none, st)
  | some val ↦ if val == 0 then (neg 11, none, st) else (pos 8, some val, insert st fd 0)
])

pub eventfd_write : States → ℕ → ℕ → ℕ → ℤ × List ℕ × States
eventfd_write st fd val len =
    if ltb len 8
    then (neg 22, [], st)
    else if val == usize_max
    then (neg 22, [], st)
    else (elim (get st fd) [
      | none ↦ (neg 9, [], st)
      | some counter ↦ (pos 8, fd ∷ [], insert st fd (saturating_add counter val))
    ])

pub eventfd_peek : States → ℕ → ℕ
eventfd_peek st fd = elim (get st fd) [ none ↦ 0 | some v ↦ v ]
