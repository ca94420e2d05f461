-- ===== src/Sched/Class.antt =====
-- kernel/src/sched/class.rs: the four scheduling classes on the shared 32-level priority space.
use karte_os.Base.{
  ℕ, ◌-◌, ◌≤◌, ◌<◌, min, max, Bool, true, false, Option, none, some, ◌≡◌, refl, ◌==◌, if◌then◌else◌,
  arith,
}
use karte_os.Base.Words.{usize_max}

pub data SchedClass : Type 0 where
  rt_fifo : ℕ → SchedClass
  rt_round_robin : ℕ → SchedClass
  normal : SchedClass
  ai_batch : SchedClass

abbrev pub rt_levels : ℕ
rt_levels = 16

abbrev pub normal_prio : ℕ
normal_prio = 24

abbrev pub ai_batch_prio : ℕ
ai_batch_prio = 31

abbrev pub ai_batch_boost_prio : ℕ
ai_batch_boost_prio = normal_prio

abbrev pub ai_batch_starvation_ticks : ℕ
ai_batch_starvation_ticks = 64

pub code : SchedClass → ℕ
code (rt_fifo n) = 0
code (rt_round_robin n) = 1
code normal = 2
code ai_batch = 3

pub level : SchedClass → ℕ
level (rt_fifo n) = n
level (rt_round_robin n) = n
level normal = 0
level ai_batch = 0

pub from_code : ℕ → ℕ → Option SchedClass
from_code code level =
    if code == 0
    then some (rt_fifo level)
    else if code == 1
    then some (rt_round_robin level)
    else if code == 2
    then some normal
    else if code == 3
    then some ai_batch
    else none

-- `(*n).clamp(1, RT_LEVELS) - 1`
abbrev rt_priority : ℕ → ℕ
rt_priority n = max 1 (min n rt_levels) - 1

unfoldable pub priority : SchedClass → ℕ
priority (rt_fifo n) = rt_priority n
priority (rt_round_robin n) = rt_priority n
priority normal = normal_prio
priority ai_batch = ai_batch_prio

unfoldable pub is_realtime : SchedClass → Bool
is_realtime (rt_fifo n) = true
is_realtime (rt_round_robin n) = true
is_realtime normal = false
is_realtime ai_batch = false

pub quantum : SchedClass → ℕ
quantum (rt_fifo n) = usize_max
quantum (rt_round_robin n) = 4
quantum normal = 2
quantum ai_batch = 2

-- The ABI code and level of a class lead back to that class, and a code from 4 on to none.
pub from_code-code :
    (c : SchedClass) (other l : ℕ)
    → 4 ≤ other
    → (from_code (code c) (level c) ≡ some c) × (from_code other l ≡ none)
unfolding from_code code level
from_code-code (rt_fifo n) other l h = (refl, ground arith)
from_code-code (rt_round_robin n) other l h = (refl, ground arith)
from_code-code normal other l h = (refl, ground arith)
from_code-code ai_batch other l h = (refl, ground arith)

-- Whatever level is asked for, a real-time class has a priority below 16, and every other class
-- one from 16 to 31.
pub priority_bands :
    (c d : SchedClass)
    → is_realtime c ≡ true
    → is_realtime d ≡ false
    → (priority c < rt_levels) × (rt_levels ≤ priority d) × (priority d < 32)
unfolding is_realtime priority
priority_bands (rt_fifo n) normal h k = omega arith
priority_bands (rt_fifo n) ai_batch h k = omega arith
priority_bands (rt_round_robin n) normal h k = omega arith
priority_bands (rt_round_robin n) ai_batch h k = omega arith
priority_bands (rt_fifo n) (rt_fifo m) h k = cc
priority_bands (rt_fifo n) (rt_round_robin m) h k = cc
priority_bands (rt_round_robin n) (rt_fifo m) h k = cc
priority_bands (rt_round_robin n) (rt_round_robin m) h k = cc
priority_bands normal d h k = cc
priority_bands ai_batch d h k = cc
