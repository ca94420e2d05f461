-- ===== src/Sched/ReadyQueue.antt =====
-- kernel/src/sched/ready_queue.rs: 32 priority levels, each a deque of task tokens, and a u32 with
-- one bit for each level that is not empty.
pub mod Bitmap
pub mod Order
pub mod Removal
pub mod Starvation
pub mod Counts
use Prim.Native.Nat.{bit_and, bit_or}
use karte_os.Base.{
  ℕ, zero, suc, ◌+◌, ◌-◌, ◌^◌, ◌%◌, min, Bool, true, false, ◌&&◌, ◌||◌, not, Option, none, some,
  List, [], ◌∷◌, ◌++◌, ◌==◌, ltb, leb, if◌then◌else◌, get_or, set, replicate, length, is_empty,
}
use karte_os.Base.Bits.{bit_not, trailing_zeros}
use karte_os.Sched.Class.{ai_batch_prio, ai_batch_boost_prio, ai_batch_starvation_ticks}

abbrev pub levels : ℕ
levels = 32

pub record ReadyQueue : Type 0 where
  pub bitmap : ℕ
  pub queues : List (List ℕ)
  pub batch_starved : ℕ

unfoldable pub new : ReadyQueue
new = record { bitmap = 0; queues = replicate levels []; batch_starved = 0 }

-- `self.queues[lvl]`
abbrev pub at : List (List ℕ) → ℕ → List ℕ
at queues lvl = get_or queues lvl []

unfoldable pub contains : List ℕ → ℕ → Bool
contains [] token = false
contains (x ∷ xs) token = x == token || contains xs token

-- `bitmap |= 1 << lvl` and `bitmap &= !(1 << lvl)`, for a level below 32.
abbrev pub set_bit : ℕ → ℕ → ℕ
set_bit bitmap lvl = bit_or bitmap (2 ^ lvl)

abbrev pub clear_bit : ℕ → ℕ → ℕ
clear_bit bitmap lvl = bit_and bitmap (bit_not 32 (2 ^ lvl))

unfoldable pub push : ReadyQueue → ℕ → ℕ → ReadyQueue
push q token prio =
    let lvl = min prio (levels - 1) in
    record q {
      queues =
          if not (contains (at q.queues lvl) token)
          then set q.queues lvl (at q.queues lvl ++ token ∷ [])
          else q.queues;
      bitmap = set_bit q.bitmap lvl;
    }

-- The queue after `pop_front` has left `rest` at level `lvl`.
abbrev pub drop_head : ReadyQueue → ℕ → List ℕ → ReadyQueue
drop_head q lvl rest = record q {
  queues = set q.queues lvl rest;
  bitmap = if is_empty rest then clear_bit q.bitmap lvl else q.bitmap;
}

unfoldable pub pick_from : ReadyQueue → ℕ → Option (ℕ × ReadyQueue)
pick_from q lvl = elim (at q.queues lvl) [
  | [] ↦ none
  | token ∷ rest ↦ some (token, drop_head q lvl rest)
]

-- Batch task `tok` moves to the tail of the boosted level; `rest` stays behind.
abbrev pub boosted : ReadyQueue → ℕ → List ℕ → ReadyQueue
boosted q tok rest =
    let queues = set q.queues ai_batch_prio rest in
    let bitmap = if is_empty rest then clear_bit q.bitmap ai_batch_prio else q.bitmap in
    record {
      queues = set queues ai_batch_boost_prio (at queues ai_batch_boost_prio ++ tok ∷ []);
      bitmap = set_bit bitmap ai_batch_boost_prio;
      batch_starved = 0;
    }

-- The first part of `pop_next`: a batch task that has starved is promoted.
unfoldable pub promote : ReadyQueue → ReadyQueue
promote q =
    if leb ai_batch_starvation_ticks q.batch_starved
    then (elim (at q.queues ai_batch_prio) [ [] ↦ q | tok ∷ rest ↦ boosted q tok rest ])
    else q

-- The last part of `pop_next`: the starvation count after a pick from level `lvl`.
unfoldable pub starved_after : ReadyQueue → ℕ → ℕ
starved_after q lvl =
    if lvl == ai_batch_prio || lvl == ai_batch_boost_prio
    then 0
    else if not (is_empty (at q.queues ai_batch_prio))
    then (q.batch_starved + 1) % 2 ^ 32
    else 0

unfoldable pub pick_next : ReadyQueue → Option ℕ × ReadyQueue
pick_next q =
    let lvl = trailing_zeros levels q.bitmap in
    if q.bitmap == 0 then (none, q) else (elim (pick_from q lvl) [
      | none ↦ (none, q)
      | some (token, q') ↦ (some token, record q' { batch_starved = starved_after q' lvl })
    ])

unfoldable pub pop_next : ReadyQueue → Option ℕ × ReadyQueue
pop_next q = pick_next (promote q)

-- `position` and `remove(pos)` on one deque: none if the token is not there.
pub take_out : List ℕ → ℕ → Option (List ℕ)
take_out [] token = none
take_out (x ∷ xs) token =
    let later : Option (List ℕ) = elim (take_out xs token) [
      | none ↦ none
      | some ys ↦ some (x ∷ ys)
    ] in
    if x == token then some xs else later

-- `for lvl in lvl..lvl + n`
pub remove_from : ReadyQueue → ℕ → ℕ → ℕ → Bool × ReadyQueue
remove_from q token lvl zero = (false, q)
remove_from q token lvl (suc n) = elim (take_out (at q.queues lvl) token) [
  | none ↦ remove_from q token (lvl + 1) n
  | some ys ↦ (
    true,
    record q {
      queues = set q.queues lvl ys;
      bitmap = if is_empty ys then clear_bit q.bitmap lvl else q.bitmap;
    },
  )
]

pub remove : ReadyQueue → ℕ → Bool × ReadyQueue
remove q token = remove_from q token 0 levels

pub empty? : ReadyQueue → Bool
empty? q = q.bitmap == 0

pub total : List (List ℕ) → ℕ
total [] = 0
total (xs ∷ qs) = length xs + total qs

pub len : ReadyQueue → ℕ
len q = total q.queues
