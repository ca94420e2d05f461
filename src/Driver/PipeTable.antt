-- ===== src/Driver/PipeTable.antt =====
-- kernel/src/driver/pipe.rs, the global tables: PIPE_TABLE and PIPE_REFS, as one state. A function
-- holds each lock for all that it does to that table. An id out of range is a panic in the source;
-- here it reads as an empty slot.
pub mod Counts
pub mod Slots
pub mod Duplicate
use karte_os.Base.{
  ℕ, zero, suc, ◌+◌, ◌-◌, Bool, true, false, ◌&&◌, Option, none, some, List, [], ◌∷◌, ◌==◌, ltb,
  if◌then◌else◌, get_or, set, replicate,
}
use karte_os.Base.Words.{add_usize}
use karte_os.Driver.Pipe
use karte_os.Driver.Pipe.{Pipe}

abbrev pub max_pipes : ℕ
max_pipes = 16

-- A slot's counts of open read and write descriptors.
pub record Refs : Type 0 where
  pub readers : ℕ
  pub writers : ℕ

abbrev pub no_refs : Refs
no_refs = record { readers = 0; writers = 0 }

pub record Tables : Type 0 where
  pub table : List (Option Pipe)
  pub refs : List Refs

pub empty : Tables
empty = record { table = replicate max_pipes none; refs = replicate max_pipes no_refs }

abbrev pub slot : Tables → ℕ → Option Pipe
slot t i = get_or t.table i none

abbrev pub refs_of : Tables → ℕ → Refs
refs_of t i = get_or t.refs i no_refs

abbrev pub with_slot : Tables → ℕ → Option Pipe → Tables
with_slot t i s = record t { table = set t.table i s }

abbrev pub with_refs : Tables → ℕ → Refs → Tables
with_refs t i r = record t { refs = set t.refs i r }

first_free : List (Option Pipe) → ℕ → Option ℕ
first_free [] i = none
first_free (none ∷ ps) i = some i
first_free (some p ∷ ps) i = first_free ps (i + 1)

pub alloc_pipe : Tables → Option (ℕ × Tables)
alloc_pipe t = elim (first_free t.table 0) [
  | none ↦ none
  | some i ↦
      some (i, with_refs (with_slot t i (some Pipe.new)) i (record { readers = 1; writers = 1 }))
]

pub pipe_available : Tables → ℕ → ℕ
pipe_available t i = elim (slot t i) [ some p ↦ p.data_len | none ↦ 0 ]

pub inc_read : Tables → ℕ → Tables
inc_read t i = let r = refs_of t i in with_refs t i (record r { readers = add_usize r.readers 1 })

pub inc_write : Tables → ℕ → Tables
inc_write t i = let r = refs_of t i in with_refs t i (record r { writers = add_usize r.writers 1 })

-- `with_pipe` with a closure that returns the new pipe and the tasks it wakes.
pub with_pipe : Tables → ℕ → (Pipe → Pipe × List ℕ) → Tables × List ℕ
with_pipe t i f = elim (slot t i) [
  | some p ↦ let (q, woken) = f p in (with_slot t i (some q), woken)
  | none ↦ (t, [])
]

abbrev pub both_zero : Refs → Bool
both_zero r = r.readers == 0 && r.writers == 0

try_free : Tables → ℕ → Tables
try_free t i = if both_zero (refs_of t i) then with_slot t i none else t

-- A count at 0 stays at 0.
abbrev drop_ref : ℕ → ℕ
drop_ref n = if ltb 0 n then n - 1 else n

pub close_read : Tables → ℕ → Tables × List ℕ
close_read t i =
    if n == 0
    then (let (t', woken) = with_pipe dropped i Pipe.close_read in (try_free t' i, woken))
    else (dropped, [])
  where
    n : ℕ
    n = drop_ref (refs_of t i).readers

    dropped : Tables
    dropped = with_refs t i (record { readers = n; writers = (refs_of t i).writers })

pub close_write : Tables → ℕ → Tables × List ℕ
close_write t i =
    if n == 0
    then (let (t', woken) = with_pipe dropped i Pipe.close_write in (try_free t' i, woken))
    else (dropped, [])
  where
    n : ℕ
    n = drop_ref (refs_of t i).writers

    dropped : Tables
    dropped = with_refs t i (record { readers = (refs_of t i).readers; writers = n })
