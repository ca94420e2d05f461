-- ===== src/Driver/PipeTable/Counts.antt =====
-- The reference counts of kernel/src/driver/pipe.rs: when an end closes, and when a slot is freed.
use karte_os.Base.{
  ℕ, zero, suc, ◌<◌, true, false, Option, none, some, List, [], ◌≡◌, ◌≢◌, inl, inr, refl, ◌∙◌, ◌==◌,
  if◌then◌else◌, set, length, length-set, arith, Bool-cases, Option-cases, if_cases,
  set-get_or_self, set-set, get_or-set_self, get_or-set_ne, get_or-replicate,
}
use mathlib.Core.Path.{subst}
use karte_os.Driver.Pipe
use karte_os.Driver.Pipe.{Pipe}
use karte_os.Driver.PipeTable.{
  Refs, Tables, no_refs, max_pipes, empty, slot, refs_of, with_pipe, both_zero, try_free, drop_ref,
  close_read, close_write,
}

-- Slot `i` and its counts are as given; all else is as in `t`.
abbrev pub put : Tables → ℕ → Option Pipe → Refs → Tables
put t i s r = record { table = set t.table i s; refs = set t.refs i r }

-- A slot and its counts agree: an empty slot has none, and a pipe's end is closed exactly when no
-- descriptor of that end is left, with one left at the other end.
abbrev pub Agrees : Option Pipe → Refs → Type 0
Agrees none r = r ≡ no_refs
Agrees (some p) r =
    (both_zero r ≡ false) × (p.read_closed ≡ (r.readers == 0)) × (p.write_closed ≡ (r.writers == 0))

pub record IsConsistent (t : Tables) : Type 0 where
  pub slots : length t.table ≡ max_pipes
  pub counts : length t.refs ≡ max_pipes
  pub agree : (i : ℕ) → Agrees (slot t i) (refs_of t i)

-- Other slots do not change.
pub put_elsewhere :
    (t : Tables) (i j : ℕ) (s : Option Pipe) (r : Refs)
    → i ≢ j
    → (slot (put t i s r) j ≡ slot t j) × (refs_of (put t i s r) j ≡ refs_of t j)
put_elsewhere t i j s r ne =
    (get_or-set_ne t.table i j s none ne, get_or-set_ne t.refs i j r no_refs ne)

pub put-IsConsistent :
    (t : Tables) (i : ℕ) (s : Option Pipe) (r : Refs)
    → IsConsistent t
    → i < max_pipes
    → Agrees s r
    → IsConsistent (put t i s r)
put-IsConsistent t i s r c h a = record {
  slots = length-set t.table i s ∙ c.slots;
  counts = length-set t.refs i r ∙ c.counts;
  agree = λ j. elim (Bool-cases (i == j)) [
    | inl same ↦
        let e : i ≡ j = ground arith in
        rw
          (
            ← e,
            get_or-set_self t.table i s none (omega (arith, c.slots)),
            get_or-set_self t.refs i r no_refs (omega (arith, c.counts)),
          )
          a
    | inr other ↦ let (p, q) = put_elsewhere t i j s r (ground arith) in rw (p, q) (c.agree j)
  ];
}

pub empty-IsConsistent : IsConsistent empty
unfolding empty
empty-IsConsistent = record {
  slots = refl;
  counts = refl;
  agree =
      λ i. rw (get_or-replicate {A = Option Pipe} 16 i none, get_or-replicate 16 i no_refs) refl;
}

-- What dropping the last or an earlier read descriptor makes of a slot.
abbrev pub read_dropped : Tables → ℕ → Pipe → Tables × List ℕ
read_dropped t i p =
    let n = drop_ref (refs_of t i).readers in
    let w = (refs_of t i).writers in
    let q = Pipe.close_read p in
    if n == 0
    then (put t i (if w == 0 then none else some q.0) (record { readers = 0; writers = w }), q.1)
    else (put t i (some p) (record { readers = n; writers = w }), [])

abbrev pub write_dropped : Tables → ℕ → Pipe → Tables × List ℕ
write_dropped t i p =
    let r = (refs_of t i).readers in
    let n = drop_ref (refs_of t i).writers in
    let q = Pipe.close_write p in
    if n == 0
    then (put t i (if r == 0 then none else some q.0) (record { readers = r; writers = 0 }), q.1)
    else (put t i (some p) (record { readers = r; writers = n }), [])

Agrees-no_reader :
    (p q : Pipe) (r w : ℕ)
    → Agrees (some p) (record { readers = r; writers = w })
    → q.read_closed ≡ true
    → q.write_closed ≡ p.write_closed
    → Agrees (if w == 0 then none else some q) (record { readers = 0; writers = w })
Agrees-no_reader p q r zero a e f = refl
Agrees-no_reader p q r (suc w) a e f = ground arith

Agrees-no_writer :
    (p q : Pipe) (r w : ℕ)
    → Agrees (some p) (record { readers = r; writers = w })
    → q.write_closed ≡ true
    → q.read_closed ≡ p.read_closed
    → Agrees (if r == 0 then none else some q) (record { readers = r; writers = 0 })
Agrees-no_writer p q zero w a e f = refl
Agrees-no_writer p q (suc r) w a e f = ground arith

module _ (t : Tables) (i : ℕ) (p : Pipe) (here : slot t i ≡ some p) (c : IsConsistent t)
    (h : i < max_pipes) where
  -- `close_read` on a pipe: the count of readers falls and all other slots stay; at the last reader
  -- the end closes and the blocked writer is woken; with no writer left the slot is freed.
  pub close_read_lem : close_read t i ≡ read_dropped t i p
  unfolding close_read with_pipe try_free
  close_read_lem = ground (
    arith,
    here,
    c.counts,
    c.slots,
    get_or-set_self t.refs i
        (record { readers = drop_ref (refs_of t i).readers; writers = (refs_of t i).writers })
        no_refs,
    set-set t.table i (some (Pipe.close_read p).0) none,
    set-get_or_self t.table i none,
  )

  -- `close_write` likewise, with the ends exchanged.
  pub close_write_lem : close_write t i ≡ write_dropped t i p
  unfolding close_write with_pipe try_free
  close_write_lem = ground (
    arith,
    here,
    c.counts,
    c.slots,
    get_or-set_self t.refs i
        (record { readers = (refs_of t i).readers; writers = drop_ref (refs_of t i).writers })
        no_refs,
    set-set t.table i (some (Pipe.close_write p).0) none,
    set-get_or_self t.table i none,
  )

  here-Agrees : Agrees (some p) (refs_of t i)
  here-Agrees = subst (λ s. Agrees s (refs_of t i)) here (c.agree i)

  read_dropped-IsConsistent : IsConsistent (read_dropped t i p).0
  unfolding Pipe.close_read
  read_dropped-IsConsistent =
      if_cases {A = Tables × List ℕ} (λ r. IsConsistent r.0) (drop_ref (refs_of t i).readers == 0) _
        _ (λ last. put-IsConsistent t i _ _ c h (Agrees-no_reader p _ _ _ here-Agrees refl refl))
        (λ more. put-IsConsistent t i _ _ c h (ground (arith, here-Agrees)))

  write_dropped-IsConsistent : IsConsistent (write_dropped t i p).0
  unfolding Pipe.close_write
  write_dropped-IsConsistent =
      if_cases {A = Tables × List ℕ} (λ r. IsConsistent r.0) (drop_ref (refs_of t i).writers == 0) _
        _ (λ last. put-IsConsistent t i _ _ c h (Agrees-no_writer p _ _ _ here-Agrees refl refl))
        (λ more. put-IsConsistent t i _ _ c h (ground (arith, here-Agrees)))

-- Closing an end of an empty slot leaves the tables as they are.
module _ (t : Tables) (i : ℕ) (gone : slot t i ≡ none) (c : IsConsistent t) where
  none_counts : refs_of t i ≡ no_refs
  none_counts = subst (λ s. Agrees s (refs_of t i)) gone (c.agree i)

  close_read_gone : close_read t i ≡ (t, [])
  unfolding close_read with_pipe try_free
  close_read_gone =
      ground
        (arith, gone, none_counts, set-get_or_self t.refs i no_refs, set-get_or_self t.table i none)

  close_write_gone : close_write t i ≡ (t, [])
  unfolding close_write with_pipe try_free
  close_write_gone =
      ground
        (arith, gone, none_counts, set-get_or_self t.refs i no_refs, set-get_or_self t.table i none)

-- Closing a descriptor of either end of a slot below 16 keeps slots and counts in agreement,
-- whatever the slot holds.
pub close-IsConsistent :
    (t : Tables) (i : ℕ)
    → IsConsistent t
    → i < max_pipes
    → IsConsistent (close_read t i).0 × IsConsistent (close_write t i).0
close-IsConsistent t i c h = elim (Option-cases (slot t i)) [
  | inl gone ↦ (rw (close_read_gone t i gone c) c, rw (close_write_gone t i gone c) c)
  | inr (p, here) ↦ (
    rw (close_read_lem t i p here c h) (read_dropped-IsConsistent t i p here c h),
    rw (close_write_lem t i p here c h) (write_dropped-IsConsistent t i p here c h),
  )
]
