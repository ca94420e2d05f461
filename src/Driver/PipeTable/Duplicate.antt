-- ===== src/Driver/PipeTable/Duplicate.antt =====
-- Duplicated descriptors in kernel/src/driver/pipe.rs: the counts go up, the slots stay.
use mathlib.Core.Path.{subst}
use karte_os.Base.{ℕ, ◌+◌, ◌^◌, ◌<◌, Option, none, some, set, set-get_or_self, arith}
use karte_os.Base.Words.{add_usize}
use karte_os.Driver.PipeTable.{
  Refs, Tables, max_pipes, slot, refs_of, with_refs, inc_read, inc_write,
}
use karte_os.Driver.PipeTable.Counts.{Agrees, IsConsistent, put-IsConsistent}
use karte_os.Driver.Pipe.{Pipe}

more_readers :
    (s : Option Pipe) (r : Refs)
    → 0 < r.readers
    → r.readers + 1 < 2 ^ 64
    → Agrees s r
    → Agrees s (record r { readers = add_usize r.readers 1 })
more_readers none r pos small a = absurd (ground (arith, a))
more_readers (some p) r pos small a = ground arith

more_writers :
    (s : Option Pipe) (r : Refs)
    → 0 < r.writers
    → r.writers + 1 < 2 ^ 64
    → Agrees s r
    → Agrees s (record r { writers = add_usize r.writers 1 })
more_writers none r pos small a = absurd (ground (arith, a))
more_writers (some p) r pos small a = ground arith

recount-IsConsistent :
    (t : Tables) (i : ℕ) (r : Refs)
    → IsConsistent t
    → i < max_pipes
    → Agrees (slot t i) r
    → IsConsistent (with_refs t i r)
recount-IsConsistent t i r c h a =
    subst (λ s. IsConsistent (record { table = s; refs = set t.refs i r }))
      (set-get_or_self t.table i none) (put-IsConsistent t i (slot t i) r c h a)

-- Duplicating a descriptor of an open read end of a slot below 16, fewer than 2 ^ 64 - 1 being
-- open, keeps the agreement.
pub inc_read-IsConsistent :
    (t : Tables) (i : ℕ)
    → IsConsistent t
    → i < max_pipes
    → 0 < (refs_of t i).readers
    → (refs_of t i).readers + 1 < 2 ^ 64
    → IsConsistent (inc_read t i)
unfolding inc_read
inc_read-IsConsistent t i c h held small =
    recount-IsConsistent t i _ c h (more_readers (slot t i) (refs_of t i) held small (c.agree i))

-- Duplicating a descriptor of an open write end of a slot below 16, fewer than 2 ^ 64 - 1 being
-- open, keeps the agreement.
pub inc_write-IsConsistent :
    (t : Tables) (i : ℕ)
    → IsConsistent t
    → i < max_pipes
    → 0 < (refs_of t i).writers
    → (refs_of t i).writers + 1 < 2 ^ 64
    → IsConsistent (inc_write t i)
unfolding inc_write
inc_write-IsConsistent t i c h held small =
    recount-IsConsistent t i _ c h (more_writers (slot t i) (refs_of t i) held small (c.agree i))
