-- ===== src/Driver/PipeTable/Slots.antt =====
-- `alloc_pipe` of kernel/src/driver/pipe.rs: which slot a new pipe takes, and when there is none.
use karte_os.Base.{
  ◌⊎◌, ℕ, zero, suc, ◌+◌, ◌-◌, ◌≤◌, ◌<◌, Option, none, some, List, [], ◌∷◌, ◌≡◌, ◌≢◌, inl, inr,
  refl, get_or, length, arith, Option-cases,
}
use karte_os.Driver.Pipe
use karte_os.Driver.Pipe.{Pipe}
use karte_os.Driver.PipeTable.{Tables, max_pipes, slot, first_free, alloc_pipe}
use karte_os.Driver.PipeTable.Counts.{Agrees, IsConsistent, put, put-IsConsistent}

first_free_lem :
    (ps : List (Option Pipe)) (k i : ℕ)
    → first_free ps k ≡ some i
    → (k ≤ i) × (i - k < length ps) × (get_or ps (i - k) none ≡ none)
unfolding first_free
first_free_lem [] k i e = absurd (ground arith)
first_free_lem (none ∷ ps) k i e =
    let z : i - k ≡ 0 = ground arith in (ground arith, rw z (omega arith), rw z refl)
first_free_lem (some p ∷ ps) k i e =
    let (lo, hi, free) = first_free_lem ps (k + 1) i e in
    let z : i - k ≡ suc (i - (k + 1)) = omega arith in (omega arith, rw z (omega arith), rw z free)

first_free-none :
    (ps : List (Option Pipe)) (k i : ℕ)
    → first_free ps k ≡ none
    → i < length ps
    → get_or ps i none ≢ none
unfolding first_free
first_free-none [] k i e h = absurd (omega arith)
first_free-none (none ∷ ps) k i e h = absurd (ground arith)
first_free-none (some p ∷ ps) k zero e h = λ q. ground (arith, q)
first_free-none (some p ∷ ps) k (suc i) e h = first_free-none ps (k + 1) i e (omega arith)

-- alloc_pipe in consistent tables takes a slot that was empty, puts a fresh pipe with one
-- descriptor of each end there, leaves all other slots and keeps the agreement; or it fails and
-- all 16 slots hold pipes.
pub alloc_pipe_lem :
    (t : Tables)
    → IsConsistent t
    → ((i : ℕ) × (t' : Tables) × (alloc_pipe t ≡ some (i, t'))
        × (i < max_pipes)
        × (slot t i ≡ none)
        × (t' ≡ put t i (some Pipe.new) (record { readers = 1; writers = 1 }))
        × IsConsistent t')
      ⊎ ((alloc_pipe t ≡ none) × ((i : ℕ) → i < max_pipes → slot t i ≢ none))
unfolding alloc_pipe
alloc_pipe_lem t c = elim (Option-cases (first_free t.table 0)) [
  | inl n ↦
      inr (rw (n, alloc_pipe) refl, λ i h. first_free-none t.table 0 i n (omega (arith, c.slots)))
  | inr (k, f) ↦
      let (lo, hi, free) = first_free_lem t.table 0 k f in
      let within : k < max_pipes = omega (arith, c.slots) in
      inl (
        k,
        put t k (some Pipe.new) (record { readers = 1; writers = 1 }),
        rw (f, alloc_pipe) refl,
        within,
        ground (arith, free),
        refl,
        put-IsConsistent t k (some Pipe.new) _ c within fresh_agrees,
      )
]
  where
    fresh_agrees : Agrees (some Pipe.new) (record { readers = 1; writers = 1 })
    fresh_agrees = unfold Pipe.new in ground arith
