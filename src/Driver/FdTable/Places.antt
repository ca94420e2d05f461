-- ===== src/Driver/FdTable/Places.antt =====
-- Which number a new descriptor gets, and what drain_open_fds of kernel/src/driver/fs.rs leaves.
use karte_os.Base.{
  ℕ, zero, suc, ◌+◌, ◌<◌, true, false, Option, none, some, [], ◌∷◌, set, length, ◌≡◌, refl, sym, ap,
  ◌∙◌, arith, Bool-cases, Option-cases, when_some, when_none, inl, inr,
}
use karte_os.Base.Assoc.{get as find}
use karte_os.Driver.FdTable.{
  FdTable, FileDescriptor, is_open, place_from, place, slot, get, if_valid, drain_from,
  drain_open_fds,
}

-- Number `i` is the least one that is not open, and the table after has the new descriptor there
-- and is otherwise the same; or every number is open, and nothing changes.
pub data Places (fds : FdTable) (make : ℕ → FileDescriptor) : Option ℕ × FdTable → Type 0 where
  full : ((j : ℕ) → j < length fds → is_open (slot fds j) ≡ true) → Places fds make (none, fds)
  placed :
      (i : ℕ)
      → i < length fds
      → is_open (slot fds i) ≡ false
      → ((j : ℕ) → j < i → is_open (slot fds j) ≡ true)
      → Places fds make (some i, set fds i (some (make i)))

-- The same for the loop from number `i` on.
data PlacesFrom (fds : FdTable) (i : ℕ) (make : ℕ → FileDescriptor) (r : Option ℕ × FdTable)
    : Type 0 where
  full_from :
      ((j : ℕ) → j < length fds → is_open (slot fds j) ≡ true)
      → r ≡ (none, fds)
      → PlacesFrom fds i make r
  placed_from :
      (k : ℕ)
      → k < length fds
      → is_open (slot fds k) ≡ false
      → ((j : ℕ) → j < k → is_open (slot fds j) ≡ true)
      → r ≡ (some (i + k), set fds k (some (make (i + k))))
      → PlacesFrom fds i make r

later_open :
    (s : Option FileDescriptor) (fds : FdTable) (k : ℕ)
    → is_open s ≡ true
    → ((j : ℕ) → j < k → is_open (slot fds j) ≡ true)
    → (j : ℕ) → j < suc k
    → is_open (slot (s ∷ fds) j) ≡ true
later_open s fds k o h zero lt = o
later_open s fds k o h (suc j) lt = h j (omega arith)

place_from-PlacesFrom :
    (fds : FdTable) (i : ℕ) (make : ℕ → FileDescriptor)
    → PlacesFrom fds i make (place_from fds i make)
unfolding place_from
place_from-PlacesFrom [] i make = full_from (λ j h. absurd (omega arith)) refl
place_from-PlacesFrom (s ∷ fds) i make = elim (Bool-cases (is_open s)) [
  | inl o ↦ elim (place_from-PlacesFrom fds (i + 1) make) [
    | full_from h e ↦ full_from (later_open s fds (length fds) o h) (rw (o, e) refl)
    | placed_from k lt free below e ↦
        let n : i + 1 + k ≡ i + suc k = omega arith in
        placed_from (suc k) (omega arith) free (later_open s fds k o below) (rw (o, e, n) refl)
  ]
  | inr o ↦
      let n : i ≡ i + 0 = omega arith in
      placed_from 0 (omega arith) o (λ j h. absurd (omega arith))
        (rw o (ap (λ m. (some m, some (make m) ∷ fds)) n))
]

-- A new descriptor gets the least number that is not open, whichever function allocates it, and
-- no other descriptor changes; if every number is open the answer is none and nothing changes.
pub place-Places : (fds : FdTable) (make : ℕ → FileDescriptor) → Places fds make (place fds make)
place-Places fds make = elim (place_from-PlacesFrom fds 0 make) [
  | full_from h e ↦ rw e (full h)
  | placed_from k lt free below e ↦
      let n : 0 + k ≡ k = omega arith in rw (e, n) (placed k lt free below)
]

drain_step_none :
    (s : Option FileDescriptor) (fds : FdTable) (i : ℕ)
    → if_valid s ≡ none
    → drain_from (s ∷ fds) i ≡ ((drain_from fds (i + 1)).0, s ∷ (drain_from fds (i + 1)).1)
unfolding drain_from
drain_step_none s fds i e = when_none _ _ e

drain_step_some :
    (s : Option FileDescriptor) (desc : FileDescriptor) (fds : FdTable) (i : ℕ)
    → if_valid s ≡ some desc
    → drain_from (s ∷ fds) i
      ≡ ((i, desc) ∷ (drain_from fds (i + 1)).0, none ∷ (drain_from fds (i + 1)).1)
unfolding drain_from
drain_step_some s desc fds i e = when_some _ _ e

-- Numbers before the first one are not in the answer.
find_before : (fds : FdTable) (i j : ℕ) → j < i → find (drain_from fds i).0 j ≡ none
unfolding find
find_before [] i j h = unfold drain_from in refl
find_before (s ∷ fds) i j h =
    let later = find_before fds (i + 1) j (omega arith) in
    elim (Option-cases (if_valid s)) [
      | inl e ↦ rw (drain_step_none s fds i e) later
      | inr (desc, e) ↦ rw (drain_step_some s desc fds i e) (ground (arith, later))
    ]

drain_from-get :
    (fds : FdTable) (i fd : ℕ)
    → (find (drain_from fds i).0 (i + fd) ≡ get fds fd) × (get (drain_from fds i).1 fd ≡ none)
unfolding find
drain_from-get [] i fd = unfold drain_from in (refl, refl)
drain_from-get (s ∷ fds) i zero = elim (Option-cases (if_valid s)) [
  | inl e ↦
      rw (drain_step_none s fds i e) (find_before fds (i + 1) (i + 0) (omega arith) ∙ sym e, e)
  | inr (desc, e) ↦ rw (drain_step_some s desc fds i e) (ground (arith, e), refl)
]
drain_from-get (s ∷ fds) i (suc fd) =
    let n : i + 1 + fd ≡ i + suc fd = omega arith in
    let (f, g) = drain_from-get fds (i + 1) fd in
    let f' = ap (find (drain_from fds (i + 1)).0) (sym n) ∙ f in
    elim (Option-cases (if_valid s)) [
      | inl e ↦ rw (drain_step_none s fds i e) (f', g)
      | inr (desc, e) ↦ rw (drain_step_some s desc fds i e) (ground (arith, f'), g)
    ]

-- drain_open_fds answers every number that is open with its descriptor and no other number, and
-- leaves no number open.
pub get-drain_open_fds :
    (fds : FdTable) (fd : ℕ)
    → (find (drain_open_fds fds).0 fd ≡ get fds fd) × (get (drain_open_fds fds).1 fd ≡ none)
get-drain_open_fds fds fd =
    let n : 0 + fd ≡ fd = omega arith in
    let (f, g) = drain_from-get fds 0 fd in (ap (find (drain_from fds 0).0) (sym n) ∙ f, g)
