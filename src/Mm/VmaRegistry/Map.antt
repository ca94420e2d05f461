-- ===== src/Mm/VmaRegistry/Map.antt =====
-- The registry of kernel/src/mm/vma.rs as a finite map from roots to states: address spaces are
-- isolated from one another.
use karte_os.Base.{
  ℕ, Bool, true, ◌&&◌, not, List, [], ◌∷◌, ◌≡◌, ◌≢◌, inl, inr, refl, sym, ap, ◌∙◌, ◌==◌,
  if◌then◌else◌, arith, Bool-cases, Option, none, some, Option-cases,
}
use mathlib.Core.Option
use karte_os.Mm.Vma.{VmState, clear}
use karte_os.Mm.Vma
use karte_os.Mm.VmaRegistry.{
  vma_query, vma_add, vma_remove_range, vma_update_prot, VmStateSlot, holds, reinit, claim,
  init_root, drop_slot, release_root, find_source, place, clone_root_state, with_state, state_of,
}

-- No root stands in two active slots.
abbrev pub Distinct : List VmStateSlot → Type 0
Distinct [] = Unit {0}
Distinct (s ∷ ss) = (s.active ≡ true → state_of ss s.root ≡ none) × Distinct ss

-- Running an operation on one address space changes that one only.
pub state_of-with_state :
    {R : Type 0} (reg : List VmStateSlot) (root j : ℕ) (f : VmState → R × VmState)
    → state_of (with_state reg root f).1 j
      ≡ (if root == j then Option.map (λ st. (f st).1) (state_of reg root) else state_of reg j)
unfolding state_of with_state
state_of-with_state [] root j f = ground arith
state_of-with_state (s ∷ ss) root j f = ground (arith, state_of-with_state ss root j f)

find_source-eq-state_of :
    (reg : List VmStateSlot) (root : ℕ) → Distinct reg → find_source reg root ≡ state_of reg root
unfolding find_source state_of
find_source-eq-state_of [] root d = refl
find_source-eq-state_of (s ∷ ss) root d = ground (arith, d.0, find_source-eq-state_of ss root d.1)

state_of-drop_slot :
    (reg : List VmStateSlot) (root j : ℕ)
    → Distinct reg
    → state_of (drop_slot reg root) j ≡ (if root == j then none else state_of reg j)
unfolding drop_slot state_of
state_of-drop_slot [] root j d = ground arith
state_of-drop_slot (s ∷ ss) root j d = ground (arith, d.0, state_of-drop_slot ss root j d.1)

state_of-place :
    (reg reg' : List VmStateSlot) (root j : ℕ) (st : VmState)
    → state_of reg root ≡ none
    → place reg root st ≡ some reg'
    → state_of reg' j ≡ (if root == j then some st else state_of reg j)
unfolding place state_of
state_of-place [] reg' root j st free e = absurd (ground arith)
state_of-place (s ∷ ss) reg' root j st free e = elim (Bool-cases s.active) [
  | inl taken ↦ elim (Option-cases (place ss root st)) [
    | inl n ↦ absurd (ground arith)
    | inr (ss', f) ↦
        let ih = state_of-place ss ss' root j st (ground arith) f in
        let e' : reg' ≡ s ∷ ss' = ground arith in rw e' (ground (arith, ih))
  ]
  | inr open_slot ↦
      let e' : reg' ≡ record { root = root; active = true; state = st } ∷ ss = ground arith in
      rw e' (ground arith)
]

reinit_lem :
    (reg reg' : List VmStateSlot) (root j : ℕ)
    → reinit reg root ≡ some reg'
    → (state_of reg' j
        ≡ (if root == j then Option.map clear (state_of reg root) else state_of reg j))
      × (state_of reg root ≢ none)
unfolding reinit state_of
reinit_lem [] reg' root j e = absurd (ground arith)
reinit_lem (s ∷ ss) reg' root j e = elim (Bool-cases (holds s root)) [
  | inl here ↦
      let e' : reg' ≡ record s { state = clear s.state } ∷ ss = ground arith in
      (rw e' (ground arith), ground arith)
  | inr other ↦ elim (Option-cases (reinit ss root)) [
    | inl n ↦ absurd (ground arith)
    | inr (ss', f) ↦
        let (ih, found) = reinit_lem ss ss' root j f in
        let e' : reg' ≡ s ∷ ss' = ground arith in
        (rw e' (ground (arith, ih)), ground (arith, found))
  ]
]

reinit-none :
    (reg : List VmStateSlot) (root : ℕ) → reinit reg root ≡ none → state_of reg root ≡ none
unfolding reinit state_of
reinit-none [] root e = refl
reinit-none (s ∷ ss) root e = elim (Option-cases (reinit ss root)) [
  | inl n ↦ ground (arith, reinit-none ss root n)
  | inr (ss', f) ↦ absurd (ground arith)
]

claim_lem :
    (reg reg' : List VmStateSlot) (root j : ℕ)
    → state_of reg root ≡ none
    → claim reg root ≡ some reg'
    → (root ≢ j → state_of reg' j ≡ state_of reg j)
      × ((st : VmState) × (state_of reg' root ≡ some (clear st)))
unfolding claim state_of
claim_lem [] reg' root j free e = absurd (ground arith)
claim_lem (s ∷ ss) reg' root j free e = elim (Bool-cases s.active) [
  | inl taken ↦ elim (Option-cases (claim ss root)) [
    | inl n ↦ absurd (ground arith)
    | inr (ss', f) ↦
        let (others, this) = claim_lem ss ss' root j (ground arith) f in
        let e' : reg' ≡ s ∷ ss' = ground arith in
        (λ ne. rw e' (ground (arith, others ne)), (this.0, rw e' (ground (arith, this.1))))
  ]
  | inr open_slot ↦
      let e' : reg' ≡ record { root = root; active = true; state = clear s.state } ∷ ss =
        ground arith in
      (λ ne. rw e' (ground arith), (s.state, rw e' (ground arith)))
]

-- In a registry with no root in two active slots, release_root forgets the root and no other;
-- root 0 is ignored.
pub state_of-release_root :
    (reg : List VmStateSlot) (root j : ℕ)
    → Distinct reg
    → state_of (release_root reg root) j
      ≡ (if not (root == 0) && root == j then none else state_of reg j)
unfolding release_root
state_of-release_root reg root j d = ground (arith, state_of-drop_slot reg root j d)

-- In a registry with no root in two active slots, clone_root_state, if it succeeds on a new
-- destination, found the source, gives the destination its state, and leaves every other root.
pub state_of-clone_root_state :
    (reg reg' : List VmStateSlot) (src dst j : ℕ)
    → Distinct reg
    → state_of reg dst ≡ none
    → clone_root_state reg src dst ≡ some reg'
    → (state_of reg src ≢ none)
      × (state_of reg' j ≡ (if dst == j then state_of reg src else state_of reg j))
unfolding clone_root_state
state_of-clone_root_state reg reg' src dst j d free e = elim (Option-cases (find_source reg src)) [
  | inl n ↦ absurd (ground arith)
  | inr (st, f) ↦
      let same : state_of reg src ≡ some st = sym (find_source-eq-state_of reg src d) ∙ f in
      (ground (arith, same), ground (arith, same, state_of-place reg reg' dst j st free))
]

-- `init_root`, if it succeeds, gives the root a state with no region and leaves every other root.
pub state_of-init_root :
    (reg reg' : List VmStateSlot) (root j : ℕ)
    → init_root reg root ≡ some reg'
    → (root ≢ j → state_of reg' j ≡ state_of reg j)
      × ((st : VmState) × (state_of reg' root ≡ some (clear st)))
unfolding init_root
state_of-init_root reg reg' root j e = elim (Option-cases (reinit reg root)) [
  | inl n ↦ claim_lem reg reg' root j (reinit-none reg root n) (ground arith)
  | inr (reg'', f) ↦
      let same : reg' ≡ reg'' = ground (arith, f) in
      elim (Option-cases (state_of reg root)) [
        | inl n ↦ absurd ((reinit_lem reg reg'' root j f).1 n)
        | inr (st, g) ↦
            let at_j = (reinit_lem reg reg'' root j f).0 in
            let at_root = (reinit_lem reg reg'' root root f).0 in
            (λ ne. rw same (ground (arith, at_j, ne)), (st, rw same (ground (arith, at_root, g))))
      ]
]

-- Mapping, unmapping or protecting in one address space changes no answer of vma_query in
-- another.
pub address_spaces_isolated :
    (reg : List VmStateSlot) (root j start end prot a : ℕ) (map_fixed : Bool)
    → root ≢ j
    → (vma_query (vma_add reg root start end prot map_fixed).1 j a ≡ vma_query reg j a)
      × (vma_query (vma_remove_range reg root start end) j a ≡ vma_query reg j a)
      × (vma_query (vma_update_prot reg root start end prot) j a ≡ vma_query reg j a)
unfolding vma_query vma_add vma_remove_range vma_update_prot
address_spaces_isolated reg root j start end prot a map_fixed ne = (
  unmoved (λ st. Vma.vma_add st start end prot map_fixed),
  unmoved (λ st. (true, Vma.vma_remove_range st start end)),
  unmoved (λ st. (true, Vma.vma_update_prot st start end prot)),
)
  where
    answer : Option VmState → Option ℕ
    answer o = elim o [ none ↦ none | some st ↦ Vma.vma_query st a ]

    unmoved :
        (f : VmState → Bool × VmState)
        → answer (state_of (with_state reg root f).1 j) ≡ answer (state_of reg j)
    unmoved f = ap answer (state_of-with_state reg root j f ∙ ground arith)
