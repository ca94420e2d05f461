-- ===== src/Mm/VmaRegistry.antt =====
-- kernel/src/mm/vma.rs, the registry: a fixed array of slots, each the state of one address space,
-- keyed by its page-table root. Each function holds the lock from its first read to its last write.
pub mod Map
use karte_os.Base.{
  ℕ, zero, suc, Bool, true, false, ◌&&◌, ◌||◌, not, Option, none, some, List, [], ◌∷◌, ◌==◌,
  if◌then◌else◌, get_or, set, replicate,
}
use karte_os.Base.{get_elem?}
use karte_os.Mm.Vma.{VmState, clear, max_vmas}
use karte_os.Mm.Vma

pub record VmStateSlot : Type 0 where
  pub root : ℕ
  pub active : Bool
  pub state : VmState

-- `slot.active && slot.root == root`
abbrev pub holds : VmStateSlot → ℕ → Bool
holds s root = s.active && s.root == root

-- The first loop of `init_root`.
pub reinit : List VmStateSlot → ℕ → Option (List VmStateSlot)
reinit [] root = none
reinit (s ∷ ss) root =
    if holds s root
    then some (record s { state = clear s.state } ∷ ss)
    else (elim (reinit ss root) [ none ↦ none | some ss' ↦ some (s ∷ ss') ])

-- The second loop: the first free slot is taken.
unfoldable pub claim : List VmStateSlot → ℕ → Option (List VmStateSlot)
claim [] root = none
claim (s ∷ ss) root =
    if not s.active
    then some (record { root = root; active = true; state = clear s.state } ∷ ss)
    else (elim (claim ss root) [ none ↦ none | some ss' ↦ some (s ∷ ss') ])

-- `none` is `Err(())`; the registry is then unchanged.
pub init_root : List VmStateSlot → ℕ → Option (List VmStateSlot)
init_root reg root =
    if root == 0
    then none
    else (elim (reinit reg root) [ some reg' ↦ some reg' | none ↦ claim reg root ])

pub drop_slot : List VmStateSlot → ℕ → List VmStateSlot
drop_slot [] root = []
drop_slot (s ∷ ss) root =
    if holds s root
    then record { root = 0; active = false; state = clear s.state } ∷ ss
    else s ∷ drop_slot ss root

pub release_root : List VmStateSlot → ℕ → List VmStateSlot
release_root reg root = if root == 0 then reg else drop_slot reg root

-- The loop of `clone_root_state`: the state of the last slot that holds the source, and the index
-- of the first slot that is not active.
unfoldable pub find_source : List VmStateSlot → ℕ → Option VmState
find_source [] root = none
find_source (s ∷ ss) root =
    let here : Option VmState = if holds s root then some s.state else none in
    elim (find_source ss root) [ some st ↦ some st | none ↦ here ]

-- The slot that the copy goes to.
unfoldable pub place : List VmStateSlot → ℕ → VmState → Option (List VmStateSlot)
place [] root st = none
place (s ∷ ss) root st =
    if not s.active
    then some (record { root = root; active = true; state = st } ∷ ss)
    else (elim (place ss root st) [ none ↦ none | some ss' ↦ some (s ∷ ss') ])

unfoldable pub clone_root_state : List VmStateSlot → ℕ → ℕ → Option (List VmStateSlot)
clone_root_state reg src_root dst_root =
    if src_root == 0 || dst_root == 0
    then none
    else (elim (find_source reg src_root) [ none ↦ none | some st ↦ place reg dst_root st ])

-- `with_state`: the closure runs on the first slot that holds the root.
pub with_state :
    {R : Type 0} → List VmStateSlot → ℕ → (VmState → R × VmState) → Option R × List VmStateSlot
with_state [] root f = (none, [])
with_state {R} (s ∷ ss) root f =
    let here : Option R × List VmStateSlot =
      (some (f s.state).0, record s { state = (f s.state).1 } ∷ ss) in
    let later : Option R × List VmStateSlot =
      (let (r, ss') = with_state ss root f in (r, s ∷ ss')) in
    if holds s root then here else later

-- `with_state_ref`, before its closure is applied.
unfoldable pub state_of : List VmStateSlot → ℕ → Option VmState
state_of [] root = none
state_of (s ∷ ss) root = if holds s root then some s.state else state_of ss root

pub vma_add : List VmStateSlot → ℕ → ℕ → ℕ → ℕ → Bool → Bool × List VmStateSlot
vma_add reg root start end prot map_fixed =
    let (r, reg') = with_state reg root (λ st. Vma.vma_add st start end prot map_fixed) in
    (elim r [ none ↦ false | some added ↦ added ], reg')

-- An operation that returns nothing; an unknown root is ignored.
abbrev update_state : List VmStateSlot → ℕ → (VmState → VmState) → List VmStateSlot
update_state reg root f = (with_state {R = Bool} reg root (λ st. (true, f st))).1

pub vma_remove_range : List VmStateSlot → ℕ → ℕ → ℕ → List VmStateSlot
vma_remove_range reg root start end =
    update_state reg root (λ st. Vma.vma_remove_range st start end)

pub vma_update_prot : List VmStateSlot → ℕ → ℕ → ℕ → ℕ → List VmStateSlot
vma_update_prot reg root start end new_prot =
    update_state reg root (λ st. Vma.vma_update_prot st start end new_prot)

pub ensure_mmap_above : List VmStateSlot → ℕ → ℕ → List VmStateSlot
ensure_mmap_above reg root min_addr =
    update_state reg root (λ st. Vma.ensure_mmap_above st min_addr)

pub register_elf_vma : List VmStateSlot → ℕ → ℕ → ℕ → ℕ → List VmStateSlot
register_elf_vma reg root start end prot = (vma_add reg root start end prot false).1

pub vma_clear_root : List VmStateSlot → ℕ → List VmStateSlot
vma_clear_root reg root = update_state reg root clear

pub vma_query : List VmStateSlot → ℕ → ℕ → Option ℕ
vma_query reg root addr = elim (state_of reg root) [ none ↦ none | some st ↦ Vma.vma_query st addr ]

pub vma_check : List VmStateSlot → ℕ → ℕ → Option ℕ
vma_check reg root addr = elim (state_of reg root) [ none ↦ none | some st ↦ Vma.vma_check st addr ]
