-- ===== src/Mm/Vma.antt =====
-- kernel/src/mm/vma.rs, the regions of one address space: a fixed array of descriptors, searched
-- and split in place. A function returns the new array, and its success as a Boolean.
pub mod Coverage
pub mod Split
pub mod Query
pub mod Check
pub mod Reserve
use karte_os.Base.{
  ℕ, zero, suc, ◌+◌, ◌-◌, ◌^◌, max, Bool, true, false, ◌&&◌, ◌||◌, not, Option, none, some, List,
  [], ◌∷◌, ◌==◌, ltb, leb, if◌then◌else◌, get_or, set, replicate, map, length,
}
use karte_os.Base.Words.{usize_max, add_usize, page_up}

abbrev pub max_vmas : ℕ
max_vmas = 1024

-- `end` is the first address past the region; `prot` is 0 for PROT_NONE.
pub record VmaRegion : Type 0 where
  pub start : ℕ
  pub end : ℕ
  pub prot : ℕ
  pub active : Bool

abbrev pub empty : VmaRegion
empty = record { start = 0; end = 0; prot = 0; active = false }

pub record VmState : Type 0 where
  pub vmas : List VmaRegion
  pub next_mmap_addr : ℕ
  pub max_elf_vaddr : ℕ

-- `clear`, in place over all descriptors.
abbrev pub clear : VmState → VmState
clear s = record { vmas = map (λ _. empty) s.vmas; next_mmap_addr = 0; max_elf_vaddr = 0 }

abbrev pub covers : VmaRegion → ℕ → Bool
covers v addr = v.active && (leb v.start addr && ltb addr v.end)

abbrev pub meets : VmaRegion → ℕ → ℕ → Bool
meets v start end = v.active && (ltb v.start end && ltb start v.end)

-- One round of the loop of `vma_check`, over (best_prot, best_size).
pub check_step : ℕ → Option ℕ × ℕ → VmaRegion → Option ℕ × ℕ
check_step addr (best_prot, best_size) v =
    let size = v.end - v.start in
    let cur_accessible = not (v.prot == 0) in
    let best_accessible : Bool = elim best_prot [ none ↦ false | some p ↦ not (p == 0) ] in
    let same : Bool = if cur_accessible then best_accessible else not best_accessible in
    if covers v addr && ((cur_accessible && not best_accessible) || (same && ltb size best_size))
    then (if v.prot == 0 then none else some v.prot, size)
    else (best_prot, best_size)

pub check_loop : ℕ → Option ℕ × ℕ → List VmaRegion → Option ℕ × ℕ
check_loop addr best [] = best
check_loop addr best (v ∷ vs) = check_loop addr (check_step addr best v) vs

pub vma_check : VmState → ℕ → Option ℕ
vma_check s addr = (check_loop addr (none, usize_max) s.vmas).0

pub query_loop : List VmaRegion → ℕ → Option ℕ
query_loop [] addr = none
query_loop (v ∷ vs) addr = if covers v addr then some v.prot else query_loop vs addr

pub vma_query : VmState → ℕ → Option ℕ
vma_query s addr = query_loop s.vmas addr

unfoldable pub any_meets : List VmaRegion → ℕ → ℕ → Bool
any_meets [] start end = false
any_meets (v ∷ vs) start end = meets v start end || any_meets vs start end

unfoldable pub vma_overlaps : VmState → ℕ → ℕ → Bool
vma_overlaps s start end = any_meets s.vmas start end

-- The loop of `insert_vma`: the first inactive descriptor is taken.
unfoldable pub take_slot : List VmaRegion → VmaRegion → Bool × List VmaRegion
take_slot [] r = (false, [])
take_slot (v ∷ vs) r =
    let later : Bool × List VmaRegion = (let (done, vs') = take_slot vs r in (done, v ∷ vs')) in
    if not v.active then (true, r ∷ vs) else later

unfoldable pub insert_vma : List VmaRegion → ℕ → ℕ → ℕ → Bool × List VmaRegion
insert_vma vmas start end prot =
    if leb end start
    then (true, vmas)
    else take_slot vmas (record { start = start; end = end; prot = prot; active = true })

-- The body of the loop of `split_overlapping_vmas`, for descriptor `i`.
unfoldable pub split_at : List VmaRegion → ℕ → ℕ → ℕ → Bool × List VmaRegion
split_at vmas start end i =
    if not v.active || leb end v.start || leb v.end start
    then (true, vmas)
    else if ltb v.start start && ltb end v.end
    then insert_vma (set vmas i (record v { end = start })) end v.end v.prot
    else if ltb v.start start
    then (true, set vmas i (record v { end = start }))
    else if ltb end v.end
    then (true, set vmas i (record v { start = end }))
    else (true, set vmas i (record v { active = false }))
  where
    v : VmaRegion
    v = get_or vmas i empty

-- `for i in i..i + n`; `?` leaves the loop at the first failure.
unfoldable pub split_from : List VmaRegion → ℕ → ℕ → ℕ → ℕ → Bool × List VmaRegion
split_from vmas start end i zero = (true, vmas)
split_from vmas start end i (suc n) =
    let (done, vmas') = split_at vmas start end i in
    elim done [ true ↦ split_from vmas' start end (i + 1) n | false ↦ (false, vmas') ]

unfoldable pub split_overlapping_vmas : List VmaRegion → ℕ → ℕ → Bool × List VmaRegion
split_overlapping_vmas vmas start end = split_from vmas start end 0 (length vmas)

unfoldable pub vma_add : VmState → ℕ → ℕ → ℕ → Bool → Bool × VmState
vma_add s start end prot map_fixed =
    let (done, cut) : Bool × List VmaRegion =
      if map_fixed then split_overlapping_vmas s.vmas start end else (true, s.vmas) in
    let (added, vmas) = insert_vma cut start end prot in
    if done then (added, record s { vmas = vmas }) else (false, record s { vmas = cut })

-- A failure of the split is ignored.
pub vma_remove_range : VmState → ℕ → ℕ → VmState
vma_remove_range s start end = record s { vmas = (split_overlapping_vmas s.vmas start end).1 }

pub update_prot : List VmaRegion → ℕ → ℕ → ℕ → List VmaRegion
update_prot [] start end new_prot = []
update_prot (v ∷ vs) start end new_prot =
    (if meets v start end then record v { prot = new_prot } else v)
    ∷ update_prot vs start end new_prot

pub vma_update_prot : VmState → ℕ → ℕ → ℕ → VmState
vma_update_prot s start end new_prot = record s { vmas = update_prot s.vmas start end new_prot }

pub ensure_mmap_above : VmState → ℕ → VmState
ensure_mmap_above s min_addr =
    let aligned = page_up min_addr in
    record s {
      next_mmap_addr = if ltb s.next_mmap_addr aligned then aligned else s.next_mmap_addr;
      max_elf_vaddr = if ltb s.max_elf_vaddr aligned then aligned else s.max_elf_vaddr;
    }

pub any_covers : List VmaRegion → ℕ → Bool
any_covers [] addr = false
any_covers (v ∷ vs) addr = covers v addr || any_covers vs addr

pub vma_is_elf : VmState → ℕ → Bool
vma_is_elf s addr =
    not (s.max_elf_vaddr == 0)
    && (leb 0x400000 addr && (ltb addr s.max_elf_vaddr && any_covers s.vmas addr))
