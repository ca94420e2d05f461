-- ===== src/Tests/Regions.antt =====
-- Memory regions at concrete inputs.
use karte_os.Base.{
  ℕ, ◌+◌, List, [], ◌∷◌, ◌≡◌, ◌≢◌, ◌⊎◌, refl, none, some, arith, true, if◌then◌else◌,
}
use karte_os.Base.Words.{page_up}
use karte_os.Mm.Vma
use karte_os.Mm.Vma.{
  split_from, split_at, insert_vma, take_slot, any_meets, VmaRegion, VmState, vma_query, vma_check,
  vma_add, vma_remove_range, vma_update_prot, vma_overlaps, meets, split_overlapping_vmas, clear,
}
use karte_os.Mm.Vma.Coverage.{within}
use karte_os.Mm.Vma.Query.{Agree, vma_query-vma_add, vma_query-vma_remove_range}
use karte_os.Mm.Vma.Check.{vma_check_lem, Closed, Least, Found}
use karte_os.Mm.Vma.Reserve.{
  reserve_loop, conflict_end, reserve_mmap_addr, reserve_mmap_addr_total, reserve_mmap_addr_free,
  Reserved, Bounded, user_mmap_base,
}
use karte_os.Mm.VmaRegistry
use karte_os.Mm.VmaRegistry.{
  VmStateSlot, state_of, with_state, clone_root_state, release_root, find_source, place, claim,
}
use karte_os.Mm.VmaRegistry.Map.{address_spaces_isolated}

abbrev mapped : VmaRegion
mapped = record { start = 4096; end = 20480; prot = 3; active = true }

-- One region of four pages, in a table of three.
abbrev space : VmState
space = record {
  vmas = mapped ∷ Vma.empty ∷ Vma.empty ∷ [];
  next_mmap_addr = user_mmap_base;
  max_elf_vaddr = 0;
}

space-Agree : (a : ℕ) → Agree space.vmas a
space-Agree a p q hp hq = ground arith

added : (vma_add space 8192 12288 1 true).0 ≡ true
unfolding vma_add split_overlapping_vmas split_from split_at insert_vma take_slot any_meets
added = refl

splits : (split_overlapping_vmas space.vmas 8192 12288).0 ≡ true
unfolding split_overlapping_vmas split_from split_at insert_vma take_slot
splits = refl

vma_query-vma_add_example :
    vma_query (vma_add space 8192 12288 1 true).1 9000
    ≡ (if within 8192 12288 9000 then some 1 else vma_query space 9000)
vma_query-vma_add_example =
    vma_query-vma_add space 8192 12288 1 9000 (omega arith) added (space-Agree 9000)

vma_query-vma_remove_range_example :
    vma_query (vma_remove_range space 8192 12288) 9000
    ≡ (if within 8192 12288 9000 then none else vma_query space 9000)
vma_query-vma_remove_range_example =
    vma_query-vma_remove_range space 8192 12288 9000 (omega arith) splits (space-Agree 9000)

vma_check_lem_example :
    ((vma_check space 5000 ≡ none) × Closed space.vmas 5000)
    ⊎ ((r : ℕ) × (m : ℕ) × (vma_check space 5000 ≡ some r)
        × Least space.vmas 5000 m
        × ((j : ℕ) × Found space.vmas 5000 r m j))
vma_check_lem_example = vma_check_lem space 5000

space-Bounded : Bounded space.vmas
space-Bounded = (λ e. omega arith, ((λ e. omega arith), ((λ e. omega arith), tt)))

reserve_mmap_addr_total_example : reserve_mmap_addr space 5000 ≢ none
reserve_mmap_addr_total_example = reserve_mmap_addr_total space 5000 space-Bounded

reserved :
    reserve_mmap_addr space 5000
    ≡ some (some user_mmap_base, record space { next_mmap_addr = user_mmap_base + 8192 })
unfolding reserve_mmap_addr reserve_loop conflict_end any_meets page_up
reserved = refl

reserve_mmap_addr_free_example :
    Reserved space
      (page_up 5000)
      user_mmap_base
      (record space { next_mmap_addr = user_mmap_base + 8192 })
    × ((a : ℕ)
        → within user_mmap_base (user_mmap_base + page_up 5000) a ≡ true
        → vma_query space a ≡ none)
reserve_mmap_addr_free_example =
    reserve_mmap_addr_free space 5000 user_mmap_base
      (record space { next_mmap_addr = user_mmap_base + 8192 }) reserved

abbrev cloned : List VmStateSlot
cloned =
    record { root = 4096; active = true; state = space }
    ∷ record { root = 8192; active = true; state = space }
    ∷ []

address_spaces_isolated_example :
    (VmaRegistry.vma_query (VmaRegistry.vma_add cloned 4096 8192 12288 1 true).1 8192 9000
      ≡ VmaRegistry.vma_query cloned 8192 9000)
    × (VmaRegistry.vma_query (VmaRegistry.vma_remove_range cloned 4096 8192 12288) 8192 9000
        ≡ VmaRegistry.vma_query cloned 8192 9000)
    × (VmaRegistry.vma_query (VmaRegistry.vma_update_prot cloned 4096 8192 12288 1) 8192 9000
        ≡ VmaRegistry.vma_query cloned 8192 9000)
address_spaces_isolated_example =
    address_spaces_isolated cloned 4096 8192 8192 12288 1 9000 true (λ e. absurd (omega arith))
