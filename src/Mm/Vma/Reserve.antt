-- ===== src/Mm/Vma/Reserve.antt =====
-- `reserve_mmap_addr` of kernel/src/mm/vma.rs: the bump allocator of mmap addresses. The `loop` takes
-- fuel, and answers `none` when that runs out.
use karte_os.Base.{
  ℕ, zero, suc, ◌+◌, ◌*◌, ◌/◌, ◌^◌, ◌≤◌, ◌<◌, max, true, false, ◌&&◌, ◌||◌, List, [], ◌∷◌, ◌≡◌, ◌≢◌,
  inl, inr, ap, ◌==◌, ltb, if◌then◌else◌, length, arith, Bool-cases, Option, none, some,
}
use karte_os.Base.Words.{page_up, page_up_lem}
use karte_os.Mm.Vma.{VmaRegion, VmState, meets, any_meets, vma_query, vma_overlaps}
use karte_os.Mm.Vma.Coverage.{within}
use karte_os.Mm.Vma.Query.{vma_overlaps-vma_query}

-- kernel/src/process/mod.rs
abbrev pub user_mmap_base : ℕ
user_mmap_base = 0x2000_0000

abbrev pub user_mmap_limit : ℕ
user_mmap_limit = 0x0000_7fff_ffff_f000

-- `checked_add(..).unwrap_or(0)`
abbrev checked_end : ℕ → ℕ → ℕ
checked_end a b = if ltb (a + b) (2 ^ 64) then a + b else 0

-- `.filter(..).map(|v| v.end).max()`, 0 if no region meets the range.
unfoldable pub conflict_end : List VmaRegion → ℕ → ℕ → ℕ
conflict_end [] start end = 0
conflict_end (v ∷ vs) start end =
    if meets v start end then max v.end (conflict_end vs start end) else conflict_end vs start end

abbrev pub candidate : VmState → ℕ
candidate s =
    if ltb 0 s.next_mmap_addr
    then s.next_mmap_addr
    else if ltb 0 user_mmap_base
    then user_mmap_base
    else s.next_mmap_addr

unfoldable pub reserve_loop : ℕ → VmState → ℕ → Option (Option ℕ × VmState)
reserve_loop zero s aligned_len = none
reserve_loop (suc fuel) s aligned_len =
    let end_addr = checked_end (candidate s) aligned_len in
    let again =
      reserve_loop fuel
        (record s { next_mmap_addr = page_up (conflict_end s.vmas (candidate s) end_addr) })
        aligned_len in
    if ltb user_mmap_limit end_addr || end_addr == 0
    then some (none, s)
    else if any_meets s.vmas (candidate s) end_addr
    then again
    else some (some (candidate s), record s { next_mmap_addr = end_addr })

-- One round for each descriptor and one more.
unfoldable pub reserve_mmap_addr : VmState → ℕ → Option (Option ℕ × VmState)
reserve_mmap_addr s len = reserve_loop (length s.vmas + 1) s (page_up len)

-- What a reservation promises.
pub record Reserved (s : VmState) (len addr : ℕ) (t : VmState) : Type 0 where
  pub vmas_kept : t.vmas ≡ s.vmas
  pub in_user_space : addr + len ≤ user_mmap_limit
  pub next : t.next_mmap_addr ≡ addr + len
  pub apart : any_meets s.vmas addr (addr + len) ≡ false

loop-Reserved :
    (fuel : ℕ) (s : VmState) (len addr : ℕ) (t : VmState)
    → reserve_loop fuel s len ≡ some (some addr, t)
    → Reserved s len addr t
unfolding reserve_loop
loop-Reserved zero s len addr t e = absurd (ground arith)
loop-Reserved (suc fuel) s len addr t e =
    elim (Bool-cases
      (ltb user_mmap_limit (checked_end (candidate s) len) || checked_end (candidate s) len == 0)) [
        | inl bad ↦ absurd (ground arith)
        | inr fits ↦
            elim (Bool-cases (any_meets s.vmas (candidate s) (checked_end (candidate s) len))) [
              | inl clash ↦
                  let r =
                    loop-Reserved fuel
                      (record s {
                        next_mmap_addr =
                            page_up
                              (conflict_end s.vmas (candidate s) (checked_end (candidate s) len));
                      })
                      len addr t (ground arith) in
                  record {
                    vmas_kept = r.vmas_kept;
                    in_user_space = r.in_user_space;
                    next = r.next;
                    apart = r.apart;
                  }
              | inr free ↦
                  let whole : checked_end (candidate s) len ≡ candidate s + len = ground arith in
                  let here : addr ≡ candidate s = ground arith in
                  record {
                    vmas_kept = ground arith;
                    in_user_space = ground arith;
                    next = ground arith;
                    apart = rw (here, ← whole) free;
                  }
            ]
      ]

-- The regions that end after `c`.
tally : List VmaRegion → ℕ → ℕ
tally [] c = 0
tally (v ∷ vs) c = (if v.active && ltb c v.end then 1 else 0) + tally vs c

tally-le-length : (vs : List VmaRegion) (c : ℕ) → tally vs c ≤ length vs
unfolding tally
tally-le-length [] c = omega arith
tally-le-length (v ∷ vs) c = ground (arith, tally-le-length vs c)

tally_anti : (vs : List VmaRegion) (c d : ℕ) → c ≤ d → tally vs d ≤ tally vs c
unfolding tally
tally_anti [] c d h = omega arith
tally_anti (v ∷ vs) c d h = ground (arith, tally_anti vs c d h)

-- Passing every region that meets the range passes one at least.
tally_falls :
    (vs : List VmaRegion) (c e d : ℕ)
    → any_meets vs c e ≡ true
    → conflict_end vs c e ≤ d
    → c ≤ d
    → tally vs d < tally vs c
unfolding tally any_meets conflict_end
tally_falls [] c e d h k l = cc
tally_falls (v ∷ vs) c e d h k l = ground (arith, tally_falls vs c e d, tally_anti vs c d l)

conflict_above : (vs : List VmaRegion) (c e : ℕ) → any_meets vs c e ≡ true → c < conflict_end vs c e
unfolding any_meets conflict_end
conflict_above [] c e h = cc
conflict_above (v ∷ vs) c e h = ground (arith, conflict_above vs c e)

-- Every active region ends within user space.
abbrev pub Bounded : List VmaRegion → Type 0
Bounded [] = Unit {0}
Bounded (v ∷ vs) = (v.active ≡ true → v.end ≤ user_mmap_limit) × Bounded vs

conflict-Bounded :
    (vs : List VmaRegion) (c e : ℕ) → Bounded vs → conflict_end vs c e ≤ user_mmap_limit
unfolding conflict_end
conflict-Bounded [] c e b = omega arith
conflict-Bounded (v ∷ vs) c e b = ground (arith, b.0, conflict-Bounded vs c e b.1)

candidate_pos : (s : VmState) (n : ℕ) → 0 < n → candidate (record s { next_mmap_addr = n }) ≡ n
candidate_pos s n h = ground arith

loop_total :
    (fuel : ℕ) (s : VmState) (len : ℕ)
    → Bounded s.vmas
    → tally s.vmas (candidate s) < fuel
    → reserve_loop fuel s len ≢ none
unfolding reserve_loop
loop_total zero s len b h = absurd (omega arith)
loop_total (suc fuel) s len b h =
    elim (Bool-cases (any_meets s.vmas (candidate s) (checked_end (candidate s) len))) [
      | inl clash ↦
          let top = conflict_end s.vmas (candidate s) (checked_end (candidate s) len) in
          let low : top ≤ user_mmap_limit = conflict-Bounded s.vmas _ _ b in
          let up : page_up top ≡ (top + 4095) / 4096 * 4096 = page_up_lem top (omega arith) in
          let above = conflict_above s.vmas (candidate s) (checked_end (candidate s) len) clash in
          let falls =
            tally_falls s.vmas (candidate s) (checked_end (candidate s) len) (page_up top) clash
              (omega arith) (omega arith) in
          let rest =
            loop_total fuel (record s { next_mmap_addr = page_up top }) len b
              (omega (
                arith,
                falls,
                ap (tally s.vmas) (candidate_pos s (page_up top) (omega (arith, up, above))),
              )) in
          ground (arith, clash, rest)
      | inr free ↦ ground (arith, free)
    ]

-- Where every active region ends within user space, reserve_mmap_addr does not run out of its
-- one round for each descriptor and one more.
pub reserve_mmap_addr_total :
    (s : VmState) (len : ℕ) → Bounded s.vmas → reserve_mmap_addr s len ≢ none
unfolding reserve_mmap_addr
reserve_mmap_addr_total s len b =
    loop_total (length s.vmas + 1) s (page_up len) b
      (omega (arith, tally-le-length s.vmas (candidate s)))

-- An address that reserve_mmap_addr answers starts a range of the page-aligned length that lies
-- within user space and has no mapped address; the next reservation starts behind it, and the
-- regions are untouched.
pub reserve_mmap_addr_free :
    (s : VmState) (len addr : ℕ) (t : VmState)
    → reserve_mmap_addr s len ≡ some (some addr, t)
    → Reserved s (page_up len) addr t
      × ((a : ℕ) → within addr (addr + page_up len) a ≡ true → vma_query s a ≡ none)
unfolding reserve_mmap_addr
reserve_mmap_addr_free s len addr t e =
    let r = loop-Reserved (length s.vmas + 1) s (page_up len) addr t e in
    (
      r,
      λ a h.
          vma_overlaps-vma_query s addr (addr + page_up len) a h (unfold vma_overlaps in r.apart),
    )
