-- ===== src/Mm/Vma/Split.antt =====
-- `split_overlapping_vmas` of kernel/src/mm/vma.rs, and the operations that cut a range out.
use karte_os.Base.{
  ℕ, zero, suc, ◌+◌, ◌≤◌, ◌<◌, Bool, true, false, ◌&&◌, ◌||◌, not, List, ◌≡◌, ◌⊎◌, inl, inr, refl,
  ◌==◌, ltb, leb, if◌then◌else◌, get_or, set, length, length-set, get_or-set, arith, Bool-cases,
  if_cases,
}
use karte_os.Mm.Vma.{
  VmaRegion, VmState, empty, split_at, split_from, split_overlapping_vmas, vma_add,
}
use karte_os.Mm.Vma.Coverage.{
  hits, count, within, count-set, count-none, length-insert_vma, count-insert_vma,
  insert_vma-misses,
}

-- One round of the loop, for descriptor `i` and the range [s, e).
module _ (vs : List VmaRegion) (s e i : ℕ) where
  length-split_at : length (split_at vs s e i).1 ≡ length vs
  unfolding split_at
  length-split_at = ground (
    arith,
    length-insert_vma (set vs i (record (get_or vs i empty) { end = s })) e (get_or vs i empty).end
        (get_or vs i empty).prot,
    length-set vs i (record (get_or vs i empty) { end = s }),
    length-set vs i (record (get_or vs i empty) { start = e }),
    length-set vs i (record (get_or vs i empty) { active = false }),
  )

  module _ (a p : ℕ) (le : s ≤ e) (h : i < length vs) where
    -- A descriptor that is written with a region that misses `a` is clean.
    set_clean :
        (j : ℕ) (v : VmaRegion)
        → hits v a p ≡ 0
        → (i ≡ j) ⊎ (hits (get_or vs j empty) a p ≡ 0)
        → hits (get_or (set vs i v) j empty) a p ≡ 0
    set_clean j v miss clean =
        rw (get_or-set vs i j v empty h)
          (if_cases (λ w. hits w a p ≡ 0) (i == j) _ _ (λ _. miss) (λ ne. others ne clean))
      where
        others :
            (i == j) ≡ false
            → (i ≡ j) ⊎ (hits (get_or vs j empty) a p ≡ 0)
            → hits (get_or vs j empty) a p ≡ 0
        others ne (inl same) = absurd (ground arith)
        others ne (inr c) = c

    -- Outside the range nothing changes.
    split_at_outside :
        within s e a ≡ false
        → (split_at vs s e i).0 ≡ true
        → count (split_at vs s e i).1 a p ≡ count vs a p
    unfolding split_at
    split_at_outside out done = ground (
      arith,
      count-insert_vma (set vs i (record (get_or vs i empty) { end = s })) e (get_or vs i empty).end
          (get_or vs i empty).prot a p,
      count-set vs i (record (get_or vs i empty) { end = s }) a p h,
      count-set vs i (record (get_or vs i empty) { start = e }) a p h,
      count-set vs i (record (get_or vs i empty) { active = false }) a p h,
    )

    -- Inside the range descriptor `i` no longer covers `a`, and no other one comes to.
    split_at_inside :
        (j : ℕ)
        → within s e a ≡ true
        → (i ≡ j) ⊎ (hits (get_or vs j empty) a p ≡ 0)
        → hits (get_or (split_at vs s e i).1 j empty) a p ≡ 0
    unfolding split_at
    split_at_inside j inside clean =
        if_cases P (not v.active || leb e v.start || leb v.end s) _ _
          (λ apart. kept clean (ground arith))
          λ _.
            if_cases P (ltb v.start s && ltb e v.end) _ _
              (λ _.
                insert_vma-misses (set vs i (record v { end = s })) e v.end v.prot a p j
                  (ground arith) (set_clean j (record v { end = s }) (ground arith) clean))
              λ _.
                if_cases P (ltb v.start s) _ _
                  (λ _. set_clean j (record v { end = s }) (ground arith) clean)
                  λ not_low.
                    if_cases P (ltb e v.end) _ _
                      (λ _. set_clean j (record v { start = e }) (ground arith) clean)
                      (λ _. set_clean j (record v { active = false }) (ground arith) clean)
      where
        v : VmaRegion
        v = get_or vs i empty

        P : Bool × List VmaRegion → Type 0
        P r = hits (get_or r.1 j empty) a p ≡ 0

        kept :
            (i ≡ j) ⊎ (hits (get_or vs j empty) a p ≡ 0)
            → hits v a p ≡ 0
            → hits (get_or vs j empty) a p ≡ 0
        kept (inl same) miss = rw (← same) miss
        kept (inr c) miss = c

-- The whole loop from descriptor `i` on.
module _ (s e a p : ℕ) (le : s ≤ e) where
  length-split_from : (vs : List VmaRegion) (i n : ℕ) → length (split_from vs s e i n).1 ≡ length vs
  unfolding split_from
  length-split_from vs i zero = refl
  length-split_from vs i (suc n) =
      ground (arith, length-split_at vs s e i, length-split_from (split_at vs s e i).1 (i + 1) n)

  split_from_outside :
      (vs : List VmaRegion) (i n : ℕ)
      → i + n ≤ length vs
      → within s e a ≡ false
      → (split_from vs s e i n).0 ≡ true
      → count (split_from vs s e i n).1 a p ≡ count vs a p
  unfolding split_from
  split_from_outside vs i zero fits out done = refl
  split_from_outside vs i (suc n) fits out done = elim (Bool-cases (split_at vs s e i).0) [
    | inl first ↦
        let ih =
          split_from_outside (split_at vs s e i).1 (i + 1) n
            (omega (arith, length-split_at vs s e i)) out in
        ground (arith, first, ih, split_at_outside vs s e i a p le (omega arith) out first)
    | inr failed ↦ absurd (ground arith)
  ]

  split_from_inside :
      (vs : List VmaRegion) (i n : ℕ)
      → i + n ≡ length vs
      → within s e a ≡ true
      → ((j : ℕ) → j < i → hits (get_or vs j empty) a p ≡ 0)
      → (split_from vs s e i n).0 ≡ true
      → count (split_from vs s e i n).1 a p ≡ 0
  unfolding split_from
  split_from_inside vs i zero fits inside clean done =
      count-none vs a p (λ j h. clean j (omega arith))
  split_from_inside vs i (suc n) fits inside clean done = elim (Bool-cases (split_at vs s e i).0) [
    | inl first ↦
        let ih =
          split_from_inside (split_at vs s e i).1 (i + 1) n
            (omega (arith, length-split_at vs s e i)) inside (clean' first) in
        ground (arith, first, ih)
    | inr failed ↦ absurd (ground arith)
  ]
    where
      clean' :
          (split_at vs s e i).0 ≡ true
          → (j : ℕ) → j < i + 1
          → hits (get_or (split_at vs s e i).1 j empty) a p ≡ 0
      clean' first j h =
          split_at_inside vs s e i a p le (omega arith) j inside (upto (Bool-cases (i == j)))
        where
          upto :
              ((i == j) ≡ true) ⊎ ((i == j) ≡ false) → (i ≡ j) ⊎ (hits (get_or vs j empty) a p ≡ 0)
          upto (inl same) = inl (ground arith)
          upto (inr other) = inr (clean j (ground arith))

  -- A split that succeeds removes the range from every region and nothing else.
  pub split_overlapping_vmas_lem :
      (vs : List VmaRegion)
      → (split_overlapping_vmas vs s e).0 ≡ true
      → count (split_overlapping_vmas vs s e).1 a p ≡ (if within s e a then 0 else count vs a p)
  unfolding split_overlapping_vmas
  split_overlapping_vmas_lem vs done = elim (Bool-cases (within s e a)) [
    | inl inside ↦
        rw inside (
          split_from_inside vs 0 (length vs) (omega arith) inside (λ j h. absurd (omega arith))
            done)
    | inr outside ↦ rw outside (split_from_outside vs 0 (length vs) (omega arith) outside done)
  ]

-- `vma_add` with MAP_FIXED, if it succeeds, replaces the range and leaves every other address.
pub vma_add_fixed :
    (st : VmState) (s e q a p : ℕ)
    → s < e
    → (vma_add st s e q true).0 ≡ true
    → count (vma_add st s e q true).1.vmas a p
      ≡ (if within s e a then (if q == p then 1 else 0) else count st.vmas a p)
unfolding vma_add
vma_add_fixed st s e q a p lt done =
    let cut = split_overlapping_vmas st.vmas s e in
    ground (
      arith,
      split_overlapping_vmas_lem s e a p (omega arith) st.vmas,
      count-insert_vma cut.1 s e q a p,
      Bool-cases cut.0,
    )
