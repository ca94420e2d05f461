-- ===== src/Mm/Vma/Query.antt =====
-- The questions that the page-fault handler asks of kernel/src/mm/vma.rs, and their answers after
-- the operations.
use karte_os.Base.{
  ℕ, ◌≤◌, ◌<◌, true, false, List, [], ◌∷◌, ◌≡◌, inl, inr, refl, sym, ap, ◌∙◌, ◌==◌, if◌then◌else◌,
  arith, if_cases, Option, none, some, Option-cases,
}
use karte_os.Mm.Vma.{
  VmaRegion, VmState, covers, meets, vma_query, query_loop, vma_add, vma_remove_range,
  split_overlapping_vmas, vma_overlaps, any_meets, vma_update_prot, update_prot,
}
use karte_os.Mm.Vma.Coverage.{count, within}
use karte_os.Mm.Vma.Split.{vma_add_fixed, split_overlapping_vmas_lem}

query_some : (vs : List VmaRegion) (a p : ℕ) → query_loop vs a ≡ some p → 0 < count vs a p
unfolding query_loop
query_some [] a p h = absurd (ground arith)
query_some (v ∷ vs) a p h = ground (arith, query_some vs a p)

query_none : (vs : List VmaRegion) (a p : ℕ) → query_loop vs a ≡ none → count vs a p ≡ 0
unfolding query_loop
query_none [] a p h = refl
query_none (v ∷ vs) a p h = ground (arith, query_none vs a p)

-- The regions that cover `a` agree on its protection.
abbrev pub Agree : List VmaRegion → ℕ → Type 0
Agree vs a = (p q : ℕ) → 0 < count vs a p → 0 < count vs a q → p ≡ q

-- Where they agree, `vma_query` is determined by the number of regions.
pub query_of_count :
    (vs ws : List VmaRegion) (a : ℕ)
    → Agree vs a
    → ((p : ℕ) → count ws a p ≡ count vs a p)
    → query_loop ws a ≡ query_loop vs a
query_of_count vs ws a agree same = elim (Option-cases (query_loop vs a)) [
  | inl n ↦ elim (Option-cases (query_loop ws a)) [
    | inl m ↦ m ∙ sym n
    | inr (p, e) ↦ absurd (omega (arith, query_some ws a p e, same p, query_none vs a p n))
  ]
  | inr (q, f) ↦ elim (Option-cases (query_loop ws a)) [
    | inl m ↦ absurd (omega (arith, query_some vs a q f, same q, query_none ws a q m))
    | inr (p, e) ↦
        let pq : p ≡ q =
          agree p q (omega (arith, query_some ws a p e, same p)) (query_some vs a q f) in
        e ∙ ap some pq ∙ sym f
  ]
]

query_of_only :
    (vs : List VmaRegion) (a q : ℕ)
    → ((p : ℕ) → count vs a p ≡ (if q == p then 1 else 0))
    → query_loop vs a ≡ some q
query_of_only vs a q only = elim (Option-cases (query_loop vs a)) [
  | inl n ↦ absurd (ground (arith, only q, query_none vs a q n))
  | inr (p, e) ↦ ground (arith, e, only p, query_some vs a p e)
]

-- After a successful vma_add with MAP_FIXED of a range that is not empty, vma_query answers the
-- new protection in the range, and what it answered before everywhere else, where the regions
-- agreed.
pub vma_query-vma_add :
    (st : VmState) (s e q a : ℕ)
    → s < e
    → (vma_add st s e q true).0 ≡ true
    → Agree st.vmas a
    → vma_query (vma_add st s e q true).1 a ≡ (if within s e a then some q else vma_query st a)
unfolding vma_query
vma_query-vma_add st s e q a lt done agree =
    let law = λ (p : ℕ). vma_add_fixed st s e q a p lt done in
    if_cases (λ r. query_loop (vma_add st s e q true).1.vmas a ≡ r) (within s e a) _ _
      (λ inside. query_of_only _ a q (λ p. ground (arith, law p)))
      (λ outside. query_of_count _ _ a agree (λ p. ground (arith, law p)))

-- If the regions agree on the protection of every address they share, they still do after a
-- successful vma_add with MAP_FIXED of a range that is not empty.
pub vma_add-Agree :
    (st : VmState) (s e q : ℕ)
    → s < e
    → (vma_add st s e q true).0 ≡ true
    → ((a : ℕ) → Agree st.vmas a)
    → (a : ℕ) → Agree (vma_add st s e q true).1.vmas a
vma_add-Agree st s e q lt done agree a p p' h h' =
    ground
      (arith, vma_add_fixed st s e q a p lt done, vma_add_fixed st s e q a p' lt done, agree a p p')

-- After vma_remove_range, if its split succeeds, no address of the range is mapped, and every
-- other address answers as before, where the regions agreed.
pub vma_query-vma_remove_range :
    (st : VmState) (s e a : ℕ)
    → s ≤ e
    → (split_overlapping_vmas st.vmas s e).0 ≡ true
    → Agree st.vmas a
    → vma_query (vma_remove_range st s e) a ≡ (if within s e a then none else vma_query st a)
unfolding vma_query vma_remove_range
vma_query-vma_remove_range st s e a le done agree =
    let law = λ (p : ℕ). split_overlapping_vmas_lem s e a p le st.vmas done in
    if_cases (λ r. query_loop (vma_remove_range st s e).vmas a ≡ r) (within s e a) _ _
      (λ inside. elim (Option-cases (query_loop (split_overlapping_vmas st.vmas s e).1 a)) [
        | inl n ↦ n
        | inr (p, f) ↦ absurd (ground (arith, law p, query_some _ a p f))
      ])
      (λ outside. query_of_count _ _ a agree (λ p. ground (arith, law p)))

overlaps_covered :
    (vs : List VmaRegion) (s e a : ℕ)
    → within s e a ≡ true
    → any_meets vs s e ≡ false
    → query_loop vs a ≡ none
unfolding any_meets query_loop
overlaps_covered [] s e a h f = refl
overlaps_covered (v ∷ vs) s e a h f = ground (arith, overlaps_covered vs s e a)

-- If vma_overlaps says no for a range, no address of the range is mapped.
pub vma_overlaps-vma_query :
    (st : VmState) (s e a : ℕ)
    → within s e a ≡ true
    → vma_overlaps st s e ≡ false
    → vma_query st a ≡ none
unfolding vma_overlaps vma_query
vma_overlaps-vma_query st s e a h f = overlaps_covered st.vmas s e a h f

-- The first region that covers an address: the one that `vma_query` answers for.
pub first_cover : List VmaRegion → ℕ → Option VmaRegion
first_cover [] a = none
first_cover (v ∷ vs) a = if covers v a then some v else first_cover vs a

update_loop :
    (vs : List VmaRegion) (s e q a : ℕ)
    → query_loop (update_prot vs s e q) a
      ≡ elim (first_cover vs a) [ none ↦ none | some v ↦ some (if meets v s e then q else v.prot) ]
unfolding update_prot query_loop first_cover
update_loop [] s e q a = refl
update_loop (v ∷ vs) s e q a = ground (arith, update_loop vs s e q a)

-- After vma_update_prot an address has the new protection exactly if the region that answers
-- for it meets the range, be the address inside the range or not.
pub vma_query-vma_update_prot :
    (st : VmState) (s e q a : ℕ)
    → vma_query (vma_update_prot st s e q) a ≡ elim (first_cover st.vmas a) [
      | none ↦ none
      | some v ↦ some (if meets v s e then q else v.prot)
    ]
unfolding vma_query vma_update_prot
vma_query-vma_update_prot st s e q a = update_loop st.vmas s e q a
