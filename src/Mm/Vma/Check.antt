-- ===== src/Mm/Vma/Check.antt =====
-- `vma_check` of kernel/src/mm/vma.rs: the protection of the smallest accessible region.
use karte_os.Base.{
  ℕ, zero, suc, ◌-◌, ◌≤◌, ◌<◌, Bool, true, false, ◌&&◌, not, List, [], ◌∷◌, ◌≡◌, ◌≢◌, ◌⊎◌, inl, inr,
  refl, ap, ◌∙◌, ◌==◌, ltb, get_or, length, arith, Bool-cases, Option, none, some,
}
use karte_os.Base.Words.{usize_max}
use karte_os.Mm.Vma.{VmaRegion, VmState, empty, covers, vma_check, check_loop, check_step}

-- The region covers `a` and permits access.
abbrev pub opens : VmaRegion → ℕ → Bool
opens v a = covers v a && not (v.prot == 0)

abbrev pub size : VmaRegion → ℕ
size v = v.end - v.start

-- No accessible region over `a` is smaller than `m`.
abbrev pub Least : List VmaRegion → ℕ → ℕ → Type 0
Least vs a m =
    (k : ℕ) → k < length vs → opens (get_or vs k empty) a ≡ true → m ≤ size (get_or vs k empty)

-- Region `j` is accessible at `a`, has protection `r` and size `m`.
abbrev pub Found : List VmaRegion → ℕ → ℕ → ℕ → ℕ → Type 0
Found vs a r m j =
    (j < length vs)
    × (opens (get_or vs j empty) a ≡ true)
    × ((get_or vs j empty).prot ≡ r)
    × (size (get_or vs j empty) ≡ m)

Least-cons :
    (v : VmaRegion) (vs : List VmaRegion) (a m : ℕ)
    → (opens v a ≡ true → m ≤ size v)
    → Least vs a m
    → Least (v ∷ vs) a m
Least-cons v vs a m here later zero h o = here o
Least-cons v vs a m here later (suc k) h o = later k (omega arith) o

abbrev FoundIn : List VmaRegion → ℕ → ℕ → ℕ → Type 0
FoundIn vs a r m = (j : ℕ) × Found vs a r m j

Found-head :
    (v : VmaRegion) (vs : List VmaRegion) (a : ℕ)
    → opens v a ≡ true
    → FoundIn (v ∷ vs) a v.prot (size v)
Found-head v vs a o = (0, (omega arith, o, refl, refl))

Found-tail :
    (v : VmaRegion) (vs : List VmaRegion) (a r m : ℕ) → FoundIn vs a r m → FoundIn (v ∷ vs) a r m
Found-tail v vs a r m (j, f) = (suc j, (omega (arith, f.0), f.1, f.2, f.3))

module _ (a : ℕ) (v : VmaRegion) where
  step_better :
      (p sz : ℕ)
      → (opens v a && ltb (size v) sz) ≡ true
      → check_step a (some p, sz) v ≡ (some v.prot, size v)
  unfolding check_step
  step_better p sz h = ground arith

  step_worse :
      (p sz : ℕ)
      → p ≢ 0
      → (opens v a && ltb (size v) sz) ≡ false
      → check_step a (some p, sz) v ≡ (some p, sz)
  unfolding check_step
  step_worse p sz nz h = ground arith

  step_first : (sz : ℕ) → opens v a ≡ true → check_step a (none, sz) v ≡ (some v.prot, size v)
  unfolding check_step
  step_first sz h = ground arith

  step_none :
      (sz : ℕ)
      → opens v a ≡ false
      → check_step a (none, sz) v ≡ (none, (check_step a (none, sz) v).1)
  unfolding check_step
  step_none sz h = ground arith

-- From an accessible best so far, the loop ends with the best of that one and the rest.
abbrev Ends : List VmaRegion → ℕ → ℕ → ℕ → Option ℕ × ℕ → Type 0
Ends vs a p sz out =
    (r : ℕ) × (m : ℕ) × (out ≡ (some r, m))
    × (m ≤ sz)
    × Least vs a m
    × (((r ≡ p) × (m ≡ sz)) ⊎ FoundIn vs a r m)

loop_some :
    (vs : List VmaRegion) (a p sz : ℕ) → p ≢ 0 → Ends vs a p sz (check_loop a (some p, sz) vs)
unfolding check_loop
loop_some [] a p sz nz = (p, sz, refl, omega arith, λ k h o. absurd (omega arith), inl (refl, refl))
loop_some (v ∷ vs) a p sz nz = elim (Bool-cases (opens v a && ltb (size v) sz)) [
  | inl better ↦
      let (r, m, e, le, least, from) = loop_some vs a v.prot (size v) (ground arith) in
      (
        r,
        m,
        ap (λ b. check_loop a b vs) (step_better a v p sz better) ∙ e,
        ground (arith, le),
        Least-cons v vs a m (λ _. le) least,
        inr (at_head r m better from),
      )
  | inr worse ↦
      let (r, m, e, le, least, from) = loop_some vs a p sz nz in
      (
        r,
        m,
        ap (λ b. check_loop a b vs) (step_worse a v p sz nz worse) ∙ e,
        le,
        Least-cons v vs a m (λ o. ground (arith, le)) least,
        at_tail r m from,
      )
]
  where
    at_head :
        (r m : ℕ)
        → (opens v a && ltb (size v) sz) ≡ true
        → ((r ≡ v.prot) × (m ≡ size v)) ⊎ FoundIn vs a r m
        → FoundIn (v ∷ vs) a r m
    at_head r m better (inl (e, f)) = rw (e, f) (Found-head v vs a (ground arith))
    at_head r m better (inr found) = Found-tail v vs a r m found

    at_tail :
        (r m : ℕ)
        → ((r ≡ p) × (m ≡ sz)) ⊎ FoundIn vs a r m
        → ((r ≡ p) × (m ≡ sz)) ⊎ FoundIn (v ∷ vs) a r m
    at_tail r m (inl same) = inl same
    at_tail r m (inr found) = inr (Found-tail v vs a r m found)

-- No region is accessible at `a`.
abbrev pub Closed : List VmaRegion → ℕ → Type 0
Closed vs a = (k : ℕ) → k < length vs → opens (get_or vs k empty) a ≡ false

abbrev NoneOrFound : List VmaRegion → ℕ → Option ℕ → Type 0
NoneOrFound vs a out =
    ((out ≡ none) × Closed vs a)
    ⊎ ((r : ℕ) × (m : ℕ) × (out ≡ some r) × Least vs a m × FoundIn vs a r m)

loop_none : (vs : List VmaRegion) (a sz : ℕ) → NoneOrFound vs a (check_loop a (none, sz) vs).0
unfolding check_loop
loop_none [] a sz = inl (refl, λ k h. absurd (omega arith))
loop_none (v ∷ vs) a sz = elim (Bool-cases (opens v a)) [
  | inl open_here ↦
      let (r, m, e, le, least, from) = loop_some vs a v.prot (size v) (ground arith) in
      inr (
        r,
        m,
        ap (λ b. (check_loop a b vs).0) (step_first a v sz open_here) ∙ ap (λ b. b.0) e,
        Least-cons v vs a m (λ _. le) least,
        head_or_tail r m open_here from,
      )
  | inr closed ↦
      extend closed (ap (λ b. (check_loop a b vs).0) (step_none a v sz closed))
        (loop_none vs a (check_step a (none, sz) v).1)
]
  where
    head_or_tail :
        (r m : ℕ)
        → opens v a ≡ true
        → ((r ≡ v.prot) × (m ≡ size v)) ⊎ FoundIn vs a r m
        → FoundIn (v ∷ vs) a r m
    head_or_tail r m o (inl (e, f)) = rw (e, f) (Found-head v vs a o)
    head_or_tail r m o (inr found) = Found-tail v vs a r m found

    extend :
        {out out' : Option ℕ}
        → opens v a ≡ false
        → out ≡ out'
        → NoneOrFound vs a out'
        → NoneOrFound (v ∷ vs) a out
    extend closed e (inl (n, rest)) =
        inl (e ∙ n, elim [ zero ↦ λ h. closed | suc k ↦ λ h. rest k (omega arith) ])
    extend closed e (inr (r, m, f, least, found)) =
        inr (r, m, e ∙ f, Least-cons v vs a m (λ o. absurd (cc)) least, Found-tail v vs a r m found)

-- vma_check answers none exactly where no region permits access, and otherwise the protection
-- of an accessible region over the address that no accessible region over it is smaller than.
pub vma_check_lem :
    (st : VmState) (a : ℕ)
    → ((vma_check st a ≡ none) × Closed st.vmas a)
      ⊎ ((r : ℕ) × (m : ℕ) × (vma_check st a ≡ some r)
          × Least st.vmas a m
          × ((j : ℕ) × Found st.vmas a r m j))
unfolding vma_check
vma_check_lem st a = loop_none st.vmas a usize_max
