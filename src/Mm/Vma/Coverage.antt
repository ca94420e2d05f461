-- ===== src/Mm/Vma/Coverage.antt =====
-- How many regions of kernel/src/mm/vma.rs cover an address with a given protection, and what the
-- writes of that file do to the number.
use karte_os.Base.{
  ℕ, zero, suc, ◌+◌, ◌<◌, Bool, true, false, ◌&&◌, List, [], ◌∷◌, ◌≡◌, refl, ◌==◌, ltb, leb,
  if◌then◌else◌, get_or, set, length, arith, if_cases,
}
use karte_os.Mm.Vma.{VmaRegion, empty, covers, take_slot, insert_vma}

-- 1 if the region covers `a` with protection `p`.
abbrev pub hits : VmaRegion → ℕ → ℕ → ℕ
hits v a p = if covers v a && v.prot == p then 1 else 0

abbrev pub count : List VmaRegion → ℕ → ℕ → ℕ
count [] a p = 0
count (v ∷ vs) a p = hits v a p + count vs a p

-- Is `a` in [start, end)?
abbrev pub within : ℕ → ℕ → ℕ → Bool
within start end a = leb start a && ltb a end

pub count-set :
    (vs : List VmaRegion) (i : ℕ) (v : VmaRegion) (a p : ℕ)
    → i < length vs
    → count (set vs i v) a p + hits (get_or vs i empty) a p ≡ count vs a p + hits v a p
count-set [] i v a p h = absurd (omega arith)
count-set (x ∷ vs) zero v a p h = omega arith
count-set (x ∷ vs) (suc i) v a p h = omega (arith, count-set vs i v a p (omega arith))

-- Nothing covers `a` if no descriptor does.
pub count-none :
    (vs : List VmaRegion) (a p : ℕ)
    → ((j : ℕ) → j < length vs → hits (get_or vs j empty) a p ≡ 0)
    → count vs a p ≡ 0
count-none [] a p h = refl
count-none (v ∷ vs) a p h =
    omega (arith, h 0 (omega arith), count-none vs a p (λ j hj. h (suc j) (omega arith)))

length-take_slot : (vs : List VmaRegion) (r : VmaRegion) → length (take_slot vs r).1 ≡ length vs
unfolding take_slot
length-take_slot [] r = refl
length-take_slot (v ∷ vs) r = ground (arith, length-take_slot vs r)

count-take_slot :
    (vs : List VmaRegion) (r : VmaRegion) (a p : ℕ)
    → (take_slot vs r).0 ≡ true
    → count (take_slot vs r).1 a p ≡ count vs a p + hits r a p
unfolding take_slot
count-take_slot [] r a p h = cc
count-take_slot (v ∷ vs) r a p h = ground (arith, count-take_slot vs r a p)

-- A descriptor that does not cover `a` still does not, if the new region does not.
take_slot-misses :
    (vs : List VmaRegion) (r : VmaRegion) (a p j : ℕ)
    → hits r a p ≡ 0
    → hits (get_or vs j empty) a p ≡ 0
    → hits (get_or (take_slot vs r).1 j empty) a p ≡ 0
unfolding take_slot
take_slot-misses [] r a p j h k = k
take_slot-misses (v ∷ vs) r a p zero h k = ground arith
take_slot-misses (v ∷ vs) r a p (suc j) h k = ground (arith, take_slot-misses vs r a p j h)

abbrev pub region : ℕ → ℕ → ℕ → VmaRegion
region start end prot = record { start = start; end = end; prot = prot; active = true }

pub length-insert_vma :
    (vs : List VmaRegion) (s e q : ℕ) → length (insert_vma vs s e q).1 ≡ length vs
unfolding insert_vma
length-insert_vma vs s e q = ground (arith, length-take_slot vs (region s e q))

-- `insert_vma` adds its range, and nothing else.
pub count-insert_vma :
    (vs : List VmaRegion) (s e q a p : ℕ)
    → (insert_vma vs s e q).0 ≡ true
    → count (insert_vma vs s e q).1 a p ≡ count vs a p + (if within s e a && q == p then 1 else 0)
unfolding insert_vma
count-insert_vma vs s e q a p h = ground (arith, count-take_slot vs (region s e q) a p)

pub insert_vma-misses :
    (vs : List VmaRegion) (s e q a p j : ℕ)
    → within s e a ≡ false
    → hits (get_or vs j empty) a p ≡ 0
    → hits (get_or (insert_vma vs s e q).1 j empty) a p ≡ 0
unfolding insert_vma
insert_vma-misses vs s e q a p j out k =
    if_cases {A = Bool × List VmaRegion} (λ r. hits (get_or r.1 j empty) a p ≡ 0) (leb e s) _ _
      (λ _. k) (λ _. take_slot-misses vs (region s e q) a p j (ground arith) k)
