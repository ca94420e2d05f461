-- ===== src/Mm/Pmm/Alloc.antt =====
-- FrameAllocator::alloc of kernel/src/mm/pmm.rs: which frame it hands out, and when it fails.
use karte_os.Base.{
  ℕ, zero, suc, ◌+◌, ◌-◌, ◌*◌, ◌≤◌, ◌<◌, ◌≡◌, refl, ◌↔◌, inl, inr, true, false, none, some, ◌==◌,
  if◌then◌else◌, Bool-cases, Option-cases, arith, List,
}
use mathlib.Core.Path.{subst}
use mathlib.Core.Option.{some-injective}
use karte_os.Mm.Bitmap.{is_free, is_free-mark, length-mark}
use karte_os.Mm.Pmm.{
  FrameAllocator, IsValid, take_frame, alloc_scan, alloc, count_used, debug_stats,
}

-- Frame `i` of `a` has been handed out at `addr`, and `b` is the allocator afterwards.
pub record Hands (a : FrameAllocator) (i addr : ℕ) (b : FrameAllocator) : Type 0 where
  pub in_range : i < a.total_frames
  pub was_free : is_free a.bitmap i ≡ true
  pub address : addr ≡ a.start + i * 4096
  pub start_kept : b.start ≡ a.start
  pub total_kept : b.total_frames ≡ a.total_frames
  pub marked : (j : ℕ) → is_free b.bitmap j ≡ (if i == j then false else is_free a.bitmap j)
  pub valid : IsValid b

take_frame-Hands :
    (a : FrameAllocator) (i : ℕ)
    → IsValid a
    → i < a.total_frames
    → is_free a.bitmap i ≡ true
    → Hands a i (take_frame a i).0 (take_frame a i).1
unfolding take_frame
take_frame-Hands a i v h e = record {
  in_range = h;
  was_free = e;
  address = omega arith;
  start_kept = refl;
  total_kept = refl;
  marked = λ j. is_free-mark a.bitmap i j (omega arith);
  valid = record {
    bits = omega (arith, length-mark a.bitmap i);
    hint = omega arith;
    aligned = v.aligned;
    space = v.space;
  };
}

-- Equal results: what is handed out is what the branch says.
pub Hands-of_eq :
    (a : FrameAllocator) (i addr : ℕ) (b : FrameAllocator) (r : ℕ × FrameAllocator)
    → Hands a i r.0 r.1
    → some r ≡ some (addr, b)
    → Hands a i addr b
Hands-of_eq a i addr b r h e = subst (λ r. Hands a i r.0 r.1) (some-injective _ _ e) h

scan-Hands :
    (a : FrameAllocator) (i n addr : ℕ) (b : FrameAllocator)
    → IsValid a
    → i + n ≤ a.total_frames
    → alloc_scan a i n ≡ some (addr, b)
    → (k : ℕ) × Hands a k addr b
unfolding alloc_scan
scan-Hands a i zero addr b v h e = absurd (ground arith)
scan-Hands a i (suc n) addr b v h e = elim (Bool-cases (is_free a.bitmap i)) [
  | inl free ↦
      (i, Hands-of_eq a i addr b _ (take_frame-Hands a i v (omega arith) free) (ground arith))
  | inr used ↦ scan-Hands a (i + 1) n addr b v (omega arith) (ground arith)
]

scan-none :
    (a : FrameAllocator) (i n j : ℕ)
    → alloc_scan a i n ≡ none
    → i ≤ j
    → j < i + n
    → is_free a.bitmap j ≡ false
unfolding alloc_scan
scan-none a i zero j e p q = absurd (omega arith)
scan-none a i (suc n) j e p q = ground (arith, scan-none a (i + 1) n j, Bool-cases (i == j))

scan_full :
    (a : FrameAllocator) (i n : ℕ)
    → ((j : ℕ) → i ≤ j → j < i + n → is_free a.bitmap j ≡ false)
    → alloc_scan a i n ≡ none
unfolding alloc_scan
scan_full a i zero full = refl
scan_full a i (suc n) full =
    ground (arith, full i, scan_full a (i + 1) n (λ j p q. full j (omega arith) (omega arith)))

-- A result of alloc on a valid allocator is one managed frame that was free: its address is
-- that of the frame, it is now marked, every other frame keeps its state, and the allocator is
-- valid afterwards.
pub alloc-Hands :
    (a : FrameAllocator) (addr : ℕ) (b : FrameAllocator)
    → IsValid a
    → alloc a ≡ some (addr, b)
    → (i : ℕ) × Hands a i addr b
unfolding alloc
alloc-Hands a addr b v e =
    elim (Option-cases (alloc_scan a a.next_free (a.total_frames - a.next_free))) [
      | inl fails ↦ scan-Hands a 0 a.next_free addr b v (omega arith) (ground arith)
      | inr (r, finds) ↦
          scan-Hands a a.next_free (a.total_frames - a.next_free) addr b v (omega arith)
            (ground arith)
    ]

-- alloc on a valid allocator fails exactly when no managed frame is free, wherever the search
-- hint stands.
pub alloc-none :
    (a : FrameAllocator)
    → IsValid a
    → (alloc a ≡ none) ↔ ((j : ℕ) → j < a.total_frames → is_free a.bitmap j ≡ false)
unfolding alloc
alloc-none a v = (
  λ e j h. ground (
    arith,
    scan-none a a.next_free (a.total_frames - a.next_free) j,
    scan-none a 0 a.next_free j,
  ),
  λ full. ground (
    arith,
    scan_full a a.next_free (a.total_frames - a.next_free) (λ j p q. full j (omega arith)),
    scan_full a 0 a.next_free (λ j p q. full j (omega arith)),
  ),
)

count_below :
    (bm bm' : List ℕ) (i n : ℕ)
    → n ≤ i
    → ((j : ℕ) → is_free bm' j ≡ (if i == j then false else is_free bm j))
    → count_used bm' n ≡ count_used bm n
unfolding count_used
count_below bm bm' i zero h law = refl
count_below bm bm' i (suc n) h law = ground (arith, law n, count_below bm bm' i n (omega arith) law)

count_used-mark :
    (bm bm' : List ℕ) (i n : ℕ)
    → i < n
    → is_free bm i ≡ true
    → ((j : ℕ) → is_free bm' j ≡ (if i == j then false else is_free bm j))
    → count_used bm' n ≡ count_used bm n + 1
unfolding count_used
count_used-mark bm bm' i zero h free law = elim h [ ]
count_used-mark bm bm' i (suc n) h free law = elim (Bool-cases (i == n)) [
  | inl here ↦ ground (arith, law n, count_below bm bm' i n (ground arith) law)
  | inr before ↦ ground (arith, law n, count_used-mark bm bm' i n (ground arith) free law)
]

-- After a successful alloc on a valid allocator, debug_stats reports one more used frame of the
-- same total.
pub debug_stats-alloc :
    (a : FrameAllocator) (addr : ℕ) (b : FrameAllocator)
    → IsValid a
    → alloc a ≡ some (addr, b)
    → ((debug_stats b).0 ≡ (debug_stats a).0) × ((debug_stats b).1 ≡ (debug_stats a).1 + 1)
unfolding debug_stats
debug_stats-alloc a addr b v e =
    let (i, h) = alloc-Hands a addr b v e in
    (
      h.total_kept,
      rw h.total_kept
          (count_used-mark a.bitmap b.bitmap i a.total_frames h.in_range h.was_free h.marked),
    )
