-- ===== src/Mm/Pmm/Contiguous.antt =====
-- FrameAllocator::alloc_contiguous of kernel/src/mm/pmm.rs: runs of frames.
use mathlib.Core.Path.{subst}
use mathlib.Core.Option.{some-injective}
use karte_os.Base.{
  ℕ, zero, suc, ◌+◌, ◌*◌, ◌≤◌, ◌<◌, ◌≡◌, ◌≢◌, refl, ◌∙◌, ◌⊎◌, inl, inr, Bool, true, false, none,
  some, List, ◌==◌, ltb, leb, ◌&&◌, if◌then◌else◌, Bool-cases, arith, length,
}
use karte_os.Mm.Bitmap.{is_free, mark, is_free-mark, length-mark}
use karte_os.Mm.Pmm.{FrameAllocator, IsValid, mark_run, take_run, contiguous_scan, alloc_contiguous}

-- Is frame `j` one of the `count` frames from `r` on?
abbrev pub in_run : ℕ → ℕ → ℕ → Bool
in_run r count j = leb r j && ltb j (r + count)

length-mark_run : (bm : List ℕ) (r n : ℕ) → length (mark_run bm r n) ≡ length bm
unfolding mark_run
length-mark_run bm r zero = refl
length-mark_run bm r (suc n) = length-mark_run (mark bm r) (r + 1) n ∙ length-mark bm r

is_free-mark_run :
    (bm : List ℕ) (r n j : ℕ)
    → r + n ≤ 64 * length bm
    → is_free (mark_run bm r n) j ≡ (if in_run r n j then false else is_free bm j)
unfolding mark_run
is_free-mark_run bm r zero j h = ground arith
is_free-mark_run bm r (suc n) j h = ground (
  arith,
  is_free-mark_run (mark bm r) (r + 1) n j (omega (arith, length-mark bm r)),
  is_free-mark bm r j (omega arith),
)

-- The `count` frames from `r` on have been handed out at `addr`; `b` is the allocator afterwards.
pub record HandsRun (a : FrameAllocator) (count r addr : ℕ) (b : FrameAllocator) : Type 0 where
  pub in_range : r + count ≤ a.total_frames
  pub were_free : (j : ℕ) → r ≤ j → j < r + count → is_free a.bitmap j ≡ true
  pub address : addr ≡ a.start + r * 4096
  pub total_kept : b.total_frames ≡ a.total_frames
  pub marked :
      (j : ℕ) → is_free b.bitmap j ≡ (if in_run r count j then false else is_free a.bitmap j)
  pub valid : IsValid b

take_run-HandsRun :
    (a : FrameAllocator) (count r : ℕ)
    → IsValid a
    → 0 < count
    → r + count ≤ a.total_frames
    → ((j : ℕ) → r ≤ j → j < r + count → is_free a.bitmap j ≡ true)
    → HandsRun a count r (take_run a r count).0 (take_run a r count).1
unfolding take_run
take_run-HandsRun a count r v pos h free = record {
  in_range = h;
  were_free = free;
  address = omega arith;
  total_kept = refl;
  marked = λ j. is_free-mark_run a.bitmap r count j (omega arith);
  valid = record {
    bits = omega (arith, length-mark_run a.bitmap r count);
    hint = omega arith;
    aligned = v.aligned;
    space = v.space;
  };
}

-- What the scan knows at frame `i`: the last `len` frames are free and start at `r`.
record Scanned (a : FrameAllocator) (count i r len : ℕ) : Type 0 where
  short : len < count
  run : (len ≡ 0) ⊎ (r + len ≡ i)
  free : (j : ℕ) → r ≤ j → j < r + len → is_free a.bitmap j ≡ true

scan-HandsRun :
    (a : FrameAllocator) (count i n r len addr : ℕ) (b : FrameAllocator)
    → IsValid a
    → i + n ≤ a.total_frames
    → Scanned a count i r len
    → contiguous_scan a count i n r len ≡ some (addr, b)
    → (k : ℕ) × HandsRun a count k addr b
unfolding contiguous_scan
scan-HandsRun a count i zero r len addr b v h s e = absurd (ground arith)
scan-HandsRun a count i (suc n) r len addr b v h s e = elim (Bool-cases (is_free a.bitmap i)) [
  | inl free ↦
      let r' : ℕ = if len == 0 then i else r in
      let now : (j : ℕ) → r' ≤ j → j < r' + (len + 1) → is_free a.bitmap j ≡ true =
        λ j p q. ground (arith, free, s.free j, s.run, Bool-cases (i == j)) in
      let start : r' + len ≡ i = ground (arith, s.run) in
      elim (Bool-cases ((len + 1) == count)) [
        | inl full ↦
            let e' : some (take_run a r' count) ≡ some (addr, b) = ground arith in
            let taken : HandsRun a count r' (take_run a r' count).0 (take_run a r' count).1 =
              take_run-HandsRun a count r' v (ground (arith, s.short)) (ground arith)
                (λ j p q. now j p (ground arith)) in
            (r', subst (λ q. HandsRun a count r' q.0 q.1) (some-injective _ _ e') taken)
        | inr more ↦
            scan-HandsRun a count (i + 1) n r' (len + 1) addr b v (omega arith)
              (record { short = ground (arith, s.short); run = inr (omega arith); free = now })
              (ground arith)
      ]
  | inr used ↦
      scan-HandsRun a count (i + 1) n r 0 addr b v (omega arith)
        (record {
          short = omega (arith, s.short);
          run = inl refl;
          free = λ j p q. absurd (omega arith);
        })
        (ground arith)
]

-- A scan that fails has passed no run of `count` free frames.
scan_finds :
    (a : FrameAllocator) (count i n r len k : ℕ)
    → len < count
    → i ≤ k + len
    → k + count ≤ i + n
    → ((j : ℕ) → k ≤ j → j < k + count → is_free a.bitmap j ≡ true)
    → contiguous_scan a count i n r len ≢ none
unfolding contiguous_scan
scan_finds a count i zero r len k short lo hi free = absurd (omega arith)
scan_finds a count i (suc n) r len k short lo hi free = elim (Bool-cases (is_free a.bitmap i)) [
  | inl here ↦ elim (Bool-cases ((len + 1) == count)) [
    | inl full ↦ ground arith
    | inr more ↦
        let later : contiguous_scan a count (i + 1) n (if len == 0 then i else r) (len + 1) ≢ none =
          scan_finds a count (i + 1) n (if len == 0 then i else r) (len + 1) k (ground arith)
            (omega arith) (omega arith) free in
        ground (arith, later)
  ]
  | inr used ↦
      let past : i < k = ground (arith, free i) in
      let later : contiguous_scan a count (i + 1) n r 0 ≢ none =
        scan_finds a count (i + 1) n r 0 k (omega arith) (omega arith) (omega arith) free in
      ground (arith, later)
]

-- A result of alloc_contiguous on a valid allocator is a run of free managed frames of the
-- length asked for: exactly these are marked, and the allocator is valid afterwards.
pub alloc_contiguous-HandsRun :
    (a : FrameAllocator) (count addr : ℕ) (b : FrameAllocator)
    → IsValid a
    → alloc_contiguous a count ≡ some (addr, b)
    → (r : ℕ) × HandsRun a count r addr b
unfolding alloc_contiguous
alloc_contiguous-HandsRun a count addr b v e =
    scan-HandsRun a count 0 a.total_frames 0 0 addr b v (omega arith)
      (record { short = ground arith; run = inl refl; free = λ j p q. absurd (omega arith) })
      (ground arith)

-- Where a run of free managed frames of a length above 0 exists, alloc_contiguous answers some
-- address for that length.
pub alloc_contiguous_finds :
    (a : FrameAllocator) (count k : ℕ)
    → 0 < count
    → k + count ≤ a.total_frames
    → ((j : ℕ) → k ≤ j → j < k + count → is_free a.bitmap j ≡ true)
    → alloc_contiguous a count ≢ none
unfolding alloc_contiguous
alloc_contiguous_finds a count k pos h free =
    let found = scan_finds a count 0 a.total_frames 0 0 k pos (omega arith) (omega arith) free in
    ground (arith, found)
