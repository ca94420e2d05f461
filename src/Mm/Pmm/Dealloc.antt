-- ===== src/Mm/Pmm/Dealloc.antt =====
-- FrameAllocator::dealloc of kernel/src/mm/pmm.rs: what it frees, and what it ignores.
use karte_os.Base.{
  ℕ, ◌+◌, ◌*◌, ◌^◌, ◌≤◌, ◌<◌, ◌≡◌, ◌≢◌, ◌∙◌, ◌⊎◌, true, some, ◌==◌, if◌then◌else◌, arith,
}
use karte_os.Mm.Bitmap.{is_free, is_free-unmark, length-unmark}
use karte_os.Mm.Pmm.{FrameAllocator, IsValid, frame_index, alloc, dealloc}
use karte_os.Mm.Pmm.Alloc.{alloc-Hands}

-- dealloc on a valid allocator, of an address inside a managed frame, frees that frame and no
-- other.
pub is_free-dealloc :
    (a : FrameAllocator) (i frame j : ℕ)
    → IsValid a
    → i < a.total_frames
    → a.start + i * 4096 ≤ frame
    → frame < a.start + i * 4096 + 4096
    → is_free (dealloc a frame).bitmap j ≡ (if i == j then true else is_free a.bitmap j)
unfolding dealloc
is_free-dealloc a i frame j v h lo hi =
    let e : frame_index a frame ≡ i = omega arith in
    rw (e, dealloc) (ground (arith, is_free-unmark a.bitmap i j (omega arith)))

-- An address outside the managed frames, below or above them, is ignored.
pub dealloc_foreign :
    (a : FrameAllocator) (frame : ℕ)
    → IsValid a
    → frame < 2 ^ 64
    → (frame < a.start) ⊎ (a.start + a.total_frames * 4096 ≤ frame)
    → dealloc a frame ≡ a
unfolding dealloc
dealloc_foreign a frame v word out =
    let big : a.total_frames ≤ frame_index a frame = omega arith in ground arith

-- Every `dealloc`, of whatever address, keeps the invariant.
pub dealloc-IsValid : (a : FrameAllocator) (frame : ℕ) → IsValid a → IsValid (dealloc a frame)
unfolding dealloc
dealloc-IsValid a frame v = ground (arith, length-unmark a.bitmap (frame_index a frame))

-- After a successful alloc on a valid allocator, dealloc of the address restores the state of
-- every frame.
pub dealloc-alloc :
    (a : FrameAllocator) (addr : ℕ) (b : FrameAllocator)
    → IsValid a
    → alloc a ≡ some (addr, b)
    → (j : ℕ) → is_free (dealloc b addr).bitmap j ≡ is_free a.bitmap j
dealloc-alloc a addr b v e j =
    let (i, h) = alloc-Hands a addr b v e in
    is_free-dealloc b i addr j h.valid (omega (arith, h.in_range, h.total_kept))
      (omega (arith, h.address, h.start_kept)) (omega (arith, h.address, h.start_kept))
    ∙ ground (arith, h.marked j, h.was_free)

-- Two successful allocations in a row, the first on a valid allocator, answer different
-- addresses.
pub alloc_twice :
    (a : FrameAllocator) (x y : ℕ) (b c : FrameAllocator)
    → IsValid a
    → alloc a ≡ some (x, b)
    → alloc b ≡ some (y, c)
    → x ≢ y
alloc_twice a x y b c v e f =
    let (i, h) = alloc-Hands a x b v e in
    let (k, g) = alloc-Hands b y c h.valid f in
    λ same.
      let eq : i ≡ k = omega (arith, h.address, g.address, h.start_kept, same) in
      ground (arith, h.marked k, g.was_free, eq)
