-- ===== src/Mm/Pmm.antt =====
-- kernel/src/mm/pmm.rs: the physical frame allocator. Addresses and frame numbers are `usize`:
-- sums and products wrap at 2 ^ 64, as in a release build. Console output is left out.
pub mod Layout
pub mod Alloc
pub mod Contiguous
pub mod Dealloc
use karte_os.Base.{
  ℕ, zero, suc, ◌+◌, ◌-◌, ◌*◌, ◌/◌, ◌%◌, ◌≤◌, ◌<◌, ◌^◌, ◌≡◌, Bool, true, ◌&&◌, Option, none, some,
  List, if◌then◌else◌, ltb, leb, ◌==◌, length, replicate,
}
use karte_os.Base.Words.{add_usize, sub_usize, mul_usize, page_up}
use karte_os.Mm.Bitmap.{is_free, mark, unmark}

abbrev pub page_size : ℕ
page_size = 4096

pub record FrameAllocator : Type 0 where
  pub start : ℕ
  pub bitmap : List ℕ
  pub total_frames : ℕ
  pub next_free : ℕ

-- The linker symbol `_ekernel`, MEMORY_START and MEMORY_SIZE are arguments.
pub new : ℕ → ℕ → ℕ → FrameAllocator
new kernel_end memory_start memory_size =
    let start = page_up kernel_end in
    let end = add_usize memory_start memory_size in
    let total_frames = sub_usize end start / page_size in
    let bitmap_words = add_usize total_frames 63 / 64 in
    let bitmap_size = mul_usize bitmap_words 8 in
    let managed_start = page_up (add_usize start bitmap_size) in
    record {
      start = managed_start;
      bitmap = replicate bitmap_words 0;
      total_frames = sub_usize end managed_start / page_size;
      next_free = 0;
    }

-- What both loops of `alloc` do with a free frame.
unfoldable pub take_frame : FrameAllocator → ℕ → ℕ × FrameAllocator
take_frame a i = (
  add_usize a.start (mul_usize i page_size),
  record a { bitmap = mark a.bitmap i; next_free = add_usize i 1 },
)

-- `for i in i..i + n { ... }`
unfoldable pub alloc_scan : FrameAllocator → ℕ → ℕ → Option (ℕ × FrameAllocator)
alloc_scan a i zero = none
alloc_scan a i (suc n) =
    let rest = alloc_scan a (i + 1) n in if is_free a.bitmap i then some (take_frame a i) else rest

unfoldable pub alloc : FrameAllocator → Option (ℕ × FrameAllocator)
alloc a = elim (alloc_scan a a.next_free (a.total_frames - a.next_free)) [
  | some r ↦ some r
  | none ↦ alloc_scan a 0 a.next_free
]

-- `for j in j..j + n { bitmap[j / 64] |= ... }`
unfoldable pub mark_run : List ℕ → ℕ → ℕ → List ℕ
mark_run bitmap j zero = bitmap
mark_run bitmap j (suc n) = mark_run (mark bitmap j) (j + 1) n

unfoldable pub take_run : FrameAllocator → ℕ → ℕ → ℕ × FrameAllocator
take_run a run_start count = (
  add_usize a.start (mul_usize run_start page_size),
  record a { bitmap = mark_run a.bitmap run_start count; next_free = add_usize run_start count },
)

unfoldable pub contiguous_scan : FrameAllocator → ℕ → ℕ → ℕ → ℕ → ℕ → Option (ℕ × FrameAllocator)
contiguous_scan a count i zero run_start run_length = none
contiguous_scan a count i (suc n) run_start run_length =
    let run_start' = if run_length == 0 then i else run_start in
    let longer = contiguous_scan a count (i + 1) n run_start' (run_length + 1) in
    let reset = contiguous_scan a count (i + 1) n run_start 0 in
    if is_free a.bitmap i
    then (if (run_length + 1) == count then some (take_run a run_start' count) else longer)
    else reset

unfoldable pub alloc_contiguous : FrameAllocator → ℕ → Option (ℕ × FrameAllocator)
alloc_contiguous a count = if count == 0 then none else contiguous_scan a count 0 a.total_frames 0 0

-- `(frame - self.start) / PAGE_SIZE`
abbrev pub frame_index : FrameAllocator → ℕ → ℕ
frame_index a frame = sub_usize frame a.start / page_size

pub dealloc : FrameAllocator → ℕ → FrameAllocator
dealloc a frame =
    let idx = frame_index a frame in
    if ltb idx a.total_frames
    then record a {
      bitmap = unmark a.bitmap idx;
      next_free = if ltb idx a.next_free then idx else a.next_free;
    }
    else a

-- `addr >= MEMORY_START && addr < MEMORY_START + MEMORY_SIZE`
pub is_ram_frame : ℕ → ℕ → ℕ → Bool
is_ram_frame memory_start memory_size addr =
    leb memory_start addr && ltb addr (add_usize memory_start memory_size)

count_used : List ℕ → ℕ → ℕ
count_used bitmap zero = 0
count_used bitmap (suc n) = count_used bitmap n + (if is_free bitmap n then 0 else 1)

-- (total_frames, used, next_free) of an initialised allocator.
pub debug_stats : FrameAllocator → ℕ × ℕ × ℕ
debug_stats a = (a.total_frames, count_used a.bitmap a.total_frames, a.next_free)

-- The representation invariant: the bitmap has a bit for each frame, the search hint is in
-- range, and the frames are aligned and inside the address space.
pub record IsValid (a : FrameAllocator) : Type 0 where
  pub bits : a.total_frames ≤ 64 * length a.bitmap
  pub hint : a.next_free ≤ a.total_frames
  pub aligned : a.start % 4096 ≡ 0
  pub space : a.start + a.total_frames * 4096 < 2 ^ 64
