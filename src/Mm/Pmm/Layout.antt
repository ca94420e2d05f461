-- ===== src/Mm/Pmm/Layout.antt =====
-- FrameAllocator::new of kernel/src/mm/pmm.rs: where the bitmap and the frames lie.
use karte_os.Base.{
  ℕ, ◌+◌, ◌-◌, ◌*◌, ◌/◌, ◌%◌, ◌^◌, ◌≤◌, ◌<◌, ◌≡◌, refl, sym, ap, ◌∙◌, true, arith, length,
  length-replicate, replicate,
}
use mathlib.Core.Path.{subst}
use karte_os.Base.Words.{page_up, page_up_lem, add_usize, sub_usize, mul_usize}
use karte_os.Mm.Bitmap.{is_free, is_free-cleared}
use karte_os.Mm.Pmm.{FrameAllocator, IsValid, page_size, new}

-- What a fresh allocator promises: the bitmap lies between the kernel and the first managed frame,
-- the frames lie in RAM, and all are free.
pub record Fresh (kernel_end end : ℕ) (a : FrameAllocator) : Type 0 where
  pub valid : IsValid a
  pub bitmap_place : page_up kernel_end + 8 * length a.bitmap ≤ a.start
  pub after_kernel : kernel_end ≤ page_up kernel_end
  pub in_ram : a.start + a.total_frames * 4096 ≤ end
  pub no_page_lost : end < a.start + a.total_frames * 4096 + 4096
  pub all_free : (j : ℕ) → is_free a.bitmap j ≡ true

-- The arithmetic of `new`, with each rounded address written out.
module _ (k e : ℕ) (small : e < 2 ^ 63) (room : k + e / 4096 / 8 + 3 * 4096 ≤ e) where
  abbrev bitmap_start : ℕ
  bitmap_start = (k + 4095) / 4096 * 4096

  abbrev words : ℕ
  words = ((e - bitmap_start) / 4096 + 63) / 64

  abbrev managed_start : ℕ
  managed_start = (bitmap_start + words * 8 + 4095) / 4096 * 4096

  start_lem : page_up k ≡ bitmap_start
  start_lem = page_up_lem k (omega arith)

  words_lem : add_usize (sub_usize (e % 2 ^ 64) bitmap_start / page_size) 63 / 64 ≡ words
  words_lem = omega arith

  managed_lem : page_up (add_usize bitmap_start (mul_usize words 8)) ≡ managed_start
  managed_lem = page_up_lem (add_usize bitmap_start (mul_usize words 8)) (omega arith) ∙ omega arith

  fits : managed_start ≤ e
  fits = omega arith

  -- With the roundings in place, `new` is this record.
  new_lem :
      (m s : ℕ)
      → m + s ≡ e
      → new k m s ≡ record {
        start = managed_start;
        bitmap = replicate words 0;
        total_frames = (e - managed_start) / 4096;
        next_free = 0;
      }
  unfolding new
  new_lem m s h = rw (h, start_lem, words_lem, managed_lem) (ap with_frames (omega arith))
    where
      with_frames : ℕ → FrameAllocator
      with_frames t = record {
        start = managed_start;
        bitmap = replicate words 0;
        total_frames = t;
        next_free = 0;
      }

  layout-Fresh : Fresh k e (record {
    start = managed_start;
    bitmap = replicate words 0;
    total_frames = (e - managed_start) / 4096;
    next_free = 0;
  })
  layout-Fresh = record {
    valid = record {
      bits = omega (arith, length-replicate {A = ℕ} words 0);
      hint = omega arith;
      aligned = omega arith;
      space = omega arith;
    };
    bitmap_place = omega (arith, length-replicate {A = ℕ} words 0, start_lem);
    after_kernel = omega (arith, start_lem);
    in_ram = omega (arith, fits);
    no_page_lost = omega (arith, fits);
    all_free = λ j. is_free-cleared words j;
  }

-- Where RAM is below 2 ^ 63 and holds the kernel, its bitmap and three pages of rounding, new
-- gives a valid allocator of free frames in RAM behind the kernel and the bitmap, less than a
-- page of RAM being left over.
pub new-Fresh :
    (kernel_end memory_start memory_size : ℕ)
    → memory_start + memory_size < 2 ^ 63
    → kernel_end + (memory_start + memory_size) / 4096 / 8 + 3 * 4096 ≤ memory_start + memory_size
    → Fresh kernel_end (memory_start + memory_size) (new kernel_end memory_start memory_size)
new-Fresh k m s small room =
    subst (Fresh k (m + s)) (sym (new_lem k (m + s) small room m s refl))
      (layout-Fresh k (m + s) small room)
