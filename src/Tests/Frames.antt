-- ===== src/Tests/Frames.antt =====
-- The frame allocator at concrete inputs.
use karte_os.Base.{ℕ, ◌+◌, [], ◌∷◌, ◌≡◌, refl, some, arith}
use karte_os.Mm.Bitmap.{is_free, mark}
use karte_os.Mm.Pmm.{
  FrameAllocator, IsValid, new, alloc, alloc_scan, take_frame, alloc_contiguous, contiguous_scan,
  take_run, mark_run,
}
use karte_os.Mm.Pmm.Alloc.{Hands, alloc-Hands}
use karte_os.Mm.Pmm.Contiguous.{HandsRun, alloc_contiguous-HandsRun}
use karte_os.Mm.Pmm.Layout.{Fresh, new-Fresh}

-- Four frames from 0x10000 on; frame 0 is in use.
abbrev four : FrameAllocator
four = record { start = 65536; bitmap = 1 ∷ []; total_frames = 4; next_free = 0 }

four-IsValid : IsValid four
four-IsValid = record {
  bits = omega arith;
  hint = omega arith;
  aligned = refl;
  space = omega arith;
}

abbrev three : FrameAllocator
three = record { start = 65536; bitmap = 3 ∷ []; total_frames = 4; next_free = 2 }

abbrev two : FrameAllocator
two = record { start = 65536; bitmap = 7 ∷ []; total_frames = 4; next_free = 3 }

alloc-four : alloc four ≡ some (69632, three)
unfolding alloc alloc_scan take_frame is_free mark
alloc-four = refl

alloc-Hands_example : (i : ℕ) × Hands four i 69632 three
alloc-Hands_example = alloc-Hands four 69632 three four-IsValid alloc-four

-- A run of two.
run_of_two : alloc_contiguous four 2 ≡ some (69632, record four { bitmap = 7 ∷ []; next_free = 3 })
unfolding alloc_contiguous contiguous_scan take_run mark_run is_free mark
run_of_two = refl

alloc_contiguous-HandsRun_example : (r : ℕ) × HandsRun four 2 r 69632 two
alloc_contiguous-HandsRun_example =
    alloc_contiguous-HandsRun four 2 69632 two four-IsValid run_of_two

-- A kernel that ends at 0x80312345 in 128 MB from 0x80000000 on.
new-Fresh_example : Fresh 2150703941 (2147483648 + 134217728) (new 2150703941 2147483648 134217728)
new-Fresh_example = new-Fresh 2150703941 2147483648 134217728 (omega arith) (omega arith)
