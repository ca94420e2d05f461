-- ===== src/Tests/RangeLocks.antt =====
-- Byte-range locks at concrete inputs.
use mathlib.Core.List.Memᴰ.{cases_cons}
use karte_os.Base.{List, [], ◌∷◌, some, ◌≡◌, ◌↔◌, refl, inl, inr}
use karte_os.Base.Int.{pos}
use karte_os.Driver.RecordLocks.{
  Flock, FileLock, f_unlck, f_getlk, f_setlk, conflicts, ranges_overlap, fcntl_lock_op,
  release_fd_locks,
}
use karte_os.Driver.RecordLocks.Sharing.{IsValid, fcntl_lock_op-IsValid}
use karte_os.Driver.RecordLocks.Query.{getlk_foretells}

-- A shared lock of bytes 0 to 9 of file 12, held through descriptor 4.
abbrev held : List FileLock
held = record { owner_fd = 4; inode = 12; lock_type = 0; start = 0; end = 10 } ∷ []

held-IsValid : IsValid held
unfolding conflicts ranges_overlap
held-IsValid = record {
  apart = λ a b m k. elim (cases_cons m) [
    | inl e ↦ elim (cases_cons k) [ inl f ↦ rw (e, f) refl | inr n ↦ elim n [ ] ]
    | inr n ↦ elim n [ ]
  ];
  granted = λ a m. elim (cases_cons m) [ inl e ↦ rw e refl | inr n ↦ elim n [ ] ];
}

-- An exclusive lock of bytes 5 to 6.
abbrev wanted : Flock
wanted = record { l_type = 1; l_whence = 0; l_start = 5; l_len = 2; l_pid = 0 }

fcntl_lock_op-IsValid_example :
    IsValid (fcntl_lock_op held held f_setlk 6 12 wanted).2 × IsValid (release_fd_locks held 6)
fcntl_lock_op-IsValid_example =
    fcntl_lock_op-IsValid held held f_setlk 6 12 wanted held-IsValid held-IsValid

getlk_foretells_example :
    ((fcntl_lock_op held held f_getlk 6 12 wanted).1 ≡ some (record wanted { l_type = f_unlck }))
    ↔ ((fcntl_lock_op held held f_setlk 6 12 wanted).0 ≡ pos 0)
getlk_foretells_example = getlk_foretells held held 6 12 wanted held-IsValid refl
