-- ===== src/Driver/RecordLocks/Query.antt =====
-- F_GETLK of fcntl_lock_op in kernel/src/driver/fs.rs against F_SETLK.
use mathlib.Core.List.{Memᴰ}
use mathlib.Core.List.Memᴰ.{head, tail}
use karte_os.Base.{
  ℕ, false, Option, none, some, List, [], ◌∷◌, ◌==◌, ◌≡◌, ◌↔◌, refl, ap, inl, inr, arith,
  if◌then◌else◌, Bool-cases, when_some, when_none,
}
use karte_os.Base.Int.{ℤ, pos, neg}
use karte_os.Driver.RecordLocks.{
  Flock, FileLock, conflicts, find_conflict, remove_locks_in_range, add_lock, request, report,
  lock_or_yield, fcntl_lock_op, f_unlck, f_getlk, f_setlk, abs_start, abs_end,
}
use karte_os.Driver.RecordLocks.Sharing.{IsValid}

mem-find_conflict :
    (locks : List FileLock) (asked l : FileLock) → find_conflict locks asked ≡ some l → Memᴰ l locks
unfolding find_conflict
mem-find_conflict [] asked l e = absurd (ground arith)
mem-find_conflict (x ∷ xs) asked l e = elim (Bool-cases (conflicts x asked)) [
  | inl c ↦ head (ground arith)
  | inr c ↦ tail (mem-find_conflict xs asked l (ground arith))
]

-- In a table with no two locks in conflict and none to unlock, for a request to lock: F_GETLK
-- answers that the range is free when and only when F_SETLK of the same request succeeds.
pub getlk_foretells :
    (locks after : List FileLock) (fd inode : ℕ) (flock : Flock)
    → IsValid locks
    → (flock.l_type == f_unlck) ≡ false
    → ((fcntl_lock_op locks after f_getlk fd inode flock).1
        ≡ some (record flock { l_type = f_unlck }))
      ↔ ((fcntl_lock_op locks after f_setlk fd inode flock).0 ≡ pos 0)
unfolding fcntl_lock_op
getlk_foretells locks after fd inode flock v t =
    by_conflict (find_conflict locks (request fd inode flock)) refl
  where
    Foretells : Option FileLock → ℤ × List FileLock → Type 0
    Foretells o r = (some (report flock o) ≡ some (record flock { l_type = f_unlck })) ↔ (
        ◌≡◌ {A = ℤ}
          (if◌then◌else◌ {A = ℤ × Option Flock × List FileLock} (flock.l_type == f_unlck)
            (pos 0, none, remove_locks_in_range locks inode fd (abs_start flock) (abs_end flock))
            (r.0, none, r.1)).0
          (pos 0))

    type_of :
        (l : FileLock)
        → (l.lock_type == f_unlck) ≡ false
        → some (report flock (some l)) ≡ some (record flock { l_type = f_unlck })
        → ⊥
    type_of l g h =
        let e : l.lock_type ≡ f_unlck =
          unfold report in ap (λ (o : Option Flock). elim o [ none ↦ 0 | some f ↦ f.l_type ]) h in
        ground arith

    by_conflict :
        (o : Option FileLock)
        → find_conflict locks (request fd inode flock) ≡ o
        → Foretells
            (find_conflict locks (request fd inode flock))
            (lock_or_yield locks after f_setlk (request fd inode flock))
    by_conflict none e =
        let r : lock_or_yield locks after f_setlk (request fd inode flock)
            ≡ (pos 0, add_lock locks (request fd inode flock)) =
          unfold lock_or_yield in when_none _ _ e in
        rw (e, r, t) (λ h. refl, λ h. unfold report in refl)
    by_conflict (some l) e =
        let r : lock_or_yield locks after f_setlk (request fd inode flock) ≡ (neg 1, locks) =
          unfold lock_or_yield in when_some _ _ e in
        let g : (l.lock_type == f_unlck) ≡ false =
          v.granted l (mem-find_conflict locks (request fd inode flock) l e) in
        rw (e, r, t) (λ h. absurd (type_of l g h), λ h. absurd (ground arith))
