-- ===== src/Driver/RecordLocks/Sharing.antt =====
-- What the byte-range locks of kernel/src/driver/fs.rs keep apart.
use mathlib.Core.List.{Memᴰ}
use mathlib.Core.List.Memᴰ.{head, tail, cases_cons}
use karte_os.Base.{
  ℕ, Bool, true, false, ◌&&◌, ◌||◌, Option, none, some, List, [], ◌∷◌, ◌++◌, ◌==◌, ◌≡◌, refl, sym,
  ap, ◌∙◌, ◌⊎◌, inl, inr, arith, if◌then◌else◌, Bool-cases, if_cases,
}
use karte_os.Base.Int.{ℤ, pos, neg}
use karte_os.Driver.RecordLocks.{
  Flock, FileLock, ranges_overlap, lt_i64, conflicts, find_conflict, retain, remove_locks_in_range,
  add_lock, release_fd_locks, request, try_lock, lock_or_yield, fcntl_lock_op, f_wrlck, f_unlck,
  f_getlk, f_setlk, f_setlkw,
}

-- No two locks are in conflict.
abbrev pub Compatible : List FileLock → Type 0
Compatible locks = (a b : FileLock) → Memᴰ a locks → Memᴰ b locks → conflicts a b ≡ false

&&_comm : (a b : Bool) → (a && b) ≡ (b && a)
&&_comm true true = refl
&&_comm true false = refl
&&_comm false true = refl
&&_comm false false = refl

||_comm : (a b : Bool) → (a || b) ≡ (b || a)
||_comm true true = refl
||_comm true false = refl
||_comm false true = refl
||_comm false false = refl

==_comm : (a b : ℕ) → (a == b) ≡ (b == a)
==_comm a b = ground arith

pub conflicts_comm : (a b : FileLock) → conflicts a b ≡ conflicts b a
unfolding conflicts ranges_overlap
conflicts_comm a b =
    rw
      (
        ==_comm a.inode b.inode,
        ==_comm a.owner_fd b.owner_fd,
        &&_comm (lt_i64 a.start b.end) (lt_i64 b.start a.end),
        ||_comm (a.lock_type == 1) (b.lock_type == 1),
      )
      refl

-- Locks of one descriptor are never in conflict.
conflicts_self : (a b : FileLock) → a.owner_fd ≡ b.owner_fd → conflicts a b ≡ false
unfolding conflicts
conflicts_self a b e =
    let same_fd : (a.owner_fd == b.owner_fd) ≡ true = ground arith in
    rw same_fd (elim (Bool-cases (a.inode == b.inode)) [ inl h ↦ rw h refl | inr h ↦ rw h refl ])

find_conflict-none :
    (locks : List FileLock) (asked a : FileLock)
    → find_conflict locks asked ≡ none
    → Memᴰ a locks
    → conflicts a asked ≡ false
unfolding find_conflict
find_conflict-none [] asked a h m = elim m [ ]
find_conflict-none (lock ∷ locks) asked a h m = elim (Bool-cases (conflicts lock asked)) [
  | inl c ↦ absurd (ground arith)
  | inr c ↦ elim (cases_cons m) [
    | inl e ↦ rw e c
    | inr k ↦ find_conflict-none locks asked a (ground arith) k
  ]
]

mem-snoc :
    (locks : List FileLock) (l a : FileLock) → Memᴰ a (locks ++ l ∷ []) → (a ≡ l) ⊎ Memᴰ a locks
mem-snoc [] l a m = cases_cons m
mem-snoc (x ∷ xs) l a (head e) = inr (head e)
mem-snoc (x ∷ xs) l a (tail m) = elim (mem-snoc xs l a m) [ inl e ↦ inl e | inr k ↦ inr (tail k) ]

mem_if :
    (b : Bool) (x a : FileLock) (rest xs : List FileLock)
    → (Memᴰ a rest → Memᴰ a xs)
    → Memᴰ a (if b then x ∷ rest else rest)
    → Memᴰ a (x ∷ xs)
mem_if true x a rest xs f (head e) = head e
mem_if true x a rest xs f (tail m) = tail (f m)
mem_if false x a rest xs f m = tail (f m)

mem-retain :
    (keep : FileLock → Bool) (locks : List FileLock) (a : FileLock)
    → Memᴰ a (retain keep locks)
    → Memᴰ a locks
unfolding retain
mem-retain keep [] a m = m
mem-retain keep (x ∷ xs) a m = mem_if (keep x) x a (retain keep xs) xs (mem-retain keep xs a) m

-- No two locks are in conflict, and none is a lock to unlock.
pub record IsValid (locks : List FileLock) : Type 0 where
  pub apart : Compatible locks
  pub granted : (a : FileLock) → Memᴰ a locks → (a.lock_type == f_unlck) ≡ false

retain-IsValid :
    (keep : FileLock → Bool) (locks : List FileLock) → IsValid locks → IsValid (retain keep locks)
retain-IsValid keep locks v = record {
  apart = λ a b m k. v.apart a b (mem-retain keep locks a m) (mem-retain keep locks b k);
  granted = λ a m. v.granted a (mem-retain keep locks a m);
}

add_lock-IsValid :
    (locks : List FileLock) (asked : FileLock)
    → find_conflict locks asked ≡ none
    → (asked.lock_type == f_unlck) ≡ false
    → IsValid locks
    → IsValid (add_lock locks asked)
unfolding add_lock
add_lock-IsValid locks asked h t v = record {
  apart = λ a b m k. elim (mem-snoc locks asked a m) [
    | inl e ↦ elim (mem-snoc locks asked b k) [
      | inl f ↦ conflicts_self a b (ap (λ l. l.owner_fd) (e ∙ sym f))
      | inr k' ↦ rw e (conflicts_comm asked b ∙ find_conflict-none locks asked b h k')
    ]
    | inr m' ↦ elim (mem-snoc locks asked b k) [
      | inl f ↦ rw f (find_conflict-none locks asked a h m')
      | inr k' ↦ v.apart a b m' k'
    ]
  ];
  granted = λ a m. elim (mem-snoc locks asked a m) [ inl e ↦ rw e t | inr m' ↦ v.granted a m' ];
}

-- A request that nothing stands in the way of is granted.
try_lock_lem :
    (locks : List FileLock) (asked : FileLock)
    → (asked.lock_type == f_unlck) ≡ false
    → IsValid locks
    → IsValid (try_lock locks asked).1
unfolding try_lock
try_lock_lem locks asked t v = elim_cases (find_conflict locks asked) refl
  where
    elim_cases :
        (o : Option FileLock)
        → find_conflict locks asked ≡ o
        → IsValid
            (elim o as (λ x. ℤ × List FileLock) [
              | none ↦ (pos 0, add_lock locks asked)
              | some conflict ↦ (neg 1, locks)
            ]).1
    elim_cases none e = add_lock-IsValid locks asked e t v
    elim_cases (some l) e = v

lock_or_yield-IsValid :
    (locks after : List FileLock) (cmd : ℕ) (asked : FileLock)
    → (asked.lock_type == f_unlck) ≡ false
    → IsValid locks
    → IsValid after
    → IsValid (lock_or_yield locks after cmd asked).1
unfolding lock_or_yield
lock_or_yield-IsValid locks after cmd asked t v w = by_conflict (find_conflict locks asked) refl
  where
    by_conflict :
        (o : Option FileLock)
        → find_conflict locks asked ≡ o
        → IsValid
            (elim o as (λ x. ℤ × List FileLock) [
              | none ↦ (pos 0, add_lock locks asked)
              | some conflict ↦ if cmd == f_setlk then (neg 1, locks) else try_lock after asked
            ]).1
    by_conflict none e = add_lock-IsValid locks asked e t v
    by_conflict (some l) e =
        if_cases {A = ℤ × List FileLock} (λ r. IsValid r.1) (cmd == f_setlk) _ _ (λ h. v)
          (λ h. try_lock_lem after asked t w)

-- Whatever is asked for, fcntl_lock_op and release_fd_locks leave no two locks in conflict and
-- none of type F_UNLCK, if that was so before and is so of the table that a yield ends with.
pub fcntl_lock_op-IsValid :
    (locks after : List FileLock) (cmd fd inode : ℕ) (flock : Flock)
    → IsValid locks
    → IsValid after
    → IsValid (fcntl_lock_op locks after cmd fd inode flock).2 × IsValid (release_fd_locks locks fd)
unfolding fcntl_lock_op remove_locks_in_range release_fd_locks
fcntl_lock_op-IsValid locks after cmd fd inode flock v w = (
  if_cases {A = ℤ × Option Flock × List FileLock} (λ r. IsValid r.2) (cmd == f_getlk) _ _ (λ h. v)
      (λ h.
        if_cases {A = ℤ × Option Flock × List FileLock} (λ r. IsValid r.2)
          (cmd == f_setlk || cmd == f_setlkw) _ _
          (λ s.
            if_cases {A = ℤ × Option Flock × List FileLock} (λ r. IsValid r.2)
              (flock.l_type == f_unlck) _ _ (λ u. retain-IsValid _ locks v)
              (λ u. lock_or_yield-IsValid locks after cmd (request fd inode flock) u v w))
          (λ s. v)),
  retain-IsValid _ locks v,
)

-- Two locks of different descriptors on one file whose ranges overlap are both shared.
pub shared :
    (locks : List FileLock) (a b : FileLock)
    → IsValid locks
    → Memᴰ a locks
    → Memᴰ b locks
    → a.inode ≡ b.inode
    → (a.owner_fd == b.owner_fd) ≡ false
    → ranges_overlap a.start a.end b.start b.end ≡ true
    → ((a.lock_type == f_wrlck) ≡ false) × ((b.lock_type == f_wrlck) ≡ false)
unfolding conflicts
shared locks a b v m k same other over = let c = v.apart a b m k in (ground arith, ground arith)
