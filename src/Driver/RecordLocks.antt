-- ===== src/Driver/RecordLocks.antt =====
-- kernel/src/driver/fs.rs, the byte-range locks behind fcntl: Flock and FILE_LOCKS. An `i64` is its
-- 64-bit pattern, and an `i16` or `i32` its 16-bit or 32-bit pattern. The source lets go of FILE_LOCKS
-- between find_conflict and add_lock; here no other request comes between them.
pub mod Sharing
pub mod Query
pub mod Encoding
use karte_os.Base.{
  ℕ, ◌+◌, ◌-◌, ◌^◌, ◌%◌, Bool, true, false, not, ◌&&◌, ◌||◌, Option, none, some, List, [], ◌∷◌,
  ◌++◌, ◌==◌, ltb, if◌then◌else◌, take, drop,
}
use karte_os.Base.Int.{ℤ, pos, neg}
use karte_os.Base.Words.{add_usize, sub_usize}
use karte_os.Base.Bytes.{from_bytes_le, to_bytes_le}

abbrev pub f_wrlck : ℕ
f_wrlck = 1

abbrev pub f_unlck : ℕ
f_unlck = 2

abbrev pub f_getlk : ℕ
f_getlk = 5

abbrev pub f_setlk : ℕ
f_setlk = 6

abbrev pub f_setlkw : ℕ
f_setlkw = 7

abbrev pub i64_max : ℕ
i64_max = 2 ^ 63 - 1

-- `<` on `i64`
abbrev pub lt_i64 : ℕ → ℕ → Bool
lt_i64 a b = ltb (add_usize a (2 ^ 63)) (add_usize b (2 ^ 63))

pub record Flock : Type 0 where
  pub l_type : ℕ
  pub l_whence : ℕ
  pub l_start : ℕ
  pub l_len : ℕ
  pub l_pid : ℕ

unfoldable pub from_bytes : List ℕ → Flock
from_bytes bytes = record {
  l_type = from_bytes_le (take 2 bytes);
  l_whence = from_bytes_le (take 2 (drop 2 bytes));
  l_start = from_bytes_le (take 8 (drop 4 bytes));
  l_len = from_bytes_le (take 8 (drop 12 bytes));
  l_pid = from_bytes_le (take 4 (drop 20 bytes));
}

unfoldable pub to_bytes : Flock → List ℕ
to_bytes f =
    to_bytes_le 2 f.l_type
    ++ (to_bytes_le 2 f.l_whence
        ++ (to_bytes_le 8 f.l_start ++ (to_bytes_le 8 f.l_len ++ to_bytes_le 4 f.l_pid)))

-- Every `l_whence` gives `l_start`.
abbrev pub abs_start : Flock → ℕ
abs_start f = f.l_start

abbrev pub abs_end : Flock → ℕ
abs_end f = if f.l_len == 0 then i64_max else add_usize (abs_start f) f.l_len

pub record FileLock : Type 0 where
  pub owner_fd : ℕ
  pub inode : ℕ
  pub lock_type : ℕ
  pub start : ℕ
  pub end : ℕ

unfoldable pub ranges_overlap : ℕ → ℕ → ℕ → ℕ → Bool
ranges_overlap a_start a_end b_start b_end = lt_i64 a_start b_end && lt_i64 b_start a_end

-- Whether a granted lock stands in the way of the one that is asked for.
unfoldable pub conflicts : FileLock → FileLock → Bool
conflicts lock asked =
    lock.inode == asked.inode
    && not (lock.owner_fd == asked.owner_fd)
    && ranges_overlap lock.start lock.end asked.start asked.end
    && (lock.lock_type == f_wrlck || asked.lock_type == f_wrlck)

unfoldable pub find_conflict : List FileLock → FileLock → Option FileLock
find_conflict [] asked = none
find_conflict (lock ∷ locks) asked =
    let later = find_conflict locks asked in if conflicts lock asked then some lock else later

-- `Vec::retain`
unfoldable pub retain : (FileLock → Bool) → List FileLock → List FileLock
retain keep [] = []
retain keep (lock ∷ locks) = let rest = retain keep locks in if keep lock then lock ∷ rest else rest

unfoldable pub stays : ℕ → ℕ → ℕ → ℕ → FileLock → Bool
stays inode owner_fd start end lock =
    if not (lock.inode == inode) || not (lock.owner_fd == owner_fd)
    then true
    else not (ranges_overlap lock.start lock.end start end)

unfoldable pub remove_locks_in_range : List FileLock → ℕ → ℕ → ℕ → ℕ → List FileLock
remove_locks_in_range locks inode owner_fd start end = retain (stays inode owner_fd start end) locks

unfoldable pub add_lock : List FileLock → FileLock → List FileLock
add_lock locks lock = locks ++ lock ∷ []

unfoldable pub release_fd_locks : List FileLock → ℕ → List FileLock
release_fd_locks locks fd = retain (λ lock. not (lock.owner_fd == fd)) locks

-- The lock that a request is for.
abbrev pub request : ℕ → ℕ → Flock → FileLock
request fd inode flock = record {
  owner_fd = fd;
  inode = inode;
  lock_type = flock.l_type;
  start = abs_start flock;
  end = abs_end flock;
}

-- What F_GETLK writes back.
unfoldable pub report : Flock → Option FileLock → Flock
report flock none = record flock { l_type = f_unlck }
report flock (some conflict) = record {
  l_type = conflict.lock_type;
  l_whence = 0;
  l_start = conflict.start;
  l_len = if conflict.end == i64_max then 0 else sub_usize conflict.end conflict.start;
  l_pid = 0;
}

-- Granted if nothing stands in the way.
unfoldable pub try_lock : List FileLock → FileLock → ℤ × List FileLock
try_lock locks asked = elim (find_conflict locks asked) [
  | none ↦ (pos 0, add_lock locks asked)
  | some conflict ↦ (neg 1, locks)
]

-- F_SETLKW yields once when a lock stands in the way; `after` is the table that it finds then.
unfoldable pub lock_or_yield : List FileLock → List FileLock → ℕ → FileLock → ℤ × List FileLock
lock_or_yield locks after cmd asked = elim (find_conflict locks asked) [
  | none ↦ (pos 0, add_lock locks asked)
  | some conflict ↦ if cmd == f_setlk then (neg 1, locks) else try_lock after asked
]

unfoldable pub fcntl_lock_op :
    List FileLock → List FileLock → ℕ → ℕ → ℕ → Flock → ℤ × Option Flock × List FileLock
fcntl_lock_op locks after cmd fd inode flock =
    let asked = request fd inode flock in
    if cmd == f_getlk
    then (pos 0, some (report flock (find_conflict locks asked)), locks)
    else if cmd == f_setlk || cmd == f_setlkw
    then if flock.l_type == f_unlck
      then (pos 0, none, remove_locks_in_range locks inode fd (abs_start flock) (abs_end flock))
      else (let (ret, locks') = lock_or_yield locks after cmd asked in (ret, none, locks'))
    else (neg 1, none, locks)
