-- ===== src/Driver/FdTable.antt =====
-- kernel/src/driver/fs.rs, the file descriptors of one process: FdType, FileDescriptor and FdTable.
-- Bytes that come from or go to the user's memory are arguments and results; an `i32` descriptor is
-- the `usize` it is converted to. No sum of a position and a length reaches 2^64.
pub mod Places
pub mod Content
use Prim.Native.Nat.{bit_and}
use karte_os.Base.{
  ℕ, zero, suc, ◌+◌, ◌-◌, ◌*◌, ◌/◌, ◌%◌, ◌^◌, min, Bool, true, false, not, ◌&&◌, Option, none, some,
  List, [], ◌∷◌, ◌==◌, ltb, leb, if◌then◌else◌, get_or, set, replicate, length, take, drop,
}
use karte_os.Base.Strings.{codes, same}
use karte_os.Storage.RamFs.{resize, overwrite}

abbrev pub max_fds : ℕ
max_fds = 32

abbrev pub o_rdonly : ℕ
o_rdonly = 0

abbrev pub o_wronly : ℕ
o_wronly = 1

-- Of an `Ext4FileDesc` only `writable` is kept.
pub data FdType : Type 0 where
  stdio : FdType
  file : FdType
  pipe_read : FdType
  pipe_write : FdType
  fake_file : List ℕ → FdType
  virtual_file : FdType
  urandom : FdType
  eventfd : FdType
  epoll : FdType
  timerfd : FdType
  ext4_file : Bool → FdType
  vfs_file : ℕ → FdType

pub record FileDescriptor : Type 0 where
  pub name : List ℕ
  pub pos : ℕ
  pub flags : ℕ
  pub valid : Bool
  pub fd_type : FdType
  pub pipe_id : Option ℕ
  pub fd_num : ℕ

abbrev pub FdTable : Type 0
FdTable = List (Option FileDescriptor)

abbrev pub plain : List ℕ → ℕ → FdType → ℕ → FileDescriptor
plain name flags fd_type fd_num = record {
  name = name;
  pos = 0;
  flags = flags;
  valid = true;
  fd_type = fd_type;
  pipe_id = none;
  fd_num = fd_num;
}

-- `FdTable::new`
unfoldable pub new : FdTable
new =
    some (plain (codes "stdin") o_rdonly stdio 0)
    ∷ some (plain (codes "stdout") o_wronly stdio 0)
    ∷ some (plain (codes "stderr") o_wronly stdio 0)
    ∷ replicate (max_fds - 3) none

-- `slot.as_ref().map(|f| f.valid).unwrap_or(false)`
abbrev pub is_open : Option FileDescriptor → Bool
is_open s = elim s [ none ↦ false | some f ↦ f.valid ]

-- The loop of all the `alloc` functions, from slot `i` on: the first slot that is not open gets the
-- descriptor that is made for its number.
unfoldable pub place_from : FdTable → ℕ → (ℕ → FileDescriptor) → Option ℕ × FdTable
place_from [] i make = (none, [])
place_from (s ∷ fds) i make =
    let (found, rest) = place_from fds (i + 1) make in
    if is_open s then (found, s ∷ rest) else (some i, some (make i) ∷ fds)

abbrev pub place : FdTable → (ℕ → FileDescriptor) → Option ℕ × FdTable
place fds make = place_from fds 0 make

unfoldable pub alloc : FdTable → List ℕ → ℕ → Option ℕ × FdTable
alloc fds name flags = place fds (λ i. plain name flags file 0)

unfoldable pub alloc_vfs_fd : FdTable → List ℕ → ℕ → ℕ → Option ℕ × FdTable
alloc_vfs_fd fds name vfs_fd flags = place fds (λ i. plain name flags (vfs_file vfs_fd) 0)

unfoldable pub alloc_stdio_fd : FdTable → List ℕ → ℕ → Option ℕ × FdTable
alloc_stdio_fd fds name flags = place fds (λ i. plain name flags stdio 0)

unfoldable pub alloc_fake_fd : FdTable → List ℕ → ℕ → Option ℕ × FdTable
alloc_fake_fd fds name flags = place fds (λ i. plain name flags (fake_file []) 0)

unfoldable pub alloc_urandom_fd : FdTable → ℕ → Option ℕ × FdTable
alloc_urandom_fd fds flags = place fds (λ i. plain (codes "/dev/urandom") flags urandom 0)

unfoldable pub alloc_special_fd : FdTable → List ℕ → ℕ → FdType → Option ℕ × FdTable
alloc_special_fd fds name flags fd_type = place fds (λ i. plain name flags fd_type i)

unfoldable pub pipe_descriptor : ℕ → Bool → ℕ → FileDescriptor
pipe_descriptor pipe_id is_read i = record {
  name = if is_read then codes "pipe:read" else codes "pipe:write";
  pos = 0;
  flags = if is_read then o_rdonly else o_wronly;
  valid = true;
  fd_type = if is_read then pipe_read else pipe_write;
  pipe_id = some pipe_id;
  fd_num = i;
}

unfoldable pub alloc_pipe_fd : FdTable → ℕ → Bool → Option ℕ × FdTable
alloc_pipe_fd fds pipe_id is_read = place fds (pipe_descriptor pipe_id is_read)

-- `self.fds.get(fd)`, where a number out of range reads as an empty slot
abbrev pub slot : FdTable → ℕ → Option FileDescriptor
slot fds fd = get_or fds fd none

abbrev pub if_valid : Option FileDescriptor → Option FileDescriptor
if_valid s = elim s [ none ↦ none | some f ↦ if f.valid then some f else none ]

-- `get` and `get_mut`
abbrev pub get : FdTable → ℕ → Option FileDescriptor
get fds fd = if_valid (slot fds fd)

unfoldable pub set_fd : FdTable → ℕ → FileDescriptor → FdTable
set_fd fds fd desc = if ltb fd (length fds) then set fds fd (some desc) else fds

unfoldable pub dup : FdTable → ℕ → ℕ → Bool × FdTable
dup fds oldfd newfd = if leb (length fds) newfd then (false, fds) else (elim (get fds oldfd) [
  | none ↦ (false, fds)
  | some desc ↦ (true, set fds newfd (some desc))
])

unfoldable pub take_fd : FdTable → ℕ → Option FileDescriptor × FdTable
take_fd fds fd = if is_open (slot fds fd) then (slot fds fd, set fds fd none) else (none, fds)

-- The loop of `drain_open_fds`, from slot `i` on.
unfoldable pub drain_from : FdTable → ℕ → List (ℕ × FileDescriptor) × FdTable
drain_from [] i = ([], [])
drain_from (s ∷ fds) i =
    let (drained, rest) = drain_from fds (i + 1) in
    elim (if_valid s) [
      | none ↦ (drained, s ∷ rest)
      | some desc ↦ ((i, desc) ∷ drained, none ∷ rest)
    ]

abbrev pub drain_open_fds : FdTable → List (ℕ × FileDescriptor) × FdTable
drain_open_fds fds = drain_from fds 0

unfoldable pub close : FdTable → ℕ → Bool × FdTable
close fds fd = if is_open (slot fds fd) then (true, set fds fd none) else (false, fds)

-- Only a `FakeFile` has bytes.
abbrev pub fake_bytes : FdType → Option (List ℕ)
fake_bytes t = elim t [ fake_file bytes ↦ some bytes | _ ↦ none ]

abbrev pub with_fake : FileDescriptor → List ℕ → ℕ → FileDescriptor
with_fake desc bytes pos = record desc { fd_type = fake_file bytes; pos = pos }

-- The slot of a `FakeFile`, with its bytes.
abbrev pub fake_slot : FdTable → ℕ → Option (FileDescriptor × List ℕ)
fake_slot fds fd = elim (slot fds fd) [
  | none ↦ none
  | some desc ↦ elim (fake_bytes desc.fd_type) [ none ↦ none | some bytes ↦ some (desc, bytes) ]
]

unfoldable pub fake_write : FdTable → ℕ → List ℕ → Option ℕ × FdTable
fake_write fds fd new_bytes = elim (fake_slot fds fd) [
  | none ↦ (none, fds)
  | some (desc, bytes) ↦ (
    some (length new_bytes),
    set fds fd
        (some (with_fake desc (overwrite bytes desc.pos new_bytes) (desc.pos + length new_bytes))),
  )
]

-- The generator behind `/dev/urandom`.
abbrev pub prng_next : ℕ → ℕ
prng_next prev = (prev * 6364136223846793005 + 1442695040888963407) % 2 ^ 64

-- The bytes `i..i + n` of one read, and the generator's state after them.
unfoldable pub random_bytes : ℕ → ℕ → ℕ → List ℕ × ℕ
random_bytes prng i zero = ([], prng)
random_bytes prng i (suc n) =
    let next = prng_next prng in
    let (rest, after) = random_bytes next (i + 1) n in (next / 2 ^ (i % 8 * 8) % 256 ∷ rest, after)

-- The bytes read, the generator's state and the table.
unfoldable pub fake_read : FdTable → ℕ → ℕ → ℕ → Option (List ℕ) × ℕ × FdTable
fake_read fds prng fd len = elim (slot fds fd) [
  | none ↦ (none, prng, fds)
  | some desc ↦ elim desc.fd_type [
    | fake_file bytes ↦
        let to_read = min len (length bytes - desc.pos) in
        (
          some (take to_read (drop desc.pos bytes)),
          prng,
          set fds fd (some (record desc { pos = desc.pos + to_read })),
        )
    | urandom ↦
        let (bytes, after) = random_bytes prng 0 len in
        (some bytes, after, set fds fd (some (record desc { pos = len })))
    | _ ↦ (none, prng, fds)
  ]
]

unfoldable pub fake_truncate : FdTable → ℕ → ℕ → Bool × FdTable
fake_truncate fds fd size = elim (fake_slot fds fd) [
  | none ↦ (false, fds)
  | some (desc, bytes) ↦ (
    true,
    set fds fd
        (some (with_fake desc (resize bytes size) (if ltb size desc.pos then size else desc.pos))),
  )
]

-- What a readable or writable descriptor depends on: the terminal, the bytes in a pipe, the value
-- of a counter and the flag of a timer.
pub record Devices : Type 0 where
  pub has_input : Bool
  pub pipe_available : ℕ → ℕ
  pub eventfd_peek : ℕ → ℕ
  pub timerfd_peek : ℕ → Bool

unfoldable pub is_readable : Devices → FileDescriptor → Bool
is_readable d desc = elim desc.fd_type [
  | stdio ↦ if same desc.name (codes "stdin") then d.has_input else false
  | pipe_read ↦ elim desc.pipe_id [ none ↦ false | some pipe_id ↦ ltb 0 (d.pipe_available pipe_id) ]
  | eventfd ↦ ltb 0 (d.eventfd_peek desc.fd_num)
  | timerfd ↦ d.timerfd_peek desc.fd_num
  | _ ↦ false
]

unfoldable pub is_writable : FileDescriptor → Bool
is_writable desc = elim desc.fd_type [
  | stdio ↦ not (same desc.name (codes "stdin"))
  | pipe_write ↦ true
  | file ↦ true
  | fake_file bytes ↦ true
  | virtual_file ↦ true
  | vfs_file vfs_fd ↦ true
  | urandom ↦ true
  | ext4_file writable ↦ writable
  | _ ↦ false
]
