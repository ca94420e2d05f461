-- ===== src/Ipc/TokenPipe.antt =====
-- kernel/src/tokpipe.rs: a ring of 256 token slots for one producer and one consumer. The cursors
-- run modulo 512. A slot keeps its 64 bytes; a full ring drops its oldest token.
pub mod Ring
pub mod Stream
pub mod View
use karte_os.Base.{
  ℕ, zero, suc, ◌+◌, ◌-◌, ◌*◌, ◌%◌, ◌^◌, min, Bool, List, [], ◌∷◌, ◌++◌, ◌==◌, if◌then◌else◌,
  length, get_or, set, take, drop, replicate,
}
use karte_os.Base.Words.{add_usize}

abbrev pub token_slots : ℕ
token_slots = 256

abbrev pub token_max : ℕ
token_max = 64

pub record TokenSlot : Type 0 where
  pub len : ℕ
  pub bytes : List ℕ

pub record TokenPipe : Type 0 where
  pub ring : List TokenSlot
  pub head : ℕ
  pub tail : ℕ
  pub dropped : ℕ

abbrev pub blank : TokenSlot
blank = record { len = 0; bytes = replicate token_max 0 }

unfoldable pub new : TokenPipe
new = record { ring = replicate token_slots blank; head = 0; tail = 0; dropped = 0 }

-- `head.wrapping_sub(tail) % 512`
unfoldable pub len : TokenPipe → ℕ
len p = ((p.head + 2 ^ 64 - p.tail) % 2 ^ 64) % (token_slots * 2)

pub is_empty : TokenPipe → Bool
is_empty p = p.head == p.tail

-- `slot.len = n; slot.data[..n].copy_from_slice(&data[..n])`
pub fill : TokenSlot → List ℕ → TokenSlot
fill slot bytes =
    let n = min (length bytes) token_max in
    record { len = n; bytes = take n bytes ++ drop n slot.bytes }

-- The oldest token makes room.
pub make_room : TokenPipe → TokenPipe
make_room p =
    if len p == token_slots
    then record p { tail = (p.tail + 1) % (token_slots * 2); dropped = add_usize p.dropped 1 }
    else p

pub push : TokenPipe → List ℕ → TokenPipe
push p bytes =
    let q = make_room p in
    let at = q.head % token_slots in
    record q {
      ring = set q.ring at (fill (get_or q.ring at blank) bytes);
      head = (q.head + 1) % (token_slots * 2);
    }

-- The two borrowed windows and the number of tokens in them.
pub view : TokenPipe → ℕ → List TokenSlot × List TokenSlot × ℕ
view p max =
    let avail = min (len p) max in
    let t = p.tail % token_slots in
    let first = min (token_slots - t) avail in
    if avail == 0
    then ([], [], 0)
    else if first == avail
    then (take first (drop t p.ring), [], avail)
    else (drop t p.ring, take (avail - first) p.ring, avail)

pub consume : TokenPipe → ℕ → TokenPipe
consume p n = record p { tail = add_usize p.tail n % (token_slots * 2) }
