-- ===== src/Driver/Pipe.antt =====
-- kernel/src/driver/pipe.rs, `Pipe`: a 4 KB ring buffer between a reading and a writing end. An
-- operation also returns the tasks that it wakes (`sched::wake_task`), in order.
pub mod Ring
pub mod Stream
use karte_os.Base.{
  ℕ, zero, suc, ◌+◌, ◌-◌, ◌%◌, min, Bool, true, false, ◌&&◌, ◌||◌, List, [], ◌∷◌, ◌==◌, ltb,
  if◌then◌else◌, get_or, set, replicate,
}
use karte_os.Base.Words.{add_usize, usize_max}
use karte_os.Base.Int.{ℤ, pos, neg}
use karte_os.Base.Memory.{Memory, write_byte}

abbrev pub pipe_buf_size : ℕ
pipe_buf_size = 4096

abbrev pub epipe : ℤ
epipe = neg 32

-- The signal to the caller that it should block.
abbrev pub would_block : ℤ
would_block = neg 1

-- `reader_blocked` and `writer_blocked` hold a process index, or `usize::MAX` for none.
pub record Pipe : Type 0 where
  pub buffer : List ℕ
  pub read_pos : ℕ
  pub write_pos : ℕ
  pub data_len : ℕ
  pub read_closed : Bool
  pub write_closed : Bool
  pub reader_blocked : ℕ
  pub writer_blocked : ℕ

unfoldable pub new : Pipe
new = record {
  buffer = replicate pipe_buf_size 0;
  read_pos = 0;
  write_pos = 0;
  data_len = 0;
  read_closed = false;
  write_closed = false;
  reader_blocked = usize_max;
  writer_blocked = usize_max;
}

-- What an operation returns, and what it changes.
pub record Outcome : Type 0 where
  pub ret : ℤ
  pub pipe : Pipe
  pub memory : Memory
  pub woken : List ℕ

-- `if x != usize::MAX { wake_task(x) }`
abbrev pub wake : ℕ → List ℕ
wake task = if task == usize_max then [] else task ∷ []

-- The loop of `read`: user memory and the read position after `n` bytes.
pub copy_out : List ℕ → ℕ → Memory → ℕ → ℕ → ℕ → Memory × ℕ
copy_out buffer buf m read_pos i zero = (m, read_pos)
copy_out buffer buf m read_pos i (suc n) =
    copy_out buffer buf (write_byte m (add_usize buf i) (get_or buffer read_pos 0))
      ((read_pos + 1) % pipe_buf_size) (i + 1) n

-- The loop of `write`: the ring and the write position after `n` bytes.
pub copy_in : Memory → ℕ → List ℕ → ℕ → ℕ → ℕ → List ℕ × ℕ
copy_in m buf buffer write_pos i zero = (buffer, write_pos)
copy_in m buf buffer write_pos i (suc n) =
    copy_in m buf (set buffer write_pos (m (add_usize buf i))) ((write_pos + 1) % pipe_buf_size)
      (i + 1) n

pub read : Pipe → Memory → ℕ → ℕ → Outcome
read p m buf len =
    if len == 0 || buf == 0
    then unchanged (pos 0)
    else if p.data_len == 0
    then (if p.write_closed then unchanged (pos 0) else unchanged would_block)
    else transfer
  where
    unchanged : ℤ → Outcome
    unchanged r = record { ret = r; pipe = p; memory = m; woken = [] }

    to_read : ℕ
    to_read = min len p.data_len

    copied : Memory × ℕ
    copied = copy_out p.buffer buf m p.read_pos 0 to_read

    transfer : Outcome
    transfer = record {
      ret = pos to_read;
      pipe = record p {
        read_pos = copied.1;
        data_len = p.data_len - to_read;
        writer_blocked = if ltb 0 to_read then usize_max else p.writer_blocked;
      };
      memory = copied.0;
      woken = if ltb 0 to_read then wake p.writer_blocked else [];
    }

pub write : Pipe → Memory → ℕ → ℕ → Outcome
write p m buf len =
    if len == 0 || buf == 0
    then unchanged (pos 0)
    else if p.read_closed
    then unchanged epipe
    else if (pipe_buf_size - p.data_len) == 0
    then unchanged would_block
    else transfer
  where
    unchanged : ℤ → Outcome
    unchanged r = record { ret = r; pipe = p; memory = m; woken = [] }

    to_write : ℕ
    to_write = min len (pipe_buf_size - p.data_len)

    copied : List ℕ × ℕ
    copied = copy_in m buf p.buffer p.write_pos 0 to_write

    transfer : Outcome
    transfer = record {
      ret = pos to_write;
      pipe = record p {
        buffer = copied.0;
        write_pos = copied.1;
        data_len = p.data_len + to_write;
        reader_blocked = if ltb 0 to_write then usize_max else p.reader_blocked;
      };
      memory = m;
      woken = if ltb 0 to_write then wake p.reader_blocked else [];
    }

pub has_data : Pipe → Bool
has_data p = ltb 0 p.data_len

pub has_space : Pipe → Bool
has_space p = ltb p.data_len pipe_buf_size

-- Closing an end wakes the task that waits at the other one.
unfoldable pub close_read : Pipe → Pipe × List ℕ
close_read p = (record p { read_closed = true; writer_blocked = usize_max }, wake p.writer_blocked)

unfoldable pub close_write : Pipe → Pipe × List ℕ
close_write p =
    (record p { write_closed = true; reader_blocked = usize_max }, wake p.reader_blocked)

pub set_reader_blocked : Pipe → ℕ → Pipe
set_reader_blocked p proc_idx = record p { reader_blocked = proc_idx }

pub set_writer_blocked : Pipe → ℕ → Pipe
set_writer_blocked p proc_idx = record p { writer_blocked = proc_idx }

pub is_fully_closed : Pipe → Bool
is_fully_closed p = p.read_closed && p.write_closed
