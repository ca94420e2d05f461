-- ===== src/Ipc/KernelLog.antt =====
-- kernel/src/kernel_log.rs: the ring of the last bytes that the kernel has printed, and the log
-- level. The producer and the consumer are taken one call after the other. A buffer that is read
-- into is the list of the bytes put there.
pub mod Stream
use karte_os.Base.{
  ℕ, zero, suc, ◌+◌, ◌-◌, ◌%◌, min, Bool, Option, none, some, List, [], ◌∷◌, ◌==◌, leb,
  if◌then◌else◌, get_or, set, replicate,
}

abbrev pub klog_buf_size : ℕ
klog_buf_size = 32768

-- `head` is the position that is written next, `tail` the one that is read next.
pub record LogBuffer : Type 0 where
  pub ring : List ℕ
  pub head : ℕ
  pub tail : ℕ

pub new : LogBuffer
new = record { ring = replicate klog_buf_size 0; head = 0; tail = 0 }

pub write_byte : LogBuffer → ℕ → LogBuffer
write_byte b byte =
    let next_head = (b.head + 1) % klog_buf_size in
    record {
      ring = set b.ring b.head byte;
      head = next_head;
      tail = if next_head == b.tail then (b.tail + 1) % klog_buf_size else b.tail;
    }

pub available : LogBuffer → ℕ
available b = if leb b.tail b.head then b.head - b.tail else klog_buf_size - b.tail + b.head

-- The loop of `read` and of `peek`: `n` bytes from `pos` on.
pub copy_from : List ℕ → ℕ → ℕ → List ℕ
copy_from ring p zero = []
copy_from ring p (suc n) = get_or ring p 0 ∷ copy_from ring ((p + 1) % klog_buf_size) n

pub read : LogBuffer → ℕ → List ℕ × LogBuffer
read b len =
    let to_read = min (available b) len in
    (copy_from b.ring b.tail to_read, record b { tail = (b.tail + to_read) % klog_buf_size })

pub peek : LogBuffer → ℕ → ℕ → List ℕ
peek b len offset =
    if leb (available b) offset
    then []
    else copy_from b.ring ((b.tail + offset) % klog_buf_size) (min (available b - offset) len)

pub clear : LogBuffer → LogBuffer
clear b = record b { tail = b.head }

-- (bytes read, bytes that were there)
pub log_read : LogBuffer → ℕ → List ℕ × ℕ × LogBuffer
log_read b len = let (bytes, b') = read b len in (bytes, available b, b')

-- What is handed to the file system, `none` if there is nothing.
pub log_flush_to_file : LogBuffer → Option (List ℕ) × LogBuffer
log_flush_to_file b =
    let n = available b in
    let (bytes, b') = read b n in if n == 0 then (none, b) else (some bytes, b')

-- KLOG_LEVEL: error 0, warn 1, info 2, debug 3, trace 4.
pub klog_set_level : ℕ → ℕ
klog_set_level level = min level 4

pub klog_enabled : ℕ → ℕ → Bool
klog_enabled current level = leb level current
