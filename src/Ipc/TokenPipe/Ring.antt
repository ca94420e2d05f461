-- ===== src/Ipc/TokenPipe/Ring.antt =====
-- The tokens in flight in the ring of kernel/src/tokpipe.rs, oldest first.
use karte_os.Base.{◌+◌, ◌-◌, ◌%◌, ◌≤◌, ◌<◌, List, length, ◌≡◌, arith, length-replicate}
use karte_os.Base.Ring.{window}
use karte_os.Ipc.TokenPipe.{TokenSlot, TokenPipe, blank, new, len}

abbrev pub contents : TokenPipe → List TokenSlot
contents p = window 256 blank p.ring (p.tail % 256) (len p)

pub record IsValid (p : TokenPipe) : Type 0 where
  pub storage : length p.ring ≡ 256
  pub head_in : p.head < 512
  pub tail_in : p.tail < 512
  pub room : (p.head + 512 - p.tail) % 512 ≤ 256

pub len_lem : (p : TokenPipe) → IsValid p → len p ≡ (p.head + 512 - p.tail) % 512
unfolding len
len_lem p v = omega (arith, v.head_in, v.tail_in)

pub new-IsValid : IsValid new
unfolding new
new-IsValid = record {
  storage = length-replicate {A = TokenSlot} 256 blank;
  head_in = omega arith;
  tail_in = omega arith;
  room = omega arith;
}
