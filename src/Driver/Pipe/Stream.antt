-- ===== src/Driver/Pipe/Stream.antt =====
-- Pipe::read and Pipe::write of kernel/src/driver/pipe.rs as a stream: bytes come out as they went
-- in, whatever the interleaving of calls.
use karte_os.Base.{
  ℕ, zero, suc, ◌+◌, ◌-◌, ◌%◌, ◌^◌, ◌≤◌, ◌<◌, min, Bool, true, List, [], ◌∷◌, ◌++◌, ◌≡◌, ◌⊎◌, inl,
  inr, refl, sym, ap, ◌∙◌, ◌==◌, get_or, arith, if_cases, ◌||◌,
}
use mathlib.Core.Path.{ap₂}
use mathlib.Core.List.{append-nil, append_assoc}
use karte_os.Base.Int.{ℤ, pos, negsuc}
use karte_os.Base.Memory.{Memory, bytes_at}
use karte_os.Driver.Pipe.{
  Pipe, Outcome, read, write, close_read, close_write, set_reader_blocked, set_writer_blocked,
  epipe, would_block, copy_in, copy_out,
}
use karte_os.Driver.Pipe.Ring.{
  IsValid, contents, window, copy_in_lem, copy_out_lem, copy_out_elsewhere,
}

-- The bytes that a call moved, from the value that it returned.
abbrev pub moved : ℤ → ℕ
moved (pos n) = n
moved (negsuc n) = 0

window_split :
    (b : List ℕ) (h n k : ℕ)
    → h < 4096
    → k ≤ n
    → window b h n ≡ window b h k ++ window b ((h + k) % 4096) (n - k)
window_split b h n zero hh le =
    let e : (h + 0) % 4096 ≡ h = omega arith in rw e (ap (window b h) (omega arith))
window_split b h zero (suc k) hh le = absurd (omega arith)
window_split b h (suc n) (suc k) hh le = ap (◌∷◌ (get_or b h 0)) (
    window_split b ((h + 1) % 4096) n k (omega arith) (omega arith)
    ∙ ap (λ w. window b ((h + 1) % 4096) k ++ w) (ap₂ (window b) (omega arith) (omega arith)))

-- What `read` has done, on every branch.
pub record Reads (p : Pipe) (m : Memory) (buf : ℕ) (o : Outcome) : Type 0 where
  pub valid : IsValid o.pipe
  pub delivered : contents p ≡ bytes_at o.memory buf 0 (moved o.ret) ++ contents o.pipe
  pub elsewhere : (a : ℕ) → (a < buf) ⊎ (buf + moved o.ret ≤ a) → o.memory a ≡ m a

-- A call that moves nothing.
abbrev idle : Pipe → Memory → ℤ → Outcome
idle p m r = record { ret = r; pipe = p; memory = m; woken = [] }

idle-Reads :
    (p : Pipe) (m : Memory) (buf : ℕ) (r : ℤ) → IsValid p → moved r ≡ 0 → Reads p m buf (idle p m r)
idle-Reads p m buf r v e = record { valid = v; delivered = rw e refl; elsewhere = λ a _. refl }

copied-Reads :
    (p : Pipe) (m : Memory) (buf k woke : ℕ) (ws : List ℕ)
    → IsValid p
    → k ≤ p.data_len
    → buf + k ≤ 2 ^ 64
    → Reads p m buf (record {
      ret = pos k;
      pipe = record p {
        read_pos = (copy_out p.buffer buf m p.read_pos 0 k).1;
        data_len = p.data_len - k;
        writer_blocked = woke;
      };
      memory = (copy_out p.buffer buf m p.read_pos 0 k).0;
      woken = ws;
    })
copied-Reads p m buf k woke ws v le fits =
    let (bytes, at) = copy_out_lem p.buffer buf m p.read_pos 0 k v.read_in (omega arith) in
    record {
      valid = record {
        storage = v.storage;
        read_in = omega (arith, at);
        room = omega (arith, v.room);
        write_at = omega (arith, at, v.write_at);
      };
      delivered = rw (at, bytes) (window_split p.buffer p.read_pos p.data_len k v.read_in le);
      elsewhere =
          λ a out. copy_out_elsewhere p.buffer buf m p.read_pos 0 k a (omega arith) (shift a out);
    }
  where
    shift : (a : ℕ) → (a < buf) ⊎ (buf + k ≤ a) → (a < buf + 0) ⊎ (buf + (0 + k) ≤ a)
    shift a (inl h) = inl (omega arith)
    shift a (inr h) = inr (omega arith)

-- On every branch read of a valid pipe into a buffer inside the address space keeps the ring
-- valid, delivers the oldest bytes, as many as it returns, leaves the others in the pipe in
-- order, and touches no other user memory.
pub read-Reads :
    (p : Pipe) (m : Memory) (buf len : ℕ)
    → IsValid p
    → buf + len ≤ 2 ^ 64
    → Reads p m buf (read p m buf len)
unfolding read
read-Reads p m buf len v fits =
    if_cases P (len == 0 || buf == 0) _ _ (λ _. idle-Reads p m buf (pos 0) v refl)
      λ _.
        if_cases P (p.data_len == 0) _ _
          (λ _.
            if_cases P p.write_closed _ _ (λ _. idle-Reads p m buf (pos 0) v refl)
              (λ _. idle-Reads p m buf would_block v refl))
          λ _. copied-Reads p m buf (min len p.data_len) _ _ v (omega arith) (omega arith)
  where
    P : Outcome → Type 0
    P = Reads p m buf

-- What `write` has done, on every branch.
pub record Writes (p : Pipe) (m : Memory) (buf : ℕ) (o : Outcome) : Type 0 where
  pub valid : IsValid o.pipe
  pub accepted : contents o.pipe ≡ contents p ++ bytes_at m buf 0 (moved o.ret)
  pub memory_kept : (a : ℕ) → o.memory a ≡ m a

idle-Writes :
    (p : Pipe) (m : Memory) (buf : ℕ) (r : ℤ)
    → IsValid p
    → moved r ≡ 0
    → Writes p m buf (idle p m r)
idle-Writes p m buf r v e = record {
  valid = v;
  accepted = rw e (sym (append-nil (contents p)));
  memory_kept = λ a. refl;
}

copied-Writes :
    (p : Pipe) (m : Memory) (buf k woke : ℕ) (ws : List ℕ)
    → IsValid p
    → p.data_len + k ≤ 4096
    → Writes p m buf (record {
      ret = pos k;
      pipe = record p {
        buffer = (copy_in m buf p.buffer p.write_pos 0 k).0;
        write_pos = (copy_in m buf p.buffer p.write_pos 0 k).1;
        data_len = p.data_len + k;
        reader_blocked = woke;
      };
      memory = m;
      woken = ws;
    })
copied-Writes p m buf k woke ws v fits =
    let (s, at, c) =
      copy_in_lem m buf p.buffer p.read_pos p.data_len p.write_pos 0 k v.storage v.read_in fits
        v.write_at in
    record {
      valid = record { storage = s; read_in = v.read_in; room = fits; write_at = at };
      accepted = c;
      memory_kept = λ a. refl;
    }

-- On every branch write to a valid pipe keeps the ring valid and appends the first bytes of the
-- user buffer, as many as it returns; user memory is unchanged.
pub write-Writes :
    (p : Pipe) (m : Memory) (buf len : ℕ) → IsValid p → Writes p m buf (write p m buf len)
unfolding write
write-Writes p m buf len v =
    if_cases P (len == 0 || buf == 0) _ _ (λ _. idle-Writes p m buf (pos 0) v refl)
      λ _.
        if_cases P p.read_closed _ _ (λ _. idle-Writes p m buf epipe v refl)
          λ _.
            if_cases P ((4096 - p.data_len) == 0) _ _ (λ _. idle-Writes p m buf would_block v refl)
              λ _. copied-Writes p m buf (min len (4096 - p.data_len)) _ _ v (omega (arith, v.room))
  where
    P : Outcome → Type 0
    P = Writes p m buf

-- A call on a pipe: each reader and writer has its own memory.
pub data Call : Type 0 where
  reads writes : Memory → ℕ → ℕ → Call
  close_reads close_writes : Call
  blocks_reader blocks_writer : ℕ → Call

-- The state after a call, with the bytes that came out and those that went in.
pub call : Pipe → Call → Pipe × List ℕ × List ℕ
call p (reads m buf len) =
    let o = read p m buf len in (o.pipe, bytes_at o.memory buf 0 (moved o.ret), [])
call p (writes m buf len) =
    let o = write p m buf len in (o.pipe, [], bytes_at m buf 0 (moved o.ret))
call p close_reads = ((close_read p).0, [], [])
call p close_writes = ((close_write p).0, [], [])
call p (blocks_reader i) = (set_reader_blocked p i, [], [])
call p (blocks_writer i) = (set_writer_blocked p i, [], [])

pub run : Pipe → List Call → Pipe × List ℕ × List ℕ
run p [] = (p, [], [])
run p (c ∷ cs) =
    let (q, got, sent) = call p c in
    let (r, gots, sents) = run q cs in (r, got ++ gots, sent ++ sents)

-- Every buffer that a call names lies in the address space.
abbrev pub Fits : Call → Type 0
Fits (reads m buf len) = buf + len ≤ 2 ^ 64
Fits c = Unit {0}

abbrev pub AllFit : List Call → Type 0
AllFit [] = Unit {0}
AllFit (c ∷ cs) = Fits c × AllFit cs

flags-IsValid :
    (p : Pipe) (rc wc : Bool) (rb wb : ℕ)
    → IsValid p
    → IsValid
        (record p { read_closed = rc; write_closed = wc; reader_blocked = rb; writer_blocked = wb })
flags-IsValid p rc wc rb wb v = record {
  storage = v.storage;
  read_in = v.read_in;
  room = v.room;
  write_at = v.write_at;
}

call-stream :
    (p : Pipe) (c : Call)
    → IsValid p
    → Fits c
    → IsValid (call p c).0 × (contents p ++ (call p c).2 ≡ (call p c).1 ++ contents (call p c).0)
unfolding call close_read close_write set_reader_blocked set_writer_blocked
call-stream p (reads m buf len) v fits =
    let h = read-Reads p m buf len v fits in (h.valid, append-nil (contents p) ∙ h.delivered)
call-stream p (writes m buf len) v fits =
    let h = write-Writes p m buf len v in (h.valid, sym h.accepted)
call-stream p close_reads v fits =
    (flags-IsValid p true p.write_closed p.reader_blocked _ v, append-nil (contents p))
call-stream p close_writes v fits =
    (flags-IsValid p p.read_closed true _ p.writer_blocked v, append-nil (contents p))
call-stream p (blocks_reader i) v fits =
    (flags-IsValid p p.read_closed p.write_closed i p.writer_blocked v, append-nil (contents p))
call-stream p (blocks_writer i) v fits =
    (flags-IsValid p p.read_closed p.write_closed p.reader_blocked i v, append-nil (contents p))

joined :
    (a s s' g g' b c : List ℕ)
    → a ++ s ≡ g ++ b
    → b ++ s' ≡ g' ++ c
    → a ++ (s ++ s') ≡ (g ++ g') ++ c
joined a s s' g g' b c e f =
    sym (append_assoc a s s')
    ∙ ap (λ l. l ++ s') e
    ∙ append_assoc g b s'
    ∙ ap (◌++◌ g) f
    ∙ sym (append_assoc g g' c)

-- Over any sequence of calls of a valid pipe, with buffers inside the address space, the ring
-- stays valid, and the bytes in flight before followed by all that went in are all that came
-- out followed by the bytes in flight after.
pub run-stream :
    (p : Pipe) (cs : List Call)
    → IsValid p
    → AllFit cs
    → IsValid (run p cs).0 × (contents p ++ (run p cs).2 ≡ (run p cs).1 ++ contents (run p cs).0)
unfolding run
run-stream p [] v fit = (v, append-nil (contents p))
run-stream p (c ∷ cs) v fit =
    let (v', e) = call-stream p c v fit.0 in
    let q = (call p c).0 in
    let (v'', f) = run-stream q cs v' fit.1 in (v'', joined (contents p) _ _ _ _ (contents q) _ e f)
