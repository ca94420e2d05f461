-- ===== src/Driver/Pipe/Ring.antt =====
-- The ring buffer of kernel/src/driver/pipe.rs as a queue of bytes.
use karte_os.Base.{
  ℕ, zero, suc, ◌+◌, ◌-◌, ◌%◌, ◌^◌, ◌≤◌, ◌<◌, List, [], ◌∷◌, ◌++◌, ◌≡◌, ◌⊎◌, inl, inr, refl, sym,
  ap, ◌∙◌, get_or, set, take, drop, length, length-set, get_or-set_self, get_or-set_ne, arith,
  length-replicate,
}
use mathlib.Core.Path.{ap₂}
use mathlib.Core.List.{append-nil, append_assoc}
use karte_os.Base.Words.{add_usize}
use karte_os.Base.Memory.{Memory, write_byte, bytes_at}
use karte_os.Driver.Pipe.{Pipe, new, copy_in, copy_out}

-- The `n` bytes from position `h` on, going round at the end of the buffer.
abbrev pub window : List ℕ → ℕ → ℕ → List ℕ
window buffer h zero = []
window buffer h (suc n) = get_or buffer h 0 ∷ window buffer ((h + 1) % 4096) n

-- The bytes in flight, oldest first.
abbrev pub contents : Pipe → List ℕ
contents p = window p.buffer p.read_pos p.data_len

pub record IsValid (p : Pipe) : Type 0 where
  pub storage : length p.buffer ≡ 4096
  pub read_in : p.read_pos < 4096
  pub room : p.data_len ≤ 4096
  pub write_at : p.write_pos ≡ (p.read_pos + p.data_len) % 4096

pub new-IsValid : IsValid new
unfolding new
new-IsValid = record {
  storage = length-replicate {A = ℕ} 4096 0;
  read_in = omega arith;
  room = omega arith;
  write_at = refl;
}

pub length-window : (b : List ℕ) (h n : ℕ) → length (window b h n) ≡ n
length-window b h zero = refl
length-window b h (suc n) = ap suc (length-window b ((h + 1) % 4096) n)

-- A byte written just past a window extends it.
window-set :
    (b : List ℕ) (h n w x : ℕ)
    → length b ≡ 4096
    → h < 4096
    → n < 4096
    → w ≡ (h + n) % 4096
    → window (set b w x) h (suc n) ≡ window b h n ++ x ∷ []
window-set b h zero w x s hh hn e =
    let e' : w ≡ h = omega arith in rw (e', get_or-set_self b h x 0 (omega arith))
window-set b h (suc n) w x s hh hn e =
    ap₂ ◌∷◌ (get_or-set_ne b w h x 0 (omega arith))
      (window-set b ((h + 1) % 4096) n w x s (omega arith) (omega arith) (omega arith))

-- The loop of `write` appends the bytes that it reads from user memory, in order.
pub copy_in_lem :
    (m : Memory) (buf : ℕ) (b : List ℕ) (h l w i n : ℕ)
    → length b ≡ 4096
    → h < 4096
    → l + n ≤ 4096
    → w ≡ (h + l) % 4096
    → (length (copy_in m buf b w i n).0 ≡ 4096)
      × ((copy_in m buf b w i n).1 ≡ (h + (l + n)) % 4096)
      × (window (copy_in m buf b w i n).0 h (l + n) ≡ window b h l ++ bytes_at m buf i n)
unfolding copy_in
copy_in_lem m buf b h l w i zero s hh fits e =
    (s, omega arith, ap (window b h) (omega arith) ∙ sym (append-nil _))
copy_in_lem m buf b h l w i (suc n) s hh fits e =
    let x = m (add_usize buf i) in
    let (s', e', c) =
      copy_in_lem m buf (set b w x) h (suc l) ((w + 1) % 4096) (i + 1) n (length-set b w x ∙ s) hh
        (omega arith) (omega arith) in
    (
      s',
      omega (arith, e'),
      ap (window (copy_in m buf (set b w x) ((w + 1) % 4096) (i + 1) n).0 h) (omega arith)
          ∙ c
          ∙ ap (λ front. front ++ bytes_at m buf (i + 1) n)
              (window-set b h l w x s hh (omega arith) e)
          ∙ append_assoc (window b h l) (x ∷ []) _,
    )

-- The loop of `read` delivers the window to user memory, and touches nothing else there.
pub copy_out_elsewhere :
    (b : List ℕ) (buf : ℕ) (m : Memory) (h i n a : ℕ)
    → buf + (i + n) ≤ 2 ^ 64
    → (a < buf + i) ⊎ (buf + (i + n) ≤ a)
    → (copy_out b buf m h i n).0 a ≡ m a
unfolding copy_out
copy_out_elsewhere b buf m h i zero a fits out = refl
copy_out_elsewhere b buf m h i (suc n) a fits out =
    copy_out_elsewhere b buf (write_byte m (add_usize buf i) (get_or b h 0)) ((h + 1) % 4096)
      (i + 1) n a (omega arith) (later out)
    ∙ ground arith
  where
    later : (a < buf + i) ⊎ (buf + (i + suc n) ≤ a) → (a < buf + (i + 1)) ⊎ (buf + (i + 1 + n) ≤ a)
    later (inl h) = inl (omega arith)
    later (inr h) = inr (omega arith)

pub copy_out_lem :
    (b : List ℕ) (buf : ℕ) (m : Memory) (h i n : ℕ)
    → h < 4096
    → buf + (i + n) ≤ 2 ^ 64
    → (bytes_at (copy_out b buf m h i n).0 buf i n ≡ window b h n)
      × ((copy_out b buf m h i n).1 ≡ (h + n) % 4096)
unfolding copy_out
copy_out_lem b buf m h i zero hh fits = (refl, omega arith)
copy_out_lem b buf m h i (suc n) hh fits =
    let (c, e) =
      copy_out_lem b buf (write_byte m (add_usize buf i) (get_or b h 0)) ((h + 1) % 4096) (i + 1) n
        (omega arith) (omega arith) in
    let kept =
      copy_out_elsewhere b buf (write_byte m (add_usize buf i) (get_or b h 0)) ((h + 1) % 4096)
        (i + 1) n (add_usize buf i) (omega arith) (inl (omega arith)) in
    (ap₂ ◌∷◌ (kept ∙ ground arith) c, omega (arith, e))

pub take-window : (b : List ℕ) (h n k : ℕ) → k ≤ n → take k (window b h n) ≡ window b h k
take-window b h n zero le = refl
take-window b h zero (suc k) le = absurd (omega arith)
take-window b h (suc n) (suc k) le =
    ap (◌∷◌ (get_or b h 0)) (take-window b ((h + 1) % 4096) n k (omega arith))

pub drop-window :
    (b : List ℕ) (h n k : ℕ)
    → h < 4096
    → k ≤ n
    → drop k (window b h n) ≡ window b ((h + k) % 4096) (n - k)
drop-window b h n zero hh le =
    let e : h ≡ (h + 0) % 4096 = omega arith in rw (← e) (ap (window b h) (omega arith))
drop-window b h zero (suc k) hh le = absurd (omega arith)
drop-window b h (suc n) (suc k) hh le =
    drop-window b ((h + 1) % 4096) n k (omega arith) (omega arith)
    ∙ ap₂ (window b) (omega arith) (omega arith)
