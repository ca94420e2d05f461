-- ===== src/Ipc/KernelLog/Stream.antt =====
-- The ring of kernel/src/kernel_log.rs as a list of bytes.
use karte_os.Base.{
  ℕ, zero, suc, ◌+◌, ◌-◌, ◌%◌, ◌≤◌, ◌<◌, min, true, false, none, some, List, [], ◌∷◌, ◌++◌, ◌==◌,
  leb, if◌then◌else◌, get_or, set, take, drop, length, length-set, drop-min, drop_all, take_all,
  length-replicate, ◌≡◌, refl, ap, sym, ◌∙◌, arith, Bool-cases, inl, inr,
}
use mathlib.Core.Path.{ap₂}
use karte_os.Base.Ring.{window, length-window, window-set, drop-window, take-window-min}
use karte_os.Ipc.KernelLog.{
  LogBuffer, new, write_byte, available, copy_from, read, peek, clear, log_flush_to_file,
}

abbrev pub contents : LogBuffer → List ℕ
contents b = window 32768 0 b.ring b.tail (available b)

pub record IsValid (b : LogBuffer) : Type 0 where
  pub storage : length b.ring ≡ 32768
  pub head_in : b.head < 32768
  pub tail_in : b.tail < 32768

available_lem : (b : LogBuffer) → IsValid b → available b ≡ (b.head + 32768 - b.tail) % 32768
unfolding available
available_lem b v = ground (arith, v.head_in, v.tail_in)

copy_from-window : (ring : List ℕ) (p n : ℕ) → copy_from ring p n ≡ window 32768 0 ring p n
unfolding copy_from
copy_from-window ring p zero = refl
copy_from-window ring p (suc n) =
    ap (◌∷◌ (get_or ring p 0)) (copy_from-window ring ((p + 1) % 32768) n)

pub new-IsValid : IsValid new
unfolding new
new-IsValid = record {
  storage = length-replicate {A = ℕ} 32768 0;
  head_in = omega arith;
  tail_in = omega arith;
}

-- The specification: the last 32767 bytes.
abbrev pub append_byte : List ℕ → ℕ → List ℕ
append_byte xs byte = (if length xs == 32767 then drop 1 xs else xs) ++ byte ∷ []

length-contents : (b : LogBuffer) → length (contents b) ≡ available b
length-contents b = length-window 32768 0 b.ring b.tail (available b)

-- The tail moves on by n bytes.
advance_lem :
    (b : LogBuffer) (n : ℕ)
    → IsValid b
    → n ≤ available b
    → let b' : LogBuffer = record b { tail = (b.tail + n) % 32768 } in
      IsValid b' × (contents b' ≡ drop n (contents b)) × (available b' ≡ available b - n)
advance_lem b n v h =
    let b' : LogBuffer = record b { tail = (b.tail + n) % 32768 } in
    let l = available_lem b v in
    let w : IsValid b' = record {
      storage = v.storage;
      head_in = v.head_in;
      tail_in = omega arith;
    } in
    let l' : available b' ≡ available b - n =
      omega (arith, l, available_lem b' w, v.head_in, v.tail_in) in
    (
      w,
      ap (window 32768 0 b.ring b'.tail) l'
          ∙ sym (drop-window 32768 0 b.ring b.tail (available b) n v.tail_in h (omega (arith, l))),
      l',
    )

-- A byte is written behind the others, where there is room.
append_lem :
    (b : LogBuffer) (byte : ℕ)
    → IsValid b
    → available b < 32767
    → let b' : LogBuffer = record b {
      ring = set b.ring b.head byte;
      head = (b.head + 1) % 32768;
    } in
      IsValid b' × (contents b' ≡ contents b ++ byte ∷ [])
append_lem b byte v h =
    let b' : LogBuffer = record b { ring = set b.ring b.head byte; head = (b.head + 1) % 32768 } in
    let l = available_lem b v in
    let w : IsValid b' = record {
      storage = length-set b.ring b.head byte ∙ v.storage;
      head_in = omega arith;
      tail_in = v.tail_in;
    } in
    let l' : available b' ≡ suc (available b) =
      omega (arith, l, available_lem b' w, v.head_in, v.tail_in) in
    (
      w,
      rw l' (
          window-set 32768 0 b.ring b.tail (available b) b.head byte v.storage v.tail_in
            (omega arith) (omega (arith, l, v.head_in, v.tail_in))),
    )

-- A byte that is written is appended; if 32767 bytes were there, the oldest goes.
pub write_byte_lem :
    (b : LogBuffer) (byte : ℕ)
    → IsValid b
    → IsValid (write_byte b byte) × (contents (write_byte b byte) ≡ append_byte (contents b) byte)
unfolding write_byte
write_byte_lem b byte v =
    let l = available_lem b v in
    elim (Bool-cases (((b.head + 1) % 32768) == b.tail)) [
      | inl full ↦
          let at : (b.head + 1) % 32768 ≡ b.tail = ground arith in
          let n : available b ≡ 32767 = omega (arith, l, at, v.head_in, v.tail_in) in
          let n' : (available b == 32767) ≡ true = ground arith in
          let (w, c, a) = advance_lem b 1 v (omega arith) in
          let (w', c') =
            append_lem (record b { tail = (b.tail + 1) % 32768 }) byte w (omega arith) in
          rw (full, length-contents b, n') (w', c' ∙ ap (λ xs. xs ++ byte ∷ []) c)
      | inr some_room ↦
          let apart : ((b.head + 1) % 32768 ≡ b.tail) → ⊥ = λ e. ground arith in
          let n : available b < 32767 = omega (arith, l, apart, v.head_in, v.tail_in) in
          let n' : (available b == 32767) ≡ false = ground arith in
          let (w', c') = append_lem b byte v n in rw (some_room, length-contents b, n') (w', c')
    ]

-- A read takes the oldest bytes out.
pub read_lem :
    (b : LogBuffer) (len : ℕ)
    → IsValid b
    → IsValid (read b len).1
      × ((read b len).0 ≡ take len (contents b))
      × (contents (read b len).1 ≡ drop len (contents b))
unfolding read
read_lem b len v =
    let (w, c, a) = advance_lem b (min (available b) len) v (omega arith) in
    (
      w,
      copy_from-window b.ring b.tail (min (available b) len)
          ∙ sym (take-window-min 32768 0 b.ring b.tail (available b) len),
      c
          ∙ ap (λ n. drop (min n len) (contents b)) (sym (length-contents b))
          ∙ drop-min (contents b) len,
    )

-- A peek copies bytes from an offset on, and takes none out.
pub peek_lem :
    (b : LogBuffer) (len offset : ℕ)
    → IsValid b
    → peek b len offset ≡ take len (drop offset (contents b))
unfolding peek
peek_lem b len offset v = elim (Bool-cases (leb (available b) offset)) [
  | inl past ↦
      let le : length (contents b) ≤ offset = ground (arith, length-contents b) in
      rw (past, drop_all (contents b) offset le) (sym (take_nil len))
  | inr inside ↦
      let le : offset ≤ available b = ground arith in
      rw
        (
          inside,
          drop-window 32768 0 b.ring b.tail (available b) offset v.tail_in le
              (omega (arith, available_lem b v)),
          take-window-min 32768 0 b.ring ((b.tail + offset) % 32768) (available b - offset) len,
        )
        (copy_from-window b.ring ((b.tail + offset) % 32768) (min (available b - offset) len))
]
  where
    take_nil : (n : ℕ) → take {A = ℕ} n [] ≡ []
    take_nil zero = refl
    take_nil (suc n) = refl

-- A flush hands over all that is there, and leaves nothing.
pub flush_lem :
    (b : LogBuffer)
    → IsValid b
    → ((log_flush_to_file b).0 ≡ (if length (contents b) == 0 then none else some (contents b)))
      × (contents (log_flush_to_file b).1 ≡ [])
unfolding log_flush_to_file
flush_lem b v =
    let (w, out, c) = read_lem b (available b) v in
    let n = length-contents b in
    elim (Bool-cases (available b == 0)) [
      | inl e ↦
          let z : available b ≡ 0 = ground arith in
          rw (n, e) (refl, ap (window 32768 0 b.ring b.tail) z)
      | inr e ↦
          rw (n, e)
            (
              ap some (out ∙ take_all (contents b) (available b) (omega (arith, n))),
              c ∙ drop_all (contents b) (available b) (omega (arith, n)),
            )
    ]

clear_lem : (b : LogBuffer) → IsValid b → IsValid (clear b) × (contents (clear b) ≡ [])
unfolding clear available
clear_lem b v =
    let none_left : available (record b { tail = b.head }) ≡ 0 = ground arith in
    (
      record { storage = v.storage; head_in = v.head_in; tail_in = v.head_in },
      ap (window 32768 0 b.ring b.head) none_left,
    )

-- The calls, with what comes out.
pub data Call : Type 0 where
  writes : ℕ → Call
  reads : ℕ → Call
  clears : Call

pub run : LogBuffer → List Call → List ℕ × LogBuffer
run b [] = ([], b)
run b (writes byte ∷ cs) = run (write_byte b byte) cs
run b (reads len ∷ cs) =
    let (got, b') = read b len in let (gots, b'') = run b' cs in (got ++ gots, b'')
run b (clears ∷ cs) = run (clear b) cs

abbrev pub run_bytes : List ℕ → List Call → List ℕ × List ℕ
run_bytes xs [] = ([], xs)
run_bytes xs (writes byte ∷ cs) = run_bytes (append_byte xs byte) cs
run_bytes xs (reads len ∷ cs) =
    let (gots, ys) = run_bytes (drop len xs) cs in (take len xs ++ gots, ys)
run_bytes xs (clears ∷ cs) = run_bytes [] cs

-- Over any sequence of bytes written, reads and clears of a valid log ring, the ring stays
-- valid, and what the reads return and what remains are those of a list that keeps the last
-- 32767 bytes.
pub run-run_bytes :
    (b : LogBuffer) (cs : List Call)
    → IsValid b
    → IsValid (run b cs).1 × (((run b cs).0, contents (run b cs).1) ≡ run_bytes (contents b) cs)
unfolding run
run-run_bytes b [] v = (v, refl)
run-run_bytes b (writes byte ∷ cs) v =
    let (w, c) = write_byte_lem b byte v in
    let (w', e) = run-run_bytes (write_byte b byte) cs w in (w', e ∙ ap (λ xs. run_bytes xs cs) c)
run-run_bytes b (reads len ∷ cs) v =
    let (w, out, c) = read_lem b len v in
    let (w', e) = run-run_bytes (read b len).1 cs w in
    let e' = e ∙ ap (λ xs. run_bytes xs cs) c in (w', ap₂ (λ xs r. (xs ++ r.0, r.1)) out e')
run-run_bytes b (clears ∷ cs) v =
    let (w, c) = clear_lem b v in
    let (w', e) = run-run_bytes (clear b) cs w in (w', e ∙ ap (λ xs. run_bytes xs cs) c)
