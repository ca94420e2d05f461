-- ===== src/Ipc/TokenPipe/Stream.antt =====
-- The ring of kernel/src/tokpipe.rs as a queue of payloads: what each call does to it.
use karte_os.Base.{
  ℕ, zero, suc, ◌+◌, ◌-◌, ◌%◌, ◌≤◌, ◌<◌, min, List, [], ◌∷◌, ◌++◌, ◌==◌, if◌then◌else◌, length,
  get_or, set, take, drop, ◌≡◌, refl, ap, sym, ◌∙◌, arith, length-set, take-min, Bool-cases, inl,
  inr, map, length-map,
}
use mathlib.Core.List.{map-append}
use mathlib.Core.Path.{ap₂, subst}
use karte_os.Base.Words.{add_usize}
use karte_os.Base.Ring.{window, length-window, window-set, drop-window}
use karte_os.Ipc.TokenPipe.{TokenSlot, TokenPipe, blank, len, fill, make_room, push, consume}
use karte_os.Ipc.TokenPipe.Ring.{contents, IsValid, len_lem}

-- The bytes that a token carries.
abbrev pub payload : TokenSlot → List ℕ
payload s = take s.len s.bytes

-- What the ring stands for: the payloads in flight, oldest first, and the number of dropped tokens.
abbrev pub Queue : Type 0
Queue = List (List ℕ) × ℕ

abbrev pub queue : TokenPipe → Queue
queue p = (map payload (contents p), p.dropped)

-- The specification: a queue of 256 payloads of 64 bytes at most, that drops its oldest.
abbrev pub enqueue : Queue → List ℕ → Queue
enqueue (xs, dropped) bytes =
    if length xs == 256
    then (drop 1 xs ++ take 64 bytes ∷ [], add_usize dropped 1)
    else (xs ++ take 64 bytes ∷ [], dropped)

abbrev pub dequeue : Queue → ℕ → Queue
dequeue (xs, dropped) n = (drop n xs, dropped)

take_prefix : (xs ys : List ℕ) (n : ℕ) → n ≤ length xs → take n (take n xs ++ ys) ≡ take n xs
take_prefix xs ys zero h = refl
take_prefix [] ys (suc n) h = absurd (omega arith)
take_prefix (x ∷ xs) ys (suc n) h = ap (◌∷◌ x) (take_prefix xs ys n (omega arith))

payload-fill : (s : TokenSlot) (bytes : List ℕ) → payload (fill s bytes) ≡ take 64 bytes
unfolding fill
payload-fill s bytes =
    take_prefix bytes (drop (min (length bytes) 64) s.bytes) (min (length bytes) 64) (omega arith)
    ∙ take-min bytes 64

length-contents : (p : TokenPipe) → length (contents p) ≡ len p
length-contents p = length-window 256 blank p.ring (p.tail % 256) (len p)

drop-map {ℓ κ} :
    {A : Type ℓ} {B : Type κ} (f : A → B) (n : ℕ) (xs : List A)
    → drop n (map f xs) ≡ map f (drop n xs)
drop-map f zero xs = refl
drop-map f (suc n) [] = refl
drop-map f (suc n) (x ∷ xs) = drop-map f n xs

-- The cursors after the tail has moved on by n tokens that were in flight.
after_consume :
    (head tail n : ℕ)
    → head < 512
    → tail < 512
    → n ≤ (head + 512 - tail) % 512
    → (head + 512 - add_usize tail n % 512) % 512 ≡ (head + 512 - tail) % 512 - n
after_consume head tail n h t k = omega arith

-- The tail moves on by n tokens that were in flight.
consume_lem :
    (p : TokenPipe) (n : ℕ)
    → IsValid p
    → n ≤ len p
    → IsValid (consume p n) × (contents (consume p n) ≡ drop n (contents p))
unfolding consume
consume_lem p n v h =
    let l = len_lem p v in
    let moved = after_consume p.head p.tail n v.head_in v.tail_in (omega (arith, l)) in
    let w : IsValid (consume p n) = record {
      storage = v.storage;
      head_in = v.head_in;
      tail_in = omega arith;
      room = omega (arith, moved, v.room);
    } in
    let l' = len_lem (consume p n) w in
    (
      w,
      ap₂ (window 256 blank p.ring) (omega arith) (omega (arith, l, l', moved))
          ∙ sym (
              drop-window 256 blank p.ring (p.tail % 256) (len p) n (omega arith) h
                (omega (arith, l, v.room))),
    )

-- The new token is written behind the others, where there is room.
append_lem :
    (q : TokenPipe) (s : TokenSlot)
    → IsValid q
    → len q < 256
    → let q' : TokenPipe = record q {
      ring = set q.ring (q.head % 256) s;
      head = (q.head + 1) % 512;
    } in
      IsValid q' × (contents q' ≡ contents q ++ s ∷ [])
append_lem q s v h =
    let q' : TokenPipe = record q {
      ring = set q.ring (q.head % 256) s;
      head = (q.head + 1) % 512;
    } in
    let l = len_lem q v in
    let w : IsValid q' = record {
      storage = length-set q.ring (q.head % 256) s ∙ v.storage;
      head_in = omega arith;
      tail_in = v.tail_in;
      room = omega (arith, l, v.head_in, v.tail_in);
    } in
    let l' : len q' ≡ suc (len q) = omega (arith, len_lem q' w, l, v.head_in, v.tail_in) in
    (
      w,
      rw l' (
          window-set 256 blank q.ring (q.tail % 256) (len q) (q.head % 256) s v.storage
            (omega arith) h (omega (arith, l, v.head_in, v.tail_in))),
    )

-- What is left once there is room.
abbrev roomy : Queue → Queue
roomy (xs, dropped) = if length xs == 256 then (drop 1 xs, add_usize dropped 1) else (xs, dropped)

length-payloads : (p : TokenPipe) → length (map payload (contents p)) ≡ len p
length-payloads p = length-map payload (contents p) ∙ length-contents p

make_room_lem :
    (p : TokenPipe)
    → IsValid p
    → IsValid (make_room p) × (len (make_room p) < 256) × (queue (make_room p) ≡ roomy (queue p))
unfolding make_room consume
make_room_lem p v = elim (Bool-cases (len p == 256)) [
  | inl full ↦
      let q : TokenPipe = record p { tail = (p.tail + 1) % 512; dropped = add_usize p.dropped 1 } in
      let l : len p ≡ 256 = ground arith in
      let same : (p.tail + 1) % 512 ≡ add_usize p.tail 1 % 512 = omega (arith, v.tail_in) in
      let (w, c) = consume_lem p 1 v (omega arith) in
      let w' : IsValid q = record {
        storage = v.storage;
        head_in = v.head_in;
        tail_in = omega arith;
        room = rw same w.room;
      } in
      let c' : contents q ≡ drop 1 (contents p) = unfold len in rw same c in
      let few : len q < 256 = omega (arith, len_lem q w', len_lem p v, v.head_in, v.tail_in) in
      rw (full, length-payloads p)
        (
          w',
          few,
          rw full (
              ap (λ xs. (xs, add_usize p.dropped 1))
                (ap (map payload) c' ∙ sym (drop-map payload 1 (contents p)))),
        )
  | inr some_room ↦
      rw (some_room, length-payloads p) (v, ground (arith, len_lem p v, v.room), rw some_room refl)
]

enqueue-roomy :
    (x : Queue) (bytes : List ℕ)
    → enqueue x bytes ≡ ((roomy x).0 ++ take 64 bytes ∷ [], (roomy x).1)
enqueue-roomy (xs, d) bytes = elim (Bool-cases (length xs == 256)) [
  | inl e ↦ rw e refl
  | inr e ↦ rw e refl
]

-- `push` is `enqueue` on what the ring stands for.
pub push-enqueue :
    (p : TokenPipe) (bytes : List ℕ)
    → IsValid p
    → IsValid (push p bytes) × (queue (push p bytes) ≡ enqueue (queue p) bytes)
unfolding push
push-enqueue p bytes v =
    let q = make_room p in
    let s = fill (get_or q.ring (q.head % 256) blank) bytes in
    let (w, few, e) = make_room_lem p v in
    let (w', c) = append_lem q s w few in
    (
      w',
      ap (λ xs. (xs, q.dropped))
            (ap (map payload) c
              ∙ map-append payload (contents q) (s ∷ [])
              ∙ ap (λ b. map payload (contents q) ++ b ∷ [])
                  (payload-fill (get_or q.ring (q.head % 256) blank) bytes))
          ∙ ap (λ r. (r.0 ++ take 64 bytes ∷ [], r.1)) e
          ∙ sym (enqueue-roomy (queue p) bytes),
    )

pub consume-dequeue :
    (p : TokenPipe) (n : ℕ)
    → IsValid p
    → n ≤ length (queue p).0
    → IsValid (consume p n) × (queue (consume p n) ≡ dequeue (queue p) n)
consume-dequeue p n v h =
    let (w, c) = consume_lem p n v (omega (arith, length-payloads p)) in
    (
      w,
      unfold consume in
          ap (λ xs. (xs, p.dropped)) (ap (map payload) c ∙ sym (drop-map payload n (contents p))),
    )

-- The calls of the producer and of the consumer.
pub data Call : Type 0 where
  pushes : List ℕ → Call
  consumes : ℕ → Call

pub run : TokenPipe → List Call → TokenPipe
run p [] = p
run p (pushes bytes ∷ cs) = run (push p bytes) cs
run p (consumes n ∷ cs) = run (consume p n) cs

abbrev pub run_queue : Queue → List Call → Queue
run_queue q [] = q
run_queue q (pushes bytes ∷ cs) = run_queue (enqueue q bytes) cs
run_queue q (consumes n ∷ cs) = run_queue (dequeue q n) cs

-- The consumer never takes more tokens than are in flight.
abbrev pub Fits : Queue → List Call → Type 0
Fits q [] = Unit {0}
Fits q (pushes bytes ∷ cs) = Fits (enqueue q bytes) cs
Fits q (consumes n ∷ cs) = (n ≤ length q.0) × Fits (dequeue q n) cs

-- Over any sequence of pushes and consumes of a valid token pipe, no consume taking more tokens
-- than are in flight, the ring stays valid and stands for what a queue of 256 payloads of at
-- most 64 bytes becomes that drops its oldest when full and counts the drops.
pub run-run_queue :
    (p : TokenPipe) (cs : List Call)
    → IsValid p
    → Fits (queue p) cs
    → IsValid (run p cs) × (queue (run p cs) ≡ run_queue (queue p) cs)
unfolding run
run-run_queue p [] v fits = (v, refl)
run-run_queue p (pushes bytes ∷ cs) v fits =
    let (w, e) = push-enqueue p bytes v in
    let (w', e') = run-run_queue (push p bytes) cs w (subst (λ q. Fits q cs) (sym e) fits) in
    (w', e' ∙ ap (λ q. run_queue q cs) e)
run-run_queue p (consumes n ∷ cs) v fits =
    let (w, e) = consume-dequeue p n v fits.0 in
    let (w', e') = run-run_queue (consume p n) cs w (subst (λ q. Fits q cs) (sym e) fits.1) in
    (w', e' ∙ ap (λ q. run_queue q cs) e)
