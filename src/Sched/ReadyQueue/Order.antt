-- ===== src/Sched/ReadyQueue/Order.antt =====
-- ReadyQueue::pop_next of kernel/src/sched/ready_queue.rs: which task runs next.
use karte_os.Base.{
  ℕ, zero, suc, ◌+◌, ◌<◌, false, none, some, List, [], ◌∷◌, ◌++◌, ◌≡◌, ◌≢◌, ◌⊎◌, refl, sym, ap, ◌∙◌,
  ◌==◌, inl, inr, set, length, length-set, length-append, arith, Bool-cases, get_or_out, is_empty,
  ltb,
}
use karte_os.Base.Bits.{bit, trailing_zeros, bit-zero, trailing_zeros_lem, trailing_zeros_below}
use karte_os.Sched.ReadyQueue.{
  ReadyQueue, levels, at, drop_head, promote, pick_next, pop_next, starved_after, total, len,
}
use karte_os.Sched.ReadyQueue.Bitmap.{
  IsValid, flag, pick_from-some, clear_bit-IsIndexed, promote-IsValid, promote_cases,
}

-- `token` is the head of level `lvl`, no level before `lvl` holds a task, and `q'` is `q` without
-- that head.
pub record Picks (q : ReadyQueue) (lvl token : ℕ) (q' : ReadyQueue) : Type 0 where
  pub level_in : lvl < levels
  pub first : (j : ℕ) → j < lvl → at q.queues j ≡ []
  pub rest : List ℕ
  pub head : at q.queues lvl ≡ token ∷ rest
  pub queues_after : q'.queues ≡ set q.queues lvl rest
  pub starved_count : q'.batch_starved ≡ starved_after (drop_head q lvl rest) lvl
  pub valid : IsValid q'

flag_zero : (xs : List ℕ) → flag xs ≡ 0 → xs ≡ []
flag_zero [] h = refl
flag_zero (x ∷ xs) h = absurd (omega arith)

flag_one : (xs : List ℕ) → flag xs ≡ 1 → is_empty xs ≡ false
flag_one [] h = absurd (omega arith)
flag_one (x ∷ xs) h = refl

-- A bitmap of 0 means that every level is empty.
zero_empty : (q : ReadyQueue) → IsValid q → q.bitmap ≡ 0 → (j : ℕ) → at q.queues j ≡ []
zero_empty q v z j = elim (Bool-cases (ltb j 32)) [
  | inl low ↦
      let h : j < 32 = ground arith in
      flag_zero _ (sym (v.bits j h) ∙ ap (λ w. bit w j) z ∙ bit-zero j)
  | inr high ↦ get_or_out q.queues j [] (ground (arith, v.size))
]

-- A pick from a queue that is not empty takes the head of its first level that holds a task.
pick_next-Picks :
    (q : ReadyQueue)
    → IsValid q
    → q.bitmap ≢ 0
    → (token : ℕ) × (lvl : ℕ) × (q' : ReadyQueue) × (pick_next q ≡ (some token, q'))
      × Picks q lvl token q'
unfolding pick_next
pick_next-Picks q v nz =
    let lvl = trailing_zeros 32 q.bitmap in
    let (lo, at_one) = trailing_zeros_lem 32 q.bitmap v.word nz in
    let full : is_empty (at q.queues lvl) ≡ false = flag_one _ (sym (v.bits lvl lo) ∙ at_one) in
    let (token, rest, head, pick) = pick_from-some q lvl full in
    let nz' : (q.bitmap == 0) ≡ false = ground arith in
    let next = record (drop_head q lvl rest) {
      batch_starved = starved_after (drop_head q lvl rest) lvl;
    } in
    (
      token,
      lvl,
      next,
      rw (nz', pick) refl,
      record {
        level_in = lo;
        first = λ j h.
            flag_zero _ (sym (v.bits j (omega (arith, lo))) ∙ trailing_zeros_below 32 q.bitmap j h);
        rest = rest;
        head = head;
        queues_after = refl;
        starved_count = refl;
        valid = clear_bit-IsIndexed q.bitmap q.queues lvl rest v lo full;
      },
    )

-- On a valid queue pop_next takes the head of the first level that holds a task, once a starved
-- batch task has been promoted, and leaves the queue valid; or no level holds a task, and it
-- answers none.
pub pop_next-Picks :
    (q : ReadyQueue)
    → IsValid q
    → ((token : ℕ) × (lvl : ℕ) × (q' : ReadyQueue) × (pop_next q ≡ (some token, q'))
        × Picks (promote q) lvl token q')
      ⊎ (((j : ℕ) → at (promote q).queues j ≡ []) × (pop_next q ≡ (none, promote q)))
unfolding pop_next pick_next
pop_next-Picks q v = elim (Bool-cases ((promote q).bitmap == 0)) [
  | inl z ↦ inr (zero_empty (promote q) (promote-IsValid q v) (ground arith), rw z refl)
  | inr nz ↦
      let ne : (promote q).bitmap ≢ 0 = ground arith in
      inl (pick_next-Picks (promote q) (promote-IsValid q v) ne)
]

total-set :
    (qs : List (List ℕ)) (i : ℕ) (ys : List ℕ)
    → i < length qs
    → total (set qs i ys) + length (at qs i) ≡ total qs + length ys
unfolding total
total-set [] i ys h = elim h [ ]
total-set (xs ∷ qs) zero ys h = omega arith
total-set (xs ∷ qs) (suc i) ys h = omega (arith, total-set qs i ys (omega arith))

total_empty : (qs : List (List ℕ)) → ((j : ℕ) → at qs j ≡ []) → total qs ≡ 0
unfolding total
total_empty [] h = refl
total_empty (xs ∷ qs) h = omega (arith, ap length (h 0), total_empty qs (λ j. h (suc j)))

len-promote : (q : ReadyQueue) → IsValid q → len (promote q) ≡ len q
unfolding len
len-promote q v = elim (promote_cases q) [
  | inl same ↦ rw same refl
  | inr (tok, rest, due, e, moved) ↦
      let qs = set q.queues 31 rest in
      rw moved (
        omega (
          arith,
          v.size,
          ap length e,
          length-set q.queues 31 rest,
          length-append (at qs 24) (tok ∷ []),
          total-set q.queues 31 rest (omega (arith, v.size)),
          total-set qs 24 (at qs 24 ++ tok ∷ [])
              (omega (arith, v.size, length-set q.queues 31 rest)),
        ))
]

-- pop_next on a valid queue picks a task and leaves one task fewer, or answers none and there
-- was no task.
pub len-pop_next :
    (q : ReadyQueue)
    → IsValid q
    → ((token : ℕ) × (q' : ReadyQueue) × (pop_next q ≡ (some token, q')) × (len q ≡ len q' + 1))
      ⊎ (((pop_next q).0 ≡ none) × (len q ≡ 0))
len-pop_next q v = elim (pop_next-Picks q v) [
  | inl (tok, lvl, r, e, p) ↦
      let counted : len (promote q) ≡ len r + 1 = one_less r lvl tok p in
      inl (tok, r, e, omega (arith, len-promote q v, counted))
  | inr (all_empty, e) ↦ inr (ap (λ r. r.0) e, sym (len-promote q v) ∙ no_tasks all_empty)
]
  where
    one_less :
        (r : ReadyQueue) (lvl tok : ℕ) → Picks (promote q) lvl tok r → len (promote q) ≡ len r + 1
    one_less r lvl tok p =
        let w = promote-IsValid q v in
        unfold len in
        rw p.queues_after (
          omega (
            arith,
            ap length p.head,
            total-set (promote q).queues lvl p.rest (omega (arith, w.size, p.level_in)),
          ))

    no_tasks : ((j : ℕ) → at (promote q).queues j ≡ []) → len (promote q) ≡ 0
    no_tasks all_empty = unfold len in total_empty (promote q).queues all_empty
