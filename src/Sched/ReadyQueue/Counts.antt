-- ===== src/Sched/ReadyQueue/Counts.antt =====
-- How often a task stands in the queue of kernel/src/sched/ready_queue.rs, and what the operations
-- do to that number.
use karte_os.Base.{
  ℕ, zero, suc, ◌+◌, ◌-◌, ◌<◌, ◌≤◌, min, Bool, true, false, Option, none, some, List, [], ◌∷◌, ◌++◌,
  ◌≡◌, refl, sym, ap, ◌∙◌, ◌==◌, inl, inr, set, length, length-set, arith, Bool-cases,
  if◌then◌else◌,
}
use karte_os.Sched.ReadyQueue.{ReadyQueue, at, contains, push, promote, pop_next, remove}
use karte_os.Sched.ReadyQueue.Bitmap.{IsValid, promote_cases, promote-IsValid}
use karte_os.Sched.ReadyQueue.Order.{Picks, pop_next-Picks}
use karte_os.Sched.ReadyQueue.Removal.{absent, found, remove-Removes}

unfoldable pub count : List ℕ → ℕ → ℕ
count [] t = 0
count (x ∷ xs) t = (if x == t then 1 else 0) + count xs t

-- The number of times that `t` is queued, over all levels.
unfoldable pub queued : List (List ℕ) → ℕ → ℕ
queued [] t = 0
queued (xs ∷ qs) t = count xs t + queued qs t

abbrev pub one_if : Bool → ℕ
one_if b = if b then 1 else 0

count-append : (xs ys : List ℕ) (t : ℕ) → count (xs ++ ys) t ≡ count xs t + count ys t
unfolding count
count-append [] ys t = omega arith
count-append (x ∷ xs) ys t = omega (arith, count-append xs ys t)

queued-set :
    (qs : List (List ℕ)) (i : ℕ) (ys : List ℕ) (t : ℕ)
    → i < length qs
    → queued (set qs i ys) t + count (at qs i) t ≡ queued qs t + count ys t
unfolding queued count
queued-set [] i ys t h = elim h [ ]
queued-set (xs ∷ qs) zero ys t h = omega arith
queued-set (xs ∷ qs) (suc i) ys t h = omega (arith, queued-set qs i ys t (omega arith))

count-absent : (xs : List ℕ) (t : ℕ) → contains xs t ≡ false → count xs t ≡ 0
unfolding count contains
count-absent [] t h = refl
count-absent (x ∷ xs) t h = ground (arith, count-absent xs t)

count-present : (xs : List ℕ) (t : ℕ) → contains xs t ≡ true → 1 ≤ count xs t
unfolding count contains
count-present [] t h = cc
count-present (x ∷ xs) t h = ground (arith, count-present xs t)

count-queued : (qs : List (List ℕ)) (i t : ℕ) → count (at qs i) t ≤ queued qs t
unfolding queued count
count-queued [] i t = omega arith
count-queued (xs ∷ qs) zero t = omega arith
count-queued (xs ∷ qs) (suc i) t = omega (arith, count-queued qs i t)

pub queued-push :
    (q : ReadyQueue) (token prio t : ℕ)
    → IsValid q
    → queued q.queues token ≡ 0
    → queued (push q token prio).queues t ≡ one_if (token == t) + queued q.queues t
unfolding push count
queued-push q token prio t v z =
    let lvl = min prio 31 in
    elim (Bool-cases (contains (at q.queues lvl) token)) [
      | inl c ↦
          absurd (
            omega (arith, count-present (at q.queues lvl) token c, count-queued q.queues lvl token))
      | inr c ↦ rw c (
          omega (
            arith,
            v.size,
            queued-set q.queues lvl (at q.queues lvl ++ token ∷ []) t (omega (arith, v.size)),
            count-append (at q.queues lvl) (token ∷ []) t,
          ))
    ]

queued-promote :
    (q : ReadyQueue) (t : ℕ) → IsValid q → queued (promote q).queues t ≡ queued q.queues t
unfolding count
queued-promote q t v = elim (promote_cases q) [
  | inl same ↦ rw same refl
  | inr (tok, rest, due, e, moved) ↦
      let qs = set q.queues 31 rest in
      rw moved (
        omega (
          arith,
          v.size,
          ap (λ xs. count xs t) e,
          length-set q.queues 31 rest,
          count-append (at qs 24) (tok ∷ []) t,
          queued-set q.queues 31 rest t (omega (arith, v.size)),
          queued-set qs 24 (at qs 24 ++ tok ∷ []) t
              (omega (arith, v.size, length-set q.queues 31 rest)),
        ))
]

queued_empty : (qs : List (List ℕ)) (t : ℕ) → ((j : ℕ) → at qs j ≡ []) → queued qs t ≡ 0
unfolding queued count
queued_empty [] t h = refl
queued_empty (xs ∷ qs) t h =
    omega (arith, ap (λ xs. count xs t) (h 0), queued_empty qs t (λ j. h (suc j)))

-- What `pop_next` has done to the numbers.
pub data Popped (q : ReadyQueue) : Option ℕ × ReadyQueue → Type 0 where
  popped :
      (token : ℕ) (q' : ReadyQueue)
      → IsValid q'
      → ((t : ℕ) → queued q.queues t ≡ one_if (token == t) + queued q'.queues t)
      → Popped q (some token, q')
  none_ready :
      (q' : ReadyQueue)
      → IsValid q'
      → ((t : ℕ) → queued q.queues t ≡ 0)
      → ((t : ℕ) → queued q'.queues t ≡ 0)
      → Popped q (none, q')

pub pop_next-Popped : (q : ReadyQueue) → IsValid q → Popped q (pop_next q)
unfolding count
pop_next-Popped q v = elim (pop_next-Picks q v) [
  | inl (tok, lvl, r, e, p) ↦ rw e (popped tok r p.valid (λ t. one_less tok lvl r p t))
  | inr (all_empty, e) ↦
      let none_of : (t : ℕ) → queued (promote q).queues t ≡ 0 =
        λ t. queued_empty (promote q).queues t all_empty in
      rw e (
        none_ready (promote q) (promote-IsValid q v) (λ t. sym (queued-promote q t v) ∙ none_of t)
          none_of)
]
  where
    one_less :
        (tok lvl : ℕ) (r : ReadyQueue)
        → Picks (promote q) lvl tok r
        → (t : ℕ) → queued q.queues t ≡ one_if (tok == t) + queued r.queues t
    one_less tok lvl r p t =
        let w = promote-IsValid q v in
        rw p.queues_after (
          omega (
            arith,
            ap (λ xs. count xs t) p.head,
            queued-promote q t v,
            queued-set (promote q).queues lvl p.rest t (omega (arith, w.size, p.level_in)),
          ))

queued-absent :
    (qs : List (List ℕ)) (t : ℕ) → ((j : ℕ) → contains (at qs j) t ≡ false) → queued qs t ≡ 0
unfolding queued
queued-absent [] t h = refl
queued-absent (xs ∷ qs) t h =
    omega (arith, count-absent xs t (h 0), queued-absent qs t (λ j. h (suc j)))

-- `remove` takes away one occurrence of the token, if there is one.
pub queued-remove :
    (q : ReadyQueue) (token t : ℕ)
    → IsValid q
    → (queued (remove q token).1.queues t
        ≡ (if token == t then queued q.queues t - 1 else queued q.queues t))
      × IsValid (remove q token).1
unfolding count
queued-remove q token t v = elim (remove-Removes q token v) [
  | absent none_there e ↦
      let z = queued-absent q.queues token none_there in rw e (ground (arith, z), v)
  | found lvl ys lo before out hit e v' ↦ (
    rw e (
        let size : lvl < length q.queues = omega (arith, v.size) in
        let gone : count (at q.queues lvl) t ≡ one_if (token == t) + count ys t =
          ap (λ xs. count xs t) out.split
          ∙ count-append out.before (token ∷ out.after) t
          ∙ omega (arith, count-append out.before out.after t, ap (λ xs. count xs t) out.joined) in
        ground (arith, queued-set q.queues lvl ys t size)),
    v',
  )
]
