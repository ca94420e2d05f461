-- ===== src/Sched/ReadyQueue/Removal.antt =====
-- ReadyQueue::remove of kernel/src/sched/ready_queue.rs: taking one task out of the queue.
use karte_os.Base.{
  ℕ, zero, suc, ◌+◌, ◌<◌, Bool, true, false, none, some, List, [], ◌∷◌, ◌++◌, ◌≡◌, refl, ap, ◌==◌,
  inl, inr, set, arith, Bool-cases, Option-cases, is_empty, get_or_out, ltb,
}
use karte_os.Sched.ReadyQueue.{ReadyQueue, levels, at, contains, take_out, remove_from, remove}
use karte_os.Sched.ReadyQueue.Bitmap.{IsValid, clear_bit-IsIndexed}

-- `ys` is `xs` without the first `token`.
pub record TakenOut (xs : List ℕ) (token : ℕ) (ys : List ℕ) : Type 0 where
  pub before : List ℕ
  pub after : List ℕ
  pub split : xs ≡ before ++ token ∷ after
  pub joined : ys ≡ before ++ after
  pub first : contains before token ≡ false

take_out-some :
    (xs : List ℕ) (token : ℕ) (ys : List ℕ) → take_out xs token ≡ some ys → TakenOut xs token ys
unfolding take_out contains
take_out-some [] token ys e = absurd (ground arith)
take_out-some (x ∷ xs) token ys e = elim (Bool-cases (x == token)) [
  | inl hit ↦ record {
    before = [];
    after = xs;
    split = ground arith;
    joined = ground arith;
    first = refl;
  }
  | inr miss ↦ elim (Option-cases (take_out xs token)) [
    | inl gone ↦ absurd (ground arith)
    | inr (zs, found) ↦
        let t = take_out-some xs token zs found in
        record {
          before = x ∷ t.before;
          after = t.after;
          split = ap (◌∷◌ x) t.split;
          joined = ground (arith, t.joined);
          first = ground (arith, t.first);
        }
  ]
]

take_out-none : (xs : List ℕ) (token : ℕ) → take_out xs token ≡ none → contains xs token ≡ false
unfolding take_out contains
take_out-none [] token e = refl
take_out-none (x ∷ xs) token e = elim (Option-cases (take_out xs token)) [
  | inl gone ↦ ground (arith, take_out-none xs token gone)
  | inr (zs, found) ↦ absurd (ground arith)
]

-- What `remove` has done: nothing, if no level holds the token; else it has taken out the first
-- one of the first level that holds it.
pub data Removes (q : ReadyQueue) (token : ℕ) (r : Bool × ReadyQueue) : Type 0 where
  absent : ((j : ℕ) → contains (at q.queues j) token ≡ false) → r ≡ (false, q) → Removes q token r
  found :
      (lvl : ℕ) (ys : List ℕ)
      → lvl < levels
      → ((j : ℕ) → j < lvl → contains (at q.queues j) token ≡ false)
      → TakenOut (at q.queues lvl) token ys
      → r.0 ≡ true
      → r.1.queues ≡ set q.queues lvl ys
      → IsValid r.1
      → Removes q token r

TakenOut-full : (xs : List ℕ) (token : ℕ) (ys : List ℕ) → TakenOut xs token ys → is_empty xs ≡ false
TakenOut-full xs token ys t = rw t.split (prefixed t.before)
  where
    prefixed : (bs : List ℕ) → is_empty (bs ++ token ∷ t.after) ≡ false
    prefixed [] = refl
    prefixed (b ∷ bs) = refl

loop-Removes :
    (q : ReadyQueue) (token lvl n : ℕ)
    → IsValid q
    → lvl + n ≡ 32
    → ((j : ℕ) → j < lvl → contains (at q.queues j) token ≡ false)
    → Removes q token (remove_from q token lvl n)
unfolding remove_from
loop-Removes q token lvl zero v h none_before = absent everywhere refl
  where
    everywhere : (j : ℕ) → contains (at q.queues j) token ≡ false
    everywhere j = elim (Bool-cases (ltb j 32)) [
      | inl low ↦ none_before j (ground arith)
      | inr high ↦ rw (get_or_out q.queues j [] (ground (arith, v.size))) (unfold contains in refl)
    ]
loop-Removes q token lvl (suc n) v h none_before =
    elim (Option-cases (take_out (at q.queues lvl) token)) [
      | inl gone ↦
          rw (gone, remove_from)
            (loop-Removes q token (lvl + 1) n v (omega arith) (λ j hj.
              elim (Bool-cases (j == lvl)) [
                | inl same ↦
                    let e : lvl ≡ j = ground arith in
                    rw (← e) (take_out-none (at q.queues lvl) token gone)
                | inr other ↦ none_before j (ground arith)
              ]))
      | inr (ys, hit) ↦
          let t = take_out-some (at q.queues lvl) token ys hit in
          rw (hit, remove_from)
            (found lvl ys (omega arith) none_before t refl refl (
              clear_bit-IsIndexed q.bitmap q.queues lvl ys v (omega arith)
                (TakenOut-full (at q.queues lvl) token ys t)))
    ]

-- remove on a valid queue takes out the first occurrence of the token in the first level that
-- holds it, leaves every other task in its place and the bitmap in step, and says whether there
-- was one.
pub remove-Removes : (q : ReadyQueue) (token : ℕ) → IsValid q → Removes q token (remove q token)
unfolding remove
remove-Removes q token v = loop-Removes q token 0 32 v refl (λ j h. absurd (omega arith))
