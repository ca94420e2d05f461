-- ===== src/Sched/ReadyQueue/Bitmap.antt =====
-- The bitmap of kernel/src/sched/ready_queue.rs tells which levels hold a task.
use karte_os.Base.{
  ℕ, ◌^◌, ◌≤◌, ◌<◌, min, true, false, not, some, List, [], ◌∷◌, ◌++◌, ◌≡◌, refl, ◌∙◌, inl, inr, ◌⊎◌,
  if◌then◌else◌, set, length, length-set, arith, Bool-cases, if_cases, get_or-set, is_empty,
  get_or-replicate, leb, set-get_or_self,
}
use mathlib.Core.Path.{subst}
use karte_os.Base.Bits.{
  bit, bit-set_bit, bit-clear_bit, bit-zero, bit_or-lt, bit_and-lt, pow_strict,
}
use karte_os.Sched.ReadyQueue.{
  ReadyQueue, levels, new, at, set_bit, clear_bit, push, drop_head, boosted, pick_from, promote,
  contains,
}

-- The bit that a level should have.
abbrev pub flag : List ℕ → ℕ
flag xs = if is_empty xs then 0 else 1

pub record IsIndexed (bitmap : ℕ) (queues : List (List ℕ)) : Type 0 where
  pub size : length queues ≡ levels
  pub word : bitmap < 2 ^ 32
  pub bits : (j : ℕ) → j < levels → bit bitmap j ≡ flag (at queues j)

abbrev pub IsValid : ReadyQueue → Type 0
IsValid q = IsIndexed q.bitmap q.queues

-- Filling a level and setting its bit.
pub set_bit-IsIndexed :
    (bitmap : ℕ) (queues : List (List ℕ)) (lvl : ℕ) (ys : List ℕ)
    → IsIndexed bitmap queues
    → lvl < levels
    → is_empty ys ≡ false
    → IsIndexed (set_bit bitmap lvl) (set queues lvl ys)
set_bit-IsIndexed bitmap queues lvl ys v h full = record {
  size = length-set queues lvl ys ∙ v.size;
  word = bit_or-lt 32 bitmap (2 ^ lvl) v.word (pow_strict lvl 32 h);
  bits = λ j hj. ground (
    arith,
    bit-set_bit bitmap lvl j,
    v.bits j hj,
    get_or-set queues lvl j ys [] (omega (arith, v.size)),
  );
}

-- Putting a shorter deque at a level that held a task.
pub clear_bit-IsIndexed :
    (bitmap : ℕ) (queues : List (List ℕ)) (lvl : ℕ) (ys : List ℕ)
    → IsIndexed bitmap queues
    → lvl < levels
    → is_empty (at queues lvl) ≡ false
    → IsIndexed (if is_empty ys then clear_bit bitmap lvl else bitmap) (set queues lvl ys)
clear_bit-IsIndexed bitmap queues lvl ys v h full = record {
  size = length-set queues lvl ys ∙ v.size;
  word =
      if_cases (λ b. b < 2 ^ 32) (is_empty ys) _ _ (λ _. bit_and-lt 32 bitmap _ v.word)
        (λ _. v.word);
  bits = λ j hj. ground (
    arith,
    bit-clear_bit 32 bitmap lvl j h hj,
    v.bits j hj,
    get_or-set queues lvl j ys [] (omega (arith, v.size)),
  );
}

pub new-IsValid : IsValid new
unfolding new
new-IsValid = record {
  size = refl;
  word = omega arith;
  bits = λ j h. rw (bit-zero j, get_or-replicate {A = List ℕ} 32 j []) refl;
}

contains-full : (xs : List ℕ) (token : ℕ) → not (contains xs token) ≡ false → is_empty xs ≡ false
unfolding contains
contains-full [] token h = cc
contains-full (x ∷ xs) token h = refl

append-full : (xs : List ℕ) (token : ℕ) → is_empty (xs ++ token ∷ []) ≡ false
append-full [] token = refl
append-full (x ∷ xs) token = refl

-- push keeps a queue valid: each bit of the bitmap says whether its level holds a task.
pub push-IsValid : (q : ReadyQueue) (token prio : ℕ) → IsValid q → IsValid (push q token prio)
unfolding push
push-IsValid q token prio v =
    if_cases (IsIndexed (set_bit q.bitmap (min prio 31)))
      (not (contains (at q.queues (min prio 31)) token)) _ _
      (λ _. set_bit-IsIndexed q.bitmap q.queues _ _ v (omega arith) (append-full _ token))
      (λ known.
        subst (IsIndexed (set_bit q.bitmap (min prio 31)))
          (set-get_or_self q.queues (min prio 31) [])
          (set_bit-IsIndexed q.bitmap q.queues (min prio 31) _ v (omega arith)
            (contains-full _ token known)))

-- `promote` moves the longest waiting batch task to the tail of level 24, or does nothing.
pub promote_cases :
    (q : ReadyQueue)
    → (promote q ≡ q)
      ⊎ ((tok : ℕ) × (rest : List ℕ) × (64 ≤ q.batch_starved)
          × (at q.queues 31 ≡ tok ∷ rest)
          × (promote q ≡ boosted q tok rest))
unfolding promote
promote_cases q = elim (Bool-cases (leb 64 q.batch_starved)) [
  | inl due ↦ split (at q.queues 31) refl due
  | inr early ↦ inl (rw early refl)
]
  where
    split :
        (xs : List ℕ)
        → at q.queues 31 ≡ xs
        → leb 64 q.batch_starved ≡ true
        → (promote q ≡ q)
          ⊎ ((tok : ℕ) × (rest : List ℕ) × (64 ≤ q.batch_starved)
              × (at q.queues 31 ≡ tok ∷ rest)
              × (promote q ≡ boosted q tok rest))
    split [] e due = inl (rw (due, e, promote) refl)
    split (tok ∷ rest) e due = inr (tok, rest, ground arith, e, rw (due, e, promote) refl)

pub promote-IsValid : (q : ReadyQueue) → IsValid q → IsValid (promote q)
promote-IsValid q v = elim (promote_cases q) [
  | inl same ↦ rw same v
  | inr (tok, rest, due, e, moved) ↦ rw moved (
      set_bit-IsIndexed _ _ 24 _
        (clear_bit-IsIndexed q.bitmap q.queues 31 rest v (omega arith) (rw e refl)) (omega arith)
        (append-full _ tok))
]

-- What a pick at level `lvl` gives, if the level holds a task.
pub pick_from-some :
    (q : ReadyQueue) (lvl : ℕ)
    → is_empty (at q.queues lvl) ≡ false
    → (token : ℕ) × (rest : List ℕ) × (at q.queues lvl ≡ token ∷ rest)
      × (pick_from q lvl ≡ some (token, drop_head q lvl rest))
unfolding pick_from
pick_from-some q lvl h = split (at q.queues lvl) refl h
  where
    split :
        (xs : List ℕ)
        → at q.queues lvl ≡ xs
        → is_empty xs ≡ false
        → (token : ℕ) × (rest : List ℕ) × (at q.queues lvl ≡ token ∷ rest)
          × (pick_from q lvl ≡ some (token, drop_head q lvl rest))
    split [] e full = cc
    split (token ∷ rest) e full = (token, rest, e, rw (e, pick_from) refl)
