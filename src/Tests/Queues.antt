-- ===== src/Tests/Queues.antt =====
-- Ready queues and scheduling classes at concrete inputs.
use karte_os.Base.{
  ℕ, [], ◌∷◌, ◌≡◌, ◌⊎◌, refl, none, some, arith, replicate, set, get_or-set_ne, get_or-replicate,
  ◌∙◌,
}
use karte_os.Sched.ReadyQueue
use karte_os.Sched.ReadyQueue.{
  ReadyQueue, levels, at, contains, push, promote, pop_next, remove, len,
}
use karte_os.Sched.ReadyQueue.Bitmap.{IsValid, push-IsValid, new-IsValid}
use karte_os.Sched.ReadyQueue.Order.{Picks, pop_next-Picks}
use karte_os.Sched.ReadyQueue.Starvation.{NormalOnly, rounds, normal_starves_batch}

-- Task 7 at level 24, then task 9 at level 31.
abbrev waiting : ReadyQueue
waiting = push (push ReadyQueue.new 7 24) 9 31

waiting-IsValid : IsValid waiting
waiting-IsValid =
    push-IsValid (push ReadyQueue.new 7 24) 9 31 (push-IsValid ReadyQueue.new 7 24 new-IsValid)

pop_next-Picks_example :
    ((token : ℕ) × (lvl : ℕ) × (q' : ReadyQueue) × (pop_next waiting ≡ (some token, q'))
      × Picks (promote waiting) lvl token q')
    ⊎ (((j : ℕ) → at (promote waiting).queues j ≡ [])
        × (pop_next waiting ≡ (none, promote waiting)))
pop_next-Picks_example = pop_next-Picks waiting waiting-IsValid

waiting-NormalOnly : NormalOnly waiting 7 (9 ∷ [])
unfolding push ReadyQueue.new contains
waiting-NormalOnly = record {
  valid = waiting-IsValid;
  clock = omega arith;
  above = λ j h.
      get_or-set_ne (set (replicate levels []) 24 (7 ∷ [])) 31 j (9 ∷ []) [] (λ e. omega arith)
      ∙ get_or-set_ne (replicate levels []) 24 j (7 ∷ []) [] (λ e. omega arith)
      ∙ get_or-replicate levels j [];
  normal = refl;
  waiting = refl;
}

normal_starves_batch_example :
    ((rounds 1000 waiting).0 ≡ replicate 1000 (some 7))
    × (at (rounds 1000 waiting).1.queues 31 ≡ 9 ∷ [])
normal_starves_batch_example = normal_starves_batch waiting 7 (9 ∷ []) 1000 waiting-NormalOnly
