-- ===== src/Sched/ReadyQueue/Starvation.antt =====
-- The starvation clock of kernel/src/sched/ready_queue.rs under a load of `Normal` tasks.
use mathlib.Core.Path.{subst, ap₂}
use karte_os.Base.{
  ℕ, zero, suc, ◌<◌, Option, none, some, List, [], ◌∷◌, ◌≡◌, refl, sym, ap, ◌∙◌, inl, inr, set,
  set-set, get_or-set, length, replicate, arith,
}
use karte_os.Sched.Class.{normal_prio}
use karte_os.Sched.ReadyQueue.{ReadyQueue, at, push, pop_next, promote, starved_after, contains}
use karte_os.Sched.ReadyQueue.Bitmap.{IsValid, push-IsValid}
use karte_os.Sched.ReadyQueue.Order.{Picks, pop_next-Picks}

-- One turn of the scheduler: the task that runs goes back to the `Normal` level.
pub requeue : Option ℕ × ReadyQueue → Option ℕ × ReadyQueue
requeue (none, q) = (none, q)
requeue (some t, q) = (some t, push q t normal_prio)

pub rounds : ℕ → ReadyQueue → List (Option ℕ) × ReadyQueue
rounds zero q = ([], q)
rounds (suc n) q =
    let (o, q') = requeue (pop_next q) in let (os, q'') = rounds n q' in (o ∷ os, q'')

-- One `Normal` task is ready, no level above holds any, and no batch task is due for promotion.
pub record NormalOnly (q : ReadyQueue) (t : ℕ) (batch : List ℕ) : Type 0 where
  pub valid : IsValid q
  pub clock : q.batch_starved < 64
  pub above : (j : ℕ) → j < 24 → at q.queues j ≡ []
  pub normal : at q.queues 24 ≡ t ∷ []
  pub waiting : at q.queues 31 ≡ batch

not_due : (q : ReadyQueue) → q.batch_starved < 64 → promote q ≡ q
unfolding promote
not_due q h = ground arith

-- The pick of such a turn.
pick_lem :
    (q : ReadyQueue) (t : ℕ) (batch : List ℕ)
    → NormalOnly q t batch
    → (q' : ReadyQueue) × (pop_next q ≡ (some t, q'))
      × (q'.queues ≡ set q.queues 24 [])
      × (q'.batch_starved ≡ 0)
      × IsValid q'
pick_lem q t batch n = elim (pop_next-Picks q n.valid) [
  | inl (tok, lvl, q', e, p) ↦
      at_normal tok lvl q' e (subst (λ r. Picks r lvl tok q') (not_due q n.clock) p)
  | inr (all_empty, e) ↦
      let no_normal : at q.queues 24 ≡ [] =
        subst (λ r. at r.queues 24 ≡ []) (not_due q n.clock) (all_empty 24) in
      absurd (ground (arith, no_normal, n.normal))
]
  where
    at_normal :
        (tok lvl : ℕ) (q' : ReadyQueue)
        → pop_next q ≡ (some tok, q')
        → Picks q lvl tok q'
        → (q' : ReadyQueue) × (pop_next q ≡ (some t, q'))
          × (q'.queues ≡ set q.queues 24 [])
          × (q'.batch_starved ≡ 0)
          × IsValid q'
    at_normal tok lvl q' e p =
        let level : lvl ≡ 24 = ground (arith, n.above lvl, p.first 24, p.head, n.normal) in
        let head : tok ∷ p.rest ≡ t ∷ [] = sym p.head ∙ ap (at q.queues) level ∙ n.normal in
        let none_left : p.rest ≡ [] = cc (head) in
        let same : tok ≡ t = cc (head) in
        (
          q',
          e ∙ ap (λ x. (some x, q')) same,
          p.queues_after ∙ ap₂ (set q.queues) level none_left,
          p.starved_count ∙ unfold starved_after in ground (arith, level),
          p.valid,
        )

push-empty :
    (q : ReadyQueue) (t : ℕ)
    → at q.queues 24 ≡ []
    → ((push q t 24).queues ≡ set q.queues 24 (t ∷ []))
      × ((push q t 24).batch_starved ≡ q.batch_starved)
unfolding push contains
push-empty q t e = (rw (e, contains) refl, refl)

turn_lem :
    (q : ReadyQueue) (t : ℕ) (batch : List ℕ)
    → NormalOnly q t batch
    → ((requeue (pop_next q)).0 ≡ some t) × NormalOnly (requeue (pop_next q)).1 t batch
unfolding requeue
turn_lem q t batch n =
    let (q', e, qs, clock, v) = pick_lem q t batch n in
    let size : length q.queues ≡ 32 = n.valid.size in
    let emptied : at q'.queues 24 ≡ [] =
      ap (λ l. at l 24) qs ∙ get_or-set q.queues 24 24 [] [] (omega arith) in
    let (pushed, kept) = push-empty q' t emptied in
    let after : (push q' t 24).queues ≡ set q.queues 24 (t ∷ []) =
      pushed ∙ ap (λ l. set l 24 (t ∷ [])) qs ∙ set-set q.queues 24 [] (t ∷ []) in
    rw e (
      refl,
      record {
        valid = push-IsValid q' t 24 v;
        clock = omega (arith, clock, kept);
        above = λ j h.
            ap (λ l. at l j) after
            ∙ get_or-set q.queues 24 j (t ∷ []) [] (omega arith)
            ∙ ground (arith, n.above j h);
        normal = ap (λ l. at l 24) after ∙ get_or-set q.queues 24 24 (t ∷ []) [] (omega arith);
        waiting =
            ap (λ l. at l 31) after
            ∙ get_or-set q.queues 24 31 (t ∷ []) [] (omega arith)
            ∙ n.waiting;
      },
    )

-- With one Normal task that is requeued after each turn, no task at the levels above and no
-- batch task due, the Normal task alone runs for any number of turns, and the batch tasks keep
-- waiting.
pub normal_starves_batch :
    (q : ReadyQueue) (t : ℕ) (batch : List ℕ) (n : ℕ)
    → NormalOnly q t batch
    → ((rounds n q).0 ≡ replicate n (some t)) × (at (rounds n q).1.queues 31 ≡ batch)
unfolding rounds
normal_starves_batch q t batch zero h = (refl, h.waiting)
normal_starves_batch q t batch (suc n) h =
    let (ran, h') = turn_lem q t batch h in
    let (later, kept) = normal_starves_batch (requeue (pop_next q)).1 t batch n h' in
    (ap₂ ◌∷◌ ran later, kept)
