-- ===== src/Fabric/Arbiter/Votes.antt =====
-- The votes a brain of kernel/src/arbiter.rs holds: only its own, so that it never elects anyone.
use karte_os.Base.{
  ℕ, ◌-◌, Bool, true, false, ◌&&◌, Option, none, some, List, [], ◌∷◌, ◌==◌, ltb, leb, if◌then◌else◌,
  ◌≡◌, ◌≢◌, ◌⊎◌, inl, inr, refl, sym, ap, ◌∙◌, arith, Bool-cases, if_cases,
}
use mathlib.Core.Bool.{false≢true}
use mathlib.Core.Path.{subst}
use karte_os.Fabric.Arbiter.{
  Arbiter, Votes, Verb, victory, heartbeat, candidate, leader, follower, insert_vote, votes_for,
  best_loop, start_election, resolve, tick, vote_for, on_elect, on_heartbeat, on_victory,
  simulate_leader_failure, new, lease_timeout_ms,
}

-- No vote, or the brain's own.
abbrev pub Own : ℕ → Votes → Type 0
Own s vs = (vs ≡ []) ⊎ ((c : ℕ) × (vs ≡ (s, c) ∷ []))

abbrev pub OwnVotes : Arbiter → Type 0
OwnVotes a = Own a.self_id a.votes

-- The calls of a brain's methods. Its public fields are written by them alone.
pub data Event : Type 0 where
  runs : Event
  resolves : Event
  ticks : ℕ → Event
  elects : ℕ → ℕ → ℕ → Event
  beats : ℕ → ℕ → Event
  wins : ℕ → Event
  fails : ℕ → Event

pub step : Arbiter → Event → Option Verb × Arbiter
step a runs = start_election a
step a resolves = resolve a
step a (ticks t) = tick a t
step a (elects c p t) = on_elect a c p
step a (beats l t) = (none, on_heartbeat a l t)
step a (wins l) = (none, on_victory a l)
step a (fails t) = simulate_leader_failure a t

-- The brain after a list of events.
pub after : Arbiter → List Event → Arbiter
after a [] = a
after a (e ∷ es) = after ((step a e).1) es

start_election-OwnVotes : (a : Arbiter) → OwnVotes ((start_election a).1)
unfolding start_election insert_vote
start_election-OwnVotes a = inr (a.self_id, refl)

insert_vote-Own : (s c : ℕ) (vs : Votes) → Own s vs → insert_vote s c vs ≡ (s, c) ∷ []
unfolding insert_vote
insert_vote-Own s c vs (inl e) = rw e refl
insert_vote-Own s c vs (inr (d, e)) = ground (arith, e)

vote_for-OwnVotes : (a : Arbiter) (c : ℕ) → OwnVotes a → OwnVotes (vote_for a c)
unfolding vote_for
vote_for-OwnVotes a c o = inr (c, insert_vote-Own a.self_id c a.votes o)

best_loop-Own :
    (s : ℕ) (vs : Votes)
    → Own s vs
    → (best_loop vs none vs ≡ none) ⊎ ((c : ℕ) × (best_loop vs none vs ≡ some (1, c)))
unfolding best_loop votes_for
best_loop-Own s vs (inl e) = inl (rw e refl)
best_loop-Own s vs (inr (d, e)) = inr (d, ground (arith, e))

resolve_lem : (a : Arbiter) → OwnVotes a → resolve a ≡ (none, a)
unfolding resolve
resolve_lem a o =
    elim a.role
      as (λ r.
        ◌≡◌ {A = Option Verb × Arbiter}
          (elim r [
            | candidate ↦ elim (best_loop a.votes none a.votes) [
              | none ↦ (none, a)
              | some (n, cand) ↦
                  if leb 2 n
                  then (
                    some victory,
                    record a {
                      leader_id = some cand;
                      role = if cand == a.self_id then leader else follower;
                    },
                  )
                  else (none, a)
            ]
            | _ ↦ (none, a)
          ])
          (none, a)) [
            | follower ↦ refl
            | candidate ↦ elim (best_loop-Own a.self_id a.votes o) [
              | inl n ↦ rw n refl
              | inr (c, n) ↦ rw n refl
            ]
            | leader ↦ refl
          ]

-- No victory is announced, and the votes stay the brain's own.
record Silent (r : Option Verb × Arbiter) : Type 0 where
  quiet : r.0 ≢ some victory
  own : OwnVotes r.1

announces : Option Verb → Bool
announces (some victory) = true
announces v = false

not_victory : (v : Option Verb) → announces v ≡ false → v ≢ some victory
unfolding announces
not_victory v e q = false≢true (sym e ∙ ap announces q)

start_election-Silent : (a : Arbiter) → Silent (start_election a)
unfolding start_election announces
start_election-Silent a = record { quiet = not_victory _ refl; own = start_election-OwnVotes a }

idle-Silent : (a : Arbiter) → OwnVotes a → Silent (none, a)
unfolding announces
idle-Silent a o = record { quiet = not_victory _ refl; own = o }

tick-Silent : (a : Arbiter) (t : ℕ) → OwnVotes a → Silent (tick a t)
unfolding tick announces
tick-Silent a t o =
    elim a.role
      as (λ r. Silent (elim r [
        | follower ↦
            let known : Bool = elim a.leader_id [ none ↦ false | some l ↦ true ] in
            if known && ltb lease_timeout_ms (t - a.last_heartbeat_ms)
            then start_election a
            else (none, a)
        | candidate ↦ resolve a
        | leader ↦ (some heartbeat, a)
      ])) [
        | follower ↦ if_cases Silent _ _ _ (λ e. start_election-Silent a) (λ e. idle-Silent a o)
        | candidate ↦ subst Silent (sym (resolve_lem a o)) (idle-Silent a o)
        | leader ↦ record { quiet = not_victory _ refl; own = o }
      ]

on_elect-Silent : (a : Arbiter) (c p : ℕ) → OwnVotes a → Silent (on_elect a c p)
unfolding on_elect
on_elect-Silent a c p o =
    let mine = idle-Silent (vote_for a c) (vote_for-OwnVotes a c o) in
    let run = start_election-Silent a in
    elim (Bool-cases (ltb a.self_priority p)) [
      | inl e ↦ rw e mine
      | inr e ↦ elim (Bool-cases (ltb p a.self_priority)) [
        | inl f ↦ rw e (rw f run)
        | inr f ↦ elim (Bool-cases (ltb a.self_id c)) [
          | inl g ↦ rw e (rw f (rw g mine))
          | inr g ↦ rw e (rw f (rw g (idle-Silent _ run.own)))
        ]
      ]
    ]

step-Silent : (a : Arbiter) (e : Event) → OwnVotes a → Silent (step a e)
unfolding step on_heartbeat on_victory simulate_leader_failure
step-Silent a runs o = start_election-Silent a
step-Silent a resolves o = subst Silent (sym (resolve_lem a o)) (idle-Silent a o)
step-Silent a (ticks t) o = tick-Silent a t o
step-Silent a (elects c p t) o = on_elect-Silent a c p o
step-Silent a (beats l t) o = idle-Silent _ o
step-Silent a (wins l) o = idle-Silent _ (inl refl)
step-Silent a (fails t) o = tick-Silent _ t o

after-OwnVotes : (a : Arbiter) (es : List Event) → OwnVotes a → OwnVotes (after a es)
unfolding after
after-OwnVotes a [] o = o
after-OwnVotes a (e ∷ es) o = after-OwnVotes ((step a e).1) es ((step-Silent a e o).own)

-- A brain made by new never announces a victory: after any list of calls of its methods,
-- resolve and start_election included, no further call of a method returns ARB_VICTORY, as long
-- as its public fields are not written from outside.
pub never_elected :
    (id priority : ℕ) (es : List Event) (e : Event)
    → (step (after (new id priority) es) e).0 ≢ some victory
unfolding new
never_elected id priority es e =
    (step-Silent (after (new id priority) es) e
      (after-OwnVotes (new id priority) es (inl refl))).quiet
