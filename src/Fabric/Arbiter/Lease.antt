-- ===== src/Fabric/Arbiter/Lease.antt =====
-- The lease of the leader and the meeting of two candidates in kernel/src/arbiter.rs.
use karte_os.Base.{
  ℕ, ◌+◌, none, some, ltb, if◌then◌else◌, ◌≡◌, ◌≢◌, ◌⊎◌, inl, inr, refl, arith, Bool-cases,
}
use karte_os.Fabric.Arbiter.{
  Arbiter, elect, heartbeat, candidate, leader, follower, start_election, tick, vote_for, on_elect,
  on_heartbeat,
}

-- A brain that hears a heartbeat at t0 and is ticked at t: a leader sends its own heartbeat; a
-- follower or a candidate sends nothing up to 3000 ms after t0 and stands for election from
-- then on.
pub heartbeat_lease :
    (a : Arbiter) (l t0 t : ℕ)
    → (tick (on_heartbeat a l t0) t).0 ≡ (elim a.role [
      | leader ↦ some heartbeat
      | _ ↦ if ltb (t0 + 3000) t then some elect else none
    ])
unfolding on_heartbeat tick start_election
heartbeat_lease a l t0 t =
    elim a.role
      as (λ r. (tick (on_heartbeat (record a { role = r }) l t0) t).0 ≡ (elim r [
        | leader ↦ some heartbeat
        | _ ↦ if ltb (t0 + 3000) t then some elect else none
      ])) [ follower ↦ ground arith | candidate ↦ ground arith | leader ↦ refl ]

-- The first brain votes for the second on its announcement.
pub Defers : Arbiter → Arbiter → Type 0
Defers a b = on_elect a b.self_id b.self_priority ≡ (none, vote_for a b.self_id)

-- The first brain answers the second's announcement with an election of its own.
pub Insists : Arbiter → Arbiter → Type 0
Insists a b = (on_elect a b.self_id b.self_priority).1 ≡ (start_election a).1

-- Of two brains with different ids that hear each other's announcement, one votes for the other
-- and the other one stands for election.
pub bully :
    (a b : Arbiter)
    → a.self_id ≢ b.self_id
    → (Defers a b × Insists b a) ⊎ (Defers b a × Insists a b)
unfolding Defers Insists on_elect
bully a b distinct = elim (Bool-cases (ltb a.self_priority b.self_priority)) [
  | inl e ↦ inl (ground (arith, e))
  | inr e ↦ elim (Bool-cases (ltb b.self_priority a.self_priority)) [
    | inl f ↦ inr (ground (arith, f))
    | inr f ↦ elim (Bool-cases (ltb a.self_id b.self_id)) [
      | inl g ↦ inl (ground (arith, g))
      | inr g ↦ inr (ground (arith, g))
    ]
  ]
]
