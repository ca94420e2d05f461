-- ===== src/Fabric/Arbiter.antt =====
-- kernel/src/arbiter.rs: the election state machine of one brain. The atomic fields are read and
-- written under `&mut self`, so they are plain fields here; `u32` and `u64` counters wrap.
pub mod Votes
pub mod Lease
use karte_os.Base.{
  ℕ, zero, suc, ◌+◌, ◌-◌, ◌%◌, ◌^◌, Bool, true, false, ◌&&◌, ◌||◌, not, Option, none, some, List,
  [], ◌∷◌, ◌==◌, ltb, leb, if◌then◌else◌,
}

-- The message that an event sends: ARB_ELECT, ARB_VICTORY or ARB_HEARTBEAT.
pub data Verb : Type 0 where
  elect victory heartbeat : Verb

pub data Role : Type 0 where
  follower candidate leader : Role

abbrev pub lease_timeout_ms : ℕ
lease_timeout_ms = 3000

-- A BTreeMap from voters to candidates, in the order of its keys.
abbrev pub Votes : Type 0
Votes = List (ℕ × ℕ)

pub record Arbiter : Type 0 where
  pub self_id : ℕ
  pub self_priority : ℕ
  pub role : Role
  pub leader_id : Option ℕ
  pub term : ℕ
  pub last_heartbeat_ms : ℕ
  pub votes : Votes
  pub elections : ℕ

unfoldable pub new : ℕ → ℕ → Arbiter
new self_id self_priority = record {
  self_id = self_id;
  self_priority = self_priority;
  role = follower;
  leader_id = none;
  term = 0;
  last_heartbeat_ms = 0;
  votes = [];
  elections = 0;
}

-- `BTreeMap::insert`
pub insert_vote : ℕ → ℕ → Votes → Votes
insert_vote voter cand [] = (voter, cand) ∷ []
insert_vote voter cand ((k, v) ∷ vs) =
    if voter == k
    then (voter, cand) ∷ vs
    else if ltb voter k
    then (voter, cand) ∷ (k, v) ∷ vs
    else (k, v) ∷ insert_vote voter cand vs

-- `values().filter(|v| v == cand).count()`
pub votes_for : ℕ → Votes → ℕ
votes_for cand [] = 0
votes_for cand ((k, v) ∷ vs) = (if v == cand then 1 else 0) + votes_for cand vs

-- The loop of `resolve` over the entries, with the best (count, candidate) so far.
pub best_loop : Votes → Option (ℕ × ℕ) → Votes → Option (ℕ × ℕ)
best_loop all best [] = best
best_loop all best ((k, cand) ∷ vs) =
    let votes = votes_for cand all in
    let better : Bool = elim best [
      | none ↦ true
      | some (n, id) ↦ ltb n votes || (votes == n && ltb id cand)
    ] in
    best_loop all (if better then some (votes, cand) else best) vs

pub start_election : Arbiter → Option Verb × Arbiter
start_election a = (
  some elect,
  record a {
    term = (a.term + 1) % 2 ^ 32;
    role = candidate;
    leader_id = none;
    votes = insert_vote a.self_id a.self_id [];
    elections = (a.elections + 1) % 2 ^ 32;
  },
)

pub resolve : Arbiter → Option Verb × Arbiter
resolve a = elim a.role [
  | candidate ↦ elim (best_loop a.votes none a.votes) [
    | none ↦ (none, a)
    | some (n, cand) ↦
        if leb 2 n
        then (
          some victory,
          record a { leader_id = some cand; role = if cand == a.self_id then leader else follower },
        )
        else (none, a)
  ]
  | _ ↦ (none, a)
]

pub tick : Arbiter → ℕ → Option Verb × Arbiter
tick a now_ms = elim a.role [
  | follower ↦
      let known : Bool = elim a.leader_id [ none ↦ false | some l ↦ true ] in
      if known && ltb lease_timeout_ms (now_ms - a.last_heartbeat_ms)
      then start_election a
      else (none, a)
  | candidate ↦ resolve a
  | leader ↦ (some heartbeat, a)
]

vote_for : Arbiter → ℕ → Arbiter
vote_for a cand = record a { votes = insert_vote a.self_id cand a.votes }

pub on_elect : Arbiter → ℕ → ℕ → Option Verb × Arbiter
on_elect a candidate_id candidate_priority =
    if ltb a.self_priority candidate_priority
    then (none, vote_for a candidate_id)
    else if ltb candidate_priority a.self_priority
    then start_election a
    else if ltb a.self_id candidate_id
    then (none, vote_for a candidate_id)
    else (none, (start_election a).1)

pub on_heartbeat : Arbiter → ℕ → ℕ → Arbiter
on_heartbeat a leader_id now_ms = record a {
  last_heartbeat_ms = now_ms;
  leader_id = some leader_id;
  role = elim a.role [ candidate ↦ follower | r ↦ r ];
}

pub on_victory : Arbiter → ℕ → Arbiter
on_victory a leader_id = record a {
  leader_id = some leader_id;
  role = if leader_id == a.self_id then leader else follower;
  votes = [];
}

pub simulate_leader_failure : Arbiter → ℕ → Option Verb × Arbiter
simulate_leader_failure a now_ms =
    tick (record a { last_heartbeat_ms = now_ms - (lease_timeout_ms + 1) }) now_ms
