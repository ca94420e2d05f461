-- ===== src/Fabric/Tokens/Gates.antt =====
-- The gates of `verify` in kernel/src/capauth.rs, and what other calls do to them.
use Prim.Native.Nat.{bit_and}
use karte_os.Base.{
  ℕ, ◌+◌, ◌^◌, ◌≤◌, ◌<◌, true, false, ◌||◌, not, none, some, List, [], ◌∷◌, ◌++◌, ◌==◌, leb,
  if◌then◌else◌, ◌≡◌, ◌≢◌, ◌↔◌, refl, ap, sym, ◌∙◌, arith, Bool-cases, Option-cases, inl, inr,
}
use karte_os.Base.Strings.{same, same_sound, same_refl}
use karte_os.Base.Words.{add_usize}
use karte_os.Fabric.Tokens.{
  CapToken, TokenManager, VerifyResult, ok, no_token, find, contains, check_token, issue, verify,
  revoke, retain, sweep,
}
use karte_os.Fabric.Tokens.Ids.{IsValid, find_above, find-retain, find-append}

-- What a request has to meet.
pub record Grants (m : TokenManager) (t : CapToken) (id : ℕ) (device tool : List ℕ) (need now : ℕ)
    : Type 0 where
  pub alive : now < t.expires_ms
  pub not_revoked : contains m.revoked_ids id ≡ false
  pub for_device : t.device_id ≡ device
  pub for_tool : t.tool_name ≡ tool
  pub permits : bit_and t.perm_bits need ≡ need

check_token-Grants :
    (m : TokenManager) (t : CapToken) (id : ℕ) (device tool : List ℕ) (need now : ℕ)
    → (check_token m t id device tool need now ≡ ok) ↔ Grants m t id device tool need now
unfolding check_token
check_token-Grants m t id device tool need now = (
  λ h. record {
    alive = ground arith;
    not_revoked = ground arith;
    for_device = same_sound t.device_id device (ground arith);
    for_tool = same_sound t.tool_name tool (ground arith);
    permits = ground arith;
  },
  λ g.
      let d : same t.device_id device ≡ true = rw g.for_device (same_refl device) in
      let n : same t.tool_name tool ≡ true = rw g.for_tool (same_refl tool) in
      ground (arith, d, n, g.alive, g.not_revoked, g.permits),
)

verify_found :
    (m : TokenManager) (id : ℕ) (device tool : List ℕ) (need now : ℕ) (t : CapToken)
    → find m.tokens id ≡ some t
    → verify m id device tool need now ≡ check_token m t id device tool need now
unfolding verify
verify_found m id device tool need now t f =
    ap (λ o. elim o [ none ↦ no_token | some u ↦ check_token m u id device tool need now ]) f

verify_missing :
    (m : TokenManager) (id : ℕ) (device tool : List ℕ) (need now : ℕ)
    → find m.tokens id ≡ none
    → verify m id device tool need now ≡ no_token
unfolding verify
verify_missing m id device tool need now f =
    ap (λ o. elim o [ none ↦ no_token | some u ↦ check_token m u id device tool need now ]) f

-- verify grants a request exactly if the token is known, has not expired, is not revoked, is
-- for the device and the tool, and permits all that is needed.
pub verify-Grants :
    (m : TokenManager) (id : ℕ) (device tool : List ℕ) (need now : ℕ)
    → (verify m id device tool need now ≡ ok)
      ↔ ((t : CapToken) × (find m.tokens id ≡ some t) × Grants m t id device tool need now)
verify-Grants m id device tool need now = elim (Option-cases (find m.tokens id)) [
  | inl gone ↦ (
    λ h. ground (arith, verify_missing m id device tool need now gone),
    λ (t, f, g). ground (arith, gone, f),
  )
  | inr (t, f) ↦
      let e = verify_found m id device tool need now t f in
      (
        λ h. (t, f, (check_token-Grants m t id device tool need now).0 (sym e ∙ h)),
        λ (u, k, g).
            verify_found m id device tool need now u k
            ∙ (check_token-Grants m u id device tool need now).1 g,
      )
]

contains-append :
    (xs : List ℕ) (x id : ℕ) → contains xs id ≡ true → contains (xs ++ x ∷ []) id ≡ true
unfolding contains
contains-append [] x id h = ground arith
contains-append (y ∷ xs) x id h = ground (arith, contains-append xs x id)

contains_last : (xs : List ℕ) (id : ℕ) → contains (xs ++ id ∷ []) id ≡ true
unfolding contains
contains_last [] id = ground arith
contains_last (y ∷ xs) id = ground (arith, contains_last xs id)

-- The calls that change a manager.
pub data Call : Type 0 where
  issues : List ℕ → List ℕ → ℕ → ℕ → ℕ → Call
  revokes : ℕ → Call
  sweeps : ℕ → Call

pub call : TokenManager → Call → TokenManager
call m (issues device tool perm now ttl) = (issue m device tool perm now ttl).1
call m (revokes id) = (revoke m id).1
call m (sweeps now) = (sweep m now).1

pub run : TokenManager → List Call → TokenManager
run m [] = m
run m (c ∷ cs) = run (call m c) cs

call_revoked :
    (m : TokenManager) (c : Call) (id : ℕ)
    → contains m.revoked_ids id ≡ true
    → contains (call m c).revoked_ids id ≡ true
unfolding call issue revoke sweep
call_revoked m (issues device tool perm now ttl) id h = h
call_revoked m (revokes x) id h = ground (arith, contains-append m.revoked_ids x id)
call_revoked m (sweeps now) id h = h

run_revoked :
    (m : TokenManager) (cs : List Call) (id : ℕ)
    → contains m.revoked_ids id ≡ true
    → contains (run m cs).revoked_ids id ≡ true
unfolding run
run_revoked m [] id h = h
run_revoked m (c ∷ cs) id h = run_revoked (call m c) cs id (call_revoked m c id h)

revoke_listed : (m : TokenManager) (id : ℕ) → contains (revoke m id).1.revoked_ids id ≡ true
unfolding revoke
revoke_listed m id = ground (arith, contains_last m.revoked_ids id)

-- After revoke, verify never grants the token id again, whatever is issued, revoked or swept
-- afterwards, and whoever asks.
pub revoked_for_good :
    (m : TokenManager) (id : ℕ) (cs : List Call) (device tool : List ℕ) (need now : ℕ)
    → verify (run (revoke m id).1 cs) id device tool need now ≢ ok
revoked_for_good m id cs device tool need now h =
    let (t, f, g) = (verify-Grants (run (revoke m id).1 cs) id device tool need now).0 h in
    let listed = run_revoked (revoke m id).1 cs id (revoke_listed m id) in
    cc (g.not_revoked, listed)

-- The gates read the revoked ids, and nothing else of the manager.
Grants-same :
    (m m' : TokenManager) (t : CapToken) (id : ℕ) (device tool : List ℕ) (need now : ℕ)
    → m.revoked_ids ≡ m'.revoked_ids
    → Grants m t id device tool need now
    → Grants m' t id device tool need now
Grants-same m m' t id device tool need now e g = record {
  alive = g.alive;
  not_revoked = ap (λ r. contains r id) (sym e) ∙ g.not_revoked;
  for_device = g.for_device;
  for_tool = g.for_tool;
  permits = g.permits;
}

find-retain-some :
    (m : TokenManager) (now id : ℕ) (t : CapToken)
    → IsValid m
    → find (retain m.tokens now) id ≡ some t
    → find m.tokens id ≡ some t
find-retain-some m now id t v e =
    let f = find-retain m.tokens 1 m.next_id now id v in
    elim (Option-cases (find m.tokens id)) [
      | inl gone ↦ ground (arith, e, f, gone)
      | inr (u, k) ↦ ground (arith, e, f, k)
    ]

-- In a manager whose tokens have rising ids below the next one, sweep at a time not in the
-- future of a request changes nothing about whether verify grants it.
pub sweep-verify :
    (m : TokenManager) (swept id : ℕ) (device tool : List ℕ) (need now : ℕ)
    → IsValid m
    → swept ≤ now
    → (verify (sweep m swept).1 id device tool need now ≡ ok)
      ↔ (verify m id device tool need now ≡ ok)
unfolding sweep
sweep-verify m swept id device tool need now v h =
    let m' = record m { tokens = retain m.tokens swept } in
    let f = find-retain m.tokens 1 m.next_id swept id v in
    let into = verify-Grants m' id device tool need now in
    let from = verify-Grants m id device tool need now in
    (
      λ k.
          let (t, e, g) = into.0 k in
          from.1 (
            t,
            find-retain-some m swept id t v e,
            Grants-same m' m t id device tool need now refl g,
          ),
      λ k.
          let (t, e, g) = from.0 k in
          into.1
            (t, f ∙ ground (arith, e, g.alive), Grants-same m m' t id device tool need now refl g),
    )

-- In a manager whose tokens have rising ids below the next one, after issue of an id that is
-- not revoked, with an expiry that does not wrap, verify answers for the new id by the gates on
-- the new token and for every other id as before.
pub issue-verify :
    (m : TokenManager) (device tool : List ℕ) (perm start ttl id : ℕ) (device' tool' : List ℕ)
    (need now : ℕ)
    → IsValid m
    → start + ttl < 2 ^ 64
    → contains m.revoked_ids m.next_id ≡ false
    → verify (issue m device tool perm start ttl).1 id device' tool' need now ≡ (
        if id == m.next_id
        then (if leb (start + ttl) now
            then VerifyResult.expired
            else if not (same device device') || not (same tool tool')
            then no_token
            else if not (bit_and perm need == need)
            then VerifyResult.perm_denied
            else ok)
        else verify m id device' tool' need now)
unfolding verify check_token issue
issue-verify m device tool perm start ttl id device' tool' need now v small fresh =
    let e : add_usize start ttl ≡ start + ttl = omega arith in
    let m2 = (issue m device tool perm start ttl).1 in
    let added : CapToken = record {
      token_id = m.next_id;
      device_id = device;
      tool_name = tool;
      perm_bits = perm;
      issued_ms = start;
      expires_ms = add_usize start ttl;
    } in
    let f = find-append m.tokens added id in
    elim (Bool-cases (id == m.next_id)) [
      | inl is ↦
          let same_id : m.next_id ≡ id = ground arith in
          let gone = find_above m.tokens 1 m.next_id id v (ground arith) in
          let new_one : find m2.tokens id ≡ some added = ground (arith, f, gone, same_id) in
          let free : contains m.revoked_ids id ≡ false =
            ap (contains m.revoked_ids) (sym same_id) ∙ fresh in
          verify_found m2 id device' tool' need now added new_one ∙ ground (arith, e, free, is)
      | inr other ↦ elim (Option-cases (find m.tokens id)) [
        | inl gone ↦
            let none_yet : find m2.tokens id ≡ none = ground (arith, f, gone, other) in
            verify_missing m2 id device' tool' need now none_yet
            ∙ ground (arith, other, verify_missing m id device' tool' need now gone)
        | inr (t, k) ↦
            let kept : find m2.tokens id ≡ some t = ground (arith, f, k) in
            verify_found m2 id device' tool' need now t kept
            ∙ ground (arith, other, verify_found m id device' tool' need now t k)
      ]
    ]
