-- ===== src/Fabric/Tokens/Ids.antt =====
-- The ids that kernel/src/capauth.rs gives out: no two tokens share one.
use karte_os.Base.{
  ℕ, ◌+◌, ◌^◌, ◌≤◌, ◌<◌, none, some, List, [], ◌∷◌, ◌++◌, ◌==◌, ltb, if◌then◌else◌, ◌≡◌, refl,
  arith, Bool-cases, inl, inr,
}
use karte_os.Base.Words.{add_usize}
use karte_os.Fabric.Tokens.{new, CapToken, TokenManager, find, retain, issue, sweep}

-- The ids rise from `lo` on and stay below `hi`.
abbrev pub Rising : List CapToken → ℕ → ℕ → Type 0
Rising [] lo hi = lo ≤ hi
Rising (t ∷ ts) lo hi = (lo ≤ t.token_id) × Rising ts (t.token_id + 1) hi

abbrev pub IsValid : TokenManager → Type 0
IsValid m = Rising m.tokens 1 m.next_id

find_below : (ts : List CapToken) (lo hi id : ℕ) → Rising ts lo hi → id < lo → find ts id ≡ none
unfolding find
find_below [] lo hi id r h = refl
find_below (t ∷ ts) lo hi id r h = ground (arith, find_below ts (t.token_id + 1) hi id)

lo-le-hi : (ts : List CapToken) (lo hi : ℕ) → Rising ts lo hi → lo ≤ hi
lo-le-hi [] lo hi r = r
lo-le-hi (t ∷ ts) lo hi r = omega (arith, lo-le-hi ts (t.token_id + 1) hi r.1)

pub find_above : (ts : List CapToken) (lo hi id : ℕ) → Rising ts lo hi → hi ≤ id → find ts id ≡ none
unfolding find
find_above [] lo hi id r h = refl
find_above (t ∷ ts) lo hi id r h =
    ground (arith, lo-le-hi ts (t.token_id + 1) hi r.1, find_above ts (t.token_id + 1) hi id r.1 h)

Rising-append :
    (ts : List CapToken) (lo hi : ℕ) (t : CapToken)
    → Rising ts lo hi
    → t.token_id ≡ hi
    → Rising (ts ++ t ∷ []) lo (hi + 1)
Rising-append [] lo hi t r e = (omega arith, omega arith)
Rising-append (u ∷ ts) lo hi t r e = (r.0, Rising-append ts (u.token_id + 1) hi t r.1 e)

Rising-weaken : (ts : List CapToken) (lo lo' hi : ℕ) → lo' ≤ lo → Rising ts lo hi → Rising ts lo' hi
Rising-weaken [] lo lo' hi h r = omega arith
Rising-weaken (t ∷ ts) lo lo' hi h r = (omega arith, r.1)

retain-Rising :
    (ts : List CapToken) (lo hi now : ℕ) → Rising ts lo hi → Rising (retain ts now) lo hi
unfolding retain
retain-Rising [] lo hi now r = r
retain-Rising (t ∷ ts) lo hi now r = elim (Bool-cases (ltb now t.expires_ms)) [
  | inl e ↦ rw e (r.0, retain-Rising ts (t.token_id + 1) hi now r.1)
  | inr e ↦ rw e (
      Rising-weaken (retain ts now) (t.token_id + 1) lo hi (omega arith)
        (retain-Rising ts (t.token_id + 1) hi now r.1))
]

-- What is found once the tokens that expire by `now` are gone.
pub find-retain :
    (ts : List CapToken) (lo hi now id : ℕ)
    → Rising ts lo hi
    → find (retain ts now) id
      ≡ (elim (find ts id) [ none ↦ none | some t ↦ if ltb now t.expires_ms then some t else none ])
unfolding find retain
find-retain [] lo hi now id r = refl
find-retain (t ∷ ts) lo hi now id r =
    let ih = find-retain ts (t.token_id + 1) hi now id r.1 in
    elim (Bool-cases (t.token_id == id)) [
      | inl same ↦
          let gone : find ts id ≡ none = find_below ts (t.token_id + 1) hi id r.1 (ground arith) in
          ground (arith, same, gone, ih)
      | inr other ↦ ground (arith, other, ih)
    ]

pub find-append :
    (ts : List CapToken) (t : CapToken) (id : ℕ)
    → find (ts ++ t ∷ []) id
      ≡ (elim (find ts id) [ some u ↦ some u | none ↦ if t.token_id == id then some t else none ])
unfolding find
find-append [] t id = refl
find-append (u ∷ ts) t id = ground (arith, find-append ts t id)

pub new-IsValid : IsValid new
unfolding new
new-IsValid = omega arith

-- The new id is above those given out before.
pub issue-IsValid :
    (m : TokenManager) (device tool : List ℕ) (perm now ttl : ℕ)
    → IsValid m
    → m.next_id + 1 < 2 ^ 64
    → IsValid (issue m device tool perm now ttl).1
unfolding issue
issue-IsValid m device tool perm now ttl v small =
    let e : add_usize m.next_id 1 ≡ m.next_id + 1 = omega arith in
    rw e (Rising-append m.tokens 1 m.next_id _ v refl)

pub sweep-IsValid : (m : TokenManager) (now : ℕ) → IsValid m → IsValid (sweep m now).1
unfolding sweep
sweep-IsValid m now v = retain-Rising m.tokens 1 m.next_id now v
