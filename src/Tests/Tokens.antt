-- ===== src/Tests/Tokens.antt =====
-- Capability tokens at concrete inputs.
use karte_os.Base.{
  ℕ, ◌+◌, List, [], ◌∷◌, ◌||◌, not, ◌==◌, leb, if◌then◌else◌, ◌≡◌, ◌≢◌, ◌↔◌, some, refl, arith,
}
use Prim.Native.Nat.{bit_and}
use karte_os.Base.Strings.{same, codes}
use karte_os.Fabric.Tokens.{
  CapToken, TokenManager, VerifyResult, ok, no_token, new, find, contains, issue, verify, revoke,
}
use karte_os.Fabric.Tokens.Ids.{IsValid, new-IsValid, issue-IsValid}
use karte_os.Fabric.Tokens.Gates.{
  Grants, issues, sweeps, run, verify-Grants, revoked_for_good, issue-verify,
}

abbrev camera : List ℕ
camera = codes "cam0"

abbrev shoot : List ℕ
shoot = codes "shoot"

-- One token, number 1, good from 100 to 600.
abbrev one_token : TokenManager
one_token = (issue new camera shoot 5 100 500).1

one_token-IsValid : IsValid one_token
one_token-IsValid = issue-IsValid new camera shoot 5 100 500 new-IsValid (unfold new in omega arith)

verify-Grants_example : (verify one_token 1 camera shoot 4 200 ≡ ok) ↔ (
    (t : CapToken) × (find one_token.tokens 1 ≡ some t) × Grants one_token t 1 camera shoot 4 200)
verify-Grants_example = verify-Grants one_token 1 camera shoot 4 200

revoked_for_good_example :
    verify
      (run (revoke one_token 1).1 (sweeps 300 ∷ issues camera shoot 5 310 500 ∷ []))
      1
      camera
      shoot
      4
      320
    ≢ ok
revoked_for_good_example =
    revoked_for_good one_token 1 (sweeps 300 ∷ issues camera shoot 5 310 500 ∷ []) camera shoot 4
      320

issue-verify_example : verify (issue one_token camera shoot 3 200 500).1 1 camera shoot 4 300 ≡ (
    if 1 == one_token.next_id
    then (if leb (200 + 500) 300
        then VerifyResult.expired
        else if not (same camera camera) || not (same shoot shoot)
        then no_token
        else if not (bit_and 3 4 == 4)
        then VerifyResult.perm_denied
        else ok)
    else verify one_token 1 camera shoot 4 300)
issue-verify_example =
    issue-verify one_token camera shoot 3 200 500 1 camera shoot 4 300 one_token-IsValid
      (omega arith) (unfold issue new contains in refl)
