-- ===== src/Fabric/Tokens.antt =====
-- kernel/src/capauth.rs: capability tokens (issue, verify, revoke, sweep) and the check of a device's
-- signed manifest. A string is the list of its bytes; an id or a time is a u64.
pub mod Gates
pub mod Ids
use Prim.Native.Nat.{bit_and, bit_xor}
use karte_os.Base.{
  ℕ, ◌+◌, ◌-◌, ◌*◌, ◌%◌, ◌^◌, Bool, true, false, ◌&&◌, ◌||◌, not, Option, none, some, List, [], ◌∷◌,
  ◌++◌, ◌==◌, leb, ltb, if◌then◌else◌, length,
}
use karte_os.Base.Strings.{same, codes}
use karte_os.Base.Words.{add_usize, mul_usize}

pub record CapToken : Type 0 where
  pub token_id : ℕ
  pub device_id : List ℕ
  pub tool_name : List ℕ
  pub perm_bits : ℕ
  pub issued_ms : ℕ
  pub expires_ms : ℕ

pub data VerifyResult : Type 0 where
  ok no_token expired revoked perm_denied : VerifyResult

pub record TokenManager : Type 0 where
  pub tokens : List CapToken
  pub revoked_ids : List ℕ
  pub next_id : ℕ

unfoldable pub new : TokenManager
new = record { tokens = []; revoked_ids = []; next_id = 1 }

-- `iter().find(|t| t.token_id == token_id)`
pub find : List CapToken → ℕ → Option CapToken
find [] id = none
find (t ∷ ts) id = let later = find ts id in if t.token_id == id then some t else later

unfoldable pub contains : List ℕ → ℕ → Bool
contains [] id = false
contains (x ∷ xs) id = x == id || contains xs id

unfoldable pub issue : TokenManager → List ℕ → List ℕ → ℕ → ℕ → ℕ → ℕ × TokenManager
issue m device_id tool_name perm_bits now_ms ttl_ms = (
  m.next_id,
  record m {
    next_id = add_usize m.next_id 1;
    tokens =
        m.tokens
        ++ record {
          token_id = m.next_id;
          device_id = device_id;
          tool_name = tool_name;
          perm_bits = perm_bits;
          issued_ms = now_ms;
          expires_ms = add_usize now_ms ttl_ms;
        }
          ∷ [];
  },
)

-- The gates on a token that was found.
pub check_token : TokenManager → CapToken → ℕ → List ℕ → List ℕ → ℕ → ℕ → VerifyResult
check_token m t token_id device_id tool_name need_perm now_ms =
    if leb t.expires_ms now_ms
    then expired
    else if contains m.revoked_ids token_id
    then revoked
    else if not (same t.device_id device_id) || not (same t.tool_name tool_name)
    then no_token
    else if not (bit_and t.perm_bits need_perm == need_perm)
    then perm_denied
    else ok

pub verify : TokenManager → ℕ → List ℕ → List ℕ → ℕ → ℕ → VerifyResult
verify m token_id device_id tool_name need_perm now_ms = elim (find m.tokens token_id) [
  | none ↦ no_token
  | some t ↦ check_token m t token_id device_id tool_name need_perm now_ms
]

pub revoke : TokenManager → ℕ → Bool × TokenManager
revoke m token_id =
    if contains m.revoked_ids token_id
    then (false, m)
    else (true, record m { revoked_ids = m.revoked_ids ++ token_id ∷ [] })

-- `retain(|t| t.expires_ms > now_ms)`
pub retain : List CapToken → ℕ → List CapToken
retain [] now_ms = []
retain (t ∷ ts) now_ms =
    let later = retain ts now_ms in if ltb now_ms t.expires_ms then t ∷ later else later

pub sweep : TokenManager → ℕ → ℕ × TokenManager
sweep m now_ms =
    let kept = retain m.tokens now_ms in (length m.tokens - length kept, record m { tokens = kept })

-- The loop of `fnv1a64`.
pub fnv_loop : ℕ → List ℕ → ℕ
fnv_loop h [] = h
fnv_loop h (b ∷ bs) = fnv_loop (mul_usize (bit_xor h b) 0x100000001b3) bs

pub fnv1a64 : List ℕ → ℕ
fnv1a64 bytes = fnv_loop 0xcbf29ce484222325 bytes

pub registration_key : List ℕ → Option (List ℕ)
registration_key device_id =
    if same device_id (codes "vfs0")
    then some (codes "kartevfs0key")
    else if same device_id (codes "timer0")
    then some (codes "kartetimer0key")
    else if same device_id (codes "gpio0")
    then some (codes "kartegpio0key")
    else none

pub manifest_hash : List ℕ → List ℕ → ℕ
manifest_hash device_id key = fnv1a64 (device_id ++ 0 ∷ key)

pub verify_manifest : List ℕ → ℕ → Bool
verify_manifest device_id claimed_hash = elim (registration_key device_id) [
  | none ↦ false
  | some key ↦ manifest_hash device_id key == claimed_hash
]
