-- ===== src/Fabric/Drt.antt =====
-- kernel/src/drt.rs: the device registry table and its timeouts. A string is the list of its bytes.
-- Of a descriptor only what the table reads is kept: the device's id, type and version, not the
-- tools. The wire format and the aggregation of the tool table are left out.
pub mod Table
pub mod Timeouts
use karte_os.Base.{
  ℕ, ◌+◌, ◌-◌, Bool, true, false, ◌&&◌, not, Option, none, some, List, [], ◌∷◌, ◌==◌, leb,
  if◌then◌else◌, map,
}
use karte_os.Base.Strings.{same}

pub data DevState : Type 0 where
  online stale offline : DevState

pub record CapDesc : Type 0 where
  pub device_id : List ℕ
  pub device_type : List ℕ
  pub version : ℕ

pub record DrtEntry : Type 0 where
  pub desc : CapDesc
  pub state : DevState
  pub last_seen_ms : ℕ

abbrev pub heartbeat_timeout_ms : ℕ
heartbeat_timeout_ms = 1500

abbrev pub stale_timeout_ms : ℕ
stale_timeout_ms = 3000

abbrev pub Entries : Type 0
Entries = List DrtEntry

abbrev pub is_named : DrtEntry → List ℕ → Bool
is_named e id = same e.desc.device_id id

-- `true` is a device that was not in the table.
pub announce : Entries → CapDesc → ℕ → Bool × Entries
announce [] desc now_ms = (true, record { desc = desc; state = online; last_seen_ms = now_ms } ∷ [])
announce (e ∷ es) desc now_ms =
    let later = announce es desc now_ms in
    if is_named e desc.device_id
    then (false, record e { state = online; last_seen_ms = now_ms } ∷ es)
    else (later.0, e ∷ later.1)

abbrev pub is_online : DevState → Bool
is_online online = true
is_online s = false

abbrev pub is_offline : DevState → Bool
is_offline offline = true
is_offline s = false

pub heartbeat : Entries → List ℕ → ℕ → Bool × Entries
heartbeat [] id now_ms = (false, [])
heartbeat (e ∷ es) id now_ms =
    let later = heartbeat es id now_ms in
    if is_named e id
    then (not (is_online e.state), record e { state = online; last_seen_ms = now_ms } ∷ es)
    else (later.0, e ∷ later.1)

pub bye : Entries → List ℕ → Bool × Entries
bye [] id = (false, [])
bye (e ∷ es) id =
    let later = bye es id in
    if is_named e id
    then (not (is_offline e.state), record e { state = offline } ∷ es)
    else (later.0, e ∷ later.1)

-- The `match` of `tick`: the next state of an entry of that age.
pub aged : DevState → ℕ → DevState
aged online age = if leb heartbeat_timeout_ms age then stale else online
aged stale age = if leb (heartbeat_timeout_ms + stale_timeout_ms) age then offline else stale
aged offline age = offline

-- `changed += 1`, when the `match` has taken one of its first two arms.
abbrev pub moved : DevState → ℕ → ℕ
moved online age = if leb heartbeat_timeout_ms age then 1 else 0
moved stale age = if leb (heartbeat_timeout_ms + stale_timeout_ms) age then 1 else 0
moved offline age = 0

pub tick : Entries → ℕ → ℕ × Entries
tick [] now_ms = (0, [])
tick (e ∷ es) now_ms =
    let (changed, es') = tick es now_ms in
    let age = now_ms - e.last_seen_ms in
    (moved e.state age + changed, record e { state = aged e.state age } ∷ es')

pub discoverable : Entries → List (List ℕ)
discoverable [] = []
discoverable (e ∷ es) =
    let later = discoverable es in
    if not (is_offline e.state) then e.desc.device_id ∷ later else later

pub offline_ids : Entries → List (List ℕ)
offline_ids [] = []
offline_ids (e ∷ es) =
    let later = offline_ids es in if is_offline e.state then e.desc.device_id ∷ later else later
