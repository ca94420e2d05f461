-- ===== src/Tests/Devices.antt =====
-- The device registry table at concrete inputs.
use karte_os.Base.{◌+◌, some, [], ◌∷◌, leb, if◌then◌else◌, ◌≡◌, refl, arith}
use karte_os.Base.Strings.{same}
use karte_os.Fabric.Drt.{CapDesc, DrtEntry, Entries, online, stale, offline, tick}
use karte_os.Fabric.Drt.Table.{find}
use karte_os.Fabric.Drt.Timeouts.{silent_device}

abbrev gpio0 : CapDesc
gpio0 = record { device_id = 103 ∷ 48 ∷ []; device_type = 103 ∷ []; version = 1 }

abbrev vfs0 : CapDesc
vfs0 = record { device_id = 118 ∷ 48 ∷ []; device_type = 118 ∷ []; version = 1 }

abbrev entry : DrtEntry
entry = record { desc = gpio0; state = online; last_seen_ms = 100 }

abbrev table : Entries
table = record { desc = vfs0; state = stale; last_seen_ms = 50 } ∷ entry ∷ []

here : find table gpio0.device_id ≡ some entry
unfolding find same
here = refl

silent_device_example :
    find (tick (tick table 1700).1 4600).1 gpio0.device_id
    ≡ some (record entry {
      state =
          if leb (100 + 1500) 1700
          then (if leb (100 + 4500) 4600 then offline else stale)
          else (if leb (100 + 1500) 4600 then stale else online);
    })
silent_device_example = silent_device table gpio0.device_id entry 1700 4600 here refl (omega arith)
