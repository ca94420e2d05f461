-- ===== src/Fabric/Drt/Table.antt =====
-- The table of kernel/src/drt.rs as a map from device ids.
use karte_os.Base.{
  ℕ, true, false, not, Option, none, some, List, [], ◌∷◌, if◌then◌else◌, ◌≡◌, inl, inr, refl,
  Bool-cases, arith,
}
use karte_os.Base.Strings.{same, same_of, same_apart}
use karte_os.Fabric.Drt.{
  CapDesc, DrtEntry, Entries, online, offline, is_named, announce, heartbeat, bye, is_online,
  is_offline,
}

-- The entry of a device: the first one of that id.
unfoldable pub find : Entries → List ℕ → Option DrtEntry
find [] id = none
find (e ∷ es) id = let later = find es id in if is_named e id then some e else later

-- What a heartbeat or an announcement does to an entry.
abbrev pub seen : DrtEntry → ℕ → DrtEntry
seen e t = record e { state = online; last_seen_ms = t }

-- An announcement at time t makes the device's entry online and seen at t, or makes a new one
-- if there was none, which is what the result says; no other device's entry changes.
pub find-announce :
    (es : Entries) (d : CapDesc) (t : ℕ) (id : List ℕ)
    → (find (announce es d t).1 id ≡ (
        if same d.device_id id
        then elim (find es d.device_id) [
          | none ↦ some (record { desc = d; state = online; last_seen_ms = t })
          | some e ↦ some (seen e t)
        ]
        else find es id))
      × ((announce es d t).0 ≡ (elim (find es d.device_id) [ none ↦ true | some e ↦ false ]))
unfolding find announce
find-announce [] d t id = (refl, refl)
find-announce (e ∷ es) d t id = elim (Bool-cases (same e.desc.device_id d.device_id)) [
  | inl m ↦
      let k = same_of e.desc.device_id d.device_id id m in (ground (arith, m, k), ground (arith, m))
  | inr n ↦
      let ih = find-announce es d t id in
      elim (Bool-cases (same d.device_id id)) [
        | inl p ↦
            let a = same_apart e.desc.device_id d.device_id id n p in
            (ground (arith, n, p, a, ih), ground (arith, n, ih))
        | inr p ↦ (ground (arith, n, p, ih), ground (arith, n, ih))
      ]
]

-- A heartbeat of a known device makes it online and seen at t, and its result says whether it
-- was not online before; an unknown device is ignored; no other device's entry changes.
pub find-heartbeat :
    (es : Entries) (name : List ℕ) (t : ℕ) (id : List ℕ)
    → (find (heartbeat es name t).1 id ≡ (
        if same name id
        then elim (find es name) [ none ↦ none | some e ↦ some (seen e t) ]
        else find es id))
      × ((heartbeat es name t).0
          ≡ (elim (find es name) [ none ↦ false | some e ↦ not (is_online e.state) ]))
unfolding find heartbeat
find-heartbeat [] name t id = (ground arith, refl)
find-heartbeat (e ∷ es) name t id = elim (Bool-cases (same e.desc.device_id name)) [
  | inl m ↦ let k = same_of e.desc.device_id name id m in (ground (arith, m, k), ground (arith, m))
  | inr n ↦
      let ih = find-heartbeat es name t id in
      elim (Bool-cases (same name id)) [
        | inl p ↦
            let a = same_apart e.desc.device_id name id n p in
            (ground (arith, n, p, a, ih), ground (arith, n, ih))
        | inr p ↦ (ground (arith, n, p, ih), ground (arith, n, ih))
      ]
]

-- A bye makes a known device offline, and its result says whether it was not offline before; an
-- unknown device is ignored; no other device's entry changes.
pub find-bye :
    (es : Entries) (name id : List ℕ)
    → (find (bye es name).1 id ≡ (
        if same name id
        then elim (find es name) [ none ↦ none | some e ↦ some (record e { state = offline }) ]
        else find es id))
      × ((bye es name).0
          ≡ (elim (find es name) [ none ↦ false | some e ↦ not (is_offline e.state) ]))
unfolding find bye
find-bye [] name id = (ground arith, refl)
find-bye (e ∷ es) name id = elim (Bool-cases (same e.desc.device_id name)) [
  | inl m ↦ let k = same_of e.desc.device_id name id m in (ground (arith, m, k), ground (arith, m))
  | inr n ↦
      let ih = find-bye es name id in
      elim (Bool-cases (same name id)) [
        | inl p ↦
            let a = same_apart e.desc.device_id name id n p in
            (ground (arith, n, p, a, ih), ground (arith, n, ih))
        | inr p ↦ (ground (arith, n, p, ih), ground (arith, n, ih))
      ]
]
