-- ===== src/Fabric/Drt/Timeouts.antt =====
-- `tick` of kernel/src/drt.rs: when a silent device becomes stale and when offline.
use karte_os.Base.{
  ℕ, ◌+◌, ◌-◌, ◌≤◌, Bool, true, false, Option, none, some, List, [], ◌∷◌, leb, if◌then◌else◌, ◌≡◌,
  refl, ap, ◌∙◌, inl, inr, arith, Bool-cases,
}
use mathlib.Core.Path.{ap₂}
use karte_os.Base.Strings.{same}
use karte_os.Fabric.Drt.{DrtEntry, Entries, DevState, online, stale, offline, aged, moved, tick}
use karte_os.Fabric.Drt.Table.{find}

-- An entry after a tick.
abbrev pub older : ℕ → DrtEntry → DrtEntry
older t e = record e { state = aged e.state (t - e.last_seen_ms) }

-- A tick changes each device's state by its own age, and no other field.
pub find-tick :
    (es : Entries) (t : ℕ) (id : List ℕ)
    → find (tick es t).1 id ≡ (elim (find es id) [ none ↦ none | some e ↦ some (older t e) ])
unfolding find tick
find-tick [] t id = refl
find-tick (e ∷ es) t id = elim (Bool-cases (same e.desc.device_id id)) [
  | inl m ↦ ground (arith, m)
  | inr n ↦ ground (arith, n, find-tick es t id)
]

twice :
    (seen t1 t2 : ℕ)
    → t1 ≤ t2
    → aged (aged online (t1 - seen)) (t2 - seen) ≡ (
        if leb (seen + 1500) t1
        then (if leb (seen + 4500) t2 then offline else stale)
        else (if leb (seen + 1500) t2 then stale else online))
unfolding aged
twice seen t1 t2 h = elim (Bool-cases (leb (seen + 1500) t1)) [
  | inl e ↦ ground (arith, e)
  | inr e ↦ ground (arith, e)
]

-- A device that was online and is then silent, at two ticks in order: it is offline only if the
-- first comes 1500 ms or more and the second 4500 ms or more after it was seen, stale if one of
-- them comes 1500 ms or more after that, and else online; all else of its entry stays.
pub silent_device :
    (es : Entries) (id : List ℕ) (e : DrtEntry) (t1 t2 : ℕ)
    → find es id ≡ some e
    → e.state ≡ online
    → t1 ≤ t2
    → find (tick (tick es t1).1 t2).1 id
      ≡ some (record e {
        state =
            if leb (e.last_seen_ms + 1500) t1
            then (if leb (e.last_seen_ms + 4500) t2 then offline else stale)
            else (if leb (e.last_seen_ms + 1500) t2 then stale else online);
      })
silent_device es id e t1 t2 f o h =
    find-tick (tick es t1).1 t2 id
    ∙ ap (again t2) (find-tick es t1 id ∙ ap (again t1) f)
    ∙ ap (λ s. some (record e { state = s }))
        (ap (λ s. aged (aged s (t1 - e.last_seen_ms)) (t2 - e.last_seen_ms)) o
          ∙ twice e.last_seen_ms t1 t2 h)
  where
    again : ℕ → Option DrtEntry → Option DrtEntry
    again t o = elim o [ none ↦ none | some e ↦ some (older t e) ]

abbrev pub same_state : DevState → DevState → Bool
same_state online online = true
same_state stale stale = true
same_state offline offline = true
same_state s t = false

-- How many entries of two tables, taken in order, differ in their state.
pub changes : Entries → Entries → ℕ
changes [] fs = 0
changes (e ∷ es) [] = 0
changes (e ∷ es) (f ∷ fs) = (if same_state e.state f.state then 0 else 1) + changes es fs

moved_lem : (s : DevState) (age : ℕ) → moved s age ≡ (if same_state s (aged s age) then 0 else 1)
unfolding aged
moved_lem online age = ground arith
moved_lem stale age = ground arith
moved_lem offline age = refl

-- The number that `tick` answers is that of the entries whose state it has changed.
pub tick-changes : (es : Entries) (t : ℕ) → (tick es t).0 ≡ changes es (tick es t).1
unfolding tick changes
tick-changes [] t = refl
tick-changes (e ∷ es) t = ap₂ ◌+◌ (moved_lem e.state (t - e.last_seen_ms)) (tick-changes es t)
