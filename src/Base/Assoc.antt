-- ===== src/Base/Assoc.antt =====
-- A BTreeMap with number keys: pairs in the order of the keys. The laws hold of any list of pairs.
use Prim.Native.Nat.{ℕ}
use mathlib.Core.Path.{◌≡◌, refl}
use mathlib.Core.List.{List, [], ◌∷◌}
use mathlib.Core.Option.{Option, none, some}
use mathlib.Core.Bool.{Bool, true, false}
use native.Mathlib.Omega.{arith}
use karte_os.Base.Tests.{◌==◌, ltb, if◌then◌else◌}

abbrev pub Assoc {ℓ} : Type ℓ → Type ℓ
Assoc V = List (ℕ × V)

module _ {ℓ} {V : Type ℓ} where
  -- `BTreeMap::get`
  unfoldable pub get : Assoc V → ℕ → Option V
  get [] k = none
  get ((i, v) ∷ m) k = let later = get m k in if i == k then some v else later

  -- `BTreeMap::insert`
  unfoldable pub insert : Assoc V → ℕ → V → Assoc V
  insert [] k v = (k, v) ∷ []
  insert ((i, w) ∷ m) k v =
      let later = insert m k v in
      if i == k then (k, v) ∷ m else if ltb k i then (k, v) ∷ (i, w) ∷ m else (i, w) ∷ later

  -- `BTreeMap::remove`
  unfoldable pub remove : Assoc V → ℕ → Assoc V
  remove [] k = []
  remove ((i, v) ∷ m) k = let later = remove m k in if i == k then later else (i, v) ∷ later

  -- `BTreeMap::contains_key`
  abbrev pub has : Assoc V → ℕ → Bool
  has m k = elim (get m k) [ none ↦ false | some v ↦ true ]

  pub get-insert :
      (m : Assoc V) (k j : ℕ) (v : V) → get (insert m k v) j ≡ (if k == j then some v else get m j)
  unfolding get insert
  get-insert [] k j v = refl
  get-insert ((i, w) ∷ m) k j v = ground (arith, get-insert m k j v)

  pub get-remove : (m : Assoc V) (k j : ℕ) → get (remove m k) j ≡ (if k == j then none else get m j)
  unfolding get remove
  get-remove [] k j = ground arith
  get-remove ((i, w) ∷ m) k j = ground (arith, get-remove m k j)
