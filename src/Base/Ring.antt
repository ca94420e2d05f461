-- ===== src/Base/Ring.antt =====
-- A ring buffer of any size: the elements from an index on, going round at the end.
use Prim.Native.Nat.{ℕ, zero, suc, ◌+◌, ◌-◌, ◌%◌, ◌≤◌, ◌<◌, min}
use mathlib.Core.Path.{◌≡◌, refl, ap, ap₂, ◌∙◌}
use mathlib.Core.Logic.{◌≢◌, inl, inr}
use mathlib.Core.List.{List, [], ◌∷◌, ◌++◌}
use native.Mathlib.Omega.{arith}
use native.Mathlib.Nat.{mod-eq_of_lt, mod-eq-sub-mod}
use karte_os.Base.Tests.{ltb, ltb→lt, Bool-cases, if◌then◌else◌}
use karte_os.Base.Lists.{
  length, get_or, set, take, drop, get_or-set_self, get_or-set_ne, take_all, length-drop,
}

pub mod_once : (size x : ℕ) → x < size + size → x % size ≡ (if ltb x size then x else x - size)
mod_once size x h = elim (Bool-cases (ltb x size)) [
  | inl small ↦ rw small (mod-eq_of_lt (ltb→lt x size small))
  | inr big ↦
      let le : size ≤ x = ground arith in
      let lt : x - size < size = omega arith in rw big (mod-eq-sub-mod le ∙ mod-eq_of_lt lt)
]

module _ {ℓ} {A : Type ℓ} (size : ℕ) (d : A) where
  abbrev pub window : List A → ℕ → ℕ → List A
  window b h zero = []
  window b h (suc n) = get_or b h d ∷ window b ((h + 1) % size) n

  pub length-window : (b : List A) (h n : ℕ) → length (window b h n) ≡ n
  length-window b h zero = refl
  length-window b h (suc n) = ap suc (length-window b ((h + 1) % size) n)

  -- A write just past a window extends it.
  pub window-set :
      (b : List A) (h n w : ℕ) (x : A)
      → length b ≡ size
      → h < size
      → n < size
      → w ≡ (h + n) % size
      → window (set b w x) h (suc n) ≡ window b h n ++ x ∷ []
  window-set b h zero w x s hh hn e =
      let e' : w ≡ h = ground (arith, mod_once size (h + 0)) in
      rw (e', get_or-set_self b h x d (omega arith))
  window-set b h (suc n) w x s hh hn e =
      let once = mod_once size (h + suc n) (omega arith) in
      let next = mod_once size (h + 1) (omega arith) in
      let ne : w ≢ h = λ q. ground (arith, once, next) in
      let lt : (h + 1) % size < size = ground (arith, next) in
      ap₂ ◌∷◌ (get_or-set_ne b w h x d ne) (
        window-set b ((h + 1) % size) n w x s lt (omega arith)
          (ground (arith, once, next, mod_once size ((h + 1) % size + n))))

  pub take-window : (b : List A) (h n k : ℕ) → k ≤ n → take k (window b h n) ≡ window b h k
  take-window b h n zero le = refl
  take-window b h zero (suc k) le = absurd (omega arith)
  take-window b h (suc n) (suc k) le =
      ap (◌∷◌ (get_or b h d)) (take-window b ((h + 1) % size) n k (omega arith))

  pub drop-window :
      (b : List A) (h n k : ℕ)
      → h < size
      → k ≤ n
      → n ≤ size
      → drop k (window b h n) ≡ window b ((h + k) % size) (n - k)
  drop-window b h n zero hh le room =
      let e : (h + 0) % size ≡ h = ground (arith, mod_once size (h + 0)) in
      rw e (ap (window b h) (omega arith))
  drop-window b h zero (suc k) hh le room = absurd (omega arith)
  drop-window b h (suc n) (suc k) hh le room =
      let next = mod_once size (h + 1) (omega arith) in
      let lt : (h + 1) % size < size = ground (arith, next) in
      drop-window b ((h + 1) % size) n k lt (omega arith) (omega arith)
      ∙ ap₂ (window b)
          (ground (arith, next, mod_once size (h + suc k), mod_once size ((h + 1) % size + k)))
          (omega arith)

  pub window_split :
      (b : List A) (h n k : ℕ)
      → h < size
      → k ≤ n
      → n ≤ size
      → window b h n ≡ window b h k ++ window b ((h + k) % size) (n - k)
  window_split b h n zero hh le room =
      let e : (h + 0) % size ≡ h = ground (arith, mod_once size (h + 0)) in
      rw e (ap (window b h) (omega arith))
  window_split b h zero (suc k) hh le room = absurd (omega arith)
  window_split b h (suc n) (suc k) hh le room =
      let next = mod_once size (h + 1) (omega arith) in
      let lt : (h + 1) % size < size = ground (arith, next) in
      ap (◌∷◌ (get_or b h d)) (
        window_split b ((h + 1) % size) n k lt (omega arith) (omega arith)
        ∙ ap (λ w. window b ((h + 1) % size) k ++ w)
            (ap₂ (window b)
              (ground (arith, next, mod_once size (h + suc k), mod_once size ((h + 1) % size + k)))
              (omega arith)))

  drop_step : (b : List A) (i : ℕ) → i < length b → drop i b ≡ get_or b i d ∷ drop (i + 1) b
  drop_step [] i h = absurd (omega arith)
  drop_step (x ∷ b) zero h = refl
  drop_step (x ∷ b) (suc i) h =
      let e : suc i + 1 ≡ suc (i + 1) = omega arith in rw e (drop_step b i (omega arith))

  -- A window that does not go round is a slice.
  pub window_slice :
      (b : List A) (i n : ℕ) → length b ≡ size → i + n ≤ size → window b i n ≡ take n (drop i b)
  window_slice b i zero s h = refl
  window_slice b i (suc zero) s h = rw (drop_step b i (omega (arith, s))) refl
  window_slice b i (suc (suc n)) s h =
      let e : (i + 1) % size ≡ i + 1 = mod-eq_of_lt (omega arith) in
      rw (drop_step b i (omega (arith, s))) (
        ap (◌∷◌ (get_or b i d))
          (ap (λ j. window b j (suc n)) e ∙ window_slice b (i + 1) (suc n) s (omega arith)))

  -- A window that goes round is two slices.
  pub window_two :
      (b : List A) (i n : ℕ)
      → length b ≡ size
      → i < size
      → size ≤ i + n
      → n ≤ size
      → window b i n ≡ drop i b ++ take (n - (size - i)) b
  window_two b i n s hi h hn =
      let back : (i + (size - i)) % size ≡ 0 = ground (arith, mod_once size (i + (size - i))) in
      window_split b i n (size - i) hi (omega arith) hn
      ∙ ap₂ ◌++◌
          (window_slice b i (size - i) s (omega arith)
            ∙ take_all (drop i b) (size - i) (omega (arith, length-drop b i, s)))
          (ap (λ j. window b j (n - (size - i))) back
            ∙ window_slice b 0 (n - (size - i)) s (omega arith))

  pub take-window-min : (b : List A) (i n k : ℕ) → take k (window b i n) ≡ window b i (min n k)
  take-window-min b i zero zero = refl
  take-window-min b i zero (suc k) = let e : min 0 (suc k) ≡ 0 = omega arith in rw e refl
  take-window-min b i (suc n) zero = let e : min (suc n) 0 ≡ 0 = omega arith in rw e refl
  take-window-min b i (suc n) (suc k) =
      let e : min (suc n) (suc k) ≡ suc (min n k) = omega arith in
      rw e (ap (◌∷◌ (get_or b i d)) (take-window-min b ((i + 1) % size) n k))
