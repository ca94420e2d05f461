-- ===== src/Base/Strings.antt =====
-- A `&str` or a `&[u8]` as the list of its bytes, and its equality.
use Prim.Native.Nat.{ℕ}
use mathlib.Core.Path.{◌≡◌, refl, ap, sym, ◌∙◌}
use mathlib.Core.List.{List, [], ◌∷◌}
use mathlib.Core.Bool.{Bool, true, false, ◌&&◌}
use native.Mathlib.Omega.{arith}
use Prim.Native.Char.{code}
use Prim.Native.String.{String}
use karte_os.Base.Tests.{◌==◌}

-- The bytes of an ASCII text.
abbrev pub codes : String → List ℕ
codes String.[] = []
codes (String.◌∷◌ c s) = code c ∷ codes s

unfoldable pub same : List ℕ → List ℕ → Bool
same [] [] = true
same [] (y ∷ ys) = false
same (x ∷ xs) [] = false
same (x ∷ xs) (y ∷ ys) = x == y && same xs ys

pub same_sound : (x y : List ℕ) → same x y ≡ true → x ≡ y
unfolding same
same_sound [] [] h = refl
same_sound [] (y ∷ ys) h = absurd (ground arith)
same_sound (x ∷ xs) [] h = absurd (ground arith)
same_sound (x ∷ xs) (y ∷ ys) h =
    let e : x ≡ y = ground arith in
    let t : same xs ys ≡ true = ground arith in rw (e, same_sound xs ys t) refl

pub same_refl : (x : List ℕ) → same x x ≡ true
unfolding same
same_refl [] = refl
same_refl (x ∷ xs) = ground (arith, same_refl xs)

-- A name equal to another one is equal to what the other one is.
pub same_of : (x y id : List ℕ) → same x y ≡ true → same x id ≡ same y id
same_of x y id h = ap (λ z. same z id) (same_sound x y h)

-- A name that differs from a second one, which is the third, differs from the third.
pub same_apart : (x y id : List ℕ) → same x y ≡ false → same y id ≡ true → same x id ≡ false
same_apart x y id h k = ap (same x) (sym (same_sound y id k)) ∙ h
