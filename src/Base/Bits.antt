-- ===== src/Base/Bits.antt =====
-- Single bits of a machine word, and what `&`, `|`, `!` and `1 << i` do to them.
use Prim.Native.Nat.{
  ℕ, zero, suc, ◌+◌, ◌-◌, ◌*◌, ◌/◌, ◌%◌, ◌^◌, ◌≤◌, ◌<◌, min, max, bit_and, bit_or, digits, bitwise,
  bit_and-bitwise, bit_or-bitwise,
}
use mathlib.Core.Path.{◌≡◌, refl, ap, ◌∙◌}
use native.Mathlib.Omega.{arith}
use native.Mathlib.Nat.{pow-suc}
use mathlib.Core.Logic.{◌≢◌, inl, inr}
use karte_os.Base.Tests.{◌==◌, if◌then◌else◌, Bool-cases}

-- Bit `i` of `w`, counted from the lowest: 0 or 1.
pub bit : ℕ → ℕ → ℕ
bit w zero = w % 2
bit w (suc i) = bit (w / 2) i

-- `!w` on a word of `n` bits.
abbrev pub bit_not : ℕ → ℕ → ℕ
bit_not n w = 2 ^ n - 1 - w

pub bit_le_one : (w i : ℕ) → bit w i ≤ 1
unfolding bit
bit_le_one w zero = omega arith
bit_le_one w (suc i) = bit_le_one (w / 2) i

-- The native operations are a recursion on binary digits; here its fuel goes away.
module _ (z : ℕ → ℕ) (op : ℕ → ℕ → ℕ) where
  enough_fuel : (k l w v : ℕ) → w ≤ k → w ≤ l → digits z op k w v ≡ digits z op l w v
  enough_fuel zero zero w v hk hl = refl
  enough_fuel zero (suc l) zero v hk hl = refl
  enough_fuel zero (suc l) (suc w) v hk hl = absurd (omega arith)
  enough_fuel (suc k) zero zero v hk hl = refl
  enough_fuel (suc k) zero (suc w) v hk hl = absurd (omega arith)
  enough_fuel (suc k) (suc l) zero v hk hl = refl
  enough_fuel (suc k) (suc l) (suc w) v hk hl =
      ap (λ d. d * 2 + op (suc w % 2) (v % 2))
        (enough_fuel k l (suc w / 2) (v / 2) (omega arith) (omega arith))

  lowest_digit :
      (w v : ℕ)
      → bitwise z op (suc w) v ≡ bitwise z op (suc w / 2) (v / 2) * 2 + op (suc w % 2) (v % 2)
  lowest_digit w v =
      ap (λ d. d * 2 + op (suc w % 2) (v % 2))
        (enough_fuel w (suc w / 2) (suc w / 2) (v / 2) (omega arith) (omega arith))

pub bit_and_halves : (w v : ℕ) → bit_and w v ≡ bit_and (w / 2) (v / 2) * 2 + min (w % 2) (v % 2)
bit_and_halves zero v = simp bit_and-bitwise (omega arith)
bit_and_halves (suc w) v = simp bit_and-bitwise (lowest_digit (λ _. 0) min w v)

pub bit_or_halves : (w v : ℕ) → bit_or w v ≡ bit_or (w / 2) (v / 2) * 2 + max (w % 2) (v % 2)
bit_or_halves zero v = simp bit_or-bitwise (omega arith)
bit_or_halves (suc w) v = simp bit_or-bitwise (lowest_digit (λ b. b) max w v)

-- Bit by bit, `&` is the minimum and `|` the maximum.
pub bit-bit_and : (w v i : ℕ) → bit (bit_and w v) i ≡ min (bit w i) (bit v i)
unfolding bit
bit-bit_and w v zero = omega (arith, bit_and_halves w v)
bit-bit_and w v (suc i) =
    let e : bit_and w v / 2 ≡ bit_and (w / 2) (v / 2) = omega (arith, bit_and_halves w v) in
    ap (λ u. bit u i) e ∙ bit-bit_and (w / 2) (v / 2) i

pub bit-bit_or : (w v i : ℕ) → bit (bit_or w v) i ≡ max (bit w i) (bit v i)
unfolding bit
bit-bit_or w v zero = omega (arith, bit_or_halves w v)
bit-bit_or w v (suc i) =
    let e : bit_or w v / 2 ≡ bit_or (w / 2) (v / 2) = omega (arith, bit_or_halves w v) in
    ap (λ u. bit u i) e ∙ bit-bit_or (w / 2) (v / 2) i

pub bit-zero : (i : ℕ) → bit 0 i ≡ 0
unfolding bit
bit-zero zero = refl
bit-zero (suc i) = bit-zero i

half_pow : (i : ℕ) → 2 ^ suc i / 2 ≡ 2 ^ i
half_pow i = omega (arith, pow-suc 2 i)

-- `1 << i` has the one bit `i`.
pub bit-pow : (i j : ℕ) → bit (2 ^ i) j ≡ (if i == j then 1 else 0)
unfolding bit
bit-pow zero zero = refl
bit-pow zero (suc j) = bit-zero j ∙ ground arith
bit-pow (suc i) zero = ground (arith, pow-suc 2 i)
bit-pow (suc i) (suc j) = rw (half_pow i) (bit-pow i j ∙ ground arith)

-- `!` turns round every bit of the word.
pub bit-bit_not : (n w i : ℕ) → w < 2 ^ n → i < n → bit (bit_not n w) i ≡ 1 - bit w i
unfolding bit
bit-bit_not zero w i h k = elim k [ ]
bit-bit_not (suc n) w zero h k = omega (arith, pow-suc 2 n)
bit-bit_not (suc n) w (suc i) h k =
    let e : bit_not (suc n) w / 2 ≡ bit_not n (w / 2) = omega (arith, pow-suc 2 n) in
    ap (λ u. bit u i) e ∙ bit-bit_not n (w / 2) i (omega (arith, pow-suc 2 n)) (omega arith)

pow_pos : (n : ℕ) → 1 ≤ 2 ^ n
pow_pos zero = omega arith
pow_pos (suc n) = omega (arith, pow-suc 2 n, pow_pos n)

pub pow_strict : (i n : ℕ) → i < n → 2 ^ i < 2 ^ n
pow_strict i zero h = elim h [ ]
pow_strict zero (suc n) h = omega (arith, pow-suc 2 n, pow_pos n)
pow_strict (suc i) (suc n) h = omega (arith, pow-suc 2 n, pow-suc 2 i, pow_strict i n (omega arith))

bit_and-zero_upto : (k v : ℕ) → v ≤ k → bit_and v 0 ≡ 0
bit_and-zero_upto k zero h = refl
bit_and-zero_upto zero (suc v) h = absurd (omega arith)
bit_and-zero_upto (suc k) (suc v) h =
    omega (arith, bit_and_halves (suc v) 0, bit_and-zero_upto k (suc v / 2) (omega arith))

pub bit_and-zero : (v : ℕ) → bit_and v 0 ≡ 0
bit_and-zero v = bit_and-zero_upto v v (omega arith)

-- Testing by a mask: `w & (1 << i)` is zero exactly when the bit is.
pub bit_and-pow : (w i : ℕ) → bit_and w (2 ^ i) ≡ bit w i * 2 ^ i
unfolding bit
bit_and-pow w zero = omega (arith, bit_and_halves w 1, bit_and-zero (w / 2))
bit_and-pow w (suc i) =
    let p : bit_and (w / 2) (2 ^ suc i / 2) ≡ bit_and (w / 2) (2 ^ i) =
      ap (bit_and (w / 2)) (half_pow i) in
    omega (
      arith,
      p,
      bit_and_halves w (2 ^ suc i),
      pow-suc 2 i,
      bit_and-pow (w / 2) i,
      ap (λ (t : ℕ). bit (w / 2) i * t) (pow-suc 2 i),
    )

pub mask_test : (w i : ℕ) → (bit_and w (2 ^ i) == 0) ≡ (bit w i == 0)
mask_test w i = rw (bit_and-pow w i) (by_value (bit w i) (bit_le_one w i))
  where
    by_value : (b : ℕ) → b ≤ 1 → ((b * 2 ^ i) == 0) ≡ (b == 0)
    by_value b h = ground (arith, pow_pos i)

-- `w | (1 << i)` sets bit `i` and no other.
pub bit-set_bit : (w i j : ℕ) → bit (bit_or w (2 ^ i)) j ≡ (if i == j then 1 else bit w j)
bit-set_bit w i j = rw (bit-bit_or w (2 ^ i) j) (ground (arith, bit-pow i j, bit_le_one w j))

-- `w & !(1 << i)` clears bit `i` and no other.
pub bit-clear_bit :
    (n w i j : ℕ)
    → i < n
    → j < n
    → bit (bit_and w (bit_not n (2 ^ i))) j ≡ (if i == j then 0 else bit w j)
bit-clear_bit n w i j h k =
    rw (bit-bit_and w (bit_not n (2 ^ i)) j)
      (ground (arith, bit-bit_not n (2 ^ i) j (pow_strict i n h) k, bit-pow i j, bit_le_one w j))

-- A mask of `n` ones keeps a word of `n` bits.
pub bit_and-ones : (n w : ℕ) → w < 2 ^ n → bit_and w (2 ^ n - 1) ≡ w
bit_and-ones zero w h = omega (arith, bit_and-zero w)
bit_and-ones (suc n) w h =
    let e : bit_and (w / 2) ((2 ^ suc n - 1) / 2) ≡ bit_and (w / 2) (2 ^ n - 1) =
      ap (bit_and (w / 2)) (omega (arith, pow-suc 2 n)) in
    omega (
      arith,
      e,
      pow-suc 2 n,
      pow_pos n,
      bit_and_halves w (2 ^ suc n - 1),
      bit_and-ones n (w / 2) (omega (arith, pow-suc 2 n)),
    )

-- `|` and `&` stay within the width of a word.
pub bit_or-lt : (n w v : ℕ) → w < 2 ^ n → v < 2 ^ n → bit_or w v < 2 ^ n
bit_or-lt zero w v h k =
    let e : w ≡ 0 = omega arith in let f : v ≡ 0 = omega arith in rw (e, f) (omega arith)
bit_or-lt (suc n) w v h k = omega (
  arith,
  pow-suc 2 n,
  bit_or_halves w v,
  bit_or-lt n (w / 2) (v / 2) (omega (arith, pow-suc 2 n)) (omega (arith, pow-suc 2 n)),
)

pub bit_and-lt : (n w v : ℕ) → w < 2 ^ n → bit_and w v < 2 ^ n
bit_and-lt zero w v h =
    let e : w ≡ 0 = omega arith in rw e (omega (arith, bit_and_halves 0 v, bit_and-bitwise 0 v))
bit_and-lt (suc n) w v h = omega (
  arith,
  pow-suc 2 n,
  bit_and_halves w v,
  bit_and-lt n (w / 2) (v / 2) (omega (arith, pow-suc 2 n)),
)

-- `trailing_zeros` of a word of `n` bits; `n` for the word 0.
unfoldable pub trailing_zeros : ℕ → ℕ → ℕ
trailing_zeros zero w = 0
trailing_zeros (suc n) w =
    let rest = suc (trailing_zeros n (w / 2)) in if (w % 2) == 0 then rest else 0

-- It is the position of the lowest bit that is set.
pub trailing_zeros_lem :
    (n w : ℕ) → w < 2 ^ n → w ≢ 0 → (trailing_zeros n w < n) × (bit w (trailing_zeros n w) ≡ 1)
unfolding trailing_zeros bit
trailing_zeros_lem zero w h k = absurd (k (omega arith))
trailing_zeros_lem (suc n) w h k = elim (Bool-cases ((w % 2) == 0)) [
  | inl even ↦
      let (lo, at) = trailing_zeros_lem n (w / 2) (omega (arith, pow-suc 2 n)) (ground arith) in
      rw even (omega (arith, lo), at)
  | inr odd ↦ rw odd (omega arith, ground arith)
]

pub trailing_zeros_below : (n w j : ℕ) → j < trailing_zeros n w → bit w j ≡ 0
unfolding trailing_zeros bit
trailing_zeros_below zero w j h = absurd (omega arith)
trailing_zeros_below (suc n) w zero h = ground arith
trailing_zeros_below (suc n) w (suc j) h = ground (arith, trailing_zeros_below n (w / 2) j)

strip_bit : (w w' v u : ℕ) → w' ≡ w / 2 → u ≡ v * 2 → bit_and w u ≡ bit_and w' v * 2
strip_bit w w' v u p q =
    rw (p, q)
      (omega (
        arith,
        bit_and_halves w (v * 2),
        ap (bit_and (w / 2)) (let e : v * 2 / 2 ≡ v = omega arith in e),
      ))

strip_four : (w w' v u : ℕ) → w' ≡ w / 16 → u ≡ v * 16 → bit_and w u ≡ bit_and w' v * 16
strip_four w w' v u p q = omega (
  arith,
  strip_bit w (w / 2) (v * 8) u refl (omega arith),
  strip_bit (w / 2) (w / 4) (v * 4) (v * 8) (omega arith) (omega arith),
  strip_bit (w / 4) (w / 8) (v * 2) (v * 4) (omega arith) (omega arith),
  strip_bit (w / 8) w' v (v * 2) (omega arith) (omega arith),
)

-- `x & !(4096 - 1)` rounds a 64-bit address down to its page.
pub mask_page : (x : ℕ) → x < 2 ^ 64 → bit_and x (bit_not 64 4095) ≡ x / 4096 * 4096
mask_page x h = omega (
  arith,
  strip_four x (x / 16) ((2 ^ 52 - 1) * 256) (bit_not 64 4095) refl refl,
  strip_four (x / 16) (x / 256) ((2 ^ 52 - 1) * 16) ((2 ^ 52 - 1) * 256) (omega arith) refl,
  strip_four (x / 256) (x / 4096) (2 ^ 52 - 1) ((2 ^ 52 - 1) * 16) (omega arith) refl,
  bit_and-ones 52 (x / 4096) (omega arith),
)
