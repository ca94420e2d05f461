-- ===== src/Messaging/Mqtt/Length.antt =====
-- The length field of kernel/src/mqtt.rs: four bytes of seven bits are enough and are read back.
use Prim.Native.Nat.{bit_and, bit_or}
use native.Mathlib.Nat.{pow-suc}
use mathlib.Core.Path.{ap₂}
use karte_os.Base.{
  ℕ, zero, suc, ◌+◌, ◌-◌, ◌*◌, ◌/◌, ◌%◌, ◌^◌, ◌≤◌, ◌<◌, true, false, Option, some, List, [], ◌∷◌,
  ◌++◌, ltb, if◌then◌else◌, length, ◌≡◌, refl, ap, ◌∙◌, arith, Bool-cases, inl, inr,
}
use karte_os.Base.Bits.{bit_and_halves, bit_or_halves, bit_and-ones}
use karte_os.Base.Words.{add_usize, mul_usize}
use karte_os.Messaging.Mqtt.{encode_loop, encode_remaining_len, decode_loop, decode_remaining_len}

pow_positive : (k : ℕ) → 0 < 2 ^ k
pow_positive zero = omega arith
pow_positive (suc k) = omega (arith, pow-suc 2 k, pow_positive k)

-- A number below `2 ^ k` beside the bit `k`.
or_pow : (k x : ℕ) → x < 2 ^ k → bit_or x (2 ^ k) ≡ x + 2 ^ k
or_pow zero x h = let z : x ≡ 0 = omega arith in rw z refl
or_pow (suc k) x h =
    let half : 2 ^ suc k / 2 ≡ 2 ^ k = omega (arith, pow-suc 2 k) in
    let e : bit_or (x / 2) (2 ^ suc k / 2) ≡ x / 2 + 2 ^ k =
      ap (bit_or (x / 2)) half ∙ or_pow k (x / 2) (omega (arith, pow-suc 2 k)) in
    omega (arith, bit_or_halves x (2 ^ suc k), e, pow-suc 2 k)

and_pow_below : (k x : ℕ) → x < 2 ^ k → bit_and x (2 ^ k) ≡ 0
and_pow_below zero x h = let z : x ≡ 0 = omega arith in rw z refl
and_pow_below (suc k) x h =
    let half : 2 ^ suc k / 2 ≡ 2 ^ k = omega (arith, pow-suc 2 k) in
    let e : bit_and (x / 2) (2 ^ suc k / 2) ≡ 0 =
      ap (bit_and (x / 2)) half ∙ and_pow_below k (x / 2) (omega (arith, pow-suc 2 k)) in
    omega (arith, bit_and_halves x (2 ^ suc k), e, pow-suc 2 k)

and_pow_beside : (k x : ℕ) → x < 2 ^ k → bit_and (x + 2 ^ k) (2 ^ k) ≡ 2 ^ k
and_pow_beside zero x h = let z : x ≡ 0 = omega arith in rw z refl
and_pow_beside (suc k) x h =
    let half : 2 ^ suc k / 2 ≡ 2 ^ k = omega (arith, pow-suc 2 k) in
    let left : (x + 2 ^ suc k) / 2 ≡ x / 2 + 2 ^ k = omega (arith, pow-suc 2 k) in
    let e : bit_and ((x + 2 ^ suc k) / 2) (2 ^ suc k / 2) ≡ 2 ^ k =
      ap₂ bit_and left half ∙ and_pow_beside k (x / 2) (omega (arith, pow-suc 2 k)) in
    omega (arith, bit_and_halves (x + 2 ^ suc k) (2 ^ suc k), e, pow-suc 2 k)

and_ones_beside : (k x : ℕ) → x < 2 ^ k → bit_and (x + 2 ^ k) (2 ^ k - 1) ≡ x
and_ones_beside zero x h = let z : x ≡ 0 = omega arith in rw z refl
and_ones_beside (suc k) x h =
    let half : (2 ^ suc k - 1) / 2 ≡ 2 ^ k - 1 = omega (arith, pow-suc 2 k) in
    let odd : (2 ^ suc k - 1) % 2 ≡ 1 = omega (arith, pow-suc 2 k, pow_positive k) in
    let left : (x + 2 ^ suc k) / 2 ≡ x / 2 + 2 ^ k = omega (arith, pow-suc 2 k) in
    let even : (x + 2 ^ suc k) % 2 ≡ x % 2 = omega (arith, pow-suc 2 k) in
    let e : bit_and ((x + 2 ^ suc k) / 2) ((2 ^ suc k - 1) / 2) ≡ x / 2 =
      ap₂ bit_and left half ∙ and_ones_beside k (x / 2) (omega (arith, pow-suc 2 k)) in
    omega (arith, bit_and_halves (x + 2 ^ suc k) (2 ^ suc k - 1), e, odd, even)

small_mod : (y : ℕ) → y < 2 ^ 64 → y % 2 ^ 64 ≡ y
small_mod y h = omega arith

-- The sum that a round makes does not wrap.
round_sum :
    (b x mult val : ℕ)
    → bit_and b 0x7f ≡ x
    → val + x * mult < 2 ^ 64
    → add_usize val (mul_usize (bit_and b 0x7f) mult) ≡ val + x * mult
round_sum b x mult val e h =
    let p : x * mult % 2 ^ 64 ≡ x * mult = small_mod (x * mult) (omega arith) in
    rw (e, p) (small_mod (val + x * mult) h)

-- One round of decoding: the last byte of a length, and a byte that another one follows.
decode_last :
    (x i mult val : ℕ) (bs : List ℕ)
    → x < 128
    → val + x * mult < 2 ^ 64
    → decode_loop (x ∷ bs) i mult val ≡ some (val + x * mult, i + 1)
unfolding decode_loop
decode_last x i mult val bs h small =
    let low : bit_and x 0x7f ≡ x = bit_and-ones 7 x h in
    let flag : bit_and x 0x80 ≡ 0 = and_pow_below 7 x h in
    rw (flag, round_sum x x mult val low small) refl

decode_more :
    (x i mult val : ℕ) (bs : List ℕ)
    → x < 128
    → val + x * mult < 2 ^ 64
    → mult * 128 ≤ 128 * 128 * 128
    → decode_loop (bit_or x 0x80 ∷ bs) i mult val
      ≡ decode_loop bs (i + 1) (mult * 128) (val + x * mult)
unfolding decode_loop
decode_more x i mult val bs h small room =
    let b = bit_or x 0x80 in
    let is : b ≡ x + 0x80 = or_pow 7 x h in
    let low : bit_and b 0x7f ≡ x = ap (λ y. bit_and y 0x7f) is ∙ and_ones_beside 7 x h in
    let flag : bit_and b 0x80 ≡ 128 = ap (λ y. bit_and y 0x80) is ∙ and_pow_beside 7 x h in
    let next : mul_usize mult 128 ≡ mult * 128 = small_mod (mult * 128) (omega (arith, room)) in
    let fits : ltb (128 * 128 * 128) (mult * 128) ≡ false = ground (arith, room) in
    rw (flag, round_sum b x mult val low small, next, fits) refl

pair : {a b c d : ℕ} → a ≡ b → c ≡ d → ◌≡◌ {A = Option (ℕ × ℕ)} (some (a, c)) (some (b, d))
pair {b = b} {c = c} e f = ap (λ (x : ℕ). some (x, c)) e ∙ ap (λ (y : ℕ). some (b, y)) f

place_value : (n mult val : ℕ) → val + n % 128 * mult + n / 128 * (mult * 128) ≡ val + n * mult
place_value n mult val =
    let whole : n % 128 + n / 128 * 128 ≡ n = omega arith in
    digits val (n % 128) (n / 128) mult ∙ ap (λ (t : ℕ). val + t * mult) whole
  where
    digits : (v r q m : ℕ) → v + r * m + q * (m * 128) ≡ v + (r + q * 128) * m
    digits v r q m = grind arith

-- Decoding what `encode_loop` made, at a round with this place value.
abbrev Decodes : ℕ → ℕ → ℕ → ℕ → ℕ → List ℕ → Type 0
Decodes k n i mult val bs =
    decode_loop (encode_loop k n ++ bs) i mult val
    ≡ some (val + n * mult, i + length (encode_loop k n))

Decodes-last :
    (k n i mult val : ℕ) (bs : List ℕ)
    → n < 128
    → val + n * mult < 2 ^ 64
    → Decodes (suc k) n i mult val bs
unfolding encode_loop
Decodes-last k n i mult val bs h small =
    let one : ltb 0 (n / 128) ≡ false = ground (arith, h) in
    let m : n % 128 ≡ n = omega arith in rw (one, m) (decode_last n i mult val bs h small)

Decodes-more :
    (k n i mult val : ℕ) (bs : List ℕ)
    → 128 ≤ n
    → val + n * mult < 2 ^ 64
    → mult * 128 ≤ 128 * 128 * 128
    → Decodes k (n / 128) (i + 1) (mult * 128) (val + n % 128 * mult) bs
    → Decodes (suc k) n i mult val bs
unfolding encode_loop
Decodes-more k n i mult val bs h small room next =
    let more : ltb 0 (n / 128) ≡ true = ground (arith, h) in
    let rest = encode_loop k (n / 128) in
    let sum = place_value n mult val in
    let head : val + n % 128 * mult < 2 ^ 64 = omega (arith, sum, small) in
    rw more (
      decode_more (n % 128) i mult val (rest ++ bs) (omega arith) head room
      ∙ next
      ∙ pair sum (omega arith))

decode_four :
    (k n i val : ℕ) (bs : List ℕ)
    → n < 128
    → val + n * 2097152 < 2 ^ 64
    → Decodes (suc k) n i 2097152 val bs
decode_four k n i val bs h small = Decodes-last k n i 2097152 val bs h small

decode_three :
    (k n i val : ℕ) (bs : List ℕ)
    → n < 128 ^ 2
    → val + n * 16384 < 2 ^ 64
    → Decodes (suc (suc k)) n i 16384 val bs
decode_three k n i val bs h small = elim (Bool-cases (ltb n 128)) [
  | inl e ↦ Decodes-last (suc k) n i 16384 val bs (ground (arith, e)) small
  | inr e ↦ Decodes-more (suc k) n i 16384 val bs (ground (arith, e)) small (omega arith) (
      decode_four k (n / 128) (i + 1) (val + n % 128 * 16384) bs (omega arith)
        (omega (arith, small)))
]

decode_two :
    (k n i val : ℕ) (bs : List ℕ)
    → n < 128 ^ 3
    → val + n * 128 < 2 ^ 64
    → Decodes (suc (suc (suc k))) n i 128 val bs
decode_two k n i val bs h small = elim (Bool-cases (ltb n 128)) [
  | inl e ↦ Decodes-last (suc (suc k)) n i 128 val bs (ground (arith, e)) small
  | inr e ↦ Decodes-more (suc (suc k)) n i 128 val bs (ground (arith, e)) small (omega arith) (
      decode_three k (n / 128) (i + 1) (val + n % 128 * 128) bs (omega arith)
        (omega (arith, small)))
]

-- A length below 128 ^ 4 is read back, with the number of its bytes, whatever follows.
pub decode_remaining_len-encode_remaining_len :
    (n : ℕ) (bs : List ℕ)
    → n < 128 ^ 4
    → decode_remaining_len (encode_remaining_len n ++ bs)
      ≡ some (n, length (encode_remaining_len n))
unfolding decode_remaining_len encode_remaining_len
decode_remaining_len-encode_remaining_len n bs h =
    let one : 0 + n * 1 ≡ n = omega arith in
    elim (Bool-cases (ltb n 128)) [
      | inl e ↦
          Decodes-last 9 n 0 1 0 bs (ground (arith, e)) (omega (arith, h)) ∙ pair one (omega arith)
      | inr e ↦
          Decodes-more 9 n 0 1 0 bs (ground (arith, e)) (omega (arith, h)) (omega arith)
            (decode_two 6 (n / 128) 1 (0 + n % 128 * 1) bs (omega (arith, h)) (omega (arith, h)))
          ∙ pair one (omega arith)
    ]

-- More rounds than the ten add nothing.
pub encode_loop_enough :
    (k n : ℕ) → n < 128 ^ suc k → encode_loop (suc k) n ≡ encode_loop (suc (suc k)) n
unfolding encode_loop
encode_loop_enough zero n h = let one : ltb 0 (n / 128) ≡ false = ground (arith, h) in rw one refl
encode_loop_enough (suc k) n h =
    let fewer : n / 128 < 128 ^ suc k = omega (arith, h, pow-suc 128 (suc k)) in
    ap (λ r. if ltb 0 (n / 128) then bit_or (n % 128) 0x80 ∷ r else n % 128 ∷ [])
      (encode_loop_enough k (n / 128) fewer)
