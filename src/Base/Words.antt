-- ===== src/Base/Words.antt =====
-- 64-bit unsigned arithmetic (`usize`, `u64`) on the native numbers, with its wrap-around, and
-- page rounding.
use Prim.Native.Nat.{ℕ, ◌+◌, ◌-◌, ◌*◌, ◌/◌, ◌%◌, ◌^◌, ◌<◌, bit_and, min}
use mathlib.Core.Path.{◌≡◌}
use native.Mathlib.Omega.{arith}
use karte_os.Base.Bits.{bit_not, mask_page}

abbrev pub usize_mod : ℕ
usize_mod = 2 ^ 64

abbrev pub usize_max : ℕ
usize_max = 2 ^ 64 - 1

abbrev pub add_usize : ℕ → ℕ → ℕ
add_usize a b = (a + b) % 2 ^ 64

abbrev pub sub_usize : ℕ → ℕ → ℕ
sub_usize a b = (a + 2 ^ 64 - b) % 2 ^ 64

abbrev pub mul_usize : ℕ → ℕ → ℕ
mul_usize a b = (a * b) % 2 ^ 64

-- `saturating_add` and `saturating_sub` on 64 bits.
abbrev pub saturating_add : ℕ → ℕ → ℕ
saturating_add a b = min (a + b) (2 ^ 64 - 1)

abbrev pub saturating_sub : ℕ → ℕ → ℕ
saturating_sub a b = a - b

-- `(x + 4096 - 1) & !(4096 - 1)`
unfoldable pub page_up : ℕ → ℕ
page_up x = bit_and ((x + 4095) % 2 ^ 64) (bit_not 64 4095)

-- Where the sum does not wrap, the result is the least multiple of the page size from `x` on.
pub page_up_lem : (x : ℕ) → x + 4095 < 2 ^ 64 → page_up x ≡ (x + 4095) / 4096 * 4096
unfolding page_up
page_up_lem x h = omega (arith, mask_page ((x + 4095) % 2 ^ 64) (omega arith))
