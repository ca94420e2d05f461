-- ===== src/Base/Bytes.antt =====
-- Numbers as bytes, the least significant one first: `from_ne_bytes` and `to_ne_bytes` on the
-- machines that the kernel runs on.
use Prim.Native.Nat.{ℕ, zero, suc, ◌+◌, ◌*◌, ◌/◌, ◌%◌, ◌^◌, ◌<◌}
use mathlib.Core.Path.{◌≡◌, refl}
use mathlib.Core.List.{List, [], ◌∷◌}
use native.Mathlib.Omega.{arith}
use native.Mathlib.Nat.{pow-suc}
use karte_os.Base.Lists.{length}

unfoldable pub from_bytes_le : List ℕ → ℕ
from_bytes_le [] = 0
from_bytes_le (b ∷ bs) = b + 256 * from_bytes_le bs

-- The `n` bytes of a number.
unfoldable pub to_bytes_le : ℕ → ℕ → List ℕ
to_bytes_le zero v = []
to_bytes_le (suc n) v = v % 256 ∷ to_bytes_le n (v / 256)

pub length-to_bytes_le : (n v : ℕ) → length (to_bytes_le n v) ≡ n
unfolding to_bytes_le
length-to_bytes_le zero v = refl
length-to_bytes_le (suc n) v = omega (arith, length-to_bytes_le n (v / 256))

pub from_bytes_le-to_bytes_le : (n v : ℕ) → v < 256 ^ n → from_bytes_le (to_bytes_le n v) ≡ v
unfolding from_bytes_le to_bytes_le
from_bytes_le-to_bytes_le zero v h = omega arith
from_bytes_le-to_bytes_le (suc n) v h =
    let small : v / 256 < 256 ^ n = omega (arith, pow-suc 256 n) in
    omega (arith, from_bytes_le-to_bytes_le n (v / 256) small)
