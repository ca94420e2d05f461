-- ===== src/Mm/Bitmap.antt =====
-- The frame bitmap of kernel/src/mm/pmm.rs: an array of u64 words, bit `i % 64` of word `i / 64`
-- for frame `i`. The allocator's proofs use the two laws below and never see the words.
use Prim.Native.Nat.{bit_and, bit_or}
use karte_os.Base.{
  ℕ, zero, suc, ◌/◌, ◌%◌, ◌^◌, ◌<◌, ◌≡◌, refl, ◌≢◌, inl, inr, Bool, true, false, List, ◌==◌,
  if◌then◌else◌, Bool-cases, ==_iff, arith, length, get_or, set, length-set, get_or-set_self,
  get_or-set_ne, replicate,
}
use karte_os.Base.Bits.{bit, bit_not, mask_test, bit-set_bit, bit-clear_bit, bit-zero}

-- `self.bitmap[word] & (1u64 << bit) == 0`; the shift is by less than 64.
unfoldable pub is_free : List ℕ → ℕ → Bool
is_free bitmap i = bit_and (get_or bitmap (i / 64) 0) (2 ^ (i % 64)) == 0

-- `self.bitmap[word] |= 1u64 << bit`
unfoldable pub mark : List ℕ → ℕ → List ℕ
mark bitmap i = set bitmap (i / 64) (bit_or (get_or bitmap (i / 64) 0) (2 ^ (i % 64)))

-- `self.bitmap[word] &= !(1u64 << bit)`
pub unmark : List ℕ → ℕ → List ℕ
unmark bitmap i =
    set bitmap (i / 64) (bit_and (get_or bitmap (i / 64) 0) (bit_not 64 (2 ^ (i % 64))))

is_free-bit :
    (bitmap : List ℕ) (i : ℕ) → is_free bitmap i ≡ (bit (get_or bitmap (i / 64) 0) (i % 64) == 0)
unfolding is_free
is_free-bit bitmap i = mask_test (get_or bitmap (i / 64) 0) (i % 64)

-- Writing the word of frame `i` so that bit `i % 64` becomes `b` and no other bit changes.
write_bit :
    (bitmap : List ℕ) (i j b w : ℕ)
    → i / 64 < length bitmap
    → ((k : ℕ) → k < 64 → bit w k ≡ (if (i % 64) == k then b else bit (get_or bitmap (i / 64) 0) k))
    → is_free (set bitmap (i / 64) w) j ≡ (if i == j then b == 0 else is_free bitmap j)
write_bit bitmap i j b w h law = elim (Bool-cases ((i / 64) == (j / 64))) [
  | inl same ↦
      let e : i / 64 ≡ j / 64 = (==_iff (i / 64) (j / 64)).0 same in
      rw (is_free-bit (set bitmap (i / 64) w) j, is_free-bit bitmap j, ← e)
        (rw (get_or-set_self bitmap (i / 64) w 0 h, law (j % 64) (omega arith)) (ground arith))
  | inr other ↦
      let ne : i / 64 ≢ j / 64 = ground arith in
      rw
        (
          is_free-bit (set bitmap (i / 64) w) j,
          is_free-bit bitmap j,
          get_or-set_ne bitmap (i / 64) (j / 64) w 0 ne,
        )
        (ground arith)
]

pub is_free-mark :
    (bitmap : List ℕ) (i j : ℕ)
    → i / 64 < length bitmap
    → is_free (mark bitmap i) j ≡ (if i == j then false else is_free bitmap j)
unfolding mark
is_free-mark bitmap i j h =
    write_bit bitmap i j 1 _ h (λ k _. bit-set_bit (get_or bitmap (i / 64) 0) (i % 64) k)

pub is_free-unmark :
    (bitmap : List ℕ) (i j : ℕ)
    → i / 64 < length bitmap
    → is_free (unmark bitmap i) j ≡ (if i == j then true else is_free bitmap j)
unfolding unmark
is_free-unmark bitmap i j h =
    write_bit bitmap i j 0 _ h
      (λ k hk. bit-clear_bit 64 (get_or bitmap (i / 64) 0) (i % 64) k (omega arith) hk)

pub length-mark : (bitmap : List ℕ) (i : ℕ) → length (mark bitmap i) ≡ length bitmap
unfolding mark
length-mark bitmap i = length-set bitmap _ _

pub length-unmark : (bitmap : List ℕ) (i : ℕ) → length (unmark bitmap i) ≡ length bitmap
unfolding unmark
length-unmark bitmap i = length-set bitmap _ _

get_or-replicate : (n i : ℕ) → ◌≡◌ {A = ℕ} (get_or (replicate n 0) i 0) 0
get_or-replicate zero i = refl
get_or-replicate (suc n) zero = refl
get_or-replicate (suc n) (suc i) = get_or-replicate n i

-- In a cleared bitmap every frame is free.
pub is_free-cleared : (n i : ℕ) → is_free (replicate n 0) i ≡ true
is_free-cleared n i =
    rw (is_free-bit (replicate n 0) i, get_or-replicate n (i / 64), bit-zero (i % 64))
