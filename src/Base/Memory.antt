-- ===== src/Base/Memory.antt =====
-- A process's user memory, byte by byte, as the kernel's `user_read_*` and `user_write_*` see it.
use Prim.Native.Nat.{ℕ, zero, suc, ◌+◌}
use mathlib.Core.List.{List, [], ◌∷◌}
use karte_os.Base.Tests.{◌==◌, if◌then◌else◌}
use karte_os.Base.Words.{add_usize}

abbrev pub Memory : Type 0
Memory = ℕ → ℕ

abbrev pub write_byte : Memory → ℕ → ℕ → Memory
write_byte m a v b = if a == b then v else m b

-- The `n` bytes at `buf + i`, `buf + i + 1`, ...
abbrev pub bytes_at : Memory → ℕ → ℕ → ℕ → List ℕ
bytes_at m buf i zero = []
bytes_at m buf i (suc n) = m (add_usize buf i) ∷ bytes_at m buf (i + 1) n
