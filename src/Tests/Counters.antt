-- ===== src/Tests/Counters.antt =====
-- Event counters at concrete inputs.
use karte_os.Base.{ℕ, ◌+◌, some, List, [], ◌∷◌, ◌≡◌, refl, arith}
use karte_os.Base.Assoc.{get}
use karte_os.Syscall.Eventfd.{States}
use karte_os.Syscall.Eventfd.Flow.{Call, reads, writes, run, run-balance}

abbrev counters : States
counters = (200, 5) ∷ (201, 0) ∷ []

abbrev traffic : List Call
traffic = writes 200 7 8 ∷ writes 201 1 8 ∷ reads 200 8 ∷ reads 200 8 ∷ writes 200 3 4 ∷ []

at_first : get counters 200 ≡ some 5
unfolding get
at_first = refl

run-balance_example :
    (m : ℕ) × (get (run counters 200 traffic).0 200 ≡ some m)
    × (5 + (run counters 200 traffic).2 ≡ (run counters 200 traffic).1 + m)
run-balance_example = run-balance counters 200 5 traffic at_first (omega arith)
