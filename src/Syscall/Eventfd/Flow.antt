-- ===== src/Syscall/Eventfd/Flow.antt =====
-- What goes into and comes out of a counter of kernel/src/syscall/epoll/eventfd.rs.
use karte_os.Base.{
  ℕ, ◌+◌, ◌^◌, ◌<◌, ◌≤◌, ◌||◌, Option, none, some, List, [], ◌∷◌, ◌==◌, ltb, if◌then◌else◌, ◌≡◌, ap,
  ◌∙◌, inl, inr, arith, Bool-cases, Option-cases,
}
use karte_os.Base.Int.{ℤ, pos, negsuc}
use karte_os.Base.Words.{usize_max, saturating_add}
use karte_os.Base.Assoc.{get, get-insert}
use karte_os.Syscall.Eventfd.{States, eventfd_read, eventfd_write}

-- The calls on counters.
pub data Call : Type 0 where
  reads : ℕ → ℕ → Call
  writes : ℕ → ℕ → ℕ → Call

-- What a write offers to counter `j`.
abbrev pub offer : ℕ → Call → ℕ
offer j (reads fd len) = 0
offer j (writes fd val len) = if fd == j then val else 0

abbrev pub offered : ℕ → List Call → ℕ
offered j [] = 0
offered j (c ∷ cs) = offer j c + offered j cs

-- The value that a read answers, and the value that a write that succeeds has added.
abbrev pub taken : Option ℕ → ℕ
taken none = 0
taken (some v) = v

abbrev pub added : ℤ → ℕ → ℕ
added (pos n) val = val
added (negsuc n) val = 0

-- The counters after a call, with what came out of counter `j` and what went in.
pub call : States → ℕ → Call → States × ℕ × ℕ
call st j (reads fd len) =
    let (r, v, st') = eventfd_read st fd len in (st', if fd == j then taken v else 0, 0)
call st j (writes fd val len) =
    let (r, woken, st') = eventfd_write st fd val len in
    (st', 0, if fd == j then added r val else 0)

pub run : States → ℕ → List Call → States × ℕ × ℕ
run st j [] = (st, 0, 0)
run st j (c ∷ cs) =
    let (st', got, put) = call st j c in
    let (st'', gots, puts) = run st' j cs in (st'', got + gots, put + puts)

-- Counter `j` held n before the call, and is in balance after it.
record Balanced (j n : ℕ) (c : Call) (out : States × ℕ × ℕ) : Type 0 where
  now : ℕ
  held : get out.0 j ≡ some now
  balance : n + out.2 ≡ out.1 + now
  bound : now ≤ n + offer j c

call-Balanced :
    (st : States) (j n : ℕ) (c : Call)
    → get st j ≡ some n
    → n + offer j c < 2 ^ 64
    → Balanced j n c (call st j c)
unfolding call eventfd_read eventfd_write
call-Balanced st j n (reads fd len) h small = elim (Bool-cases (ltb len 8)) [
  | inl e ↦ record {
    now = n;
    held = ground (arith, e, h);
    balance = ground (arith, e, h);
    bound = omega arith;
  }
  | inr e ↦ elim (Bool-cases (fd == j)) [
    | inl s ↦
        let same : fd ≡ j = ground arith in
        let at : get st fd ≡ some n = ap (get st) same ∙ h in
        record {
          now = 0;
          held = ground (arith, e, at, h, get-insert st fd j 0);
          balance = ground (arith, e, at);
          bound = omega arith;
        }
    | inr s ↦ elim (Option-cases (get st fd)) [
      | inl f ↦ record {
        now = n;
        held = ground (arith, e, f, h);
        balance = ground (arith, e, f, h);
        bound = omega arith;
      }
      | inr (v, f) ↦ record {
        now = n;
        held = ground (arith, e, f, h, get-insert st fd j 0);
        balance = ground (arith, e, f, h);
        bound = omega arith;
      }
    ]
  ]
]
call-Balanced st j n (writes fd val len) h small =
    elim (Bool-cases (ltb len 8 || val == usize_max)) [
      | inl e ↦ record {
        now = n;
        held = ground (arith, e, h);
        balance = ground (arith, e);
        bound = omega arith;
      }
      | inr e ↦ elim (Bool-cases (fd == j)) [
        | inl s ↦
            let same : fd ≡ j = ground arith in
            let at : get st fd ≡ some n = ap (get st) same ∙ h in
            record {
              now = n + val;
              held = ground (arith, e, s, at, get-insert st fd j (saturating_add n val));
              balance = ground (arith, e, s, at);
              bound = ground (arith, s);
            }
        | inr s ↦ elim (Option-cases (get st fd)) [
          | inl f ↦ record {
            now = n;
            held = ground (arith, e, f, h);
            balance = ground (arith, e, s, f);
            bound = omega arith;
          }
          | inr (v, f) ↦ record {
            now = n;
            held = ground (arith, e, s, f, h, get-insert st fd j (saturating_add v val));
            balance = ground (arith, e, s, f);
            bound = omega arith;
          }
        ]
      ]
    ]

-- Over any sequence of reads and writes of event counters: if a counter exists and what it
-- holds with all that is offered to it stays below 2 ^ 64, then what it held before with all
-- that was added is all that reads took from it with what it holds after.
pub run-balance :
    (st : States) (j n : ℕ) (cs : List Call)
    → get st j ≡ some n
    → n + offered j cs < 2 ^ 64
    → (m : ℕ) × (get (run st j cs).0 j ≡ some m) × (n + (run st j cs).2 ≡ (run st j cs).1 + m)
unfolding run
run-balance st j n [] h small = (n, h, omega arith)
run-balance st j n (c ∷ cs) h small =
    let b = call-Balanced st j n c h (omega arith) in
    let (m, at, e) = run-balance (call st j c).0 j b.now cs b.held (omega (arith, b.bound)) in
    (m, at, omega (arith, e, b.balance))
