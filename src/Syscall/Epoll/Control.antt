-- ===== src/Syscall/Epoll/Control.antt =====
-- What epoll_ctl of kernel/src/syscall/epoll/mod.rs does to the entries of an instance.
use karte_os.Base.{
  ℕ, true, false, Option, none, some, ◌==◌, if◌then◌else◌, ◌≡◌, ◌⊎◌, refl, ap, arith, Bool-cases,
  Option-cases, when_some, when_none, if_cases, ◌∙◌, inl, inr,
}
use karte_os.Base.Int.{ℤ, pos, negsuc, neg}
use karte_os.Base.Assoc.{Assoc, get, insert, remove, get-insert, get-remove}
use karte_os.Driver.FdTable.{get as get_fd, FdTable}
use karte_os.Syscall.Epoll.{EpollEvent, EpollEntry}
use karte_os.Syscall.Epoll.Calls.{
  control, fresh_entry, epoll_ctl_del, refuses, validate_epoll_target, epoll_target_supported,
}

-- The entry that a call which succeeds leaves for its descriptor.
abbrev pub outcome_entry : ℕ → EpollEvent → Option EpollEntry
outcome_entry op event = if op == epoll_ctl_del then none else some (fresh_entry event)

-- A call either succeeds and changes the entry of its descriptor and no other, or fails and leaves
-- every entry as it was.
pub data Controls (entries : Assoc EpollEntry) (op fd : ℕ) (event : EpollEvent)
    (r : ℤ × Assoc EpollEntry) : Type 0 where
  changed :
      r.0 ≡ pos 0
      → ((j : ℕ) → get r.1 j ≡ (if fd == j then outcome_entry op event else get entries j))
      → Controls entries op fd event r
  failed : (n : ℕ) → r ≡ (negsuc n, entries) → Controls entries op fd event r

-- A refusal is an error.
refuses_lem :
    (fds : FdTable) (fd event_ptr : ℕ)
    → (refuses fds fd event_ptr ≡ none) ⊎ ((n : ℕ) × (refuses fds fd event_ptr ≡ some (negsuc n)))
unfolding refuses validate_epoll_target
refuses_lem fds fd event_ptr = elim (Bool-cases (event_ptr == 0)) [
  | inl z ↦ inr (13, rw z refl)
  | inr z ↦ elim (Option-cases (get_fd fds fd)) [
    | inl e ↦ inr (8, rw z (when_none _ _ e))
    | inr (desc, e) ↦ elim (Bool-cases (epoll_target_supported desc.fd_type)) [
      | inl s ↦ inl (rw z (when_some _ _ e ∙ rw s refl))
      | inr s ↦ inr (0, rw z (when_some _ _ e ∙ rw s refl))
    ]
  ]
]

-- An epoll_ctl either succeeds and changes the entry of its descriptor and no other, or fails
-- and leaves every entry as it was.
pub control-Controls :
    (fds : FdTable) (entries : Assoc EpollEntry) (op fd event_ptr : ℕ) (event : EpollEvent)
    → Controls entries op fd event (control fds entries op fd event_ptr event)
unfolding control
control-Controls fds entries op fd event_ptr event =
    if_cases (Controls entries op fd event) (op == 1) _ _
      (λ a. adds a (refuses fds fd event_ptr) (refuses_lem fds fd event_ptr))
      (λ a.
        if_cases (Controls entries op fd event) (op == 3) _ _
          (λ m. mods m (refuses fds fd event_ptr) (refuses_lem fds fd event_ptr) (get entries fd))
          (λ b.
            if_cases (Controls entries op fd event) (op == 2) _ _ (λ d. dels d (get entries fd))
              (λ c. failed 21 refl)))
  where
    inserted :
        (op == 2) ≡ false
        → Controls entries op fd event (pos 0, insert entries fd (fresh_entry event))
    inserted h = changed refl (λ j. get-insert entries fd j (fresh_entry event) ∙ rw h refl)

    adds :
        (op == 1) ≡ true
        → (o : Option ℤ) → (o ≡ none) ⊎ ((n : ℕ) × (o ≡ some (negsuc n)))
        → Controls entries op fd event (elim o as (λ x. ℤ × Assoc EpollEntry) [
          | some e ↦ (e, entries)
          | none ↦ (pos 0, insert entries fd (fresh_entry event))
        ])
    adds h none k = inserted (ground arith)
    adds h (some e) (inl k) = absurd (ground arith)
    adds h (some e) (inr (n, k)) =
        failed n (ap (λ (o : Option ℤ). (elim o [ some x ↦ x | none ↦ e ], entries)) k)

    mods :
        (op == 3) ≡ true
        → (o : Option ℤ) → (o ≡ none) ⊎ ((n : ℕ) × (o ≡ some (negsuc n)))
        → (old : Option EpollEntry)
        → Controls entries op fd event (elim o as (λ x. ℤ × Assoc EpollEntry) [
          | some e ↦ (e, entries)
          | none ↦ elim old as (λ x. ℤ × Assoc EpollEntry) [
            | none ↦ (neg 2, entries)
            | some entry ↦ (pos 0, insert entries fd (fresh_entry event))
          ]
        ])
    mods h none k none = failed 1 refl
    mods h none k (some entry) = inserted (ground arith)
    mods h (some e) (inl k) old = absurd (ground arith)
    mods h (some e) (inr (n, k)) old =
        failed n (ap (λ (o : Option ℤ). (elim o [ some x ↦ x | none ↦ e ], entries)) k)

    dels :
        (op == 2) ≡ true
        → (old : Option EpollEntry)
        → Controls entries op fd event (elim old as (λ x. ℤ × Assoc EpollEntry) [
          | none ↦ (neg 2, entries)
          | some entry ↦ (pos 0, remove entries fd)
        ])
    dels h none = failed 1 refl
    dels h (some entry) = changed refl (λ j. get-remove entries fd j ∙ rw h refl)
