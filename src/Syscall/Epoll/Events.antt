-- ===== src/Syscall/Epoll/Events.antt =====
-- What collect_ready_events of kernel/src/syscall/epoll/mod.rs reports.
use Prim.Native.Nat.{bit_or}
use karte_os.Base.{
  ℕ, zero, suc, ◌≤◌, Bool, true, false, ◌&&◌, some, List, [], ◌∷◌, ◌==◌, if◌then◌else◌, ◌≡◌, refl,
  ap, ◌∙◌, arith, length, Bool-cases, when_some, inl, inr, ==_refl,
}
use karte_os.Base.Assoc.{Assoc}
use karte_os.Driver.FdTable.{
  get as get_fd, FdTable, FileDescriptor, Devices, is_readable, is_writable,
}
use karte_os.Syscall.Epoll.{
  EpollEvent, EpollEntry, collect_from, poll_entry, is_stale, report, skip, revents_of, has_bits,
  epollet, epollhup, epollin, epollout, is_timerfd, timerfd_peek,
}

-- Every entry is edge-triggered, on an open descriptor that is no timer.
pub data EdgeOnly (fds : FdTable) : Assoc EpollEntry → Type 0 where
  no_entries : EdgeOnly fds []
  edge :
      (fd : ℕ) (entry : EpollEntry) (desc : FileDescriptor) (es : Assoc EpollEntry)
      → has_bits entry.event.events epollet ≡ true
      → get_fd fds fd ≡ some desc
      → is_timerfd desc ≡ false
      → EdgeOnly fds es
      → EdgeOnly fds ((fd, entry) ∷ es)

-- The events of an open descriptor never look like a hang-up.
revents_of-no_hup :
    (d : Devices) (desc : FileDescriptor) (events : ℕ)
    → (revents_of d desc events == epollhup) ≡ false
unfolding revents_of
revents_of-no_hup d desc events =
    by_bits (has_bits events epollin && is_readable d desc)
      (has_bits events epollout && is_writable desc)
  where
    by_bits :
        (i o : Bool)
        → (bit_or (if i then epollin else 0) (if o then epollout else 0) == epollhup) ≡ false
    by_bits true true = refl
    by_bits true false = refl
    by_bits false true = refl
    by_bits false false = refl

-- What polling an edge-triggered entry gives.
pub revents : FdTable → Devices → Assoc Bool → FileDescriptor → EpollEntry → ℕ
revents fds d timers desc entry =
    revents_of (record d { timerfd_peek = timerfd_peek timers }) desc entry.event.events

poll_entry_lem :
    (fds : FdTable) (d : Devices) (timers : Assoc Bool) (fd : ℕ) (entry : EpollEntry)
    (desc : FileDescriptor)
    → get_fd fds fd ≡ some desc
    → is_timerfd desc ≡ false
    → poll_entry fds d timers fd entry ≡ (revents fds d timers desc entry, timers)
unfolding poll_entry revents
poll_entry_lem fds d timers fd entry desc e t = when_some _ _ e ∙ rw t refl

-- The three ways through one round of the loop.
module _ (fds : FdTable) (d : Devices) (room fd : ℕ) (entry : EpollEntry) (desc : FileDescriptor)
    (es : Assoc EpollEntry) (timers : Assoc Bool) (there : get_fd fds fd ≡ some desc)
    (timer : is_timerfd desc ≡ false) where
  abbrev happened : ℕ
  happened = revents fds d timers desc entry

  -- The round once the descriptor has been polled.
  abbrev branch : Bool → Bool → ℕ → Assoc Bool → List EpollEvent × Assoc EpollEntry × Assoc Bool
  branch stale quiet v after = elim stale [
    | true ↦ skip fd entry (collect_from fds d (suc room) es after)
    | false ↦ elim quiet [
      | true ↦ report fd entry v (collect_from fds d (suc room) es after)
      | false ↦ report fd entry v (collect_from fds d room es after)
    ]
  ]

  one_round :
      collect_from fds d (suc room) ((fd, entry) ∷ es) timers
      ≡ branch (is_stale entry happened) (happened == 0) happened timers
  unfolding collect_from
  one_round =
      ap (λ (p : ℕ × Assoc Bool). branch (is_stale entry p.0) (p.0 == 0) p.0 p.1)
        (poll_entry_lem fds d timers fd entry desc there timer)

  stale_round :
      is_stale entry happened ≡ true
      → collect_from fds d (suc room) ((fd, entry) ∷ es) timers
        ≡ skip fd entry (collect_from fds d (suc room) es timers)
  stale_round s = one_round ∙ ap (λ b. branch b (happened == 0) happened timers) s

  quiet_round :
      is_stale entry happened ≡ false
      → (happened == 0) ≡ true
      → collect_from fds d (suc room) ((fd, entry) ∷ es) timers
        ≡ report fd entry happened (collect_from fds d (suc room) es timers)
  quiet_round s z =
      one_round
      ∙ ap (λ b. branch b (happened == 0) happened timers) s
      ∙ ap (λ b. branch false b happened timers) z

  event_round :
      is_stale entry happened ≡ false
      → (happened == 0) ≡ false
      → collect_from fds d (suc room) ((fd, entry) ∷ es) timers
        ≡ report fd entry happened (collect_from fds d room es timers)
  event_round s z =
      one_round
      ∙ ap (λ b. branch b (happened == 0) happened timers) s
      ∙ ap (λ b. branch false b happened timers) z

-- A second look at the same devices finds nothing and changes nothing.
pub record Settled (fds : FdTable) (d : Devices) (timers : Assoc Bool)
    (r : List EpollEvent × Assoc EpollEntry × Assoc Bool) : Type 0 where
  pub timers_same : r.2 ≡ timers
  pub again :
      (room : ℕ) → length r.1 ≤ room → collect_from fds d room r.1 timers ≡ ([], r.1, timers)

-- An entry that is stale, before others that are settled.
before_settled :
    (fds : FdTable) (d : Devices) (timers : Assoc Bool) (fd : ℕ) (entry : EpollEntry)
    (desc : FileDescriptor) (es : Assoc EpollEntry)
    → get_fd fds fd ≡ some desc
    → is_timerfd desc ≡ false
    → is_stale entry (revents fds d timers desc entry) ≡ true
    → ((room : ℕ) → length es ≤ room → collect_from fds d room es timers ≡ ([], es, timers))
    → (room : ℕ) → length ((fd, entry) ∷ es) ≤ room
    → collect_from fds d room ((fd, entry) ∷ es) timers ≡ ([], (fd, entry) ∷ es, timers)
unfolding skip
before_settled fds d timers fd entry desc es there timer s later zero h = absurd (omega arith)
before_settled fds d timers fd entry desc es there timer s later (suc room) h =
    stale_round fds d room fd entry desc es timers there timer s
    ∙ ap (skip fd entry) (later (suc room) (omega arith))

-- What has been reported of an edge-triggered entry is stale at once.
reported_stale :
    (fds : FdTable) (d : Devices) (timers : Assoc Bool) (entry : EpollEntry) (desc : FileDescriptor)
    → has_bits entry.event.events epollet ≡ true
    → let v = revents fds d timers desc entry in
      is_stale (record entry { last_revents = v }) v ≡ true
unfolding is_stale revents
reported_stale fds d timers entry desc et =
    let look = record d { timerfd_peek = timerfd_peek timers } in
    let v = revents_of look desc entry.event.events in
    rw (et, ==_refl v, revents_of-no_hup look desc entry.event.events) refl

skip-Settled :
    (fds : FdTable) (d : Devices) (timers : Assoc Bool) (fd : ℕ) (entry : EpollEntry)
    (desc : FileDescriptor) (r : List EpollEvent × Assoc EpollEntry × Assoc Bool)
    → get_fd fds fd ≡ some desc
    → is_timerfd desc ≡ false
    → is_stale entry (revents fds d timers desc entry) ≡ true
    → Settled fds d timers r
    → Settled fds d timers (skip fd entry r)
unfolding skip
skip-Settled fds d timers fd entry desc r there timer s w = record {
  timers_same = w.timers_same;
  again = before_settled fds d timers fd entry desc r.1 there timer s w.again;
}

report-Settled :
    (fds : FdTable) (d : Devices) (timers : Assoc Bool) (fd : ℕ) (entry : EpollEntry)
    (desc : FileDescriptor) (r : List EpollEvent × Assoc EpollEntry × Assoc Bool)
    → get_fd fds fd ≡ some desc
    → is_timerfd desc ≡ false
    → has_bits entry.event.events epollet ≡ true
    → Settled fds d timers r
    → Settled fds d timers (report fd entry (revents fds d timers desc entry) r)
unfolding report revents
report-Settled fds d timers fd entry desc r there timer et w =
    let entry' : EpollEntry = record entry { last_revents = revents fds d timers desc entry } in
    record {
      timers_same = w.timers_same;
      again =
          before_settled fds d timers fd entry' desc r.1 there timer
            (reported_stale fds d timers entry desc et) w.again;
    }

-- One look at edge-triggered entries, on open descriptors that are no timers and with room for
-- all of them, settles them: it leaves the timers, and a second look at the same devices
-- reports nothing and changes nothing.
pub collect_from-Settled :
    (fds : FdTable) (d : Devices) (room : ℕ) (entries : Assoc EpollEntry) (timers : Assoc Bool)
    → EdgeOnly fds entries
    → length entries ≤ room
    → Settled fds d timers (collect_from fds d room entries timers)
collect_from-Settled fds d room entries timers no_entries h =
    unfold collect_from in record { timers_same = refl; again = λ r k. refl }
collect_from-Settled fds d zero entries timers (edge fd entry desc es et there timer k) h =
    absurd (omega arith)
collect_from-Settled fds d (suc room) entries timers (edge fd entry desc es et there timer k) h =
    let v = revents fds d timers desc entry in
    elim (Bool-cases (is_stale entry v)) [
      | inl s ↦ rw (stale_round fds d room fd entry desc es timers there timer s) (
          skip-Settled fds d timers fd entry desc _ there timer s
            (collect_from-Settled fds d (suc room) es timers k (omega arith)))
      | inr s ↦ elim (Bool-cases (v == 0)) [
        | inl z ↦ rw (quiet_round fds d room fd entry desc es timers there timer s z) (
            report-Settled fds d timers fd entry desc _ there timer et
              (collect_from-Settled fds d (suc room) es timers k (omega arith)))
        | inr z ↦ rw (event_round fds d room fd entry desc es timers there timer s z) (
            report-Settled fds d timers fd entry desc _ there timer et
              (collect_from-Settled fds d room es timers k (omega arith)))
      ]
    ]
