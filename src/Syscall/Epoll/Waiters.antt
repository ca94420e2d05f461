-- ===== src/Syscall/Epoll/Waiters.antt =====
-- The lists of waiting tasks of kernel/src/syscall/epoll/mod.rs: registering, and who is woken.
use karte_os.Base.{
  ℕ, suc, ◌≤◌, ◌<◌, true, false, ◌||◌, Option, none, some, List, [], ◌∷◌, ◌++◌, ◌==◌, ltb,
  if◌then◌else◌, ◌≡◌, refl, sym, ap, ◌∙◌, arith, Bool-cases, Option-cases, when_some, when_none,
  ==_refl, if_cases, inl, inr,
}
use karte_os.Base.Assoc.{Assoc, get, insert, has, get-insert}
use karte_os.Syscall.Epoll.{
  EpollEntry, Epoll, contains, watchers, wake_all, wake_waiters_for_fd, waiting_on, register_waiter,
  retain_waiting,
}
use mathlib.Core.Path.{subst}

contains-append :
    (xs ys : List ℕ) (x : ℕ) → contains (xs ++ ys) x ≡ (contains xs x || contains ys x)
unfolding contains
contains-append [] ys x = refl
contains-append (y ∷ xs) ys x = ground (arith, contains-append xs ys x)

pub contains-watchers :
    (is : Assoc (Assoc EpollEntry)) (epfd fd : ℕ) (entries : Assoc EpollEntry)
    → get is epfd ≡ some entries
    → has entries fd ≡ true
    → contains (watchers is fd) epfd ≡ true
unfolding contains watchers get
contains-watchers [] epfd fd entries e h = absurd (ground arith)
contains-watchers ((i, es) ∷ is) epfd fd entries e h = elim (Bool-cases (i == epfd)) [
  | inl same ↦
      let first : get ((i, es) ∷ is) epfd ≡ some es = rw same refl in
      let eq : some es ≡ some entries = sym first ∙ e in
      let watched : has es fd ≡ true =
        ap (λ (o : Option (Assoc EpollEntry)). elim o [ none ↦ false | some z ↦ has z fd ]) eq
        ∙ h in
      rw watched (ground arith)
  | inr other ↦
      let later = contains-watchers is epfd fd entries (ground arith) h in
      if_cases (λ ws. contains ws epfd ≡ true) (has es fd) _ _ (λ w. ground arith) (λ w. later)
]

wake_all-none :
    (waiters : Assoc (List ℕ)) (x : ℕ) (epfds : List ℕ)
    → get waiters x ≡ none
    → wake_all waiters (x ∷ epfds) ≡ wake_all waiters epfds
unfolding wake_all
wake_all-none waiters x epfds e = when_none _ _ e

wake_all-some :
    (waiters : Assoc (List ℕ)) (x : ℕ) (epfds slots : List ℕ)
    → get waiters x ≡ some slots
    → (wake_all waiters (x ∷ epfds)).0 ≡ slots ++ (wake_all (insert waiters x []) epfds).0
unfolding wake_all
wake_all-some waiters x epfds slots e = ap (λ (r : List ℕ × Assoc (List ℕ)). r.0) (when_some _ _ e)

contains-wake_all :
    (epfds : List ℕ) (waiters : Assoc (List ℕ)) (epfd proc_idx : ℕ) (slots : List ℕ)
    → get waiters epfd ≡ some slots
    → contains slots proc_idx ≡ true
    → contains epfds epfd ≡ true
    → contains (wake_all waiters epfds).0 proc_idx ≡ true
unfolding contains
contains-wake_all [] waiters epfd proc_idx slots e c m = absurd (ground arith)
contains-wake_all (x ∷ epfds) waiters epfd proc_idx slots e c m = elim (Bool-cases (x == epfd)) [
  | inl same ↦
      let there : get waiters x ≡ some slots = ground arith in
      rw (wake_all-some waiters x epfds slots there)
        (ground (arith, contains-append slots (wake_all (insert waiters x []) epfds).0 proc_idx))
  | inr other ↦ elim (Option-cases (get waiters x)) [
    | inl none_there ↦
        rw (wake_all-none waiters x epfds none_there)
          (contains-wake_all epfds waiters epfd proc_idx slots e c (ground arith))
    | inr (others, there) ↦
        let e' : get (insert waiters x []) epfd ≡ some slots =
          ground (arith, get-insert waiters x epfd []) in
        let later =
          contains-wake_all epfds (insert waiters x []) epfd proc_idx slots e' c (ground arith) in
        rw (wake_all-some waiters x epfds others there)
          (ground (arith, contains-append others (wake_all (insert waiters x []) epfds).0 proc_idx))
  ]
]

-- A task that is registered on an instance is woken for every descriptor that the instance watches.
pub registered_woken :
    (st : Epoll) (epfd proc_idx fd : ℕ) (entries : Assoc EpollEntry)
    → contains (waiting_on st epfd) proc_idx ≡ true
    → get st.instances epfd ≡ some entries
    → has entries fd ≡ true
    → contains (wake_waiters_for_fd st fd).0 proc_idx ≡ true
unfolding wake_waiters_for_fd
registered_woken st epfd proc_idx fd entries c e h = elim (Option-cases (get st.waiters epfd)) [
  | inl none_there ↦ absurd (unfold contains in ground arith)
  | inr (slots, there) ↦
      let mine : contains slots proc_idx ≡ true = ground arith in
      contains-wake_all (watchers st.instances fd) st.waiters epfd proc_idx slots there mine
        (contains-watchers st.instances epfd fd entries e h)
]

pub register_waiter-contains :
    (st : Epoll) (epfd proc_idx : ℕ)
    → contains (waiting_on (register_waiter st epfd proc_idx) epfd) proc_idx ≡ true
register_waiter-contains st epfd proc_idx =
    let slots = waiting_on st epfd in
    let slots' = if contains slots proc_idx then slots else slots ++ proc_idx ∷ [] in
    let e : get (insert st.waiters epfd slots') epfd ≡ some slots' =
      get-insert st.waiters epfd epfd slots' ∙ (let r = ==_refl epfd in rw r refl) in
    let w : waiting_on (register_waiter st epfd proc_idx) epfd ≡ slots' =
      unfold register_waiter in when_some _ _ e in
    rw w (
      if_cases (λ ws. contains ws proc_idx ≡ true) (contains slots proc_idx) _ _ (λ h. h)
        (λ h. contains-append slots (proc_idx ∷ []) proc_idx ∙ added slots))
  where
    added : (slots : List ℕ) → (contains slots proc_idx || contains (proc_idx ∷ []) proc_idx) ≡ true
    added slots = unfold contains in ground arith

-- The tasks on the list of an instance.
abbrev pub slots_of : Assoc (List ℕ) → ℕ → List ℕ
slots_of ws epfd = elim (get ws epfd) [ none ↦ [] | some slots ↦ slots ]

-- The keys ascend from a number on, as those of a BTreeMap do from 0.
abbrev pub Ascending : Assoc (List ℕ) → ℕ → Type 0
Ascending [] lo = Unit
Ascending ((i, v) ∷ m) lo = (lo ≤ i) × Ascending m (suc i)

insert-Ascending :
    (m : Assoc (List ℕ)) (k lo : ℕ) (v : List ℕ)
    → lo ≤ k
    → Ascending m lo
    → Ascending (insert m k v) lo
unfolding insert
insert-Ascending [] k lo v h a = (h, tt)
insert-Ascending ((i, w) ∷ m) k lo v h (le, a) = elim (Bool-cases (i == k)) [
  | inl e ↦ (let is : i ≡ k = ground arith in rw e (h, subst (λ j. Ascending m (suc j)) is a))
  | inr e ↦ elim (Bool-cases (ltb k i)) [
    | inl l ↦ rw (e, l) (h, (ground arith, a))
    | inr l ↦ rw (e, l) (le, insert-Ascending m k (suc i) v (ground arith) a)
  ]
]

get_below : (m : Assoc (List ℕ)) (k lo : ℕ) → Ascending m lo → k < lo → get m k ≡ none
unfolding get
get_below [] k lo a h = refl
get_below ((i, v) ∷ m) k lo (le, a) h =
    let later = get_below m k (suc i) a (omega arith) in ground (arith, later)

slots_of-retain_waiting :
    (ws : Assoc (List ℕ)) (lo e : ℕ)
    → Ascending ws lo
    → slots_of (retain_waiting ws) e ≡ slots_of ws e
unfolding retain_waiting get
slots_of-retain_waiting [] lo e a = refl
slots_of-retain_waiting ((i, []) ∷ ws) lo e (le, a) =
    let same = slots_of-retain_waiting ws (suc i) e a in
    elim (Bool-cases (i == e)) [
      | inl is ↦
          let gone : get ws e ≡ none = get_below ws e (suc i) a (ground arith) in
          same ∙ ground (arith, gone)
      | inr other ↦ same ∙ ground arith
    ]
slots_of-retain_waiting ((i, x ∷ xs) ∷ ws) lo e (le, a) =
    let same = slots_of-retain_waiting ws (suc i) e a in ground (arith, same)

slots_of-insert :
    (ws : Assoc (List ℕ)) (k e : ℕ) (v : List ℕ)
    → slots_of (insert ws k v) e ≡ (if k == e then v else slots_of ws e)
slots_of-insert ws k e v = ground (arith, get-insert ws k e v)

wake_all-left_none :
    (waiters : Assoc (List ℕ)) (x : ℕ) (epfds slots : List ℕ)
    → get waiters x ≡ some slots
    → (wake_all waiters (x ∷ epfds)).1 ≡ (wake_all (insert waiters x []) epfds).1
unfolding wake_all
wake_all-left_none waiters x epfds slots e =
    ap (λ (r : List ℕ × Assoc (List ℕ)). r.1) (when_some _ _ e)

-- The lists of the instances that watch are cleared.
slots_of-wake_all :
    (epfds : List ℕ) (ws : Assoc (List ℕ)) (e : ℕ)
    → slots_of (wake_all ws epfds).1 e ≡ (if contains epfds e then [] else slots_of ws e)
unfolding contains
slots_of-wake_all [] ws e = unfold wake_all in refl
slots_of-wake_all (x ∷ epfds) ws e = elim (Option-cases (get ws x)) [
  | inl gone ↦
      let same = slots_of-wake_all epfds ws e in
      rw (wake_all-none ws x epfds gone) (elim (Bool-cases (x == e)) [
        | inl is ↦
            let here : get ws e ≡ none = ap (get ws) (sym (ground arith)) ∙ gone in
            same ∙ ground (arith, here)
        | inr other ↦ same ∙ rw other refl
      ])
  | inr (slots, there) ↦
      rw (wake_all-left_none ws x epfds slots there)
        (slots_of-wake_all epfds (insert ws x []) e ∙ ground (arith, slots_of-insert ws x e []))
]

wake_all-Ascending :
    (epfds : List ℕ) (ws : Assoc (List ℕ)) → Ascending ws 0 → Ascending (wake_all ws epfds).1 0
wake_all-Ascending [] ws a = unfold wake_all in a
wake_all-Ascending (x ∷ epfds) ws a = elim (Option-cases (get ws x)) [
  | inl gone ↦ rw (wake_all-none ws x epfds gone) (wake_all-Ascending epfds ws a)
  | inr (slots, there) ↦
      rw (wake_all-left_none ws x epfds slots there)
        (wake_all-Ascending epfds (insert ws x []) (insert-Ascending ws x 0 [] (omega arith) a))
]

-- A task that is on no list.
abbrev pub Unlisted : Assoc (List ℕ) → ℕ → Type 0
Unlisted ws proc_idx = (e : ℕ) → contains (slots_of ws e) proc_idx ≡ false

wake_all-Unlisted :
    (epfds : List ℕ) (ws : Assoc (List ℕ)) (proc_idx : ℕ)
    → Unlisted ws proc_idx
    → contains (wake_all ws epfds).0 proc_idx ≡ false
wake_all-Unlisted [] ws proc_idx u = unfold wake_all contains in refl
wake_all-Unlisted (x ∷ epfds) ws proc_idx u = elim (Option-cases (get ws x)) [
  | inl gone ↦ rw (wake_all-none ws x epfds gone) (wake_all-Unlisted epfds ws proc_idx u)
  | inr (slots, there) ↦
      let here : contains slots proc_idx ≡ false =
        sym (ap (λ o. contains (elim o as (λ z. List ℕ) [ none ↦ [] | some l ↦ l ]) proc_idx) there)
        ∙ u x in
      let u' : Unlisted (insert ws x []) proc_idx = λ e.
        ap (λ l. contains l proc_idx) (slots_of-insert ws x e []) ∙ (elim (Bool-cases (x == e)) [
          | inl is ↦ rw is (unfold contains in refl)
          | inr other ↦ rw other (u e)
        ]) in
      let later = wake_all-Unlisted epfds (insert ws x []) proc_idx u' in
      rw (wake_all-some ws x epfds slots there)
        (contains-append slots (wake_all (insert ws x []) epfds).0 proc_idx ∙ rw (here, later) refl)
]

-- A task that is on no list is woken for no descriptor.
pub wake_waiters_for_fd-Unlisted :
    (st : Epoll) (proc_idx fd : ℕ)
    → Unlisted st.waiters proc_idx
    → contains (wake_waiters_for_fd st fd).0 proc_idx ≡ false
unfolding wake_waiters_for_fd
wake_waiters_for_fd-Unlisted st proc_idx fd u =
    wake_all-Unlisted (watchers st.instances fd) st.waiters proc_idx u

-- Waking the only instance that a task is on takes the task off every list.
pub woken-Unlisted :
    (st : Epoll) (epfd proc_idx fd : ℕ)
    → Ascending st.waiters 0
    → ((e : ℕ) → (epfd == e) ≡ false → contains (slots_of st.waiters e) proc_idx ≡ false)
    → contains (watchers st.instances fd) epfd ≡ true
    → Unlisted (wake_waiters_for_fd st fd).1.waiters proc_idx
unfolding wake_waiters_for_fd
woken-Unlisted st epfd proc_idx fd a only w e =
    let epfds = watchers st.instances fd in
    let kept =
      slots_of-retain_waiting (wake_all st.waiters epfds).1 0 e
        (wake_all-Ascending epfds st.waiters a) in
    ap (λ l. contains l proc_idx) (kept ∙ slots_of-wake_all epfds st.waiters e)
    ∙ (elim (Bool-cases (epfd == e)) [
      | inl is ↦
          let cleared : contains epfds e ≡ true = ap (contains epfds) (sym (ground arith)) ∙ w in
          rw cleared (unfold contains in refl)
      | inr other ↦ elim (Bool-cases (contains epfds e)) [
        | inl c ↦ rw c (unfold contains in refl)
        | inr c ↦ rw c (only e other)
      ]
    ])

-- Registering touches the list of its own instance only, and keeps the order.
pub register_waiter_other :
    (st : Epoll) (epfd proc_idx e : ℕ)
    → (epfd == e) ≡ false
    → slots_of (register_waiter st epfd proc_idx).waiters e ≡ slots_of st.waiters e
unfolding register_waiter
register_waiter_other st epfd proc_idx e h = slots_of-insert st.waiters epfd e _ ∙ rw h refl

pub register_waiter-Ascending :
    (st : Epoll) (epfd proc_idx : ℕ)
    → Ascending st.waiters 0
    → Ascending (register_waiter st epfd proc_idx).waiters 0
unfolding register_waiter
register_waiter-Ascending st epfd proc_idx a = insert-Ascending st.waiters epfd 0 _ (omega arith) a
