-- ===== src/Storage/RamFs/Lookup.antt =====
-- The directories of kernel/src/driver/ramfs.rs as a map from a directory and a name to an inode.
use karte_os.Base.{
  ℕ, Bool, true, false, ◌&&◌, not, Option, none, some, List, [], ◌∷◌, ◌++◌, ◌==◌, if◌then◌else◌,
  ◌≡◌, ◌≢◌, refl, ap, sym, ◌∙◌, arith, Bool-cases, Option-cases, inl, inr,
}
use mathlib.Core.Option.{some-injective}
use karte_os.Base.Assoc.{Assoc, get}
use karte_os.Base.Strings.{same, same_sound, same_refl}
use karte_os.Storage.RamFs.{
  RamFsNode, RamFileSystem, contains, add_node, without, find_in, find_child_by_name,
}
use karte_os.Storage.RamFs.Shape.{
  name_of, children_of, name_at, kids, Fits, fresh, name_at-add_node, get-add_node,
}

-- Whether a name is the one looked for.
abbrev pub named : Option (List ℕ) → List ℕ → Bool
named none name = false
named (some m) name = same m name

pub named_sound : (o : Option (List ℕ)) (name : List ℕ) → named o name ≡ true → o ≡ some name
named_sound none name h = ground arith
named_sound (some m) name h = ap some (same_sound m name h)

find_in_step :
    (nodes : Assoc RamFsNode) (c : ℕ) (cs : List ℕ) (name : List ℕ)
    → find_in nodes (c ∷ cs) name
      ≡ (if named (name_of (get nodes c)) name then some c else find_in nodes cs name)
unfolding find_in
find_in_step nodes c cs name = elim (Option-cases (get nodes c)) [
  | inl e ↦ ground (arith, e)
  | inr (n, e) ↦ ground (arith, e)
]

-- Only the names of the children count.
pub find_in_same :
    (nodes nodes' : Assoc RamFsNode) (cs name : List ℕ)
    → ((c : ℕ) → contains cs c ≡ true → name_of (get nodes' c) ≡ name_of (get nodes c))
    → find_in nodes' cs name ≡ find_in nodes cs name
unfolding contains find_in
find_in_same nodes nodes' [] name h = refl
find_in_same nodes nodes' (c ∷ cs) name h =
    let e : name_of (get nodes' c) ≡ name_of (get nodes c) = h c (ground arith) in
    let rest = find_in_same nodes nodes' cs name (λ d m. h d (ground (arith, m))) in
    find_in_step nodes' c cs name ∙ rw (e, rest) (sym (find_in_step nodes c cs name))

find_in-append :
    (nodes : Assoc RamFsNode) (cs : List ℕ) (x : ℕ) (name : List ℕ)
    → find_in nodes (cs ++ x ∷ []) name ≡ (elim (find_in nodes cs name) [
      | some c ↦ some c
      | none ↦ if named (name_of (get nodes x)) name then some x else none
    ])
unfolding find_in
find_in-append nodes [] x name = find_in_step nodes x [] name
find_in-append nodes (c ∷ cs) x name =
    let ih = find_in-append nodes cs x name in
    let s = find_in_step nodes c cs name in
    find_in_step nodes c (cs ++ x ∷ []) name ∙ ground (arith, ih, s)

-- What is found is a child of that name.
pub find_in_sound :
    (nodes : Assoc RamFsNode) (cs name : List ℕ) (c : ℕ)
    → find_in nodes cs name ≡ some c
    → (contains cs c ≡ true) × (name_of (get nodes c) ≡ some name)
unfolding contains find_in
find_in_sound nodes [] name c h = ground arith
find_in_sound nodes (x ∷ cs) name c h =
    let s = find_in_step nodes x cs name in
    elim (Bool-cases (named (name_of (get nodes x)) name)) [
      | inl e ↦
          let is : x ≡ c = some-injective x c (sym (s ∙ rw e refl) ∙ h) in
          (
            ground (arith, is),
            ap (λ d. name_of (get nodes d)) (sym is) ∙ named_sound (name_of (get nodes x)) name e,
          )
      | inr e ↦
          let (m, n) = find_in_sound nodes cs name c (sym (s ∙ rw e refl) ∙ h) in
          (ground (arith, m), n)
    ]

-- A child is found under its name, if not another one before it.
pub find_in_complete :
    (nodes : Assoc RamFsNode) (cs name : List ℕ) (c : ℕ)
    → contains cs c ≡ true
    → name_of (get nodes c) ≡ some name
    → find_in nodes cs name ≢ none
unfolding contains
find_in_complete nodes [] name c m n e = ground arith
find_in_complete nodes (x ∷ cs) name c m n e =
    let s = find_in_step nodes x cs name in
    let own : named (name_of (get nodes c)) name ≡ true =
      ap (λ o. named o name) n ∙ same_refl name in
    elim (Bool-cases (x == c)) [
      | inl q ↦
          let is : x ≡ c = ground arith in
          let hit : named (name_of (get nodes x)) name ≡ true =
            ap (λ d. named (name_of (get nodes d)) name) is ∙ own in
          ground (arith, s, hit, e)
      | inr q ↦ find_in_complete nodes cs name c (ground (arith, m, q)) n (ground (arith, s, e))
    ]

-- A child that is taken out, and its name with it.
pub find_in-without :
    (nodes nodes' : Assoc RamFsNode) (cs : List ℕ) (i : ℕ) (name other : List ℕ)
    → name_of (get nodes i) ≡ some name
    → ((c : ℕ) → contains cs c ≡ true → i ≢ c → name_of (get nodes' c) ≡ name_of (get nodes c))
    → ((c : ℕ) → contains cs c ≡ true → name_of (get nodes c) ≡ some name → i ≡ c)
    → find_in nodes' (without cs i) other
      ≡ (if same name other then none else find_in nodes cs other)
unfolding without contains find_in
find_in-without nodes nodes' [] i name other n h u = ground arith
find_in-without nodes nodes' (c ∷ cs) i name other n h u =
    let ih =
      find_in-without nodes nodes' cs i name other n (λ d m. h d (ground (arith, m)))
        (λ d m. u d (ground (arith, m))) in
    let s = find_in_step nodes c cs other in
    let s' = find_in_step nodes' c (without cs i) other in
    elim (Bool-cases (c == i)) [
      | inl e ↦
          let is : c ≡ i = ground arith in
          let has_name : named (name_of (get nodes c)) other ≡ same name other =
            ap (λ o. named o other) (ap (λ d. name_of (get nodes d)) is ∙ n) in
          rw e (ih ∙ ground (arith, s, has_name))
      | inr e ↦
          let keeps : name_of (get nodes' c) ≡ name_of (get nodes c) =
            h c (ground arith) (λ k. ground (arith, e, k)) in
          let apart : named (name_of (get nodes c)) other ≡ true → same name other ≡ false = λ q.
            elim (Bool-cases (same name other)) [
              | inl w ↦
                  let one_name =
                    named_sound (name_of (get nodes c)) other q
                    ∙ ap some (sym (same_sound name other w)) in
                  let is = u c (ground arith) one_name in ground (arith, e, is)
              | inr w ↦ w
            ] in
          rw e (s' ∙ ground (arith, ih, s, keeps, apart))
    ]

-- What `find_child_by_name` reads of a file system.
pub find_child_step :
    (fs : RamFileSystem) (d : ℕ) (name : List ℕ) (dir : RamFsNode)
    → get fs.nodes d ≡ some dir
    → find_child_by_name fs d name
      ≡ (if not dir.is_dir then none else find_in fs.nodes dir.children name)
unfolding find_child_by_name
find_child_step fs d name dir e =
    ap
      (λ (o : Option RamFsNode). elim o as (λ x. Option ℕ) [
        | none ↦ none
        | some n ↦ if not n.is_dir then none else find_in fs.nodes n.children name
      ])
      e

pub find_child_none :
    (fs : RamFileSystem) (d : ℕ) (name : List ℕ)
    → get fs.nodes d ≡ none
    → find_child_by_name fs d name ≡ none
unfolding find_child_by_name
find_child_none fs d name e =
    ap
      (λ (o : Option RamFsNode). elim o as (λ x. Option ℕ) [
        | none ↦ none
        | some n ↦ if not n.is_dir then none else find_in fs.nodes n.children name
      ])
      e

-- A directory whose children keep their names finds what it found.
pub find_child_same :
    (fs fs' : RamFileSystem) (d : ℕ) (name : List ℕ)
    → get fs'.nodes d ≡ get fs.nodes d
    → ((c : ℕ) → contains (kids fs d) c ≡ true → name_at fs' c ≡ name_at fs c)
    → find_child_by_name fs' d name ≡ find_child_by_name fs d name
find_child_same fs fs' d name e h = elim (Option-cases (get fs.nodes d)) [
  | inl gone ↦ find_child_none fs' d name (e ∙ gone) ∙ sym (find_child_none fs d name gone)
  | inr (n, k) ↦
      let same_kids : kids fs d ≡ n.children = ap children_of k in
      let f =
        find_in_same fs.nodes fs'.nodes n.children name
          (λ c m. h c (ap (λ cs. contains cs c) same_kids ∙ m)) in
      find_child_step fs' d name n (e ∙ k) ∙ rw f (sym (find_child_step fs d name n k))
]

pub no_child :
    (nodes : Assoc RamFsNode) (is_dir : Bool) (cs name : List ℕ)
    → cs ≡ []
    → (if not is_dir then none else find_in nodes cs name) ≡ none
unfolding find_in
no_child nodes true cs name e = ap (λ ds. find_in nodes ds name) e
no_child nodes false cs name e = refl

-- Before the node is added no child of the directory has its name.
name_is_free :
    (fs : RamFileSystem) (dir : ℕ) (node : RamFsNode) (name : List ℕ) (f : Fits fs dir node)
    → same node.name name ≡ true
    → find_in fs.nodes f.parent.children name ≡ none
name_is_free fs dir node name f q =
    let s = find_child_step fs dir node.name f.parent f.there in
    ap (find_in fs.nodes f.parent.children) (sym (same_sound node.name name q))
    ∙ ground (arith, s, f.absent, f.is_dir)

-- The children that were there keep their names.
old_names :
    (fs : RamFileSystem) (dir : ℕ) (node : RamFsNode) (d c : ℕ)
    → Fits fs dir node
    → contains (kids fs d) c ≡ true
    → name_at (add_node fs dir node).1 c ≡ name_at fs c
old_names fs dir node d c f m =
    ground (arith, name_at-add_node fs dir node c f, fresh fs d f.valid, m)

-- In the directory that gains the node.
find_child-add_node_here :
    (fs : RamFileSystem) (dir : ℕ) (node : RamFsNode) (name : List ℕ)
    → Fits fs dir node
    → find_child_by_name (add_node fs dir node).1 dir name
      ≡ (if same node.name name then some fs.next_inode else find_child_by_name fs dir name)
find_child-add_node_here fs dir node name f =
    let fs' = (add_node fs dir node).1 in
    let i = fs.next_inode in
    let cs = f.parent.children in
    let grown : RamFsNode = record f.parent { children = cs ++ i ∷ [] } in
    let at : get fs'.nodes dir ≡ some grown =
      ground (arith, get-add_node fs dir node f.parent dir f.valid f.there) in
    let kids_are : kids fs dir ≡ cs = ap children_of f.there in
    let new_name : name_at fs' i ≡ some node.name =
      ground (arith, name_at-add_node fs dir node i f) in
    let kept =
      find_in_same fs.nodes fs'.nodes cs name
        (λ c m. old_names fs dir node dir c f (ap (λ ks. contains ks c) kids_are ∙ m)) in
    let found = find_in-append fs'.nodes cs i name in
    let mine = ap (λ o. named o name) new_name in
    let shown : find_child_by_name fs' dir name ≡ find_in fs'.nodes (cs ++ i ∷ []) name =
      find_child_step fs' dir name grown at ∙ rw f.is_dir refl in
    let was_shown : find_child_by_name fs dir name ≡ find_in fs.nodes cs name =
      find_child_step fs dir name f.parent f.there ∙ rw f.is_dir refl in
    elim (Bool-cases (same node.name name)) [
      | inl q ↦ shown ∙ ground (arith, found, kept, mine, name_is_free fs dir node name f q, q)
      | inr q ↦ shown ∙ ground (arith, found, kept, mine, was_shown, q)
    ]

-- With the node its name is in the directory, and nothing else has changed.
pub find_child-add_node :
    (fs : RamFileSystem) (dir : ℕ) (node : RamFsNode) (d : ℕ) (name : List ℕ)
    → Fits fs dir node
    → find_child_by_name (add_node fs dir node).1 d name ≡ (
        if (dir == d) && same node.name name
        then some fs.next_inode
        else find_child_by_name fs d name)
find_child-add_node fs dir node d name f =
    let fs' = (add_node fs dir node).1 in
    let g = get-add_node fs dir node f.parent d f.valid f.there in
    elim (Bool-cases (dir == d)) [
      | inl e ↦
          let is : dir ≡ d = ground arith in
          let here = find_child-add_node_here fs dir node name f in
          rw e (
            ap (λ j. find_child_by_name fs' j name) (sym is)
            ∙ here
            ∙ ap
                (λ j.
                  if same node.name name then some fs.next_inode else find_child_by_name fs j name)
                is)
      | inr e ↦ elim (Bool-cases (fs.next_inode == d)) [
        | inl w ↦
            let at : get fs'.nodes d ≡ some node = g ∙ rw (e, w) refl in
            let before : find_child_by_name fs d name ≡ none =
              find_child_none fs d name (f.valid.below d (ground arith)) in
            find_child_step fs' d name node at
            ∙ rw (e, before) (no_child fs'.nodes node.is_dir node.children name f.no_kids)
        | inr w ↦ rw e (
            find_child_same fs fs' d name (g ∙ rw (e, w) refl)
              (λ c m. old_names fs dir node d c f m))
      ]
    ]
