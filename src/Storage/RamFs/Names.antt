-- ===== src/Storage/RamFs/Names.antt =====
-- What `create_file`, `create_dir` and `unlink` of kernel/src/driver/ramfs.rs do to every lookup.
use karte_os.Base.{
  ℕ, Bool, true, false, ◌&&◌, not, Option, none, some, List, [], ◌∷◌, ◌==◌, if◌then◌else◌,
  when_some, when_none, is_empty, ◌≡◌, ◌≢◌, refl, ap, sym, ◌∙◌, arith, Bool-cases, Option-cases,
  inl, inr,
}
use karte_os.Base.Assoc.{get}
use karte_os.Base.Strings.{same}
use karte_os.Storage.RamFs.{
  Result, ok, err, not_found, RamFsNode, RamFileSystem, contains, add_node, alloc_inode, new_node,
  remove_node, without, find_in, find_child_by_name, lookup, create, unlink,
}
use karte_os.Storage.RamFs.Shape.{
  children_of, name_at, kids, IsValid, Fits, get-remove_node, name_at-remove_node,
}
use karte_os.Storage.RamFs.Lookup.{
  find_in_sound, find_in-without, find_child_step, find_child_none, find_child_same,
  find_child-add_node, no_child,
}

pub create_lem :
    (fs : RamFileSystem) (dir : ℕ) (name : List ℕ) (is_dir : Bool)
    → Fits fs dir (new_node name is_dir)
    → create fs dir name is_dir ≡ (ok fs.next_inode, (add_node fs dir (new_node name is_dir)).1)
unfolding create new_node add_node alloc_inode
create_lem fs dir name is_dir f = when_some _ _ f.there ∙ rw f.is_dir (when_none _ _ f.absent)

abbrev answer : Option ℕ → Result ℕ
answer none = err not_found
answer (some i) = ok i

answer_if :
    (b : Bool) (o p : Option ℕ) → answer (if b then o else p) ≡ (if b then answer o else answer p)
answer_if true o p = refl
answer_if false o p = refl

-- When a name is free in a directory of a valid file system, create_file and create_dir answer
-- the next inode, and afterwards lookup finds it under that name there and answers as before
-- for every other directory and name.
pub create-lookup :
    (fs : RamFileSystem) (dir : ℕ) (name : List ℕ) (is_dir : Bool) (d : ℕ) (other : List ℕ)
    → Fits fs dir (new_node name is_dir)
    → ((create fs dir name is_dir).0 ≡ ok fs.next_inode)
      × (lookup (create fs dir name is_dir).1 d other
          ≡ (if (dir == d) && same name other then ok fs.next_inode else lookup fs d other))
unfolding lookup new_node
create-lookup fs dir name is_dir d other f =
    let e = create_lem fs dir name is_dir f in
    let l = find_child-add_node fs dir (new_node name is_dir) d other f in
    (
      ap (λ (r : Result ℕ × RamFileSystem). r.0) e,
      ap (λ (r : Result ℕ × RamFileSystem). lookup r.1 d other) e
          ∙ ap answer l
          ∙ answer_if ((dir == d) && same name other) (some fs.next_inode)
              (find_child_by_name fs d other),
    )

-- A node that `unlink` takes out of its directory.
pub record Removable (fs : RamFileSystem) (dir : ℕ) (name : List ℕ) : Type 0 where
  pub valid : IsValid fs
  pub inode : ℕ
  pub found : find_child_by_name fs dir name ≡ some inode
  pub node : RamFsNode
  pub there : get fs.nodes inode ≡ some node
  pub no_full_dir : node.is_dir && not (is_empty node.children) ≡ false

pub unlink_lem :
    (fs : RamFileSystem) (dir : ℕ) (name : List ℕ) (r : Removable fs dir name)
    → unlink fs dir name ≡ (ok tt, remove_node fs dir r.inode)
unfolding unlink
unlink_lem fs dir name r = when_some _ _ r.found ∙ when_some _ _ r.there ∙ rw r.no_full_dir refl

-- In the directory it stands in, a node is the only child with its name.
pub only_child :
    (fs : RamFileSystem) (dir : ℕ) (name : List ℕ) (r : Removable fs dir name)
    → (parent : RamFsNode) × (get fs.nodes dir ≡ some parent)
      × (parent.is_dir ≡ true)
      × (contains parent.children r.inode ≡ true)
      × (name_at fs r.inode ≡ some name)
only_child fs dir name r = elim (Option-cases (get fs.nodes dir)) [
  | inl gone ↦ ground (arith, r.found, find_child_none fs dir name gone)
  | inr (parent, p) ↦
      let s = find_child_step fs dir name parent p in
      let is_dir : parent.is_dir ≡ true = ground (arith, s, r.found) in
      let at : find_in fs.nodes parent.children name ≡ some r.inode =
        ground (arith, s, r.found, is_dir) in
      let (m, n) = find_in_sound fs.nodes parent.children name r.inode at in
      (parent, p, is_dir, m, n)
]

if_same : {A : Type 0} {x : A} (b : Bool) → (if b then x else x) ≡ x
if_same true = refl
if_same false = refl

no_element : (xs : List ℕ) → is_empty xs ≡ true → xs ≡ []
no_element [] h = refl
no_element (x ∷ xs) h = ground arith

-- Nothing is found in the node that is taken out.
empty_finds_none :
    (fs : RamFileSystem) (dir : ℕ) (name : List ℕ) (d : ℕ) (other : List ℕ)
    (r : Removable fs dir name)
    → r.inode ≡ d
    → find_child_by_name fs d other ≡ none
empty_finds_none fs dir name d other r is =
    let at : get fs.nodes d ≡ some r.node = ap (get fs.nodes) (sym is) ∙ r.there in
    find_child_step fs d other r.node at ∙ (elim (Bool-cases r.node.is_dir) [
      | inl e ↦
          no_child fs.nodes r.node.is_dir r.node.children other
            (no_element r.node.children (ground (arith, r.no_full_dir, e)))
      | inr e ↦ rw e refl
    ])

-- Without the node its name is gone from the directory, and nothing else is.
pub find_child-remove_node :
    (fs : RamFileSystem) (dir : ℕ) (name : List ℕ) (d : ℕ) (other : List ℕ)
    (r : Removable fs dir name)
    → find_child_by_name (remove_node fs dir r.inode) d other
      ≡ (if (dir == d) && same name other then none else find_child_by_name fs d other)
find_child-remove_node fs dir name d other r =
    let (parent, p, is_dir, m, n) = only_child fs dir name r in
    let i = r.inode in
    let fs' = remove_node fs dir i in
    let g = get-remove_node fs dir i parent d p in
    let names : (c : ℕ) → i ≢ c → name_at fs' c ≡ name_at fs c =
      λ c ne. ground (arith, name_at-remove_node fs dir i parent c p, ne) in
    elim (Bool-cases (i == d)) [
      | inl e ↦
          let is : i ≡ d = ground arith in
          find_child_none fs' d other (g ∙ rw e refl)
          ∙ rw (empty_finds_none fs dir name d other r is)
              (sym (if_same ((dir == d) && same name other)))
      | inr e ↦ elim (Bool-cases (dir == d)) [
        | inl w ↦
            let is : dir ≡ d = ground arith in
            let at : get fs.nodes d ≡ some parent = ap (get fs.nodes) (sym is) ∙ p in
            let kids_are : kids fs d ≡ parent.children = ap children_of at in
            let less : RamFsNode = record parent { children = without parent.children i } in
            let one : (c : ℕ)
                → contains parent.children c ≡ true
                → name_at fs c ≡ some name
                → i ≡ c =
              λ c mc nc.
                r.valid.own_name d i c (ap (λ cs. contains cs i) kids_are ∙ m)
                  (ap (λ cs. contains cs c) kids_are ∙ mc) (n ∙ sym nc) in
            let shown =
              find_in-without fs.nodes fs'.nodes parent.children i name other n (λ c mc. names c)
                one in
            find_child_step fs' d other less (g ∙ rw (e, w) refl)
            ∙ ground (arith, shown, is_dir, find_child_step fs d other parent at, w)
        | inr w ↦
            let apart_from : (c : ℕ) → contains (kids fs d) c ≡ true → i ≢ c = λ c mc q.
              let here = ap (λ ns. contains (children_of ns) i) p ∙ m in
              let is = r.valid.one_parent dir d i here (ap (contains (kids fs d)) q ∙ mc) in
              ground (arith, w, is) in
            rw w (
              find_child_same fs fs' d other (g ∙ rw (e, w) refl)
                (λ c mc. names c (apart_from c mc)))
      ]
    ]

-- When a name is in a directory of a valid file system, and is not of a directory with
-- children, unlink succeeds, and afterwards lookup finds no such name there and answers as
-- before for every other directory and name.
pub unlink-lookup :
    (fs : RamFileSystem) (dir : ℕ) (name : List ℕ) (d : ℕ) (other : List ℕ)
    → Removable fs dir name
    → ((unlink fs dir name).0 ≡ ok tt)
      × (lookup (unlink fs dir name).1 d other
          ≡ (if (dir == d) && same name other then err not_found else lookup fs d other))
unfolding lookup
unlink-lookup fs dir name d other r =
    let e = unlink_lem fs dir name r in
    (
      ap (λ (u : Result Unit × RamFileSystem). u.0) e,
      ap (λ (u : Result Unit × RamFileSystem). lookup u.1 d other) e
          ∙ ap answer (find_child-remove_node fs dir name d other r)
          ∙ answer_if ((dir == d) && same name other) none (find_child_by_name fs d other),
    )
