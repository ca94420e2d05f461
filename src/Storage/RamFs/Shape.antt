-- ===== src/Storage/RamFs/Shape.antt =====
-- The nodes of kernel/src/driver/ramfs.rs with their names and children, and what makes them valid.
use karte_os.Base.{
  ℕ, ◌≤◌, true, false, Option, none, some, List, [], ◌∷◌, ◌++◌, ◌==◌, if◌then◌else◌, ◌≡◌, ◌≢◌, refl,
  ap, sym, ◌∙◌, arith, Bool-cases, inl, inr,
}
use karte_os.Base.Assoc.{get, remove, get-insert, get-remove}
use karte_os.Storage.RamFs.{
  RamFsNode, RamFileSystem, put, alloc_inode, contains, add_child, add_node, without, remove_child,
  remove_node, find_child_by_name,
}

-- The name of the node at an inode, and its children, none where no node is.
abbrev pub name_of : Option RamFsNode → Option (List ℕ)
name_of none = none
name_of (some n) = some n.name

abbrev pub children_of : Option RamFsNode → List ℕ
children_of none = []
children_of (some n) = n.children

abbrev pub name_at : RamFileSystem → ℕ → Option (List ℕ)
name_at fs k = name_of (get fs.nodes k)

abbrev pub kids : RamFileSystem → ℕ → List ℕ
kids fs k = children_of (get fs.nodes k)

-- Inodes are below the next one, a child has a node, one parent and a name of its own in it.
pub record IsValid (fs : RamFileSystem) : Type 0 where
  pub below : (k : ℕ) → fs.next_inode ≤ k → get fs.nodes k ≡ none
  pub present : (k c : ℕ) → contains (kids fs k) c ≡ true → name_at fs c ≢ none
  pub one_parent :
      (j k c : ℕ) → contains (kids fs j) c ≡ true → contains (kids fs k) c ≡ true → j ≡ k
  pub own_name :
      (k c d : ℕ)
      → contains (kids fs k) c ≡ true
      → contains (kids fs k) d ≡ true
      → name_at fs c ≡ name_at fs d
      → c ≡ d

pub contains-append :
    (xs : List ℕ) (x c : ℕ) → contains (xs ++ x ∷ []) c ≡ (if x == c then true else contains xs c)
unfolding contains
contains-append [] x c = refl
contains-append (y ∷ xs) x c = ground (arith, contains-append xs x c)

pub contains-without :
    (xs : List ℕ) (x c : ℕ) → contains (without xs x) c ≡ (if x == c then false else contains xs c)
unfolding contains without
contains-without [] x c = ground arith
contains-without (y ∷ xs) x c = ground (arith, contains-without xs x c)

pub fresh : (fs : RamFileSystem) (k : ℕ) → IsValid fs → contains (kids fs k) fs.next_inode ≡ false
fresh fs k v = elim (Bool-cases (contains (kids fs k) fs.next_inode)) [
  | inl e ↦ absurd (v.present k fs.next_inode e (ap name_of (v.below fs.next_inode (omega arith))))
  | inr e ↦ e
]

add_child_lem :
    (fs : RamFileSystem) (dir c : ℕ) (parent : RamFsNode)
    → get fs.nodes dir ≡ some parent
    → contains parent.children c ≡ false
    → add_child fs dir c ≡ put fs dir (record parent { children = parent.children ++ c ∷ [] })
unfolding add_child
add_child_lem fs dir c parent p h =
    ap
      (λ (o : Option RamFsNode). elim o as (λ x. RamFileSystem) [
        | none ↦ fs
        | some d ↦
            if contains d.children c
            then fs
            else put fs dir (record d { children = d.children ++ c ∷ [] })
      ])
      p
    ∙ rw h refl

-- A directory gains a node, whose inode is the next one.
pub get-add_node :
    (fs : RamFileSystem) (dir : ℕ) (node parent : RamFsNode) (k : ℕ)
    → IsValid fs
    → get fs.nodes dir ≡ some parent
    → get (add_node fs dir node).1.nodes k ≡ (
        if dir == k
        then some (record parent { children = parent.children ++ fs.next_inode ∷ [] })
        else if fs.next_inode == k
        then some node
        else get fs.nodes k)
unfolding add_node alloc_inode put
get-add_node fs dir node parent k v p =
    let i = fs.next_inode in
    let fs1 = put (alloc_inode fs).1 i node in
    let apart : i ≢ dir = λ e. (ground (arith, v.below dir (ground (arith, e)), p)) in
    let there : get fs1.nodes dir ≡ some parent =
      ground (arith, get-insert fs.nodes i dir node, apart) in
    let new_child : contains parent.children i ≡ false =
      sym (ap (λ o. contains (children_of o) i) p) ∙ fresh fs dir v in
    let grown = record parent { children = parent.children ++ i ∷ [] } in
    let e = add_child_lem fs1 dir i parent there new_child in
    let a = get-insert fs1.nodes dir k grown in
    let b = get-insert fs.nodes i k node in
    ap (λ (g : RamFileSystem). get g.nodes k) e ∙ a ∙ ground (arith, b)

-- A directory loses a node.
pub get-remove_node :
    (fs : RamFileSystem) (dir i : ℕ) (parent : RamFsNode) (k : ℕ)
    → get fs.nodes dir ≡ some parent
    → get (remove_node fs dir i).nodes k ≡ (
        if i == k
        then none
        else if dir == k
        then some (record parent { children = without parent.children i })
        else get fs.nodes k)
unfolding remove_node remove_child put
get-remove_node fs dir i parent k p =
    let less = record parent { children = without parent.children i } in
    let e =
      ap
        (λ (o : Option RamFsNode). elim o as (λ x. RamFileSystem) [
          | none ↦ fs
          | some d ↦ put fs dir (record d { children = without d.children i })
        ])
        p in
    let a = get-remove (put fs dir less).nodes i k in
    let b = get-insert fs.nodes dir k less in
    ap (λ (g : RamFileSystem). get (remove g.nodes i) k) e ∙ a ∙ ground (arith, b)

-- A directory and a node without children that is to be put in it.
pub record Fits (fs : RamFileSystem) (dir : ℕ) (node : RamFsNode) : Type 0 where
  pub valid : IsValid fs
  pub parent : RamFsNode
  pub there : get fs.nodes dir ≡ some parent
  pub is_dir : parent.is_dir ≡ true
  pub no_kids : node.children ≡ []
  pub absent : find_child_by_name fs dir node.name ≡ none

pub apart :
    (fs : RamFileSystem) (dir : ℕ) (node : RamFsNode) → Fits fs dir node → fs.next_inode ≢ dir
apart fs dir node f e = ground (arith, f.valid.below dir (ground (arith, e)), f.there)

pub name_at-add_node :
    (fs : RamFileSystem) (dir : ℕ) (node : RamFsNode) (k : ℕ)
    → Fits fs dir node
    → name_at (add_node fs dir node).1 k
      ≡ (if fs.next_inode == k then some node.name else name_at fs k)
name_at-add_node fs dir node k f =
    let g = get-add_node fs dir node f.parent k f.valid f.there in
    let ne = apart fs dir node f in
    elim (Bool-cases (dir == k)) [
      | inl e ↦
          let is : dir ≡ k = ground arith in
          let old : name_at fs k ≡ some f.parent.name =
            ap (name_at fs) (sym is) ∙ ap name_of f.there in
          let other : fs.next_inode == k ≡ false = ground (arith, ne, is) in
          ap name_of g ∙ rw (e, other, old) refl
      | inr e ↦ elim (Bool-cases (fs.next_inode == k)) [
        | inl w ↦ ap name_of g ∙ rw (e, w) refl
        | inr w ↦ ap name_of g ∙ rw (e, w) refl
      ]
    ]

pub kids-add_node :
    (fs : RamFileSystem) (dir : ℕ) (node : RamFsNode) (k : ℕ)
    → Fits fs dir node
    → kids (add_node fs dir node).1 k
      ≡ (if dir == k then kids fs k ++ fs.next_inode ∷ [] else kids fs k)
kids-add_node fs dir node k f =
    let g = get-add_node fs dir node f.parent k f.valid f.there in
    elim (Bool-cases (dir == k)) [
      | inl e ↦
          let is : dir ≡ k = ground arith in
          let old : kids fs k ≡ f.parent.children =
            ap (kids fs) (sym is) ∙ ap children_of f.there in
          ap children_of g ∙ rw (e, old) refl
      | inr e ↦ elim (Bool-cases (fs.next_inode == k)) [
        | inl w ↦
            let old : kids fs k ≡ [] = ap children_of (f.valid.below k (ground arith)) in
            ap children_of g ∙ rw (e, w, old) f.no_kids
        | inr w ↦ ap children_of g ∙ rw (e, w) refl
      ]
    ]

pub name_at-remove_node :
    (fs : RamFileSystem) (dir i : ℕ) (parent : RamFsNode) (k : ℕ)
    → get fs.nodes dir ≡ some parent
    → name_at (remove_node fs dir i) k ≡ (if i == k then none else name_at fs k)
name_at-remove_node fs dir i parent k p =
    let g = get-remove_node fs dir i parent k p in
    elim (Bool-cases (i == k)) [
      | inl e ↦ ap name_of g ∙ rw e refl
      | inr e ↦ elim (Bool-cases (dir == k)) [
        | inl w ↦
            let is : dir ≡ k = ground arith in
            let old : name_at fs k ≡ some parent.name = ap (name_at fs) (sym is) ∙ ap name_of p in
            ap name_of g ∙ rw (e, w, old) refl
        | inr w ↦ ap name_of g ∙ rw (e, w) refl
      ]
    ]

pub kids-remove_node :
    (fs : RamFileSystem) (dir i : ℕ) (parent : RamFsNode) (k : ℕ)
    → get fs.nodes dir ≡ some parent
    → kids (remove_node fs dir i) k
      ≡ (if i == k then [] else if dir == k then without (kids fs k) i else kids fs k)
kids-remove_node fs dir i parent k p =
    let g = get-remove_node fs dir i parent k p in
    elim (Bool-cases (i == k)) [
      | inl e ↦ ap children_of g ∙ rw e refl
      | inr e ↦ elim (Bool-cases (dir == k)) [
        | inl w ↦
            let is : dir ≡ k = ground arith in
            let old : kids fs k ≡ parent.children = ap (kids fs) (sym is) ∙ ap children_of p in
            ap children_of g ∙ rw (e, w, old) refl
        | inr w ↦ ap children_of g ∙ rw (e, w) refl
      ]
    ]
