-- ===== src/Storage/RamFs/Rooted.antt =====
-- The nodes of kernel/src/driver/ramfs.rs as a tree from the root down.
use karte_os.Base.{
  ℕ, ◌+◌, ◌<◌, ◌^◌, Bool, true, false, none, some, Option, List, [], ◌∷◌, ◌==◌, is_empty, ◌≡◌, ◌≢◌,
  refl, ap, sym, ◌∙◌, arith, Bool-cases, inl, inr,
}
use karte_os.Base.Assoc.{get, get-insert}
use karte_os.Storage.RamFs.{
  RamFsNode, RamFileSystem, root_inode, contains, put, add_node, remove_node,
}
use karte_os.Storage.RamFs.Shape.{
  name_of, children_of, name_at, kids, IsValid, Fits, get-add_node, name_at-add_node,
  get-remove_node, name_at-remove_node, kids-remove_node, contains-without,
}
use karte_os.Storage.RamFs.Names.{Removable, only_child}
use karte_os.Storage.RamFs.Tree.{add_node-IsValid, remove_node-IsValid, kid_split, other_kid}

-- A way down from the root.
pub data Rooted (fs : RamFileSystem) : ℕ → Type 0 where
  root : Rooted fs root_inode
  below : {k c : ℕ} → Rooted fs k → contains (kids fs k) c ≡ true → Rooted fs c

abbrev pub is_dir_of : Option RamFsNode → Bool
is_dir_of none = false
is_dir_of (some n) = n.is_dir

abbrev pub dir_at : RamFileSystem → ℕ → Bool
dir_at fs k = is_dir_of (get fs.nodes k)

-- The nodes are valid, every node is below the root, the root is below none, and only a directory
-- has children. With one parent for each child, there is one way down to each node, and no cycle.
pub record IsTree (fs : RamFileSystem) : Type 0 where
  pub valid : IsValid fs
  pub rooted : (c : ℕ) → name_at fs c ≢ none → Rooted fs c
  pub topmost : (k : ℕ) → contains (kids fs k) root_inode ≡ false
  pub leaves : (k c : ℕ) → contains (kids fs k) c ≡ true → dir_at fs k ≡ true
  pub root_there : dir_at fs root_inode ≡ true

dir_at-add_node :
    (fs : RamFileSystem) (dir : ℕ) (node : RamFsNode) (k : ℕ)
    → Fits fs dir node
    → dir_at fs k ≡ true
    → dir_at (add_node fs dir node).1 k ≡ true
dir_at-add_node fs dir node k f d =
    let g = get-add_node fs dir node f.parent k f.valid f.there in
    let v = f.valid.below k in
    ap is_dir_of g ∙ (elim (Bool-cases (dir == k)) [
      | inl e ↦ rw e f.is_dir
      | inr e ↦ elim (Bool-cases (fs.next_inode == k)) [
        | inl w ↦ absurd (ground (arith, ap is_dir_of (v (ground arith)), d))
        | inr w ↦ rw (e, w) d
      ]
    ])

add_node-Rooted :
    (fs : RamFileSystem) (dir : ℕ) (node : RamFsNode) {c : ℕ}
    → Fits fs dir node
    → Rooted fs c
    → Rooted (add_node fs dir node).1 c
add_node-Rooted fs dir node f root = root
add_node-Rooted fs dir node f (below {k = k} {c = c} r m) =
    below (add_node-Rooted fs dir node f r)
      (let s = kid_split fs dir node k c f in ground (arith, s, m))

pub add_node-IsTree :
    (fs : RamFileSystem) (dir : ℕ) (node : RamFsNode)
    → Fits fs dir node
    → IsTree fs
    → fs.next_inode + 1 < 2 ^ 64
    → IsTree (add_node fs dir node).1
add_node-IsTree fs dir node f t h = record {
  valid = add_node-IsValid fs dir node f h;
  rooted = λ c there. elim (Bool-cases (fs.next_inode == c)) [
    | inl e ↦
        let up = t.rooted dir (λ q. (ground (arith, sym (ap name_of f.there) ∙ q))) in
        below (add_node-Rooted fs dir node f up)
          (let s = kid_split fs dir node dir c f in ground (arith, s, e))
    | inr e ↦
        add_node-Rooted fs dir node f
          (t.rooted c (λ q. there (name_at-add_node fs dir node c f ∙ rw e q)))
  ];
  topmost = λ k.
      let v = f.valid.below root_inode in
      let s = kid_split fs dir node k root_inode f in
      ground (arith, s, t.topmost k, v, t.root_there);
  leaves = λ k c m.
      let s = kid_split fs dir node k c f in
      elim (Bool-cases (dir == k)) [
        | inl e ↦ dir_at-add_node fs dir node k f (
            let is : dir ≡ k = ground arith in
            ap (dir_at fs) (sym is) ∙ ap is_dir_of f.there ∙ f.is_dir)
        | inr e ↦ dir_at-add_node fs dir node k f (t.leaves k c (ground (arith, s, m, e)))
      ];
  root_there = dir_at-add_node fs dir node root_inode f t.root_there;
}

is_empty-contains : (xs : List ℕ) (c : ℕ) → is_empty xs ≡ true → contains xs c ≡ false
unfolding contains
is_empty-contains [] c e = refl
is_empty-contains (x ∷ xs) c e = absurd (ground (arith, e))

-- A node that unlink takes out has no children.
childless :
    (fs : RamFileSystem) (dir : ℕ) (name : List ℕ) (r : Removable fs dir name) (c : ℕ)
    → IsTree fs
    → contains (kids fs r.inode) c ≡ false
childless fs dir name r c t = elim (Bool-cases (contains (kids fs r.inode) c)) [
  | inr e ↦ e
  | inl e ↦
      let is_dir : r.node.is_dir ≡ true = sym (ap is_dir_of r.there) ∙ t.leaves r.inode c e in
      let empty : is_empty r.node.children ≡ true = ground (arith, r.no_full_dir, is_dir) in
      ap (λ o. contains (children_of o) c) r.there ∙ is_empty-contains r.node.children c empty
]

pub remove_node-IsTree :
    (fs : RamFileSystem) (dir : ℕ) (name : List ℕ) (r : Removable fs dir name)
    → IsTree fs
    → IsTree (remove_node fs dir r.inode)
remove_node-IsTree fs dir name r t =
    let (parent, p, is_dir, m, n) = only_child fs dir name r in
    let here : contains (kids fs dir) r.inode ≡ true =
      ap (λ o. contains (children_of o) r.inode) p ∙ m in
    let not_root : r.inode ≢ root_inode =
      λ e. (ground (arith, sym (t.topmost dir) ∙ ap (contains (kids fs dir)) (sym e) ∙ here)) in
    let still_dir : (k : ℕ) → r.inode ≢ k → dir_at fs k ≡ true → dir_at fs' k ≡ true = λ k ne d.
      let g = get-remove_node fs dir r.inode parent k p in
      ap is_dir_of g ∙ ground (arith, ne, is_dir, d) in
    record {
      valid = remove_node-IsValid fs dir name r;
      rooted = λ c there.
          (let e = name_at-remove_node fs dir r.inode parent c p in
            still_rooted parent p here (t.rooted c (λ q. there (e ∙ ground (arith, q))))
              (λ q. there (e ∙ ground (arith, q))));
      topmost = λ k. elim (Bool-cases (contains (kids fs' k) root_inode)) [
        | inl e ↦ absurd (
            ground
              (arith, other_kid fs dir r.inode parent k root_inode p here t.valid e, t.topmost k))
        | inr e ↦ e
      ];
      leaves = λ k c q.
          (let (old, ne) = other_kid fs dir r.inode parent k c p here t.valid q in
            still_dir k
              (λ is.
                (ground (
                  arith,
                  childless fs dir name r c t,
                  sym (ap (λ j. contains (kids fs j) c) is),
                  old,
                )))
              (t.leaves k c old));
      root_there = still_dir root_inode not_root t.root_there;
    }
  where
    fs' : RamFileSystem
    fs' = remove_node fs dir r.inode

    still_rooted :
        (parent : RamFsNode)
        → get fs.nodes dir ≡ some parent
        → contains (kids fs dir) r.inode ≡ true
        → {c : ℕ} → Rooted fs c
        → r.inode ≢ c
        → Rooted fs' c
    still_rooted parent p here root ne = root
    still_rooted parent p here (below {k = k} {c = c} w q) ne =
        let up : r.inode ≢ k = λ is. (ground (arith, childless fs dir name r c t, q, is)) in
        let e = kids-remove_node fs dir r.inode parent k p in
        let gone = contains-without (kids fs k) r.inode c in
        below (still_rooted parent p here w up)
          (ap (λ cs. contains cs c) e ∙ ground (arith, up, ne, gone, q))

put-Rooted :
    (fs : RamFileSystem) (inode : ℕ) (node : RamFsNode) {c : ℕ}
    → ((k : ℕ) → kids (put fs inode node) k ≡ kids fs k)
    → Rooted fs c
    → Rooted (put fs inode node) c
put-Rooted fs inode node same root = root
put-Rooted fs inode node same (below {k = k} {c = c} r m) =
    below (put-Rooted fs inode node same r) (ap (λ cs. contains cs c) (same k) ∙ m)

-- A node keeps its name, its children and whether it is a directory.
pub put-IsTree :
    (fs : RamFileSystem) (inode : ℕ) (old node : RamFsNode)
    → IsTree fs
    → get fs.nodes inode ≡ some old
    → node.name ≡ old.name
    → node.children ≡ old.children
    → node.is_dir ≡ old.is_dir
    → IsTree (put fs inode node)
unfolding put
put-IsTree fs inode old node t o n k d =
    let v = t.valid in
    let fs' = put fs inode node in
    let names : (c : ℕ) → name_at fs' c ≡ name_at fs c = λ c. elim (Bool-cases (inode == c)) [
      | inl e ↦
          let is : inode ≡ c = ground arith in
          ap name_of (get-insert fs.nodes inode c node)
          ∙ rw e (ap some n ∙ sym (ap (name_at fs) (sym is) ∙ ap name_of o))
      | inr e ↦ ap name_of (get-insert fs.nodes inode c node) ∙ rw e refl
    ] in
    let kids_same : (c : ℕ) → kids fs' c ≡ kids fs c = λ c. elim (Bool-cases (inode == c)) [
      | inl e ↦
          let is : inode ≡ c = ground arith in
          ap children_of (get-insert fs.nodes inode c node)
          ∙ rw e (k ∙ sym (ap (kids fs) (sym is) ∙ ap children_of o))
      | inr e ↦ ap children_of (get-insert fs.nodes inode c node) ∙ rw e refl
    ] in
    let was : (j c : ℕ) → contains (kids fs' j) c ≡ true → contains (kids fs j) c ≡ true =
      λ j c m. sym (ap (λ cs. contains cs c) (kids_same j)) ∙ m in
    let dirs : (c : ℕ) → dir_at fs' c ≡ dir_at fs c = λ c. elim (Bool-cases (inode == c)) [
      | inl e ↦
          let is : inode ≡ c = ground arith in
          ap is_dir_of (get-insert fs.nodes inode c node)
          ∙ rw e (d ∙ sym (ap (dir_at fs) (sym is) ∙ ap is_dir_of o))
      | inr e ↦ ap is_dir_of (get-insert fs.nodes inode c node) ∙ rw e refl
    ] in
    record {
      valid = record {
        below = λ c le.
            ground (arith, get-insert fs.nodes inode c node, v.below c, v.below inode, o, le);
        present = λ j c m e. v.present j c (was j c m) (sym (names c) ∙ e);
        one_parent = λ i j c mi mj. v.one_parent i j c (was i c mi) (was j c mj);
        own_name = λ j c d mc md e.
            v.own_name j c d (was j c mc) (was j d md) (sym (names c) ∙ e ∙ names d);
      };
      rooted =
          λ c there. put-Rooted fs inode node kids_same (t.rooted c (λ q. there (names c ∙ q)));
      topmost = λ k. ap (λ cs. contains cs root_inode) (kids_same k) ∙ t.topmost k;
      leaves = λ k c m. dirs k ∙ t.leaves k c (was k c m);
      root_there = dirs root_inode ∙ t.root_there;
    }
