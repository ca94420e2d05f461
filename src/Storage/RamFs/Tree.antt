-- ===== src/Storage/RamFs/Tree.antt =====
-- The operations of kernel/src/driver/ramfs.rs that add and remove a node keep the nodes valid.
use karte_os.Base.{
  ℕ, ◌+◌, ◌<◌, ◌^◌, true, ◌&&◌, none, some, List, ◌==◌, if◌then◌else◌, when_some, when_none, ◌≡◌,
  ◌≢◌, refl, ap, sym, ◌∙◌, arith, Bool-cases, Option-cases, inl, inr,
}
use karte_os.Base.Assoc.{get}
use karte_os.Base.Words.{add_usize}
use karte_os.Storage.RamFs.{
  RamFsNode, RamFileSystem, contains, put, add_node, alloc_inode, add_child, remove_node,
  remove_child, find_in,
}
use karte_os.Storage.RamFs.Shape.{
  children_of, name_at, kids, IsValid, Fits, contains-append, contains-without, fresh, get-add_node,
  name_at-add_node, kids-add_node, get-remove_node, name_at-remove_node, kids-remove_node,
}
use karte_os.Storage.RamFs.Lookup.{find_in_complete, find_child_step}
use karte_os.Storage.RamFs.Names.{Removable, only_child}

-- A child after a node was added is the new one or an old one.
pub kid_split :
    (fs : RamFileSystem) (dir : ℕ) (node : RamFsNode) (k c : ℕ)
    → Fits fs dir node
    → contains (kids (add_node fs dir node).1 k) c
      ≡ (if (dir == k) && (fs.next_inode == c) then true else contains (kids fs k) c)
kid_split fs dir node k c f =
    ap (λ cs. contains cs c) (kids-add_node fs dir node k f) ∙ (elim (Bool-cases (dir == k)) [
      | inl e ↦ ground (arith, e, contains-append (kids fs k) fs.next_inode c)
      | inr e ↦ ground (arith, e)
    ])

next_inode-add_child :
    (fs : RamFileSystem) (dir c : ℕ) → (add_child fs dir c).next_inode ≡ fs.next_inode
unfolding add_child put
next_inode-add_child fs dir c = elim (Option-cases (get fs.nodes dir)) [
  | inl e ↦ ap (λ (g : RamFileSystem). g.next_inode) (when_none _ _ e)
  | inr (d, e) ↦
      ap (λ (g : RamFileSystem). g.next_inode) (when_some {x = d} _ _ e)
      ∙ (elim (Bool-cases (contains d.children c)) [ inl q ↦ rw q refl | inr q ↦ rw q refl ])
]

pub next_inode-add_node :
    (fs : RamFileSystem) (dir : ℕ) (node : RamFsNode)
    → fs.next_inode + 1 < 2 ^ 64
    → (add_node fs dir node).1.next_inode ≡ fs.next_inode + 1
unfolding add_node alloc_inode put
next_inode-add_node fs dir node h =
    let e : add_usize fs.next_inode 1 ≡ fs.next_inode + 1 = omega arith in
    next_inode-add_child (put (alloc_inode fs).1 fs.next_inode node) dir fs.next_inode ∙ e

pub next_inode-remove_node :
    (fs : RamFileSystem) (dir i : ℕ) → (remove_node fs dir i).next_inode ≡ fs.next_inode
unfolding remove_node remove_child put
next_inode-remove_node fs dir i = elim (Option-cases (get fs.nodes dir)) [
  | inl e ↦ ap (λ (g : RamFileSystem). g.next_inode) (when_none _ _ e)
  | inr (d, e) ↦ ap (λ (g : RamFileSystem). g.next_inode) (when_some {x = d} _ _ e)
]

-- No child of the directory has the name of the node that fits in it.
no_namesake :
    (fs : RamFileSystem) (dir : ℕ) (node : RamFsNode) (c : ℕ)
    → Fits fs dir node
    → contains (kids fs dir) c ≡ true
    → name_at fs c ≢ some node.name
no_namesake fs dir node c f m e =
    let step = find_child_step fs dir node.name f.parent f.there in
    let kid : contains f.parent.children c ≡ true =
      sym (ap (λ o. contains (children_of o) c) f.there) ∙ m in
    let none_there : find_in fs.nodes f.parent.children node.name ≡ none =
      ground (arith, step, f.absent, f.is_dir) in
    find_in_complete fs.nodes f.parent.children node.name c kid e none_there

-- The node that was added is apart from the other children of its directory.
new_kid :
    (fs : RamFileSystem) (dir : ℕ) (node : RamFsNode) (k c d : ℕ)
    → Fits fs dir node
    → fs.next_inode ≡ c
    → fs.next_inode ≢ d
    → contains (kids (add_node fs dir node).1 k) c ≡ true
    → contains (kids (add_node fs dir node).1 k) d ≡ true
    → name_at (add_node fs dir node).1 c ≢ name_at (add_node fs dir node).1 d
new_kid fs dir node k c d f is ne mc md e =
    let at : dir ≡ k = ground (arith, kid_split fs dir node k c f, fresh fs k f.valid, mc, is) in
    let old : contains (kids fs k) d ≡ true = ground (arith, kid_split fs dir node k d f, md, ne) in
    let name : name_at fs d ≡ some node.name =
      ground
        (arith, name_at-add_node fs dir node c f, name_at-add_node fs dir node d f, is, ne, e) in
    no_namesake fs dir node d f (ap (λ j. contains (kids fs j) d) at ∙ old) name

pub add_node-IsValid :
    (fs : RamFileSystem) (dir : ℕ) (node : RamFsNode)
    → Fits fs dir node
    → fs.next_inode + 1 < 2 ^ 64
    → IsValid (add_node fs dir node).1
add_node-IsValid fs dir node f h =
    let i = fs.next_inode in
    let v = f.valid in
    let next = next_inode-add_node fs dir node h in
    record {
      below = λ k le. ground (
        arith,
        get-add_node fs dir node f.parent k v f.there,
        v.below dir,
        v.below k,
        f.there,
        next,
        le,
      );
      present = λ k c m e. ground (
        arith,
        kid_split fs dir node k c f,
        name_at-add_node fs dir node c f,
        v.present k c,
        m,
        e,
      );
      one_parent = λ j k c mj mk. ground (
        arith,
        kid_split fs dir node j c f,
        kid_split fs dir node k c f,
        v.one_parent j k c,
        fresh fs j v,
        fresh fs k v,
        mj,
        mk,
      );
      own_name = λ k c d mc md e. elim (Bool-cases (i == c)) [
        | inl ec ↦ elim (Bool-cases (i == d)) [
          | inl ed ↦ ground arith
          | inr ed ↦
              absurd
                (new_kid fs dir node k c d f (ground arith) (λ q. ground (arith, ed, q)) mc md e)
        ]
        | inr ec ↦ elim (Bool-cases (i == d)) [
          | inl ed ↦ absurd (
              new_kid fs dir node k d c f (ground arith) (λ q. ground (arith, ec, q)) md mc (sym e))
          | inr ed ↦
              v.own_name k c d (ground (arith, kid_split fs dir node k c f, mc, ec))
                (ground (arith, kid_split fs dir node k d f, md, ed))
                (ground (
                  arith,
                  name_at-add_node fs dir node c f,
                  name_at-add_node fs dir node d f,
                  e,
                  ec,
                  ed,
                ))
        ]
      ];
    }

-- A child that is left was one before, and is not the node taken out.
pub other_kid :
    (fs : RamFileSystem) (dir i : ℕ) (parent : RamFsNode) (k c : ℕ)
    → get fs.nodes dir ≡ some parent
    → contains (kids fs dir) i ≡ true
    → IsValid fs
    → contains (kids (remove_node fs dir i) k) c ≡ true
    → (contains (kids fs k) c ≡ true) × (i ≢ c)
unfolding contains
other_kid fs dir i parent k c p here v q =
    let e = ap (λ cs. contains cs c) (kids-remove_node fs dir i parent k p) in
    elim (Bool-cases (i == k)) [
      | inl w ↦ ground (arith, e, q, w)
      | inr w ↦ elim (Bool-cases (dir == k)) [
        | inl u ↦
            let l = contains-without (kids fs k) i c in
            (ground (arith, e, q, w, u, l), λ z. ground (arith, e, q, w, u, l, z))
        | inr u ↦
            let m : contains (kids fs k) c ≡ true = ground (arith, e, q, w, u) in
            (m, λ z. ground (arith, u, v.one_parent dir k i here (ap (contains (kids fs k)) z ∙ m)))
      ]
    ]

pub remove_node-IsValid :
    (fs : RamFileSystem) (dir : ℕ) (name : List ℕ) (r : Removable fs dir name)
    → IsValid (remove_node fs dir r.inode)
remove_node-IsValid fs dir name r =
    let (parent, p, is_dir, m, n) = only_child fs dir name r in
    let i = r.inode in
    let fs' = remove_node fs dir i in
    let v = r.valid in
    let names : (k : ℕ) → name_at fs' k ≡ (if i == k then none else name_at fs k) =
      λ k. name_at-remove_node fs dir i parent k p in
    let here : contains (kids fs dir) i ≡ true = ap (λ o. contains (children_of o) i) p ∙ m in
    let still : (k c : ℕ)
        → contains (kids fs' k) c ≡ true
        → (contains (kids fs k) c ≡ true) × (i ≢ c) =
      λ k c q. other_kid fs dir i parent k c p here v q in
    record {
      below = λ k le. ground (
        arith,
        get-remove_node fs dir i parent k p,
        next_inode-remove_node fs dir i,
        v.below dir,
        v.below k,
        p,
        le,
      );
      present = λ k c q e. ground (arith, still k c q, names c, v.present k c, e);
      one_parent = λ j k c qj qk. v.one_parent j k c (still j c qj).0 (still k c qk).0;
      own_name = λ k c d qc qd e.
          v.own_name k c d (still k c qc).0 (still k d qd).0
            (ground (arith, names c, names d, still k c qc, still k d qd, e));
    }
