-- ===== src/Storage/RamFs/Paths/Creating.antt =====
-- `create_path` of kernel/src/driver/ramfs.rs: the walk to a file, and what is found there after.
use mathlib.Core.Path.{subst}
use karte_os.Base.{
  ℕ, ◌+◌, ◌≤◌, ◌<◌, ◌^◌, true, ◌&&◌, none, some, List, [], ◌∷◌, ◌==◌, when_some, when_none, length,
  ◌≡◌, refl, ap, sym, ◌∙◌, arith, Bool-cases, Option-cases, inl, inr,
}
use karte_os.Base.Assoc.{get}
use karte_os.Base.Strings.{same, same_refl, same_sound}
use karte_os.Storage.RamFs.{
  Result, ok, err, panic, not_found, not_a_directory, RamFsNode, RamFileSystem, add_node, new_node,
  find_child_by_name, create_dir,
}
use karte_os.Storage.RamFs.Paths.{enter_dir, enter_dirs, walk_parts}
use karte_os.Storage.RamFs.Shape.{IsValid, Fits, apart, get-add_node}
use karte_os.Storage.RamFs.Lookup.{find_child-add_node}
use karte_os.Storage.RamFs.Names.{create_lem}
use karte_os.Storage.RamFs.Tree.{add_node-IsValid, next_inode-add_node}

-- A directory of a file system.
pub record IsDirectory (fs : RamFileSystem) (d : ℕ) : Type 0 where
  pub node : RamFsNode
  pub there : get fs.nodes d ≡ some node
  pub is_dir : node.is_dir ≡ true

-- Nothing that was found is lost.
abbrev pub Keeps : RamFileSystem → RamFileSystem → Type 0
Keeps fs fs' =
    (d : ℕ) (n : List ℕ) (c : ℕ)
    → find_child_by_name fs d n ≡ some c
    → find_child_by_name fs' d n ≡ some c

pub add_node-Keeps :
    (fs : RamFileSystem) (dir : ℕ) (node : RamFsNode)
    → Fits fs dir node
    → Keeps fs (add_node fs dir node).1
add_node-Keeps fs dir node f d n c h =
    let e = find_child-add_node fs dir node d n f in
    elim (Bool-cases ((dir == d) && same node.name n)) [
      | inl q ↦
          let is : dir ≡ d = ground (arith, q) in
          let name : node.name ≡ n = same_sound node.name n (ground (arith, q)) in
          let gone : find_child_by_name fs d n ≡ none =
            ap (find_child_by_name fs d) (sym name)
            ∙ ap (λ j. find_child_by_name fs j node.name) (sym is)
            ∙ f.absent in
          ground (arith, gone, h)
      | inr q ↦ e ∙ rw q h
    ]

-- A new node is found under its name.
pub add_node_found :
    (fs : RamFileSystem) (dir : ℕ) (node : RamFsNode)
    → Fits fs dir node
    → find_child_by_name (add_node fs dir node).1 dir node.name ≡ some fs.next_inode
add_node_found fs dir node f =
    ground (arith, find_child-add_node fs dir node dir node.name f, same_refl node.name)

pub add_node_there :
    (fs : RamFileSystem) (dir : ℕ) (node : RamFsNode)
    → Fits fs dir node
    → get (add_node fs dir node).1.nodes fs.next_inode ≡ some node
add_node_there fs dir node f =
    ground
      (arith, get-add_node fs dir node f.parent fs.next_inode f.valid f.there, apart fs dir node f)

-- One turn of the walk.
record Turn (fs fs' : RamFileSystem) (d : ℕ) (part : List ℕ) (child : ℕ) : Type 0 where
  valid : IsValid fs'
  next : fs'.next_inode ≤ fs.next_inode + 1
  keeps : Keeps fs fs'
  found : find_child_by_name fs' d part ≡ some child
  is_dir : IsDirectory fs' child

-- What a result of the walk's turn says.
abbrev TurnOf : RamFileSystem → ℕ → List ℕ → Result ℕ × RamFileSystem → Type 0
TurnOf fs d part (ok child, fs') = Turn fs fs' d part child
TurnOf fs d part (err e, fs') = Unit
TurnOf fs d part (panic, fs') = Unit

enter_dir-TurnOf :
    (fs : RamFileSystem) (d : ℕ) (part : List ℕ)
    → IsValid fs
    → fs.next_inode + 1 < 2 ^ 64
    → IsDirectory fs d
    → TurnOf fs d part (enter_dir fs d part)
unfolding enter_dir create_dir new_node
enter_dir-TurnOf fs d part v h dir =
    let node = new_node part true in
    let said = TurnOf fs d part in
    elim (Option-cases (find_child_by_name fs d part)) [
      | inl absent ↦
          let f : Fits fs d node = record {
            valid = v;
            parent = dir.node;
            there = dir.there;
            is_dir = dir.is_dir;
            no_kids = refl;
            absent = absent;
          } in
          let e : enter_dir fs d part ≡ (ok fs.next_inode, (add_node fs d node).1) =
            when_none _ _ absent ∙ create_lem fs d part true f in
          subst said (sym e) (record {
            valid = add_node-IsValid fs d node f h;
            next = omega (arith, next_inode-add_node fs d node h);
            keeps = add_node-Keeps fs d node f;
            found = add_node_found fs d node f;
            is_dir = record { node = node; there = add_node_there fs d node f; is_dir = refl };
          })
      | inr (c, found) ↦ elim (Option-cases (get fs.nodes c)) [
        | inl gone ↦
            let e : enter_dir fs d part ≡ (err not_found, fs) =
              when_some _ _ found ∙ when_none _ _ gone in
            subst said (sym e) tt
        | inr (n, there) ↦ elim (Bool-cases n.is_dir) [
          | inl is ↦
              let e : enter_dir fs d part ≡ (ok c, fs) =
                when_some _ _ found ∙ when_some _ _ there ∙ rw is refl in
              subst said (sym e) (record {
                valid = v;
                next = omega arith;
                keeps = λ j m k q. q;
                found = found;
                is_dir = record { node = n; there = there; is_dir = is };
              })
          | inr is ↦
              let e : enter_dir fs d part ≡ (err not_a_directory, fs) =
                when_some _ _ found ∙ when_some _ _ there ∙ rw is refl in
              subst said (sym e) tt
        ]
      ]
    ]

-- The walk, and where it leads in a file system that keeps what it found.
pub record Walk (fs fs' : RamFileSystem) (d : ℕ) (part : List ℕ) (parts : List (List ℕ)) (dir : ℕ)
    (name : List ℕ) : Type 0 where
  pub valid : IsValid fs'
  pub next : fs'.next_inode ≤ fs.next_inode + length parts
  pub keeps : Keeps fs fs'
  pub is_dir : IsDirectory fs' dir
  pub leads :
      (later : RamFileSystem) (c : ℕ)
      → Keeps fs' later
      → find_child_by_name later dir name ≡ some c
      → walk_parts later d (part ∷ parts) ≡ ok c

abbrev pub WalkOf :
    RamFileSystem → ℕ → List ℕ → List (List ℕ) → Result (ℕ × List ℕ) × RamFileSystem → Type 0
WalkOf fs d part parts (ok (dir, name), fs') = Walk fs fs' d part parts dir name
WalkOf fs d part parts (err e, fs') = Unit
WalkOf fs d part parts (panic, fs') = Unit

-- A turn before a walk.
WalkOf-before :
    (fs fs1 : RamFileSystem) (d : ℕ) (part : List ℕ) (child : ℕ) (next : List ℕ)
    (parts : List (List ℕ))
    → Turn fs fs1 d part child
    → (r : Result (ℕ × List ℕ) × RamFileSystem) → WalkOf fs1 child next parts r
    → WalkOf fs d part (next ∷ parts) r
unfolding walk_parts
WalkOf-before fs fs1 d part child next parts t (ok (dir, name), fs2) w = record {
  valid = w.valid;
  next = omega (arith, t.next, w.next);
  keeps = λ j m k q. w.keeps j m k (t.keeps j m k q);
  is_dir = w.is_dir;
  leads = λ later c k f.
      when_some _ _ (k d part child (w.keeps d part child t.found)) ∙ w.leads later c k f;
}
WalkOf-before fs fs1 d part child next parts t (err e, fs2) w = tt
WalkOf-before fs fs1 d part child next parts t (panic, fs2) w = tt

pub enter_dirs-WalkOf :
    (fs : RamFileSystem) (d : ℕ) (part : List ℕ) (parts : List (List ℕ))
    → IsValid fs
    → fs.next_inode + length parts < 2 ^ 64
    → IsDirectory fs d
    → WalkOf fs d part parts (enter_dirs fs d part parts)
unfolding enter_dirs walk_parts
enter_dirs-WalkOf fs d part [] v h dir = record {
  valid = v;
  next = omega arith;
  keeps = λ j m k q. q;
  is_dir = dir;
  leads = λ later c k f. when_some _ _ f;
}
enter_dirs-WalkOf fs d part (next ∷ parts) v h dir =
    go (enter_dir fs d part) (enter_dir-TurnOf fs d part v (omega arith) dir) (λ fs1 child t.
      enter_dirs-WalkOf fs1 child next parts t.valid (omega (arith, t.next)) t.is_dir)
  where
    go :
        (r : Result ℕ × RamFileSystem)
        → TurnOf fs d part r
        → ((fs1 : RamFileSystem) (child : ℕ)
            → Turn fs fs1 d part child
            → WalkOf fs1 child next parts (enter_dirs fs1 child next parts))
        → WalkOf fs d part (next ∷ parts) (elim r.0 as (λ x. Result (ℕ × List ℕ) × RamFileSystem) [
          | ok child ↦ enter_dirs r.1 child next parts
          | err e ↦ (err e, r.1)
          | panic ↦ (panic, r.1)
        ])
    go (ok child, fs1) t rest =
        WalkOf-before fs fs1 d part child next parts t (enter_dirs fs1 child next parts)
          (rest fs1 child t)
    go (err e, fs1) t rest = tt
    go (panic, fs1) t rest = tt
