-- ===== src/Storage/RamFs/Paths/RoundTrip.antt =====
-- What `create_path` of kernel/src/driver/ramfs.rs wrote is read at the same path.
use mathlib.Core.Path.{subst}
use karte_os.Base.{
  ℕ, ◌+◌, ◌<◌, ◌^◌, true, not, Option, none, some, List, [], ◌∷◌, ◌==◌, if◌then◌else◌, when_some,
  when_none, length, is_empty, ◌≡◌, refl, ap, sym, ◌∙◌, arith, Bool-cases, Option-cases, inl, inr,
}
use karte_os.Base.Assoc.{get, get-insert}
use karte_os.Storage.RamFs.{
  Result, ok, err, panic, invalid_param, as_slice, RamFsNode, RamFileSystem, put, written, find_in,
  find_child_by_name, root_inode,
}
use karte_os.Storage.RamFs.Paths.{
  walk_create_dirs, enter_dirs, walk_parts, walk_path, place, create_path, node_at, parts_of,
  file_node, strip_slash, split_slash, non_empty,
}
use karte_os.Storage.RamFs.Paths.Creating.{
  IsDirectory, Keeps, WalkOf, enter_dirs-WalkOf, add_node-Keeps, add_node_found, add_node_there,
}
use karte_os.Storage.RamFs.Content.{get-put}
use karte_os.Storage.RamFs.Shape.{name_of, name_at, IsValid, Fits}
use karte_os.Storage.RamFs.Lookup.{find_in_sound, find_in_same, find_child_step, find_child_same}

-- A node whose bytes are replaced is found where it was.
find_child-put :
    (fs : RamFileSystem) (inode : ℕ) (old : RamFsNode) (bytes : List ℕ) (d : ℕ) (name : List ℕ)
    → get fs.nodes inode ≡ some old
    → find_child_by_name (put fs inode (written old bytes)) d name ≡ find_child_by_name fs d name
unfolding put written
find_child-put fs inode old bytes d name o =
    let node : RamFsNode = written old bytes in
    let fs' = put fs inode node in
    let g : (c : ℕ) → get fs'.nodes c ≡ (if inode == c then some node else get fs.nodes c) =
      λ c. get-insert fs.nodes inode c node in
    let names : (c : ℕ) → name_at fs' c ≡ name_at fs c = λ c. elim (Bool-cases (inode == c)) [
      | inl e ↦
          let is : inode ≡ c = ground arith in
          ap name_of (g c) ∙ rw e (sym (ap (name_at fs) (sym is) ∙ ap name_of o))
      | inr e ↦ ap name_of (g c) ∙ rw e refl
    ] in
    elim (Bool-cases (inode == d)) [
      | inl e ↦
          let is : inode ≡ d = ground arith in
          let was : get fs.nodes d ≡ some old = ap (get fs.nodes) (sym is) ∙ o in
          let at : get fs'.nodes d ≡ some node = g d ∙ rw e refl in
          find_child_step fs' d name node at
          ∙ ap (λ x. if not old.is_dir then none else x)
              (find_in_same fs.nodes fs'.nodes old.children name (λ c m. names c))
          ∙ sym (find_child_step fs d name old was)
      | inr e ↦ find_child_same fs fs' d name (g d ∙ rw e refl) (λ c m. names c)
    ]

-- The file that was placed.
record Placed (fs fs' : RamFileSystem) (dir : ℕ) (name bytes : List ℕ) : Type 0 where
  inode : ℕ
  node : RamFsNode
  keeps : Keeps fs fs'
  found : find_child_by_name fs' dir name ≡ some inode
  there : get fs'.nodes inode ≡ some node
  holds : as_slice node.data_of ≡ bytes

place-Placed :
    (fs : RamFileSystem) (dir : ℕ) (name bytes : List ℕ)
    → IsValid fs
    → IsDirectory fs dir
    → Placed fs (place fs dir name bytes).1 dir name bytes
unfolding place as_slice written file_node
place-Placed fs dir name bytes v d =
    let one = λ (r : Result Unit × RamFileSystem). r.1 in
    let said = λ (g : RamFileSystem). Placed fs g dir name bytes in
    let node = file_node name bytes in
    elim (Option-cases (find_child_by_name fs dir name)) [
      | inl absent ↦
          let f : Fits fs dir node = record {
            valid = v;
            parent = d.node;
            there = d.there;
            is_dir = d.is_dir;
            no_kids = refl;
            absent = absent;
          } in
          subst said (sym (ap one (when_none _ _ absent))) (record {
            inode = fs.next_inode;
            node = node;
            keeps = add_node-Keeps fs dir node f;
            found = add_node_found fs dir node f;
            there = add_node_there fs dir node f;
            holds = refl;
          })
      | inr (i, found) ↦
          let among : find_in fs.nodes d.node.children name ≡ some i =
            ground (arith, find_child_step fs dir name d.node d.there, d.is_dir, found) in
          elim (Option-cases (get fs.nodes i)) [
            | inl gone ↦
                ground (arith, (find_in_sound fs.nodes d.node.children name i among).1, gone)
            | inr (n, there) ↦
                subst said (sym (ap one (when_some _ _ found ∙ when_some _ _ there))) (record {
                  inode = i;
                  node = written n bytes;
                  keeps = λ j m k q. find_child-put fs i n bytes j m there ∙ q;
                  found = find_child-put fs i n bytes dir name there ∙ found;
                  there = ground (arith, get-put fs i i (written n bytes));
                  holds = refl;
                })
          ]
    ]

-- What `create_path` leaves at a path.
pub record Stored (fs : RamFileSystem) (path bytes : List ℕ) : Type 0 where
  pub node : RamFsNode
  pub at : node_at fs path ≡ some node
  pub holds : as_slice node.data_of ≡ bytes

-- `create_path` once the walk is done, and the walk by its components.
abbrev placed_by : List ℕ → Result (ℕ × List ℕ) × RamFileSystem → Result Unit × RamFileSystem
placed_by bytes r = elim r.0 [
  | ok (dir, name) ↦ place r.1 dir name bytes
  | err e ↦ (err e, r.1)
  | panic ↦ (panic, r.1)
]

abbrev walk_by : RamFileSystem → List (List ℕ) → Result (ℕ × List ℕ) × RamFileSystem
walk_by fs ps = elim ps [
  | [] ↦ (err invalid_param, fs)
  | part ∷ parts ↦ enter_dirs fs root_inode part parts
]

parts_of_empty : (path : List ℕ) → is_empty (strip_slash path) ≡ true → parts_of path ≡ []
unfolding parts_of split_slash non_empty
parts_of_empty path h =
    ap (λ (p : List ℕ). non_empty (split_slash p)) (empty_is (strip_slash path) h)
  where
    empty_is : (xs : List ℕ) → is_empty xs ≡ true → xs ≡ []
    empty_is [] k = refl
    empty_is (x ∷ xs) k = ground arith

walk_path_lem :
    (fs : RamFileSystem) (path part : List ℕ) (parts : List (List ℕ)) (i : ℕ)
    → parts_of path ≡ part ∷ parts
    → walk_parts fs root_inode (part ∷ parts) ≡ ok i
    → walk_path fs path ≡ ok i
unfolding walk_path
walk_path_lem fs path part parts i e w = elim (Bool-cases (is_empty (strip_slash path))) [
  | inl q ↦ ground (arith, e, parts_of_empty path q)
  | inr q ↦ rw q (ap (walk_parts fs root_inode) e ∙ w)
]

placed-Stored :
    (fs : RamFileSystem) (path bytes part : List ℕ) (parts : List (List ℕ))
    (r : Result (ℕ × List ℕ) × RamFileSystem)
    → parts_of path ≡ part ∷ parts
    → WalkOf fs root_inode part parts r
    → (placed_by bytes r).0 ≡ ok tt
    → Stored (placed_by bytes r).1 path bytes
unfolding node_at
placed-Stored fs path bytes part parts (ok (dir, name), fs1) e w done =
    let p = place-Placed fs1 dir name bytes w.valid w.is_dir in
    let later = (place fs1 dir name bytes).1 in
    let at =
      walk_path_lem later path part parts p.inode e (w.leads later p.inode p.keeps p.found) in
    record {
      node = p.node;
      at =
          ap
            (λ (r : Result ℕ). elim r as (λ x. Option RamFsNode) [
              | ok i ↦ get later.nodes i
              | err x ↦ none
              | panic ↦ none
            ])
            at
          ∙ p.there;
      holds = p.holds;
    }
placed-Stored fs path bytes part parts (err x, fs1) e w done = ground arith
placed-Stored fs path bytes part parts (panic, fs1) e w done = ground arith

walked-Stored :
    (fs : RamFileSystem) (path bytes : List ℕ) (ps : List (List ℕ))
    → IsValid fs
    → IsDirectory fs root_inode
    → fs.next_inode + length ps < 2 ^ 64
    → parts_of path ≡ ps
    → (placed_by bytes (walk_by fs ps)).0 ≡ ok tt
    → Stored (placed_by bytes (walk_by fs ps)).1 path bytes
walked-Stored fs path bytes [] v root h e done = ground arith
walked-Stored fs path bytes (part ∷ parts) v root h e done =
    placed-Stored fs path bytes part parts (enter_dirs fs root_inode part parts) e
      (enter_dirs-WalkOf fs root_inode part parts v (omega arith) root) done

-- If create_path succeeds in a valid file system with a root directory and enough inode
-- numbers, then the same path leads to a node that holds the bytes.
pub create_path-Stored :
    (fs : RamFileSystem) (path bytes : List ℕ)
    → IsValid fs
    → IsDirectory fs root_inode
    → fs.next_inode + length (parts_of path) < 2 ^ 64
    → (create_path fs path bytes).0 ≡ ok tt
    → Stored (create_path fs path bytes).1 path bytes
unfolding create_path walk_create_dirs
create_path-Stored fs path bytes v root h done =
    walked-Stored fs path bytes (parts_of path) v root h refl done
