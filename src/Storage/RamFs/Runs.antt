-- ===== src/Storage/RamFs/Runs.antt =====
-- Any run of the operations of kernel/src/driver/ramfs.rs from a new file system.
use karte_os.Base.{
  ℕ, ◌+◌, ◌≤◌, ◌<◌, ◌^◌, Bool, true, ◌&&◌, not, none, List, [], ◌∷◌, ◌==◌, when_some, when_none,
  length, ltb, is_empty, ◌≡◌, ◌≢◌, refl, ap, sym, ◌∙◌, arith, Bool-cases, Option-cases, inl, inr,
}
use mathlib.Core.Path.{subst}
use karte_os.Base.Assoc.{get, insert}
use karte_os.Storage.RamFs.{
  Result, RamFileSystem, contains, put, new, written, write_file, set_file_size, add_node, new_node,
  remove_node, find_child_by_name, create, unlink, vec_max, resize, overwrite, as_slice,
}
use karte_os.Storage.RamFs.Shape.{kids, IsValid, Fits}
use karte_os.Storage.RamFs.Content.{IsFile, write_file_lem, set_file_size_lem}
use karte_os.Storage.RamFs.Names.{create_lem, Removable, unlink_lem}
use karte_os.Storage.RamFs.Tree.{next_inode-add_node, next_inode-remove_node}
use karte_os.Storage.RamFs.Rooted.{
  Rooted, root, IsTree, add_node-IsTree, remove_node-IsTree, put-IsTree,
}

pub data Call : Type 0 where
  creates : ℕ → List ℕ → Bool → Call
  unlinks : ℕ → List ℕ → Call
  writes : ℕ → ℕ → List ℕ → Call
  resizes : ℕ → ℕ → Call

unfoldable pub call : RamFileSystem → Call → RamFileSystem
call fs (creates dir name is_dir) = (create fs dir name is_dir).1
call fs (unlinks dir name) = (unlink fs dir name).1
call fs (writes inode offset bytes) = (write_file fs inode offset bytes).1
call fs (resizes inode size) = (set_file_size fs inode size).1

unfoldable pub run : RamFileSystem → List Call → RamFileSystem
run fs [] = fs
run fs (c ∷ cs) = run (call fs c) cs

-- What a call leaves: a tree, and at most one more inode given out.
record Good (n : ℕ) (fs : RamFileSystem) : Type 0 where
  tree : IsTree fs
  bound : fs.next_inode ≤ n + 1

unchanged : (fs fs' : RamFileSystem) → IsTree fs → fs' ≡ fs → Good fs.next_inode fs'
unchanged fs fs' v e = rw e (record { tree = v; bound = omega arith })

-- `create_file` and `create_dir`
create-Good :
    (fs : RamFileSystem) (dir : ℕ) (name : List ℕ) (is_dir : Bool)
    → IsTree fs
    → fs.next_inode + 1 < 2 ^ 64
    → Good fs.next_inode (create fs dir name is_dir).1
unfolding create new_node
create-Good fs dir name is_dir v h =
    let one = λ (r : Result ℕ × RamFileSystem). r.1 in
    elim (Option-cases (get fs.nodes dir)) [
      | inl gone ↦ unchanged fs _ v (ap one (when_none _ _ gone))
      | inr (parent, p) ↦ elim (Bool-cases parent.is_dir) [
        | inr file_it_is ↦ unchanged fs _ v (ap one (when_some _ _ p) ∙ rw file_it_is refl)
        | inl dir_too ↦ elim (Option-cases (find_child_by_name fs dir name)) [
          | inr (i, there) ↦
              unchanged fs _ v
                (ap one (when_some _ _ p) ∙ rw dir_too (ap one (when_some _ _ there)))
          | inl absent ↦
              let f : Fits fs dir (new_node name is_dir) = record {
                valid = v.valid;
                parent = parent;
                there = p;
                is_dir = dir_too;
                no_kids = refl;
                absent = absent;
              } in
              let good : Good fs.next_inode (add_node fs dir (new_node name is_dir)).1 = record {
                tree = add_node-IsTree fs dir (new_node name is_dir) f v h;
                bound = omega (arith, next_inode-add_node fs dir (new_node name is_dir) h);
              } in
              subst (Good fs.next_inode) (sym (ap one (create_lem fs dir name is_dir f))) good
        ]
      ]
    ]

unlink-Good :
    (fs : RamFileSystem) (dir : ℕ) (name : List ℕ)
    → IsTree fs
    → Good fs.next_inode (unlink fs dir name).1
unfolding unlink
unlink-Good fs dir name v =
    let one = λ (r : Result Unit × RamFileSystem). r.1 in
    elim (Option-cases (find_child_by_name fs dir name)) [
      | inl gone ↦ unchanged fs _ v (ap one (when_none _ _ gone))
      | inr (i, found) ↦ elim (Option-cases (get fs.nodes i)) [
        | inl gone ↦ unchanged fs _ v (ap one (when_some _ _ found ∙ when_none _ _ gone))
        | inr (node, there) ↦ elim (Bool-cases (node.is_dir && not (is_empty node.children))) [
          | inl full ↦
              unchanged fs _ v (ap one (when_some _ _ found ∙ when_some _ _ there) ∙ rw full refl)
          | inr free ↦
              let r : Removable fs dir name = record {
                valid = v.valid;
                inode = i;
                found = found;
                node = node;
                there = there;
                no_full_dir = free;
              } in
              let good : Good fs.next_inode (remove_node fs dir i) = record {
                tree = remove_node-IsTree fs dir name r v;
                bound = omega (arith, next_inode-remove_node fs dir i);
              } in
              subst (Good fs.next_inode) (sym (ap one (unlink_lem fs dir name r))) good
        ]
      ]
    ]

write_file-Good :
    (fs : RamFileSystem) (inode offset : ℕ) (bytes : List ℕ)
    → IsTree fs
    → Good fs.next_inode (write_file fs inode offset bytes).1
unfolding write_file written put
write_file-Good fs inode offset bytes v =
    let one = λ (r : Result ℕ × RamFileSystem). r.1 in
    elim (Option-cases (get fs.nodes inode)) [
      | inl gone ↦ unchanged fs _ v (ap one (when_none _ _ gone))
      | inr (node, p) ↦ elim (Bool-cases node.is_dir) [
        | inl dir ↦ unchanged fs _ v (ap one (when_some _ _ p) ∙ rw dir refl)
        | inr file_it_is ↦ elim (Bool-cases (ltb vec_max (offset + length bytes))) [
          | inl big ↦ unchanged fs _ v (ap one (when_some _ _ p) ∙ rw (file_it_is, big) refl)
          | inr fit ↦
              let f : IsFile fs inode = record { node = node; found = p; no_dir = file_it_is } in
              let done = overwrite (as_slice node.data_of) offset bytes in
              subst (Good fs.next_inode)
                (sym (ap one (write_file_lem fs inode offset bytes f (ground (arith, fit)))))
                (record {
                  tree = put-IsTree fs inode node (written node done) v p refl refl refl;
                  bound = omega arith;
                })
        ]
      ]
    ]

set_file_size-Good :
    (fs : RamFileSystem) (inode size : ℕ)
    → IsTree fs
    → Good fs.next_inode (set_file_size fs inode size).1
unfolding set_file_size written put
set_file_size-Good fs inode size v =
    let one = λ (r : Result Unit × RamFileSystem). r.1 in
    elim (Option-cases (get fs.nodes inode)) [
      | inl gone ↦ unchanged fs _ v (ap one (when_none _ _ gone))
      | inr (node, p) ↦ elim (Bool-cases node.is_dir) [
        | inl dir ↦ unchanged fs _ v (ap one (when_some _ _ p) ∙ rw dir refl)
        | inr file_it_is ↦ elim (Bool-cases (ltb vec_max size)) [
          | inl big ↦ unchanged fs _ v (ap one (when_some _ _ p) ∙ rw (file_it_is, big) refl)
          | inr fit ↦
              let f : IsFile fs inode = record { node = node; found = p; no_dir = file_it_is } in
              let done = resize (as_slice node.data_of) size in
              subst (Good fs.next_inode)
                (sym (ap one (set_file_size_lem fs inode size f (ground (arith, fit)))))
                (record {
                  tree = put-IsTree fs inode node (written node done) v p refl refl refl;
                  bound = omega arith;
                })
        ]
      ]
    ]

call-Good :
    (fs : RamFileSystem) (c : Call)
    → IsTree fs
    → fs.next_inode + 1 < 2 ^ 64
    → Good fs.next_inode (call fs c)
unfolding call
call-Good fs (creates dir name is_dir) v h = create-Good fs dir name is_dir v h
call-Good fs (unlinks dir name) v h = unlink-Good fs dir name v
call-Good fs (writes inode offset bytes) v h = write_file-Good fs inode offset bytes v
call-Good fs (resizes inode size) v h = set_file_size-Good fs inode size v

run-IsTree_from :
    (fs : RamFileSystem) (cs : List Call)
    → IsTree fs
    → fs.next_inode + length cs < 2 ^ 64
    → IsTree (run fs cs)
unfolding run
run-IsTree_from fs [] v h = v
run-IsTree_from fs (c ∷ cs) v h =
    let g = call-Good fs c v (omega arith) in
    run-IsTree_from (call fs c) cs g.tree (omega (arith, g.bound))

nodes_new : (k : ℕ) → 2 ≤ k → get new.nodes k ≡ none
unfolding new get insert
nodes_new k h = ground arith

kids-new : (k : ℕ) → kids new k ≡ []
unfolding new get insert
kids-new k = elim (Bool-cases (1 == k)) [ inl e ↦ rw e refl | inr e ↦ rw e refl ]

no_kid : (k c : ℕ) → contains (kids new k) c ≢ true
unfolding contains
no_kid k c m = ground (arith, ap (λ cs. contains cs c) (kids-new k), m)

pub new-IsValid : IsValid new
unfolding new
new-IsValid = record {
  below = λ k le. nodes_new k (omega (arith, le));
  present = λ k c m. absurd (no_kid k c m);
  one_parent = λ j k c mj. absurd (no_kid j c mj);
  own_name = λ k c d mc. absurd (no_kid k c mc);
}

new-IsTree : IsTree new
unfolding new get insert
new-IsTree = record {
  valid = new-IsValid;
  rooted = λ c there. elim (Bool-cases (1 == c)) [
    | inl e ↦ (let is : 1 ≡ c = ground arith in subst (Rooted new) is root)
    | inr e ↦ absurd (there (rw e refl))
  ];
  topmost = λ k. elim (Bool-cases (contains (kids new k) 1)) [
    | inl e ↦ absurd (no_kid k 1 e)
    | inr e ↦ e
  ];
  leaves = λ k c m. absurd (no_kid k c m);
  root_there = refl;
}

-- Any run of fewer than 2 ^ 64 - 2 calls of create_file, create_dir, unlink, write_file and
-- set_file_size from a new file system leaves a tree: the root is a directory and nobody's
-- child, every node is below the root, every child has a node, one parent, and a name that no
-- other child of its directory has, only directories have children, and inode numbers in use
-- are below the next one.
pub run-IsTree : (cs : List Call) → length cs + 2 < 2 ^ 64 → IsTree (run new cs)
unfolding new
run-IsTree cs h = run-IsTree_from new cs new-IsTree (omega arith)
