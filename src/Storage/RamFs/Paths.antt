-- ===== src/Storage/RamFs/Paths.antt =====
-- kernel/src/driver/ramfs.rs: the operations that take a path.
pub mod Creating
pub mod RoundTrip
use karte_os.Base.{
  ℕ, Bool, true, false, not, Option, none, some, List, [], ◌∷◌, ◌==◌, if◌then◌else◌, is_empty,
}
use karte_os.Base.Assoc.{get}
use karte_os.Base.Strings.{codes}
use karte_os.Storage.RamFs.{
  not_found, not_a_directory, invalid_param, Result, ok, err, panic, owned, as_slice, len,
  RamFsNode, RamFileSystem, root_inode, new, put, find_child_by_name, create_dir, add_node, written,
  write_file,
}

-- `strip_prefix('/').unwrap_or(path)`
unfoldable pub strip_slash : List ℕ → List ℕ
strip_slash [] = []
strip_slash (c ∷ cs) = if c == 47 then cs else c ∷ cs

-- A byte in front of the first component.
unfoldable pub before : ℕ → List (List ℕ) → List (List ℕ)
before c [] = (c ∷ []) ∷ []
before c (part ∷ parts) = (c ∷ part) ∷ parts

-- `split('/')`
unfoldable pub split_slash : List ℕ → List (List ℕ)
split_slash [] = [] ∷ []
split_slash (c ∷ cs) = let rest = split_slash cs in if c == 47 then [] ∷ rest else before c rest

-- `filter(|s| !s.is_empty())`
unfoldable pub non_empty : List (List ℕ) → List (List ℕ)
non_empty [] = []
non_empty (part ∷ parts) =
    let later = non_empty parts in if is_empty part then later else part ∷ later

unfoldable pub parts_of : List ℕ → List (List ℕ)
parts_of path = non_empty (split_slash (strip_slash path))

-- One turn of the loop of `walk_create_dirs`.
unfoldable pub enter_dir : RamFileSystem → ℕ → List ℕ → Result ℕ × RamFileSystem
enter_dir fs dir_inode part = elim (find_child_by_name fs dir_inode part) [
  | none ↦ create_dir fs dir_inode part
  | some child ↦ elim (get fs.nodes child) [
    | none ↦ (err not_found, fs)
    | some child_node ↦ if not child_node.is_dir then (err not_a_directory, fs) else (ok child, fs)
  ]
]

-- The loop of `walk_create_dirs`: a first component and those that follow it.
unfoldable pub enter_dirs :
    RamFileSystem → ℕ → List ℕ → List (List ℕ) → Result (ℕ × List ℕ) × RamFileSystem
enter_dirs fs dir_inode part [] = (ok (dir_inode, part), fs)
enter_dirs fs dir_inode part (next ∷ parts) =
    let (r, fs1) = enter_dir fs dir_inode part in
    elim r [
      | ok child ↦ enter_dirs fs1 child next parts
      | err e ↦ (err e, fs1)
      | panic ↦ (panic, fs1)
    ]

unfoldable pub walk_create_dirs : RamFileSystem → List ℕ → Result (ℕ × List ℕ) × RamFileSystem
walk_create_dirs fs path = elim (parts_of path) [
  | [] ↦ (err invalid_param, fs)
  | part ∷ parts ↦ enter_dirs fs root_inode part parts
]

-- The loop of `walk_path`.
pub walk_parts : RamFileSystem → ℕ → List (List ℕ) → Result ℕ
walk_parts fs inode [] = ok inode
walk_parts fs inode (part ∷ parts) = elim (find_child_by_name fs inode part) [
  | none ↦ err not_found
  | some child ↦ walk_parts fs child parts
]

pub walk_path : RamFileSystem → List ℕ → Result ℕ
walk_path fs path =
    if is_empty (strip_slash path) then ok root_inode else walk_parts fs root_inode (parts_of path)

-- A new file of `create_path`.
unfoldable pub file_node : List ℕ → List ℕ → RamFsNode
file_node name bytes = record { name = name; data_of = owned bytes; is_dir = false; children = [] }

-- What `create_path` does in the directory it has walked to.
unfoldable pub place : RamFileSystem → ℕ → List ℕ → List ℕ → Result Unit × RamFileSystem
place fs dir_inode file_name bytes =
    let (inode, added) = add_node fs dir_inode (file_node file_name bytes) in
    elim (find_child_by_name fs dir_inode file_name) [
      | none ↦ (ok tt, added)
      | some existing ↦ elim (get fs.nodes existing) [
        | none ↦ (ok tt, added)
        | some node ↦ (ok tt, put fs existing (written node bytes))
      ]
    ]

unfoldable pub create_path : RamFileSystem → List ℕ → List ℕ → Result Unit × RamFileSystem
create_path fs path bytes =
    let (r, fs1) = walk_create_dirs fs path in
    elim r [
      | ok (dir_inode, file_name) ↦ place fs1 dir_inode file_name bytes
      | err e ↦ (err e, fs1)
      | panic ↦ (panic, fs1)
    ]

-- The node at a path, for the calls that turn any error into `None`.
pub node_at : RamFileSystem → List ℕ → Option RamFsNode
node_at fs path = elim (walk_path fs path) [
  | ok inode ↦ get fs.nodes inode
  | err e ↦ none
  | panic ↦ none
]

pub read_path : RamFileSystem → List ℕ → Option (List ℕ)
read_path fs path = elim (node_at fs path) [
  | none ↦ none
  | some node ↦ if node.is_dir then none else some (as_slice node.data_of)
]

pub path_exists : RamFileSystem → List ℕ → Bool
path_exists fs path = elim (walk_path fs path) [ ok inode ↦ true | err e ↦ false | panic ↦ false ]

-- The loop of `readdir_path`.
pub entries : RamFileSystem → List ℕ → List (List ℕ × Bool × ℕ)
entries fs [] = []
entries fs (c ∷ cs) =
    let later = entries fs cs in
    elim (get fs.nodes c) [
      | none ↦ later
      | some child ↦ (child.name, child.is_dir, len child.data_of) ∷ later
    ]

pub readdir_path : RamFileSystem → List ℕ → Option (List (List ℕ × Bool × ℕ))
readdir_path fs path = elim (node_at fs path) [
  | none ↦ none
  | some dir ↦ if not dir.is_dir then none else some (entries fs dir.children)
]

pub file_size : RamFileSystem → List ℕ → Option ℕ
file_size fs path = elim (node_at fs path) [
  | none ↦ none
  | some node ↦ if node.is_dir then none else some (len node.data_of)
]

pub write_path : RamFileSystem → List ℕ → ℕ → List ℕ → Result ℕ × RamFileSystem
write_path fs path offset bytes = elim (walk_path fs path) [
  | ok inode ↦ write_file fs inode offset bytes
  | err e ↦ (err e, fs)
  | panic ↦ (panic, fs)
]

-- `ensure_virtual_ramfs`: what the global file system is from then on.
pub ensure_virtual_ramfs : Option RamFileSystem → RamFileSystem
ensure_virtual_ramfs none = new
ensure_virtual_ramfs (some fs) = fs

pub virtual_create : Option RamFileSystem → List ℕ → List ℕ → RamFileSystem
virtual_create fs path bytes = (create_path (ensure_virtual_ramfs fs) path bytes).1

pub virtual_init : Option RamFileSystem → RamFileSystem
virtual_init fs =
    let fs1 = virtual_create fs (codes "/proc/version") (codes "Linux 6.1.0 KarteOS x86_64") in
    let fs2 = virtual_create (some fs1) (codes "/etc/resolv.conf") (codes "nameserver 10.0.2.3") in
    let fs3 = virtual_create (some fs2) (codes "/etc/hostname") (codes "karteos") in
    let fs4 =
      virtual_create (some fs3) (codes "/etc/passwd") (codes "root:x:0:0:root:/root:/bin/sh") in
    virtual_create (some fs4) (codes "/etc/group") (codes "root:x:0:")

pub virtual_read : Option RamFileSystem → List ℕ → Option (List ℕ)
virtual_read fs path = read_path (ensure_virtual_ramfs fs) path

pub virtual_exists : Option RamFileSystem → List ℕ → Bool
virtual_exists fs path = path_exists (ensure_virtual_ramfs fs) path

pub virtual_readdir : Option RamFileSystem → List ℕ → Option (List (List ℕ × Bool × ℕ))
virtual_readdir fs path = readdir_path (ensure_virtual_ramfs fs) path

pub virtual_size : Option RamFileSystem → List ℕ → Option ℕ
virtual_size fs path = file_size (ensure_virtual_ramfs fs) path

pub virtual_write : Option RamFileSystem → List ℕ → ℕ → List ℕ → Result ℕ × RamFileSystem
virtual_write fs path offset bytes = write_path (ensure_virtual_ramfs fs) path offset bytes
