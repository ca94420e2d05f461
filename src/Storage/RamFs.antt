-- ===== src/Storage/RamFs.antt =====
-- kernel/src/driver/ramfs.rs: the file system in memory and its `FileSystem` operations. A name or a
-- file is the list of its bytes. A length that no `Vec` can have makes the kernel panic.
pub mod Paths
pub mod Content
pub mod Reading
pub mod Shape
pub mod Lookup
pub mod Names
pub mod Tree
pub mod Rooted
pub mod Runs
use karte_os.Base.{
  ℕ, ◌+◌, ◌-◌, ◌<◌, ◌≤◌, min, Bool, true, false, ◌&&◌, not, Option, none, some, List, [], ◌∷◌, ◌++◌,
  ◌==◌, leb, ltb, if◌then◌else◌, length, get_elem?, take, drop, replicate, is_empty,
}
use karte_os.Base.Assoc.{Assoc, get, insert, remove}
use karte_os.Base.Strings.{same, codes}
use karte_os.Base.Words.{add_usize}

pub data VfsError : Type 0 where
  not_found already_exists not_a_directory not_a_file permission_denied io_error invalid_param :
      VfsError
  out_of_memory directory_not_empty : VfsError

pub data Result (A : Type 0) : Type 0 where
  ok : A → Result A
  err : VfsError → Result A
  panic : Result A

pub data RamFileData : Type 0 where
  static_data : List ℕ → RamFileData
  owned : List ℕ → RamFileData

pub as_slice : RamFileData → List ℕ
as_slice (static_data s) = s
as_slice (owned v) = v

pub len : RamFileData → ℕ
len d = length (as_slice d)

pub record RamFsNode : Type 0 where
  pub name : List ℕ
  pub data_of : RamFileData
  pub is_dir : Bool
  pub children : List ℕ

pub record RamFileSystem : Type 0 where
  pub nodes : Assoc RamFsNode
  pub next_inode : ℕ

abbrev pub root_inode : ℕ
root_inode = 1

unfoldable pub new : RamFileSystem
new = record {
  nodes =
      insert [] root_inode
        record { name = codes "/"; data_of = owned []; is_dir = true; children = [] };
  next_inode = 2;
}

-- What is done to a node that `get_mut` found.
unfoldable pub put : RamFileSystem → ℕ → RamFsNode → RamFileSystem
put fs inode node = record fs { nodes = insert fs.nodes inode node }

unfoldable pub alloc_inode : RamFileSystem → ℕ × RamFileSystem
alloc_inode fs = (fs.next_inode, record fs { next_inode = add_usize fs.next_inode 1 })

unfoldable pub contains : List ℕ → ℕ → Bool
contains [] c = false
contains (x ∷ xs) c = let later = contains xs c in if x == c then true else later

unfoldable pub add_child : RamFileSystem → ℕ → ℕ → RamFileSystem
add_child fs dir_inode child_inode = elim (get fs.nodes dir_inode) [
  | none ↦ fs
  | some dir ↦
      if contains dir.children child_inode
      then fs
      else put fs dir_inode (record dir { children = dir.children ++ child_inode ∷ [] })
]

-- The loop of `find_child_by_name`.
unfoldable pub find_in : Assoc RamFsNode → List ℕ → List ℕ → Option ℕ
find_in nodes [] name = none
find_in nodes (c ∷ cs) name =
    let later = find_in nodes cs name in
    elim (get nodes c) [
      | none ↦ later
      | some child ↦ if same child.name name then some c else later
    ]

unfoldable pub find_child_by_name : RamFileSystem → ℕ → List ℕ → Option ℕ
find_child_by_name fs dir_inode name = elim (get fs.nodes dir_inode) [
  | none ↦ none
  | some dir ↦ if not dir.is_dir then none else find_in fs.nodes dir.children name
]

-- `retain(|&c| c != child_inode)`
pub without : List ℕ → ℕ → List ℕ
without [] c = []
without (x ∷ xs) c = let later = without xs c in if x == c then later else x ∷ later

pub remove_child : RamFileSystem → ℕ → ℕ → RamFileSystem
remove_child fs dir_inode child_inode = elim (get fs.nodes dir_inode) [
  | none ↦ fs
  | some dir ↦ put fs dir_inode (record dir { children = without dir.children child_inode })
]

pub file_count : RamFileSystem → ℕ
file_count fs = length fs.nodes - 1

-- A new node, put below a directory.
unfoldable pub add_node : RamFileSystem → ℕ → RamFsNode → ℕ × RamFileSystem
add_node fs dir node =
    let (inode, fs1) = alloc_inode fs in (inode, add_child (put fs1 inode node) dir inode)

pub write_static : RamFileSystem → List ℕ → List ℕ → Result Unit × RamFileSystem
write_static fs name bytes =
    let (inode, added) =
      add_node fs root_inode
        record { name = name; data_of = static_data bytes; is_dir = false; children = [] } in
    elim (find_child_by_name fs root_inode name) [
      | none ↦ (ok tt, added)
      | some inode ↦ elim (get fs.nodes inode) [
        | none ↦ (ok tt, added)
        | some node ↦ (ok tt, put fs inode (record node { data_of = static_data bytes }))
      ]
    ]

pub lookup : RamFileSystem → ℕ → List ℕ → Result ℕ
lookup fs dir name = elim (find_child_by_name fs dir name) [
  | none ↦ err not_found
  | some inode ↦ ok inode
]

pub data VfsFileType : Type 0 where
  file directory : VfsFileType

pub record VfsMetadata : Type 0 where
  pub file_type : VfsFileType
  pub size : ℕ
  pub name : List ℕ

-- The metadata of a node; `readdir` returns the same three fields of a child as a VfsDirEntry.
pub describe : RamFsNode → VfsMetadata
describe node = record {
  file_type = if node.is_dir then directory else file;
  size = len node.data_of;
  name = node.name;
}

pub metadata : RamFileSystem → ℕ → Result VfsMetadata
metadata fs inode = elim (get fs.nodes inode) [
  | none ↦ err not_found
  | some node ↦ ok (describe node)
]

pub readdir : RamFileSystem → ℕ → ℕ → Result (Option VfsMetadata)
readdir fs dir idx = elim (get fs.nodes dir) [
  | none ↦ err not_found
  | some node ↦
      if not node.is_dir then err not_a_directory else elim (get_elem? node.children idx) [
        | none ↦ ok none
        | some child_inode ↦ elim (get fs.nodes child_inode) [
          | none ↦ err not_found
          | some child ↦ ok (some (describe child))
        ]
      ]
]

-- The bytes that `read_file` copies to the front of the buffer, whose length is `room`.
pub copied : List ℕ → ℕ → ℕ → List ℕ
copied bytes offset room =
    let end = min (add_usize offset room) (length bytes) in
    if leb (length bytes) offset then [] else take (end - offset) (drop offset bytes)

pub read_file : RamFileSystem → ℕ → ℕ → ℕ → Result (List ℕ)
read_file fs inode offset room = elim (get fs.nodes inode) [
  | none ↦ err not_found
  | some node ↦
      if node.is_dir then err not_a_file else ok (copied (as_slice node.data_of) offset room)
]

-- `Vec::resize(size, 0)`
pub resize : List ℕ → ℕ → List ℕ
resize bytes size = take size bytes ++ replicate (size - length bytes) 0

-- `isize::MAX`, the most bytes a `Vec` holds.
abbrev pub vec_max : ℕ
vec_max = 0x7fffffffffffffff

-- Extended if needed.
pub longer : List ℕ → ℕ → List ℕ
longer bytes end = if ltb (length bytes) end then resize bytes end else bytes

-- `owned[offset..end].copy_from_slice(data)`
pub splice : List ℕ → ℕ → List ℕ → List ℕ
splice bytes offset new_bytes =
    take offset bytes ++ (new_bytes ++ drop (offset + length new_bytes) bytes)

pub overwrite : List ℕ → ℕ → List ℕ → List ℕ
overwrite bytes offset new_bytes =
    splice (longer bytes (offset + length new_bytes)) offset new_bytes

-- A node once it has these bytes.
pub written : RamFsNode → List ℕ → RamFsNode
written node bytes = record node { data_of = owned bytes }

pub write_file : RamFileSystem → ℕ → ℕ → List ℕ → Result ℕ × RamFileSystem
write_file fs inode offset new_bytes = elim (get fs.nodes inode) [
  | none ↦ (err not_found, fs)
  | some node ↦
      if node.is_dir
      then (err not_a_file, fs)
      else if ltb vec_max (offset + length new_bytes)
      then (panic, fs)
      else (
        ok (length new_bytes),
        put fs inode (written node (overwrite (as_slice node.data_of) offset new_bytes)),
      )
]

-- The node that `create_file` or `create_dir` adds.
unfoldable pub new_node : List ℕ → Bool → RamFsNode
new_node name is_dir = record { name = name; data_of = owned []; is_dir = is_dir; children = [] }

-- `create_file` and `create_dir`, which differ in `is_dir`.
unfoldable pub create : RamFileSystem → ℕ → List ℕ → Bool → Result ℕ × RamFileSystem
create fs dir name is_dir = elim (get fs.nodes dir) [
  | none ↦ (err not_found, fs)
  | some parent ↦
      if not parent.is_dir
      then (err not_a_directory, fs)
      else elim (find_child_by_name fs dir name) [
        | some inode ↦ (err already_exists, fs)
        | none ↦ let (inode, fs1) = add_node fs dir (new_node name is_dir) in (ok inode, fs1)
      ]
]

pub create_file : RamFileSystem → ℕ → List ℕ → Result ℕ × RamFileSystem
create_file fs dir name = create fs dir name false

unfoldable pub create_dir : RamFileSystem → ℕ → List ℕ → Result ℕ × RamFileSystem
create_dir fs dir name = create fs dir name true

-- The end of `unlink`.
pub remove_node : RamFileSystem → ℕ → ℕ → RamFileSystem
remove_node fs dir inode =
    let fs1 = remove_child fs dir inode in record fs1 { nodes = remove fs1.nodes inode }

pub unlink : RamFileSystem → ℕ → List ℕ → Result Unit × RamFileSystem
unlink fs dir name = elim (find_child_by_name fs dir name) [
  | none ↦ (err not_found, fs)
  | some inode ↦ elim (get fs.nodes inode) [
    | none ↦ (err not_found, fs)
    | some node ↦
        if node.is_dir && not (is_empty node.children)
        then (err directory_not_empty, fs)
        else (ok tt, remove_node fs dir inode)
  ]
]

pub set_file_size : RamFileSystem → ℕ → ℕ → Result Unit × RamFileSystem
set_file_size fs inode size = elim (get fs.nodes inode) [
  | none ↦ (err not_found, fs)
  | some node ↦
      if node.is_dir
      then (err not_a_file, fs)
      else if ltb vec_max size
      then (panic, fs)
      else (ok tt, put fs inode (written node (resize (as_slice node.data_of) size)))
]
