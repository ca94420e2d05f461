-- ===== src/Tests/Files.antt =====
-- The file system in memory at concrete inputs.
use karte_os.Base.{
  ℕ, ◌+◌, ◌<◌, ◌^◌, List, [], ◌∷◌, ◌≡◌, ◌≢◌, refl, arith, true, false, ◌&&◌, ◌==◌, leb, ltb,
  if◌then◌else◌, length, get_or, max,
}
use karte_os.Base.Assoc.{get, insert}
use karte_os.Base.Strings.{codes, same}
use karte_os.Storage.RamFs
use karte_os.Storage.RamFs.{
  RamFileSystem, RamFsNode, owned, ok, err, not_found, root_inode, put, alloc_inode, contains,
  add_child, find_in, find_child_by_name, add_node, create, new_node, create_dir, unlink, lookup,
  read_file, write_file,
}
use karte_os.Storage.RamFs.Shape.{IsValid, Fits}
use karte_os.Storage.RamFs.Names.{Removable, create-lookup, unlink-lookup}
use karte_os.Storage.RamFs.Content.{IsFile, file_bytes, write_file-overlay}
use karte_os.Storage.RamFs.Runs.{
  Call, creates, unlinks, writes, resizes, run, call, new-IsValid, run-IsTree,
}
use karte_os.Storage.RamFs.Rooted.{IsTree}
use karte_os.Storage.RamFs.Paths.{
  create_path, parts_of, strip_slash, split_slash, before, non_empty, enter_dir, enter_dirs,
  walk_create_dirs, file_node, place,
}
use karte_os.Storage.RamFs.Paths.Creating.{IsDirectory}
use karte_os.Storage.RamFs.Paths.RoundTrip.{Stored, create_path-Stored}

abbrev notes : List ℕ
notes = codes "notes"

abbrev root_node : RamFsNode
root_node = record { name = codes "/"; data_of = owned []; is_dir = true; children = [] }

notes-Fits : Fits RamFs.new root_inode (new_node notes false)
unfolding RamFs.new new_node find_child_by_name find_in get insert
notes-Fits = record {
  valid = new-IsValid;
  parent = root_node;
  there = refl;
  is_dir = refl;
  no_kids = refl;
  absent = refl;
}

create-lookup_example :
    ((create RamFs.new root_inode notes false).0 ≡ ok RamFs.new.next_inode)
    × (lookup (create RamFs.new root_inode notes false).1 root_inode notes ≡ (
        if (root_inode == root_inode) && same notes notes
        then ok RamFs.new.next_inode
        else lookup RamFs.new root_inode notes))
create-lookup_example = create-lookup RamFs.new root_inode notes false root_inode notes notes-Fits

abbrev calls : List Call
calls =
    creates 1 notes false
    ∷ writes 2 3 (1 ∷ 2 ∷ [])
    ∷ creates 1 (codes "etc") true
    ∷ unlinks 1 notes
    ∷ resizes 2 9
    ∷ []

run-IsTree_example : IsTree (run RamFs.new calls)
run-IsTree_example = run-IsTree calls (omega arith)

-- A file system with one file.
abbrev with_notes : RamFileSystem
with_notes = (create RamFs.new root_inode notes false).1

with_notes-IsValid : IsValid with_notes
unfolding run call
with_notes-IsValid = (run-IsTree (creates 1 notes false ∷ []) (omega arith)).valid

notes-Removable : Removable with_notes root_inode notes
unfolding RamFs.new new_node create add_node alloc_inode add_child put contains find_child_by_name
    find_in get insert same
notes-Removable = record {
  valid = with_notes-IsValid;
  inode = 2;
  found = refl;
  node = new_node notes false;
  there = refl;
  no_full_dir = refl;
}

unlink-lookup_example :
    ((unlink with_notes root_inode notes).0 ≡ ok tt)
    × (lookup (unlink with_notes root_inode notes).1 root_inode notes ≡ (
        if (root_inode == root_inode) && same notes notes
        then err not_found
        else lookup with_notes root_inode notes))
unlink-lookup_example = unlink-lookup with_notes root_inode notes root_inode notes notes-Removable

notes-IsFile : IsFile with_notes 2
unfolding RamFs.new new_node create add_node alloc_inode add_child put contains find_child_by_name
    find_in get insert
notes-IsFile = record { node = new_node notes false; found = refl; no_dir = refl }

abbrev text : List ℕ
text = codes "hello"

write_file-overlay_example :
    ((write_file with_notes 2 3 text).0 ≡ ok (length text))
    × (length (file_bytes (write_file with_notes 2 3 text).1 2)
        ≡ max (length (file_bytes with_notes 2)) (3 + length text))
    × (get_or (file_bytes (write_file with_notes 2 3 text).1 2) 4 0 ≡ (
        if leb 3 4 && ltb 4 (3 + length text)
        then get_or text 1 0
        else get_or (file_bytes with_notes 2) 4 0))
    × ((j : ℕ) → 2 ≢ j → get (write_file with_notes 2 3 text).1.nodes j ≡ get with_notes.nodes j)
write_file-overlay_example = write_file-overlay with_notes 2 3 text 4 notes-IsFile (omega arith)

root-IsDirectory : IsDirectory RamFs.new root_inode
unfolding RamFs.new get insert
root-IsDirectory = record { node = root_node; there = refl; is_dir = refl }

abbrev path : List ℕ
path = codes "/etc/hostname"

path_created : (create_path RamFs.new path text).0 ≡ ok tt
unfolding RamFs.new new_node create create_dir add_node alloc_inode add_child put contains
    find_child_by_name find_in get insert same create_path walk_create_dirs enter_dirs enter_dir
    parts_of strip_slash split_slash before non_empty place file_node
path_created = refl

few_parts : RamFs.new.next_inode + length (parts_of path) < 2 ^ 64
unfolding RamFs.new parts_of strip_slash split_slash before non_empty
few_parts = omega arith

create_path-Stored_example : Stored (create_path RamFs.new path text).1 path text
create_path-Stored_example =
    create_path-Stored RamFs.new path text new-IsValid root-IsDirectory few_parts path_created
