-- ===== src/Storage/RamFs/Reading.antt =====
-- What `read_file` of kernel/src/driver/ramfs.rs returns.
use karte_os.Base.{
  ℕ, zero, suc, ◌+◌, ◌-◌, ◌≤◌, ◌<◌, ◌^◌, min, Option, none, some, List, [], ◌++◌, leb,
  if◌then◌else◌, length, length-drop, take, drop, take-min, drop_all, take-append, drop-append,
  length-take, length-drop, ◌≡◌, refl, ap, sym, ◌∙◌, arith, Bool-cases, inl, inr,
}
use karte_os.Base.Words.{add_usize}
use karte_os.Storage.RamFs.{
  Result, ok, err, not_found, not_a_file, as_slice, RamFsNode, RamFileSystem, longer, splice,
  overwrite, copied, put, written, vec_max, read_file, write_file,
}
use karte_os.Storage.RamFs.Content.{
  length-longer, IsFile, file_bytes, file_bytes-IsFile, file_bytes-put, get-put, write_file_lem,
}

take_nothing : (n : ℕ) → take {A = ℕ} n [] ≡ []
take_nothing zero = refl
take_nothing (suc n) = refl

copied_lem :
    (bytes : List ℕ) (offset room : ℕ)
    → offset + room < 2 ^ 64
    → copied bytes offset room ≡ take room (drop offset bytes)
unfolding copied
copied_lem bytes offset room h =
    let e : add_usize offset room ≡ offset + room = omega arith in
    elim (Bool-cases (leb (length bytes) offset)) [
      | inl out ↦
          let gone = drop_all bytes offset (ground arith) in
          rw (out, gone) (sym (take_nothing room))
      | inr into ↦
          let n : min (offset + room) (length bytes) - offset
              ≡ min (length (drop offset bytes)) room =
            ground (arith, into, length-drop bytes offset) in
          rw (into, e, n) (take-min (drop offset bytes) room)
    ]

-- A read answers the bytes from the offset on, as many as there is room for.
pub read_file-slice :
    (fs : RamFileSystem) (inode offset room : ℕ)
    → IsFile fs inode
    → offset + room < 2 ^ 64
    → read_file fs inode offset room ≡ ok (take room (drop offset (file_bytes fs inode)))
unfolding read_file
read_file-slice fs inode offset room f h =
    ap
      (λ (o : Option RamFsNode). elim o as (λ x. Result (List ℕ)) [
        | none ↦ err not_found
        | some node ↦
            if node.is_dir then err not_a_file else ok (copied (as_slice node.data_of) offset room)
      ])
      f.found
    ∙ rw
        (f.no_dir, copied_lem (as_slice f.node.data_of) offset room h, file_bytes-IsFile fs inode f)
        refl

written-IsFile :
    (fs : RamFileSystem) (inode : ℕ) (bytes : List ℕ) (f : IsFile fs inode)
    → IsFile (put fs inode (written f.node bytes)) inode
unfolding written
written-IsFile fs inode bytes f = record {
  node = written f.node bytes;
  found = ground (arith, get-put fs inode inode (written f.node bytes));
  no_dir = f.no_dir;
}

pub cut-overwrite :
    (bytes : List ℕ) (offset : ℕ) (new_bytes : List ℕ)
    → take (length new_bytes) (drop offset (overwrite bytes offset new_bytes)) ≡ new_bytes
unfolding overwrite splice
cut-overwrite bytes offset new_bytes =
    let end = offset + length new_bytes in
    let long = longer bytes end in
    let n : offset ≡ length (take offset long) =
      omega (arith, length-take offset long, length-longer bytes end) in
    ap (take (length new_bytes))
      (drop-append (take offset long) (new_bytes ++ drop end long) offset n)
    ∙ take-append new_bytes (drop end long) (length new_bytes) refl

-- What write_file put into a file at an offset, ending at most at isize::MAX, read_file returns
-- from there.
pub read_file-write_file :
    (fs : RamFileSystem) (inode offset : ℕ) (new_bytes : List ℕ)
    → IsFile fs inode
    → offset + length new_bytes ≤ vec_max
    → read_file (write_file fs inode offset new_bytes).1 inode offset (length new_bytes)
      ≡ ok new_bytes
read_file-write_file fs inode offset new_bytes f h =
    let all = overwrite (as_slice f.node.data_of) offset new_bytes in
    let e = write_file_lem fs inode offset new_bytes f h in
    ap (λ (r : Result ℕ × RamFileSystem). read_file r.1 inode offset (length new_bytes)) e
    ∙ read_file-slice (put fs inode (written f.node all)) inode offset (length new_bytes)
        (written-IsFile fs inode all f) (omega arith)
    ∙ ap (λ b. ok (take (length new_bytes) (drop offset b))) (file_bytes-put fs inode f.node all)
    ∙ ap ok (cut-overwrite (as_slice f.node.data_of) offset new_bytes)
