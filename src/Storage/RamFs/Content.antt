-- ===== src/Storage/RamFs/Content.antt =====
-- What `write_file` and `set_file_size` of kernel/src/driver/ramfs.rs leave in the files.
use karte_os.Base.{
  ℕ, ◌+◌, ◌-◌, ◌≤◌, max, true, false, ◌&&◌, Option, none, some, List, [], ◌++◌, ◌==◌, leb, ltb,
  if◌then◌else◌, length, get_or, get_or-append, get_or-take, get_or-drop, get_or-replicate,
  get_or_out, length-append, length-take, length-drop, length-replicate, take, drop, replicate, ◌≡◌,
  ◌≢◌, refl, ap, ◌∙◌, arith, Bool-cases, inl, inr,
}
use karte_os.Base.Assoc.{get, get-insert}
use karte_os.Storage.RamFs.{
  Result, ok, err, panic, not_found, not_a_file, as_slice, RamFsNode, RamFileSystem, put, resize,
  longer, splice, overwrite, written, vec_max, write_file, set_file_size,
}

pub length-resize : (bytes : List ℕ) (size : ℕ) → length (resize bytes size) ≡ size
unfolding resize
length-resize bytes size = omega (
  arith,
  length-append (take size bytes) (replicate (size - length bytes) 0),
  length-take size bytes,
  length-replicate {A = ℕ} (size - length bytes) 0,
)

-- Zeros follow the bytes that were there.
get_or-resize :
    (bytes : List ℕ) (size i : ℕ)
    → get_or (resize bytes size) i 0 ≡ (if ltb i size then get_or bytes i 0 else 0)
unfolding resize
get_or-resize bytes size i =
    let a = get_or-append (take size bytes) (replicate (size - length bytes) 0) i 0 in
    let z = get_or-replicate {A = ℕ} (size - length bytes) (i - length (take size bytes)) 0 in
    let t = get_or-take bytes size i 0 in
    let n = length-take size bytes in
    elim (Bool-cases (ltb i (length (take size bytes)))) [
      | inl e ↦ a ∙ ground (arith, e, t, n)
      | inr e ↦ elim (Bool-cases (ltb i size)) [
        | inl k ↦
            let out = get_or_out bytes i 0 (ground (arith, e, k, n)) in
            a ∙ ground (arith, e, z, k, out)
        | inr k ↦ a ∙ ground (arith, e, z, k)
      ]
    ]

pub length-longer : (bytes : List ℕ) (end : ℕ) → length (longer bytes end) ≡ max (length bytes) end
unfolding longer
length-longer bytes end = ground (arith, length-resize bytes end)

get_or-longer : (bytes : List ℕ) (end i : ℕ) → get_or (longer bytes end) i 0 ≡ get_or bytes i 0
unfolding longer
get_or-longer bytes end i = elim (Bool-cases (ltb i end)) [
  | inl e ↦ ground (arith, e, get_or-resize bytes end i)
  | inr e ↦ elim (Bool-cases (ltb (length bytes) end)) [
    | inl k ↦ ground (arith, e, k, get_or-resize bytes end i, get_or_out bytes i 0 (ground arith))
    | inr k ↦ ground (arith, k)
  ]
]

pub length-overwrite :
    (bytes : List ℕ) (offset : ℕ) (new_bytes : List ℕ)
    → length (overwrite bytes offset new_bytes) ≡ max (length bytes) (offset + length new_bytes)
unfolding overwrite splice
length-overwrite bytes offset new_bytes =
    let end = offset + length new_bytes in
    let long = longer bytes end in
    omega (
      arith,
      length-append (take offset long) (new_bytes ++ drop end long),
      length-append new_bytes (drop end long),
      length-take offset long,
      length-drop long end,
      length-longer bytes end,
    )

get_or-overwrite :
    (bytes : List ℕ) (offset : ℕ) (new_bytes : List ℕ) (i : ℕ)
    → get_or (overwrite bytes offset new_bytes) i 0 ≡ (
        if leb offset i && ltb i (offset + length new_bytes)
        then get_or new_bytes (i - offset) 0
        else get_or bytes i 0)
unfolding overwrite splice
get_or-overwrite bytes offset new_bytes i =
    let end = offset + length new_bytes in
    let long = longer bytes end in
    let n : length (take offset long) ≡ offset =
      omega (arith, length-take offset long, length-longer bytes end) in
    let a = get_or-append (take offset long) (new_bytes ++ drop end long) i 0 in
    let b = get_or-append new_bytes (drop end long) (i - length (take offset long)) 0 in
    let t = get_or-take long offset i 0 in
    let d = get_or-drop long end (i - length (take offset long) - length new_bytes) 0 in
    let g = get_or-longer bytes end i in
    elim (Bool-cases (ltb i offset)) [
      | inl e ↦ a ∙ ground (arith, n, e, t, g)
      | inr e ↦ elim (Bool-cases (ltb i end)) [
        | inl k ↦
            let before : ltb (i - length (take offset long)) (length new_bytes) ≡ true =
              ground (arith, n, e, k) in
            let at : i - length (take offset long) ≡ i - offset = omega (arith, n) in
            a ∙ ground (arith, n, e, k, b, before, at)
        | inr k ↦
            let after : ltb (i - length (take offset long)) (length new_bytes) ≡ false =
              ground (arith, n, e, k) in
            let at : end + (i - length (take offset long) - length new_bytes) ≡ i =
              ground (arith, n, e, k) in
            a ∙ ground (arith, n, e, k, b, d, after, at, g)
      ]
    ]

-- The bytes of the file at an inode, none when nothing is there.
abbrev pub file_bytes : RamFileSystem → ℕ → List ℕ
file_bytes fs inode = elim (get fs.nodes inode) [ none ↦ [] | some node ↦ as_slice node.data_of ]

-- A node that a call may write to.
pub record IsFile (fs : RamFileSystem) (inode : ℕ) : Type 0 where
  pub node : RamFsNode
  pub found : get fs.nodes inode ≡ some node
  pub no_dir : node.is_dir ≡ false

pub get-put :
    (fs : RamFileSystem) (inode j : ℕ) (node : RamFsNode)
    → get (put fs inode node).nodes j ≡ (if inode == j then some node else get fs.nodes j)
unfolding put
get-put fs inode j node = get-insert fs.nodes inode j node

pub write_file_lem :
    (fs : RamFileSystem) (inode offset : ℕ) (new_bytes : List ℕ) (f : IsFile fs inode)
    → offset + length new_bytes ≤ vec_max
    → write_file fs inode offset new_bytes ≡ (
      ok (length new_bytes),
      put fs inode (written f.node (overwrite (as_slice f.node.data_of) offset new_bytes)),
    )
unfolding write_file
write_file_lem fs inode offset new_bytes f h =
    let small : ltb vec_max (offset + length new_bytes) ≡ false = ground (arith, h) in
    ap
      (λ o. elim o as (λ x. Result ℕ × RamFileSystem) [
        | none ↦ (err not_found, fs)
        | some node ↦
            if node.is_dir
            then (err not_a_file, fs)
            else if ltb vec_max (offset + length new_bytes)
            then (panic, fs)
            else (
              ok (length new_bytes),
              put fs inode (written node (overwrite (as_slice node.data_of) offset new_bytes)),
            )
      ])
      f.found
    ∙ rw (f.no_dir, small) refl

pub file_bytes-put :
    (fs : RamFileSystem) (inode : ℕ) (node : RamFsNode) (bytes : List ℕ)
    → file_bytes (put fs inode (written node bytes)) inode ≡ bytes
unfolding written as_slice
file_bytes-put fs inode node bytes =
    let e : get (put fs inode (written node bytes)).nodes inode ≡ some (written node bytes) =
      ground (arith, get-put fs inode inode (written node bytes)) in
    ap
      (λ (o : Option RamFsNode). elim o as (λ x. List ℕ) [
        | none ↦ []
        | some n ↦ as_slice n.data_of
      ])
      e

pub file_bytes-IsFile :
    (fs : RamFileSystem) (inode : ℕ) (f : IsFile fs inode)
    → file_bytes fs inode ≡ as_slice f.node.data_of
file_bytes-IsFile fs inode f =
    ap (λ o. elim o as (λ x. List ℕ) [ none ↦ [] | some n ↦ as_slice n.data_of ]) f.found

-- write_file into a file, ending at most at isize::MAX, reports all bytes written, makes the
-- file as long as it was or as the write needs, changes the bytes of the range to those written
-- and no others (zeros fill a gap), and leaves every other node.
pub write_file-overlay :
    (fs : RamFileSystem) (inode offset : ℕ) (new_bytes : List ℕ) (i : ℕ)
    → IsFile fs inode
    → offset + length new_bytes ≤ vec_max
    → let old = file_bytes fs inode in
      let fs1 = (write_file fs inode offset new_bytes).1 in
      let now = file_bytes fs1 inode in
      ((write_file fs inode offset new_bytes).0 ≡ ok (length new_bytes))
      × (length now ≡ max (length old) (offset + length new_bytes))
      × (get_or now i 0 ≡ (
          if leb offset i && ltb i (offset + length new_bytes)
          then get_or new_bytes (i - offset) 0
          else get_or old i 0))
      × ((j : ℕ) → inode ≢ j → get fs1.nodes j ≡ get fs.nodes j)
write_file-overlay fs inode offset new_bytes i f h =
    let all = overwrite (as_slice f.node.data_of) offset new_bytes in
    let e = write_file_lem fs inode offset new_bytes f h in
    let now =
      ap (λ (r : Result ℕ × RamFileSystem). file_bytes r.1 inode) e
      ∙ file_bytes-put fs inode f.node all in
    let old = file_bytes-IsFile fs inode f in
    (
      ap (λ (r : Result ℕ × RamFileSystem). r.0) e,
      rw (now, old) (length-overwrite (as_slice f.node.data_of) offset new_bytes),
      rw (now, old) (get_or-overwrite (as_slice f.node.data_of) offset new_bytes i),
      λ j apart.
          ap (λ (r : Result ℕ × RamFileSystem). get r.1.nodes j) e
          ∙ ground (arith, get-put fs inode j (written f.node all), apart),
    )

pub set_file_size_lem :
    (fs : RamFileSystem) (inode size : ℕ) (f : IsFile fs inode)
    → size ≤ vec_max
    → set_file_size fs inode size
      ≡ (ok tt, put fs inode (written f.node (resize (as_slice f.node.data_of) size)))
unfolding set_file_size
set_file_size_lem fs inode size f h =
    let small : ltb vec_max size ≡ false = ground (arith, h) in
    ap
      (λ o. elim o as (λ x. Result Unit × RamFileSystem) [
        | none ↦ (err not_found, fs)
        | some node ↦
            if node.is_dir
            then (err not_a_file, fs)
            else if ltb vec_max size
            then (panic, fs)
            else (ok tt, put fs inode (written node (resize (as_slice node.data_of) size)))
      ])
      f.found
    ∙ rw (f.no_dir, small) refl

-- A file that is resized keeps its bytes below the size, and zeros follow.
pub set_file_size-bytes :
    (fs : RamFileSystem) (inode size i : ℕ)
    → IsFile fs inode
    → size ≤ vec_max
    → let fs1 = (set_file_size fs inode size).1 in
      let now = file_bytes fs1 inode in
      ((set_file_size fs inode size).0 ≡ ok tt)
      × (length now ≡ size)
      × (get_or now i 0 ≡ (if ltb i size then get_or (file_bytes fs inode) i 0 else 0))
      × ((j : ℕ) → inode ≢ j → get fs1.nodes j ≡ get fs.nodes j)
set_file_size-bytes fs inode size i f h =
    let all = resize (as_slice f.node.data_of) size in
    let e = set_file_size_lem fs inode size f h in
    let now =
      ap (λ (r : Result Unit × RamFileSystem). file_bytes r.1 inode) e
      ∙ file_bytes-put fs inode f.node all in
    let old = file_bytes-IsFile fs inode f in
    (
      ap (λ (r : Result Unit × RamFileSystem). r.0) e,
      rw now (length-resize (as_slice f.node.data_of) size),
      rw (now, old) (get_or-resize (as_slice f.node.data_of) size i),
      λ j apart.
          ap (λ (r : Result Unit × RamFileSystem). get r.1.nodes j) e
          ∙ ground (arith, get-put fs inode j (written f.node all), apart),
    )
