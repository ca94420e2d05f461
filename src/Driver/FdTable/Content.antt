-- ===== src/Driver/FdTable/Content.antt =====
-- The bytes of the files in memory of kernel/src/driver/fs.rs.
use karte_os.Base.{
  ℕ, ◌+◌, ◌<◌, none, some, List, ◌≡◌, refl, ap, ◌∙◌, arith, length, take, drop, min, set,
  get_or-set_self, length-set, set-set, when_some, ◌-◌,
}
use karte_os.Storage.RamFs.{overwrite}
use karte_os.Storage.RamFs.Content.{length-overwrite}
use karte_os.Storage.RamFs.Reading.{cut-overwrite}
use karte_os.Driver.FdTable.{
  FdTable, FileDescriptor, fake_file, slot, set_fd, fake_write, fake_read, fake_bytes, with_fake,
}

-- The position of a descriptor is set back to where it was.
abbrev pub rewind : FdTable → ℕ → FileDescriptor → ℕ → FdTable
rewind fds fd desc pos = set_fd fds fd (record desc { pos = pos })

fake_write_lem :
    (fds : FdTable) (fd : ℕ) (desc : FileDescriptor) (bytes new_bytes : List ℕ)
    → slot fds fd ≡ some desc
    → desc.fd_type ≡ fake_file bytes
    → fake_write fds fd new_bytes ≡ (
      some (length new_bytes),
      set fds fd (
          some (with_fake desc (overwrite bytes desc.pos new_bytes) (desc.pos + length new_bytes))),
    )
unfolding fake_write
fake_write_lem fds fd desc bytes new_bytes e t =
    when_some _ _ (when_some _ _ e ∙ when_some _ _ (ap fake_bytes t))

-- What a read has copied, and the position after it.
fake_read_lem :
    (fds : FdTable) (prng fd len : ℕ) (desc : FileDescriptor) (bytes : List ℕ)
    → slot fds fd ≡ some (record desc { fd_type = fake_file bytes })
    → let to_read = min len (length bytes - desc.pos) in
      fake_read fds prng fd len ≡ (
        some (take to_read (drop desc.pos bytes)),
        prng,
        set fds fd (some (with_fake desc bytes (desc.pos + to_read))),
      )
unfolding fake_read
fake_read_lem fds prng fd len desc bytes e = when_some _ _ e

-- What fake_write has put into a file in memory, fake_read reads from the same position on, and
-- each moves the position by the number of bytes.
pub fake_read-fake_write :
    (fds : FdTable) (fd prng : ℕ) (desc : FileDescriptor) (bytes new_bytes : List ℕ)
    → fd < length fds
    → slot fds fd ≡ some desc
    → desc.fd_type ≡ fake_file bytes
    → let after =
        with_fake desc (overwrite bytes desc.pos new_bytes) (desc.pos + length new_bytes) in
      let (count, written) = fake_write fds fd new_bytes in
      (count ≡ some (length new_bytes))
      × (slot written fd ≡ some after)
      × (fake_read (rewind written fd after desc.pos) prng fd (length new_bytes)
          ≡ (some new_bytes, prng, written))
fake_read-fake_write fds fd prng desc bytes new_bytes lt e t =
    let all = overwrite bytes desc.pos new_bytes in
    let len = length new_bytes in
    let after = with_fake desc all (desc.pos + len) in
    let written = set fds fd (some after) in
    let back : FileDescriptor = record after { pos = desc.pos } in
    let room : min len (length all - desc.pos) ≡ len =
      omega (arith, length-overwrite bytes desc.pos new_bytes) in
    let inside : fd < length written = omega (arith, length-set fds fd (some after)) in
    let rewound : rewind written fd after desc.pos ≡ set written fd (some back) =
      unfold set_fd in ground (arith, inside) in
    let there : slot (set written fd (some back)) fd ≡ some back =
      get_or-set_self written fd (some back) none inside in
    let read = fake_read_lem (set written fd (some back)) prng fd len back all there in
    rw (fake_write_lem fds fd desc bytes new_bytes e t) (
      refl,
      get_or-set_self fds fd (some after) none lt,
      rw (rewound, read, room, cut-overwrite bytes desc.pos new_bytes)
          (ap (λ f. (some new_bytes, prng, f))
            (set-set written fd (some back) (some after)
              ∙ set-set fds fd (some after) (some after))),
    )
