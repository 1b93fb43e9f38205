-- ===== src/FileSystem/ReadBack.antt =====
-- Reading after writing, for Assignment7/lab7/src/library/fs.cpp.
use cs232_operating_systems.Common.{
  ℕ, ◌+◌, ◌-◌, ◌*◌, ◌/◌, ◌%◌, min, max, ◌≤◌, ◌<◌, ◌≡◌, ◌≢◌, refl, sym, ap, ◌∙◌, subst, fun_ext,
  arith, get_or, if◌then◌else◌, undefined, Outcome, returns, ne→not-==, lt→ltb, lt-cases, inl, inr,
}
use cs232_operating_systems.Common.Int.{ℤ, pos}
use cs232_operating_systems.FileSystem.Block.{Inode, pointers_per_inode}
use cs232_operating_systems.FileSystem.State.{FileSystem}
use cs232_operating_systems.FileSystem.Transfer.{Buffer, block_size, copy, read}
use cs232_operating_systems.FileSystem.Writing.{write}
use cs232_operating_systems.FileSystem.Table.{IsVolume, inode_at, with_disk}
use cs232_operating_systems.FileSystem.Reading.{filled, byte_at}
use cs232_operating_systems.FileSystem.ReadFile.{
  place_of, HasBlocks, ends_in_sixth, sixth_false, read_lem,
}
use cs232_operating_systems.FileSystem.Owning.{file_byte}
use cs232_operating_systems.FileSystem.WriteSettle.{Written}
use cs232_operating_systems.FileSystem.WriteFile.{IsFile, write_lem}

module _ {before : FileSystem} {n : ℕ} {from : Buffer} {offset length written : ℕ} {fs : FileSystem}
    (is : Written before n from offset length written fs) (inside : n < before.num_inodes)
    (within : offset + written ≤ 20480) (to : Buffer) where
  abbrev node : Inode
  node = inode_at fs n

  placed_at : (k : ℕ) → k < pointers_per_inode → place_of fs.disk node k ≡ get_or node.direct k 0
  placed_at k h = rw (lt→ltb k pointers_per_inode h) refl

  written-HasBlocks : (amount : ℕ) → amount ≡ written → HasBlocks fs.disk node offset amount
  written-HasBlocks amount e = record {
    placed = λ k some_byte lo hi.
        let q = max offset (block_size * k) in
        let nz : get_or node.direct k 0 ≢ 0 =
          subst (λ j. get_or node.direct j 0 ≢ 0) (omega arith)
            (is.reached q (omega arith) (omega arith)) in
        rw (placed_at k (omega arith))
          (omega arith, omega (arith, is.owns.inside k (omega arith) nz, is.volume.within));
    indirect_placed = λ h. absurd (omega arith);
    in_reach = omega arith;
  }

  same_bytes :
      (i : ℕ)
      → filled fs.disk (place_of fs.disk node) offset written 0 to i ≡ copy to 0 from 0 written i
  same_bytes i = elim (lt-cases i written) [
    | inr out ↦ ground arith
    | inl h ↦
        let q = offset + i in
        let p = get_or node.direct (q / block_size) 0 in
        let nz = is.reached q (omega arith) (omega arith) in
        let index : q - offset ≡ i = omega arith in
        let index' : 0 + (i - 0) ≡ i = omega arith in
        let stored : file_byte fs.disk node.direct q ≡ from i =
          is.bytes q (omega arith) ∙ rw (index) (ground arith) in
        let there : file_byte fs.disk node.direct q ≡ fs.disk.contents p (q % block_size) =
          rw (ne→not-== p 0 nz) refl in
        let here : byte_at fs.disk (place_of fs.disk node) q ≡ from i =
          ap (λ k. fs.disk.contents k (q % block_size)) (placed_at (q / block_size) (omega arith))
          ∙ sym there
          ∙ stored in
        rw (index') (ground (arith, here))
  ]

  amount_read :
      (amount r : ℕ)
      → amount ≡ written
      → ◌≡◌ {A = Outcome (ℤ × Buffer × FileSystem)}
          (if ends_in_sixth offset amount
            then undefined
            else returns (
              pos amount,
              filled fs.disk (place_of fs.disk node) offset amount 0 to,
              with_disk fs (record fs.disk { reads = r }),
            ))
          (returns
            (pos written, copy to 0 from 0 written, with_disk fs (record fs.disk { reads = r })))
  amount_read amount r e =
      rw (e, sixth_false offset written (inr (inl within)))
        (ap (λ b. returns (pos written, b, with_disk fs (record fs.disk { reads = r })))
          (fun_ext same_bytes))

  -- Where at least as many bytes are asked for as the file has from there on, or just those written.
  pub read_back :
      (asked : ℕ)
      → min asked ((inode_at fs n).size - offset) ≡ written
      → (r : ℕ) × (read fs n to asked offset
          ≡ returns
              (pos written, copy to 0 from 0 written, with_disk fs (record fs.disk { reads = r })))
  read_back asked all =
      let (r, e) =
        read_lem is.volume n (omega (arith, is.same_inodes)) asked offset to
          (omega (arith, is.size_after)) (written-HasBlocks (min asked (node.size - offset)) all) in
      (r, e ∙ amount_read (min asked (node.size - offset)) r all)

module _ {fs : FileSystem} (vol : IsVolume fs) (n : ℕ) (file : IsFile fs n) (from to : Buffer)
    (length offset : ℕ) (near : offset ≤ (inode_at fs n).size)
    (within : offset + length ≤ 20480) where
  -- On a volume, for an inode of the table whose direct pointers agree with the bitmap, an offset that is
  -- not past its size and a write that ends within its first five blocks, reading as many bytes as `write`
  -- says that it has written, at the same offset, puts exactly the bytes of the buffer that was written at
  -- the start of the buffer that is read into, and returns their number.
  pub read-write :
      (written : ℕ) × (fs' : FileSystem) × (r : ℕ) × (write fs n from length offset
        ≡ returns (pos written, fs'))
      × (read fs' n to written offset
          ≡ returns (
            pos written,
            copy to 0 from 0 written,
            with_disk fs' (record fs'.disk { reads = r }),
          ))
  read-write =
      let (written, fs', writes, le, is) = write_lem vol n file from length offset near within in
      let (r, reads) =
        read_back is file.listed (omega arith) to written (omega (arith, is.size_after)) in
      (written, fs', r, writes, reads)
