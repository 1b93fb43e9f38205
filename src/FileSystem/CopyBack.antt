-- ===== src/FileSystem/CopyBack.antt =====
-- `copyin` and `copyout` of Assignment7/lab7/src/shell/sfssh.cpp, one after the other.
use cs232_operating_systems.Common.{
  ℕ, zero, suc, ◌+◌, ◌-◌, min, ◌≤◌, ◌<◌, ◌≡◌, refl, ap, ◌∙◌, arith, true, Option, none, some, List,
  [], ◌∷◌, ◌++◌, returns, ◌>>=◌, eq→==, ne→not-==, eq-cases, ◌⊎◌, inl, inr,
}
use cs232_operating_systems.Common.Int.{pos}
use cs232_operating_systems.FileSystem.Block.{blank}
use cs232_operating_systems.FileSystem.State.{FileSystem}
use cs232_operating_systems.FileSystem.Transfer.{Buffer, copy, read}
use cs232_operating_systems.FileSystem.Writing.{write}
use cs232_operating_systems.FileSystem.Table.{IsVolume, IsVolume-with, inode_at, with_disk}
use cs232_operating_systems.FileSystem.Allocation.{AllTaken}
use cs232_operating_systems.FileSystem.Reading.{filled}
use cs232_operating_systems.FileSystem.ReadFile.{place_of, HasBlocks, sixth_false, read_lem}
use cs232_operating_systems.FileSystem.WriteSettle.{Written}
use cs232_operating_systems.FileSystem.WriteFile.{IsFile, write_lem}
use cs232_operating_systems.FileSystem.ReadBack.{read_back}
use cs232_operating_systems.FileSystem.Commands.{
  Text, Host, Stream, Trouble, only_wrote, Message, wrote, bytes_copied, buffer_size, empty_stream,
  fwrite, copyin_from, copyout_from, copyin, copyout, troubles,
}

-- The buffer of `copyin` after a stream is read into it.
abbrev pub filled_buffer : Stream → Buffer
filled_buffer stream = copy blank 0 stream.bytes 0 (min buffer_size (stream.count - 0))

module _ {fs : FileSystem} (vol : IsVolume fs) (n : ℕ) (file : IsFile fs n) (stream : Stream)
    (k : ℕ) (counted : stream.count ≡ suc k) (small : stream.count ≤ 20480) (rounds : ℕ) where
  one_read : min buffer_size (stream.count - 0) ≡ suc k
  one_read = omega arith

  then_end : min buffer_size (stream.count - (0 + suc k)) ≡ 0
  then_end = omega arith

  copyin_step :
      (written : ℕ) (fs' : FileSystem)
      → write fs n (filled_buffer stream) (suc k) 0 ≡ returns (pos written, fs')
      → (t : Option Trouble) × (copyin_from (suc (suc rounds)) fs stream 0 n blank 0
          ≡ returns (t, written, fs'))
  unfolding copyin_from
  copyin_step written fs' writes = elim (eq-cases written (suc k)) [
    | inl e ↦ (
      none,
      rw (copyin_from, one_read)
          (rw (writes, ◌>>=◌)
            (rw (eq→== written (suc k) e)
              (rw (copyin_from, then_end) (ap (λ x. returns (none, x, fs')) (omega arith))))),
    )
    | inr ne ↦ (
      some (only_wrote written (suc k)),
      rw (copyin_from, one_read)
          (rw (writes, ◌>>=◌)
            (rw (ne→not-== written (suc k) ne)
              (ap (λ x. returns (some (only_wrote written (suc k)), x, fs')) (omega arith)))),
    )
  ]

copied : (to from : Buffer) (n i : ℕ) → i < n → copy to 0 from 0 n i ≡ from i
copied to from n i h = let index : 0 + (i - 0) ≡ i = omega arith in rw (index) (ground arith)

-- Reading at the end of a file.
read_end :
    {fs : FileSystem} (vol : IsVolume fs) (n : ℕ)
    → n < fs.num_inodes
    → (asked offset : ℕ) (to : Buffer) → (inode_at fs n).size ≡ offset
    → offset ≤ 20480
    → (to' : Buffer) × (fs' : FileSystem) × (read fs n to asked offset ≡ returns (pos 0, to', fs'))
read_end {fs = fs} vol n inside asked offset to e small =
    let node = inode_at fs n in
    let amount = min asked (node.size - offset) in
    let nothing : amount ≡ 0 = omega arith in
    let has : HasBlocks fs.disk node offset amount = record {
      placed = λ k some_byte lo hi. absurd (omega arith);
      indirect_placed = λ h. absurd (omega arith);
      in_reach = omega arith;
    } in
    let (r, runs) = read_lem vol n inside asked offset to (omega arith) has in
    let to' = filled fs.disk (place_of fs.disk node) offset amount 0 to in
    (
      to',
      with_disk fs (record fs.disk { reads = r }),
      runs
          ∙ rw (sixth_false offset amount (inl nothing))
              (ap (λ x. returns (pos x, to', with_disk fs (record fs.disk { reads = r }))) nothing),
    )

-- A stream that holds the first bytes of a buffer.
pub record Holds (from : Buffer) (written : ℕ) (out : Stream) : Type 0 where
  pub all_counted : out.count ≡ written
  pub same : (i : ℕ) → i < written → out.bytes i ≡ from i

module _ {before : FileSystem} {n : ℕ} {from : Buffer} {length written : ℕ} {fs : FileSystem}
    (is : Written before n from 0 length written fs) (inside : n < before.num_inodes)
    (within : 0 + written ≤ 20480) (empty : (inode_at before n).size ≡ 0) (rounds : ℕ) where
  copyout_step :
      (r w : ℕ)
      → w ≡ written
      → read fs n blank buffer_size 0
        ≡ returns (pos w, copy blank 0 from 0 w, with_disk fs (record fs.disk { reads = r }))
      → (out : Stream) × (fs' : FileSystem) × (copyout_from
            (suc (suc rounds))
            fs
            n
            blank
            0
            empty_stream
          ≡ returns (w, out, fs'))
        × Holds from w out
  unfolding copyout_from
  copyout_step r zero e reads = (
    empty_stream,
    with_disk fs (record fs.disk { reads = r }),
    rw (copyout_from, reads, ◌>>=◌) refl,
    record { all_counted = refl; same = λ i h. absurd (omega arith) },
  )
  copyout_step r (suc j) e reads =
      let buffer = copy blank 0 from 0 (suc j) in
      let d = record fs.disk { reads = r } in
      let vol = IsVolume-with is.volume d fs.free_bitmap refl refl in
      let (to', fs', ends) =
        read_end vol n (omega (arith, is.same_inodes)) buffer_size (0 + suc j) buffer
          (omega (arith, is.size_after)) (omega arith) in
      (
        fwrite empty_stream buffer (suc j),
        fs',
        rw (copyout_from, reads, ◌>>=◌)
            (rw (copyout_from, ends, ◌>>=◌)
              (ap (λ x. returns (x, fwrite empty_stream buffer (suc j), fs')) (omega arith))),
        record {
          all_counted = omega arith;
          same = λ i h. copied blank buffer (suc j) i h ∙ copied blank from (suc j) i h;
        },
      )

module _ {fs : FileSystem} (vol : IsVolume fs) (n : ℕ) (file : IsFile fs n)
    (empty : (inode_at fs n).size ≡ 0) (host : Host) (stream : Stream) (path path' : Text)
    (found : host.files path ≡ some stream) (writable : host.writable path' ≡ true)
    (some_byte : 0 < stream.count) (small : stream.count ≤ 20480) (rounds : ℕ) where
  copyin_run :
      (t : Option Trouble) (written : ℕ) (fs' : FileSystem)
      → copyin_from (suc (suc rounds)) fs stream 0 n blank 0 ≡ returns (t, written, fs')
      → copyin host (suc (suc rounds)) fs path n
        ≡ returns (true, troubles t ++ (bytes_copied written ∷ []), fs')
  unfolding copyin
  copyin_run t written fs' runs = rw (copyin, found) (rw (runs, ◌>>=◌) refl)

  copyout_run :
      (written : ℕ) (fs' fs'' : FileSystem) (out : Stream)
      → copyout_from (suc (suc rounds)) fs' n blank 0 empty_stream ≡ returns (written, out, fs'')
      → copyout host (suc (suc rounds)) fs' n path'
        ≡ returns (true, wrote path' out ∷ bytes_copied written ∷ [], fs'')
  unfolding copyout
  copyout_run written fs' fs'' out runs = rw (writable) (rw (runs, ◌>>=◌) refl)

  -- On a volume, for an inode of the table that is empty and whose direct pointers agree with the bitmap,
  -- `copyin` of a host file of 1 to 20480 bytes and then `copyout` to a file that can be written succeed,
  -- when each may make two rounds or more. The file that is written holds the first bytes of the one that
  -- was read, as many as `copyin` wrote: all of them, or those for which the disk had free blocks.
  pub copyout-copyin :
      (written : ℕ) × (fs' : FileSystem) × (fs'' : FileSystem) × (printed : List Message)
      × (out : Stream) × (copyin host (suc (suc rounds)) fs path n ≡ returns (true, printed, fs'))
      × (copyout host (suc (suc rounds)) fs' n path'
          ≡ returns (true, wrote path' out ∷ bytes_copied written ∷ [], fs''))
      × ((written ≡ stream.count) ⊎ AllTaken fs'.free_bitmap 0 fs'.num_blocks)
      × (written ≤ stream.count)
      × Holds stream.bytes written out
  copyout-copyin =
      let k = stream.count - 1 in
      let counted : stream.count ≡ suc k = omega arith in
      let buffer = filled_buffer stream in
      let (written, fs', writes, le, is) =
        write_lem vol n file buffer (suc k) 0 (omega arith) (omega arith) in
      let (t, copies) = copyin_step vol n file stream k counted small rounds written fs' writes in
      let (r, reads) =
        read_back is file.listed (omega arith) blank buffer_size (omega (arith, is.size_after)) in
      let (out, fs'', copies', holds) =
        copyout_step is file.listed (omega arith) empty rounds r written refl reads in
      (
        written,
        fs',
        fs'',
        troubles t ++ (bytes_copied written ∷ []),
        out,
        copyin_run t written fs' copies,
        copyout_run written fs' fs'' out copies',
        (elim is.all_or_full [ inl e ↦ inl (omega arith) | inr all ↦ inr all ]),
        omega arith,
        record {
          all_counted = holds.all_counted;
          same = λ i h.
              holds.same i h
              ∙ copied blank stream.bytes (min buffer_size (stream.count - 0)) i (omega arith);
        },
      )
