-- ===== src/FileSystem/WriteFile.antt =====
-- What `write` of Assignment7/lab7/src/library/fs.cpp does to a file, within its first five blocks.
use cs232_operating_systems.Common.{
  ℕ, ◌+◌, ◌-◌, ◌/◌, ◌%◌, ◌^◌, min, ◌≤◌, ◌<◌, ◌≡◌, refl, arith, false, returns, ◌>>=◌, le→not-ltb,
  inl, inr,
}
use cs232_operating_systems.Common.Int.{pos}
use cs232_operating_systems.FileSystem.Block.{pointers_per_inode, pointers_per_block}
use cs232_operating_systems.FileSystem.Emulator.{count_read}
use cs232_operating_systems.FileSystem.Layout.{IsInode}
use cs232_operating_systems.FileSystem.State.{FileSystem}
use cs232_operating_systems.FileSystem.Transfer.{Buffer, block_size}
use cs232_operating_systems.FileSystem.Writing.{
  Write, begin, write_loop, finish, max_file_size, write,
}
use cs232_operating_systems.FileSystem.Table.{
  IsVolume, IsVolume-with, inode_at, with_disk, load_inode_lem,
}
use cs232_operating_systems.FileSystem.Owning.{OwnsBlocks}
use cs232_operating_systems.FileSystem.WriteLoop.{Running}
use cs232_operating_systems.FileSystem.WriteEnd.{write_loop_lem}
use cs232_operating_systems.FileSystem.WriteSettle.{Written, finish_lem}

-- The inode of a file that `write` is called for.
pub record IsFile (fs : FileSystem) (n : ℕ) : Type 0 where
  pub listed : n < fs.num_inodes
  pub fields : IsInode (inode_at fs n)
  pub owned : OwnsBlocks fs (inode_at fs n).direct

module _ {fs : FileSystem} (vol : IsVolume fs) (n : ℕ) (file : IsFile fs n) (from : Buffer)
    (length offset : ℕ) (near : offset ≤ (inode_at fs n).size)
    (within : offset + length ≤ 20480) where
  abbrev loaded : FileSystem
  loaded = with_disk fs (count_read fs.disk)

  start-Running : Running fs (inode_at fs n) from offset (begin (inode_at fs n) loaded)
  start-Running = record {
    sound = record {
      volume = IsVolume-with vol (count_read fs.disk) fs.free_bitmap refl refl;
      owns = record {
        five = file.owned.five;
        reserved = file.owned.reserved;
        behind = file.owned.behind;
        inside = file.owned.inside;
        in_use = file.owned.in_use;
        apart = file.owned.apart;
      };
      same_blocks = refl;
      same_tables = refl;
      same_inodes = refl;
      tables = λ k le. refl;
      bytes = λ q h. ground arith;
      reached = λ q lo hi. absurd (omega arith);
      shrinks = λ k e. e;
      origin = λ k h. inl refl;
      foreign = λ k is. refl;
    };
    same_valid = refl;
    same_size = refl;
    same_indirect = refl;
    no_indirect = refl;
    unmodified = λ h. refl;
  }

  clipped : min length ((max_file_size + 2 ^ 64 - offset) % 2 ^ 64) ≡ length
  clipped = omega arith

  write_step :
      (w : Write) (fs' : FileSystem)
      → write_loop from length offset
          (begin (inode_at fs n) loaded)
          (offset / block_size)
          (pointers_per_inode + pointers_per_block - offset / block_size)
        ≡ returns (false, w)
      → finish n offset w ≡ returns (pos w.written, fs')
      → write fs n from length offset ≡ returns (pos w.written, fs')
  unfolding write
  write_step w fs' ends finishes =
      rw (load_inode_lem vol n file.listed, ◌>>=◌)
        (rw (le→not-ltb (inode_at fs n).size offset near, clipped) (rw (ends, ◌>>=◌) finishes))

  -- On a volume, for an inode of the table whose direct pointers agree with the bitmap, an offset that is
  -- not past its size and a write that ends within its first five blocks, `write` returns the number of
  -- bytes written: all, or fewer where no block of the disk is free any more. Of the file exactly these
  -- bytes are then those of the buffer and the others as before, its size has grown to their end if it was
  -- less, and its pointers agree with the bitmap again. No other inode changes, and no block that was taken
  -- for something else.
  pub write_lem :
      (written : ℕ) × (fs' : FileSystem) × (write fs n from length offset
        ≡ returns (pos written, fs'))
      × (written ≤ length)
      × Written fs n from offset length written fs'
  write_lem =
      let node = inode_at fs n in
      let k = offset / block_size in
      let (w, ends, run, le, ended) =
        write_loop_lem fs node from offset length within
          (pointers_per_inode + pointers_per_block - k) k (begin node loaded) start-Running
          (omega arith) (inr (inl refl, omega arith)) (omega arith) in
      let (fs', finishes, is) = finish_lem run file.fields file.listed within le ended in
      (w.written, fs', write_step w fs' ends finishes, le, is)
