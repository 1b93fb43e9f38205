-- ===== src/FileSystem/Tests.antt =====
-- Runs of Assignment7/lab7/src/library/fs.cpp and its shell on the disk of ten blocks.
use cs232_operating_systems.Common.{ap}
use cs232_operating_systems.Common.{
  ℕ, ◌-◌, ◌%◌, ◌≤◌, ◌<◌, ◌≡◌, refl, sym, subst, arith, true, false, not, ◌&&◌, some, [], ◌∷◌,
  get_or, assign, min, ◌==◌, if◌then◌else◌, returns, aborts, undefined, ◌⊎◌,
}
use cs232_operating_systems.Common.Int.{ℤ, pos}
use cs232_operating_systems.FileSystem.Writing.{write}
use cs232_operating_systems.FileSystem.WriteSettle.{Written}
use cs232_operating_systems.FileSystem.WriteFile.{write_lem}
use cs232_operating_systems.FileSystem.ReadBack.{read-write}
use cs232_operating_systems.FileSystem.Transfer.{copy}
use cs232_operating_systems.FileSystem.Commands.{
  Stream, Message, wrote, bytes_copied, copyin, copyout,
}
use cs232_operating_systems.FileSystem.CopyBack.{Holds, copyout-copyin}
use cs232_operating_systems.FileSystem.Allocation.{AllTaken}
use cs232_operating_systems.Common.{List, [], ◌∷◌, none}
use cs232_operating_systems.FileSystem.Block.{blank}
use cs232_operating_systems.FileSystem.Emulator.{Disk, disk_read, disk_write, disk_access}
use cs232_operating_systems.FileSystem.State.{FileSystem, load_inode, save_inode}
use cs232_operating_systems.FileSystem.Format.{format, mount}
use cs232_operating_systems.FileSystem.Operations.{fresh_inode, create, removed_inode, remove}
use cs232_operating_systems.FileSystem.Table.{
  IsVolume, SameData, inode_at, with_disk, load_inode-save_inode,
}
use cs232_operating_systems.FileSystem.Mounting.{IsFresh, mount-format}
use cs232_operating_systems.FileSystem.Formatting.{Agree}
use cs232_operating_systems.FileSystem.Creation.{FirstFree, record_at, create_lem}
use cs232_operating_systems.FileSystem.Removal.{member, blocks_held, remove_lem}
use cs232_operating_systems.FileSystem.Transfer.{read}
use cs232_operating_systems.FileSystem.Reading.{filled}
use cs232_operating_systems.FileSystem.ReadFile.{place_of, ends_in_sixth, read_lem}
use cs232_operating_systems.FileSystem.Console.{run_line, command_of, words}
use cs232_operating_systems.FileSystem.Commands.{list_of_commands}
use cs232_operating_systems.Common.{text_eq}
use cs232_operating_systems.FileSystem.Samples.{
  closed, two_blocks, two_blocks-IsInode, volume, volume-IsVolume, number_three, three_valid,
  three_below, three-HasBlocks, three-IsFile, three_near, two_empty, two-IsFile, host_file, host,
}

disk_access_example :
    (disk_read volume.disk 10 ≡ aborts) × (disk_write volume.disk 10 blank ≡ aborts)
disk_access_example = disk_access volume.disk 10 blank (omega arith) (omega arith)

load_inode-save_inode_example :
    (fs' fs'' : FileSystem) × (save_inode volume 2 two_blocks ≡ returns (true, fs'))
    × (load_inode fs' 3 ≡ returns (some (inode_at volume 3), fs''))
load_inode-save_inode_example =
    load_inode-save_inode volume-IsVolume 2 3 two_blocks two_blocks-IsInode (omega arith)
      (omega arith)

mount-format_example :
    (d : Disk) × (fs' : FileSystem) × (format closed.disk ≡ returns (true, d))
    × ((Agree 10
          × (mount (with_disk closed d) ≡ returns (true, fs'))
          × (fs'.num_blocks ≡ 10)
          × IsFresh fs')
        ⊎ ((0 < 10 % 10) × (10 % 10 < 5) × (mount (with_disk closed d) ≡ returns (false, fs'))))
mount-format_example = mount-format closed refl (omega arith) (omega arith)

create_lem_example :
    (ind : ℤ) × (fs' : FileSystem) × (create volume ≡ returns (ind, fs'))
    × FirstFree (inode_at volume) 0 128 ind
    × IsVolume fs'
    × (fs'.free_bitmap ≡ volume.free_bitmap)
    × SameData volume fs'
    × ((m : ℕ) → inode_at fs' m ≡ record_at (inode_at volume) ind fresh_inode m)
create_lem_example = create_lem volume-IsVolume

remove_lem_example :
    (fs' : FileSystem) × (remove volume 3 ≡ returns (true, fs'))
    × IsVolume fs'
    × SameData volume fs'
    × ((m : ℕ) → inode_at fs' m ≡ assign (inode_at volume) 3 removed_inode m)
    × ((k : ℕ)
        → get_or fs'.free_bitmap k 0 ≡ (
            if not (k == 0) && member k (blocks_held volume.disk (inode_at volume 3))
            then 1
            else get_or volume.free_bitmap k 0))
remove_lem_example = remove_lem volume-IsVolume 3 (omega arith) three_valid three_below

read_lem_example :
    let length = min 100 ((inode_at volume 3).size - 4000) in
    (r : ℕ) × (read volume 3 blank 100 4000 ≡ (
      if ends_in_sixth 4000 length
      then undefined
      else returns (
        pos length,
        filled volume.disk (place_of volume.disk (inode_at volume 3)) 4000 length 0 blank,
        with_disk volume (record volume.disk { reads = r }),
      )))
read_lem_example =
    read_lem volume-IsVolume 3 (omega arith) 100 4000 blank
      (subst (λ node. 4000 ≤ node.size) (sym number_three) (omega arith)) three-HasBlocks

-- 4000 bytes from byte 4500 on reach into a third block.
write_lem_example :
    (written : ℕ) × (fs' : FileSystem) × (write volume 3 (λ i. i % 7) 4000 4500
      ≡ returns (pos written, fs'))
    × (written ≤ 4000)
    × Written volume 3 (λ i. i % 7) 4500 4000 written fs'
write_lem_example =
    write_lem volume-IsVolume 3 three-IsFile (λ i. i % 7) 4000 4500 three_near (omega arith)

read-write_example :
    (written : ℕ) × (fs' : FileSystem) × (r : ℕ) × (write volume 3 (λ i. i % 7) 4000 4500
      ≡ returns (pos written, fs'))
    × (read fs' 3 blank written 4500
        ≡ returns (
          pos written,
          copy blank 0 (λ i. i % 7) 0 written,
          with_disk fs' (record fs'.disk { reads = r }),
        ))
read-write_example =
    read-write volume-IsVolume 3 three-IsFile (λ i. i % 7) blank 4000 4500 three_near (omega arith)

copyout-copyin_example :
    (written : ℕ) × (fs' : FileSystem) × (fs'' : FileSystem) × (printed : List Message)
    × (out : Stream) × (copyin host 2 volume (97 ∷ []) 2 ≡ returns (true, printed, fs'))
    × (copyout host 2 fs' 2 (98 ∷ [])
        ≡ returns (true, wrote (98 ∷ []) out ∷ bytes_copied written ∷ [], fs''))
    × ((written ≡ 9000) ⊎ AllTaken fs'.free_bitmap 0 fs'.num_blocks)
    × (written ≤ 9000)
    × Holds host_file.bytes written out
copyout-copyin_example =
    copyout-copyin volume-IsVolume 2 two-IsFile (ap (λ node. node.size) two_empty) host host_file
      (97 ∷ []) (98 ∷ []) refl refl (omega arith) (omega arith) 0

-- A blank line leaves the command of the line before in place, and `help` runs again.
stale_line :
    run_line host 2
      (record { fs = volume; cmd = some (104 ∷ 101 ∷ 108 ∷ 112 ∷ []); arg1 = none; arg2 = none })
      (10 ∷ [])
    ≡ returns (
      list_of_commands ∷ [],
      some (record {
        fs = volume;
        cmd = some (104 ∷ 101 ∷ 108 ∷ 112 ∷ []);
        arg1 = none;
        arg2 = none;
      }),
    )
unfolding run_line command_of text_eq words
stale_line = refl
