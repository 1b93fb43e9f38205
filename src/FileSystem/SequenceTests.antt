-- ===== src/FileSystem/SequenceTests.antt =====
-- Two writes on a volume of ten blocks that was just formatted, for Assignment7/lab7/src/library/fs.cpp.
use cs232_operating_systems.Common.{
  ℕ, zero, suc, ◌%◌, ◌<◌, ◌≡◌, refl, arith, [], ◌∷◌, get_or, leb, if◌then◌else◌, returns,
}
use cs232_operating_systems.Common.Int.{pos}
use cs232_operating_systems.FileSystem.Block.{blank, inodes_per_block}
use cs232_operating_systems.FileSystem.Emulator.{disk_open}
use cs232_operating_systems.FileSystem.State.{FileSystem}
use cs232_operating_systems.FileSystem.Transfer.{Buffer}
use cs232_operating_systems.FileSystem.Writing.{write}
use cs232_operating_systems.FileSystem.Table.{inode_at}
use cs232_operating_systems.FileSystem.Mounting.{IsFresh, inode-blank, get_or-replicate_in}
use cs232_operating_systems.FileSystem.Owning.{file_byte}
use cs232_operating_systems.FileSystem.WriteFile.{write_lem}
use cs232_operating_systems.FileSystem.Consistency.{IsConsistent}
use cs232_operating_systems.FileSystem.Calls.{Step, writes}
use cs232_operating_systems.FileSystem.Sequences.{
  Reach, none_yet, then_call, reach-IsConsistent, other_files_stay,
}

abbrev formatted : FileSystem
formatted = record {
  disk = disk_open (λ k. blank) 10;
  num_blocks = 10;
  num_inode_blocks = 1;
  num_inodes = 128;
  free_bitmap = 0 ∷ 0 ∷ 1 ∷ 1 ∷ 1 ∷ 1 ∷ 1 ∷ 1 ∷ 1 ∷ 1 ∷ [];
}

formatted_free : (k : ℕ) → k < 10 → get_or formatted.free_bitmap k 0 ≡ (if leb k 1 then 0 else 1)
formatted_free zero h = refl
formatted_free (suc zero) h = refl
formatted_free (suc (suc k)) h =
    let entry : get_or formatted.free_bitmap (suc (suc k)) 0 ≡ 1 =
      get_or-replicate_in 8 k 1 0 (omega arith) in
    rw entry (ground arith)

formatted-IsFresh : IsFresh formatted
formatted-IsFresh = record {
  volume = record {
    small = omega arith;
    tables = omega arith;
    inodes = refl;
    few = omega arith;
    bitmap = refl;
    within = omega arith;
  };
  tables_inside = omega arith;
  empty = λ n h. inode-blank (n % inodes_per_block);
  free = formatted_free;
}

abbrev sevens : Buffer
sevens = λ i. i % 7

formatted-IsConsistent : IsConsistent formatted
formatted-IsConsistent = reach-IsConsistent formatted-IsFresh none_yet

-- 6000 bytes of file 2.
first_call :
    (fs : FileSystem) × (written : ℕ) × (write formatted 2 sevens 6000 0
      ≡ returns (pos written, fs))
    × (fs.num_inodes ≡ 128)
first_call =
    let (written, fs, runs, le, is) =
      write_lem formatted-IsConsistent.volume 2 (formatted-IsConsistent.files 2 (omega arith))
        sevens 6000 0 (omega arith) (omega arith) in
    (fs, written, runs, is.same_inodes)

reach_first : Reach formatted first_call.0
reach_first = then_call 2 none_yet (
    writes sevens 6000 0 (pos (first_call.1)) (omega arith) (omega arith) (omega arith)
      (first_call.2))

reach-IsConsistent_example : IsConsistent first_call.0
reach-IsConsistent_example = reach-IsConsistent formatted-IsFresh reach_first

-- 100 bytes of file 5.
second_call : (fs : FileSystem) × Step first_call.0 5 fs
second_call =
    let con = reach-IsConsistent formatted-IsFresh reach_first in
    let inside : 5 < first_call.0.num_inodes = omega (arith, first_call.3) in
    let (written, fs, runs, le, is) =
      write_lem con.volume 5 (con.files 5 inside) sevens 100 0 (omega arith) (omega arith) in
    (fs, writes sevens 100 0 (pos written) inside (omega arith) (omega arith) runs)

other_files_stay_example :
    (inode_at second_call.0 2 ≡ inode_at first_call.0 2)
    × (file_byte second_call.0.disk (inode_at second_call.0 2).direct 4097
        ≡ file_byte first_call.0.disk (inode_at first_call.0 2).direct 4097)
other_files_stay_example =
    other_files_stay formatted-IsFresh 5 2 4097 reach_first second_call.1
      (omega (arith, first_call.3)) (omega arith) (omega arith)
