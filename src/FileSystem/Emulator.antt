-- ===== src/FileSystem/Emulator.antt =====
-- Assignment7/lab7/src/library/disk.cpp: the disk emulator. `open`, `ftruncate`, `lseek`, `read` and
-- `write` succeed here, so the file always holds all blocks; an exception that is thrown is caught
-- nowhere and ends the process.
use cs232_operating_systems.Common.{
  ℕ, ◌+◌, ◌-◌, ◌%◌, ◌^◌, ◌<◌, ◌≡◌, refl, arith, Bool, false, ltb, if◌then◌else◌, assign, Outcome,
  returns, aborts, lt→ltb, not, ◌||◌, lt-cases, inl, inr,
}
use cs232_operating_systems.Common.Int.{ℤ, pos, negsuc, ltb_ℤ, pos_part}
use cs232_operating_systems.FileSystem.Block.{Block}

pub record Disk : Type 0 where
  pub blocks : ℕ
  pub reads : ℕ
  pub writes : ℕ
  pub mounts : ℕ
  pub contents : ℕ → Block

-- `Disk::open`, on a file with these contents.
abbrev pub disk_open : (ℕ → Block) → ℕ → Disk
disk_open file nblocks = record {
  blocks = nblocks;
  reads = 0;
  writes = 0;
  mounts = 0;
  contents = file;
}

abbrev pub mounted : Disk → Bool
mounted d = ltb 0 d.mounts

abbrev pub mount_disk : Disk → Disk
mount_disk d = record d { mounts = (d.mounts + 1) % 2 ^ 64 }

abbrev pub unmount : Disk → Disk
unmount d = if mounted d then record d { mounts = d.mounts - 1 } else d

-- A number of 32 bits or more, passed as an `int`.
abbrev pub to_int : ℕ → ℤ
to_int n = let w = n % 2 ^ 32 in if ltb w (2 ^ 31) then pos w else negsuc (2 ^ 32 - w - 1)

-- `sanity_check`: whether it throws. No caller passes a null pointer.
abbrev pub sanity_check : Disk → ℤ → Bool
sanity_check d blocknum = ltb_ℤ blocknum (pos 0) || not (ltb_ℤ blocknum (to_int d.blocks))

abbrev pub count_read : Disk → Disk
count_read d = record d { reads = (d.reads + 1) % 2 ^ 64 }

abbrev pub put_block : Disk → ℕ → Block → Disk
put_block d n b = record d { writes = (d.writes + 1) % 2 ^ 64; contents = assign d.contents n b }

unfoldable pub disk_read : Disk → ℕ → Outcome (Block × Disk)
disk_read d n =
    let blocknum = to_int n in
    if sanity_check d blocknum
    then aborts
    else returns (d.contents (pos_part blocknum), count_read d)

unfoldable pub disk_write : Disk → ℕ → Block → Outcome Disk
disk_write d n b =
    let blocknum = to_int n in
    if sanity_check d blocknum then aborts else returns (put_block d (pos_part blocknum) b)

-- A disk whose number of blocks is not negative as an `int`.
abbrev pub IsSmall : Disk → Type 0
IsSmall d = d.blocks < 2 ^ 31

on_disk : (d : Disk) (n : ℕ) → IsSmall d → n < d.blocks → sanity_check d (to_int n) ≡ false
on_disk d n small h = ground arith

at_block : (d : Disk) (n : ℕ) → IsSmall d → n < d.blocks → pos_part (to_int n) ≡ n
at_block d n small h = ground arith

pub disk_read_lem :
    (d : Disk) (n : ℕ)
    → IsSmall d
    → n < d.blocks
    → disk_read d n ≡ returns (d.contents n, count_read d)
unfolding disk_read
disk_read_lem d n small h = rw (on_disk d n small h, at_block d n small h) refl

pub disk_write_lem :
    (d : Disk) (n : ℕ) (b : Block)
    → IsSmall d
    → n < d.blocks
    → disk_write d n b ≡ returns (put_block d n b)
unfolding disk_write
disk_write_lem d n b small h = rw (on_disk d n small h, at_block d n small h) refl

-- On a disk of less than 2^31 blocks, a number of 32 bits is read and written as a block if it is below
-- the number of blocks, and otherwise ends the process: also where it would be negative as an `int`.
pub disk_access :
    (d : Disk) (n : ℕ) (b : Block)
    → IsSmall d
    → n < 2 ^ 32
    → (disk_read d n ≡ (if ltb n d.blocks then returns (d.contents n, count_read d) else aborts))
      × (disk_write d n b ≡ (if ltb n d.blocks then returns (put_block d n b) else aborts))
unfolding disk_read disk_write
disk_access d n b small h = elim (lt-cases n d.blocks) [
  | inl on ↦ (
    rw (lt→ltb n d.blocks on) (disk_read_lem d n small on),
    rw (lt→ltb n d.blocks on) (disk_write_lem d n b small on),
  )
  | inr off ↦ (ground arith, ground arith)
]
