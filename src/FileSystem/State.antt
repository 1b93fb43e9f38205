-- ===== src/FileSystem/State.antt =====
-- Assignment7/lab7/src/library/fs.cpp: the state of the class `FileSystem` and its private functions.
-- The one disk stands in the state; `free_bitmap` is read and written within its size, and an access
-- outside is undefined.
use cs232_operating_systems.Common.{
  ℕ, zero, suc, ◌+◌, ◌/◌, ◌%◌, Bool, true, false, Option, none, some, List, length, get_elem?, set,
  ltb, ◌==◌, if◌then◌else◌, Outcome, returns, undefined, ◌>>=◌,
}
use cs232_operating_systems.FileSystem.Block.{Inode, inode, put_inode, inodes_per_block, blank}
use cs232_operating_systems.FileSystem.Emulator.{Disk, disk_read, disk_write}

pub record FileSystem : Type 0 where
  pub disk : Disk
  pub num_blocks : ℕ
  pub num_inode_blocks : ℕ
  pub num_inodes : ℕ
  pub free_bitmap : List ℕ

-- The inode that `load_inode` stores, or none where it returns false.
unfoldable pub load_inode : FileSystem → ℕ → Outcome (Option Inode × FileSystem)
load_inode fs inumber =
    let block_number = 1 + inumber / inodes_per_block in
    if ltb inumber fs.num_inodes
    then (do
      (block, disk) ← disk_read fs.disk block_number
      returns (some (inode block (inumber % inodes_per_block)), record fs { disk = disk }))
    else returns (none, fs)

unfoldable pub save_inode : FileSystem → ℕ → Inode → Outcome (Bool × FileSystem)
save_inode fs inumber node =
    let block_number = 1 + inumber / inodes_per_block in
    if ltb inumber fs.num_inodes
    then (do
      (block, disk) ← disk_read fs.disk block_number
      disk ← disk_write disk block_number (put_inode block (inumber % inodes_per_block) node)
      returns (true, record fs { disk = disk }))
    else returns (false, fs)

-- `free_bitmap[i] = v`.
unfoldable pub mark : List ℕ → ℕ → ℕ → Outcome (List ℕ)
mark bitmap i v = if ltb i (length bitmap) then returns (set bitmap i v) else undefined

-- The loop of `allocate_free_block`, with `n` rounds left: the first block from `i` on that is free.
unfoldable pub free_from : List ℕ → ℕ → ℕ → Outcome (Option ℕ)
free_from bitmap i zero = returns none
free_from bitmap i (suc n) =
    let rest = free_from bitmap (suc i) n in
    elim (get_elem? bitmap i) [
      | none ↦ undefined
      | some free ↦ if free == 0 then rest else returns (some i)
    ]

-- `allocate_free_block`, with none for -1. A number that is negative as an `int` is no block of the
-- disk, and `disk_write` throws.
unfoldable pub allocate_free_block : FileSystem → Outcome (Option ℕ × FileSystem)
allocate_free_block fs = do
  found ← free_from fs.free_bitmap 0 fs.num_blocks
  elim found [
    | none ↦ returns (none, fs)
    | some block ↦ do
      bitmap ← mark fs.free_bitmap block 0
      disk ← disk_write fs.disk block blank
      returns (some block, record fs { disk = disk; free_bitmap = bitmap })
  ]
