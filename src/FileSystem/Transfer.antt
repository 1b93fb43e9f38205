-- ===== src/FileSystem/Transfer.antt =====
-- Assignment7/lab7/src/library/fs.cpp: `read` and `write`. A buffer of the caller is its bytes; a block
-- that has not been filled yet is none, and a use of it is undefined.
use cs232_operating_systems.Common.{
  ℕ, zero, suc, ◌+◌, ◌-◌, ◌/◌, ◌%◌, min, ◌&&◌, Option, none, some, get_elem?, ltb, leb, ◌==◌,
  if◌then◌else◌, Outcome, returns, undefined, ◌>>=◌,
}
use cs232_operating_systems.Common.Int.{ℤ, pos, negsuc}
use cs232_operating_systems.FileSystem.Block.{
  Block, Inode, word, pointers_per_inode, pointers_per_block,
}
use cs232_operating_systems.FileSystem.Emulator.{Disk, disk_read}
use cs232_operating_systems.FileSystem.State.{FileSystem, load_inode}

abbrev pub Buffer : Type 0
Buffer = ℕ → ℕ

abbrev pub block_size : ℕ
block_size = 4096

-- `memcpy(to + at, from + start, n)`.
abbrev pub copy : Buffer → ℕ → Buffer → ℕ → ℕ → Buffer
copy to at from start n i = if leb at i && ltb i (at + n) then from (start + (i - at)) else to i

-- Where a round begins in its block, and how many bytes it moves, when `done` are moved.
abbrev pub round_offset : ℕ → ℕ → ℕ
round_offset offset done = if done == 0 then offset % block_size else 0

abbrev pub round_length : ℕ → ℕ → ℕ → ℕ
round_length length offset done =
    if done == 0
    then min (block_size - offset % block_size) length
    else min (block_size - 0) (length - done)

-- `Pointers[k]` of a block that may not be filled.
abbrev pub pointer : Option Block → ℕ → Outcome ℕ
pointer none k = undefined
pointer (some b) k = if ltb k pointers_per_block then returns (word b k) else undefined

abbrev pub direct_pointer : Inode → ℕ → Outcome ℕ
direct_pointer node k = elim (get_elem? node.direct k) [ none ↦ undefined | some p ↦ returns p ]

abbrev pub block_to_read : Inode → Option Block → ℕ → Outcome ℕ
block_to_read node indirect block_num =
    if ltb block_num pointers_per_inode
    then direct_pointer node block_num
    else pointer indirect (block_num - pointers_per_inode)

-- The loop of `read`, on fuel; -2 would tell that it ran out, which `read` never returns.
unfoldable pub read_loop :
    Inode → Option Block → ℕ → ℕ → (fuel : ℕ) → ℕ → ℕ → Buffer → Disk → Outcome (ℤ × Buffer × Disk)
read_loop node indirect length offset zero block_num done to d = returns (negsuc 1, to, d)
read_loop node indirect length offset (suc fuel) block_num done to d =
    if ltb done length
    then (do
      p ← block_to_read node indirect block_num
      if p == 0 then returns (negsuc 0, to, d) else (do
        (b, d') ← disk_read d p
        let n = round_length length offset done in
            let to' = copy to done b (round_offset offset done) n in
            read_loop node indirect length offset fuel (suc block_num) (done + n) to' d'))
    else returns (pos done, to, d)

-- `read`, once the inode is loaded and the offset is within it.
unfoldable pub read_inode : Inode → ℕ → ℕ → Buffer → Disk → Outcome (ℤ × Buffer × Disk)
read_inode node length offset to d =
    let length' = min length (node.size - offset) in
    let start_block = offset / block_size in
    if ltb pointers_per_inode ((offset + length') / block_size)
    then if node.indirect == 0 then returns (negsuc 0, to, d) else (do
      (b, d) ← disk_read d node.indirect
      read_loop node (some b) length' offset (suc length') start_block 0 to d)
    else read_loop node none length' offset (suc length') start_block 0 to d

unfoldable pub read :
    FileSystem → ℕ → Buffer → (length offset : ℕ) → Outcome (ℤ × Buffer × FileSystem)
read fs inumber to length offset = do
  (loaded, fs) ← load_inode fs inumber
  elim loaded [
    | none ↦ returns (negsuc 0, to, fs)
    | some node ↦ if ltb node.size offset then returns (negsuc 0, to, fs) else (do
      (result, to', d) ← read_inode node length offset to fs.disk
      returns (result, to', record fs { disk = d }))
  ]
