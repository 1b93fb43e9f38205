-- ===== src/FileSystem/Format.antt =====
-- Assignment7/lab7/src/library/fs.cpp: `format` and `mount`. The number of blocks of inodes is worked out
-- in `float` and in `double` there; here in whole numbers, which agrees for up to 2^24 blocks.
use cs232_operating_systems.Common.{
  ℕ, zero, suc, ◌+◌, ◌*◌, ◌/◌, ◌%◌, ◌-◌, ◌^◌, Bool, true, false, ◌&&◌, List, [], ◌∷◌, replicate,
  ltb, ◌==◌, if◌then◌else◌, Outcome, returns, undefined, ◌>>=◌, take,
}
use cs232_operating_systems.FileSystem.Block.{
  Block, Inode, inode, SuperBlock, super, put_super, words_from, blank, inodes_per_block,
  pointers_per_inode, pointers_per_block, magic_number,
}
use cs232_operating_systems.FileSystem.Emulator.{Disk, disk_read, disk_write, mounted, mount_disk}
use cs232_operating_systems.FileSystem.State.{FileSystem, mark}

-- `(size_t)(((float)size * 0.1) + 0.5)`: a tenth, rounded to the nearest.
abbrev pub rounded_tenth : ℕ → ℕ
rounded_tenth size = (size + 5) / 10

-- `ceil(.1 * blocks)`: a tenth, rounded up.
abbrev pub tenth_up : ℕ → ℕ
tenth_up blocks = (blocks + 9) / 10

-- The superblock that `format` writes.
abbrev pub fresh_super : ℕ → SuperBlock
fresh_super size = record {
  magic = magic_number;
  blocks = size % 2 ^ 32;
  inode_blocks = rounded_tenth size % 2 ^ 32;
  inodes = inodes_per_block * (rounded_tenth size % 2 ^ 32) % 2 ^ 32;
}

-- The loop of `format`, from block `i` with `n` rounds left.
unfoldable pub clear_from : Disk → ℕ → ℕ → Outcome Disk
clear_from d i zero = returns d
clear_from d i (suc n) = do d ← disk_write d i blank; clear_from d (suc i) n

unfoldable pub format : Disk → Outcome (Bool × Disk)
format d = if mounted d then returns (false, d) else (do
  d' ← disk_write d 0 (put_super blank (fresh_super d.blocks))
  d' ← clear_from d' 1 (d.blocks % 2 ^ 32 - 1)
  returns (true, d'))

-- The tests of `mount` on the superblock. `Blocks < 0` is of an unsigned number and never holds.
abbrev pub accepts : SuperBlock → Bool
accepts s =
    s.inodes == s.inode_blocks * inodes_per_block % 2 ^ 32
    && s.magic == magic_number
    && s.inode_blocks == tenth_up s.blocks

-- `free_bitmap[p] = 0` for each pointer in turn.
unfoldable pub mark_all : List ℕ → List ℕ → Outcome (List ℕ)
mark_all bitmap [] = returns bitmap
mark_all bitmap (p ∷ ps) = do bitmap ← mark bitmap p 0; mark_all bitmap ps

-- `ceil(Size / (double)BLOCK_SIZE)`.
abbrev pub blocks_of : ℕ → ℕ
blocks_of size = (size + 4095) / 4096

-- The blocks of one inode that is valid. A size that asks for more pointers than a block holds makes
-- the loop read past the block.
unfoldable pub mark_inode : Disk → List ℕ → Inode → Outcome (List ℕ × Disk)
mark_inode d bitmap node =
    let n_blocks = blocks_of node.size in
    let n_pointers = n_blocks - pointers_per_inode in
    do
      bitmap ← mark_all bitmap (take n_blocks node.direct)
      if ltb pointers_per_inode n_blocks
          then (do
            (pointers, d) ← disk_read d node.indirect
            bitmap ← mark bitmap node.indirect 0
            bitmap ←
                if ltb pointers_per_block n_pointers
                then undefined
                else mark_all bitmap (words_from pointers 0 n_pointers)
            returns (bitmap, d))
          else returns (bitmap, d)

-- The inodes of one block, from number `i` with `n` rounds left.
unfoldable pub mark_inodes : Disk → List ℕ → Block → ℕ → ℕ → Outcome (List ℕ × Disk)
mark_inodes d bitmap b i zero = returns (bitmap, d)
mark_inodes d bitmap b i (suc n) = do
  (bitmap, d) ←
      if (inode b i).valid == 0 then returns (bitmap, d) else mark_inode d bitmap (inode b i)
  mark_inodes d bitmap b (suc i) n

-- The blocks of inodes, from number `k` with `n` rounds left.
unfoldable pub mark_tables : Disk → List ℕ → ℕ → ℕ → Outcome (List ℕ × Disk)
mark_tables d bitmap k zero = returns (bitmap, d)
mark_tables d bitmap k (suc n) = do
  (b, d) ← disk_read d (1 + k)
  (bitmap, d) ← mark_inodes d bitmap b 0 inodes_per_block
  mark_tables d bitmap (suc k) n

-- The loop that reserves the blocks of inodes, from number `k` with `n` rounds left.
unfoldable pub reserve : List ℕ → ℕ → ℕ → Outcome (List ℕ)
reserve bitmap k zero = returns bitmap
reserve bitmap k (suc n) = do bitmap ← mark bitmap (1 + k) 0; reserve bitmap (suc k) n

-- The rest of `mount`, once the superblock is accepted.
unfoldable pub load_disk : Disk → SuperBlock → Outcome (Bool × FileSystem)
load_disk d s = do
  bitmap ← mark (replicate s.blocks 1) 0 0
  bitmap ← reserve bitmap 0 s.inode_blocks
  (bitmap, d) ← mark_tables (mount_disk d) bitmap 0 s.inode_blocks
  returns (
    true,
    record {
      disk = d;
      num_blocks = s.blocks;
      num_inode_blocks = s.inode_blocks;
      num_inodes = s.inodes;
      free_bitmap = bitmap;
    },
  )

-- The rest of `mount`, once the superblock is read.
unfoldable pub mount_super : FileSystem → Disk → SuperBlock → Outcome (Bool × FileSystem)
mount_super fs d s = if accepts s then load_disk d s else returns (false, record fs { disk = d })

-- `mount`, on the disk of the state.
unfoldable pub mount : FileSystem → Outcome (Bool × FileSystem)
mount fs =
    if mounted fs.disk
    then returns (false, fs)
    else (do (block, d) ← disk_read fs.disk 0; mount_super fs d (super block))
