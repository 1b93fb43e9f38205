-- ===== src/FileSystem/Debug.antt =====
-- Assignment7/lab7/src/library/fs.cpp: `debug`, as the lines it prints.
use cs232_operating_systems.Common.{
  ℕ, zero, suc, ◌+◌, Bool, List, [], ◌∷◌, ◌++◌, ◌==◌, if◌then◌else◌, Outcome, returns, ◌>>=◌,
}
use cs232_operating_systems.FileSystem.Block.{
  Block, Inode, inode, super, words_from, magic_number, inodes_per_block, pointers_per_block,
}
use cs232_operating_systems.FileSystem.Emulator.{Disk, disk_read}

-- A line of `debug`, by the numbers in it.
pub data Line : Type 0 where
  super_block : Line
  magic_is_valid : Bool → Line
  blocks : ℕ → Line
  inode_blocks : ℕ → Line
  inodes : ℕ → Line
  inode_line : ℕ → Line
  size : ℕ → Line
  direct_blocks : List ℕ → Line
  indirect_block : ℕ → Line
  indirect_data_blocks : List ℕ → Line

-- The pointers that are not 0.
unfoldable pub used : List ℕ → List ℕ
used [] = []
used (p ∷ ps) = let rest = used ps in if p == 0 then rest else p ∷ rest

-- The lines on an indirect block, if it points to any.
abbrev pub indirect_lines : ℕ → List ℕ → List Line
indirect_lines indir [] = []
indirect_lines indir (p ∷ ps) = indirect_block indir ∷ indirect_data_blocks (p ∷ ps) ∷ []

unfoldable pub debug_inode : Disk → ℕ → Inode → Outcome (List Line × Disk)
debug_inode d i node = do
  (indirect, d) ← if node.indirect == 0 then returns ([], d) else (do
    (b, d) ← disk_read d node.indirect
    returns (used (words_from b 0 pointers_per_block), d))
  returns (
    inode_line i
        ∷ size node.size
        ∷ direct_blocks (used node.direct)
        ∷ indirect_lines node.indirect indirect,
    d,
  )

-- The inodes of one block, from number `i` with `n` rounds left. The number printed is that within
-- the block.
unfoldable pub debug_inodes : Disk → Block → ℕ → ℕ → Outcome (List Line × Disk)
debug_inodes d b i zero = returns ([], d)
debug_inodes d b i (suc n) = do
  (lines, d) ← if (inode b i).valid == 0 then returns ([], d) else debug_inode d i (inode b i)
  (rest, d) ← debug_inodes d b (suc i) n
  returns (lines ++ rest, d)

-- The blocks of inodes, from number `k` with `n` rounds left.
unfoldable pub debug_tables : Disk → ℕ → ℕ → Outcome (List Line × Disk)
debug_tables d k zero = returns ([], d)
debug_tables d k (suc n) = do
  (b, d) ← disk_read d (1 + k)
  (lines, d) ← debug_inodes d b 0 inodes_per_block
  (rest, d) ← debug_tables d (suc k) n
  returns (lines ++ rest, d)

unfoldable pub debug : Disk → Outcome (List Line × Disk)
debug d = do
  (b, d) ← disk_read d 0
  (lines, d) ← debug_tables d 0 (super b).inode_blocks
  returns (
    super_block
        ∷ magic_is_valid ((super b).magic == magic_number)
        ∷ blocks (super b).blocks
        ∷ inode_blocks (super b).inode_blocks
        ∷ inodes (super b).inodes
        ∷ lines,
    d,
  )
