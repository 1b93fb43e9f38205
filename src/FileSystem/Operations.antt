-- ===== src/FileSystem/Operations.antt =====
-- Assignment7/lab7/src/library/fs.cpp: `create`, `remove` and `stat`.
use cs232_operating_systems.Common.{
  ℕ, zero, suc, ◌+◌, ◌*◌, ◌-◌, ◌^◌, Bool, false, none, some, List, [], ◌∷◌, ◌==◌, if◌then◌else◌,
  replicate, Outcome, returns, ◌>>=◌,
}
use cs232_operating_systems.Common.Int.{ℤ, pos, negsuc}
use cs232_operating_systems.FileSystem.Block.{
  Block, Inode, inode, words_from, inodes_per_block, pointers_per_inode, pointers_per_block,
}
use cs232_operating_systems.FileSystem.Emulator.{Disk, disk_read, to_int}
use cs232_operating_systems.FileSystem.State.{FileSystem, load_inode, save_inode, mark}

abbrev pub is_minus_one : ℤ → Bool
is_minus_one (pos n) = false
is_minus_one (negsuc n) = n == 0

-- An `int` as a `size_t`.
abbrev pub to_size : ℤ → ℕ
to_size (pos n) = n
to_size (negsuc n) = 2 ^ 64 - suc n

-- The inner loop of `create`, from inode `i` with `n` rounds left: `ind` after it.
unfoldable pub free_inode : Block → ℕ → ℕ → ℕ → ℤ
free_inode b inode_block i zero = negsuc 0
free_inode b inode_block i (suc n) =
    let rest = free_inode b inode_block (suc i) n in
    if (inode b i).valid == 0 then to_int (i + inodes_per_block * inode_block) else rest

-- The outer loop, from block `k` with `n` rounds left.
unfoldable pub find_inode : Disk → ℕ → ℕ → Outcome (ℤ × Disk)
find_inode d k zero = returns (negsuc 0, d)
find_inode d k (suc n) = do
  (b, d) ← disk_read d (1 + k)
  let ind = free_inode b k 0 inodes_per_block in
      if is_minus_one ind then find_inode d (suc k) n else returns (ind, d)

-- The inode that `create` records.
abbrev pub fresh_inode : Inode
fresh_inode = record { valid = 1; size = 0; direct = replicate pointers_per_inode 0; indirect = 0 }

unfoldable pub create : FileSystem → Outcome (ℤ × FileSystem)
create fs = do
  (ind, d) ← find_inode fs.disk 0 fs.num_inode_blocks
  if is_minus_one ind then returns (negsuc 0, record fs { disk = d }) else (do
    (_, fs) ← save_inode (record fs { disk = d }) (to_size ind) fresh_inode
    returns (ind, fs))

-- `free_bitmap[p] = 1` for each pointer that is not 0.
unfoldable pub free_all : List ℕ → List ℕ → Outcome (List ℕ)
free_all bitmap [] = returns bitmap
free_all bitmap (p ∷ ps) = do
  bitmap ← if p == 0 then returns bitmap else mark bitmap p 1
  free_all bitmap ps

-- The part of `remove` for the indirect block.
unfoldable pub free_indirect : Disk → List ℕ → ℕ → Outcome (List ℕ × Disk)
free_indirect d bitmap p = if p == 0 then returns (bitmap, d) else (do
  bitmap ← mark bitmap p 1
  (b, d) ← disk_read d p
  bitmap ← free_all bitmap (words_from b 0 pointers_per_block)
  returns (bitmap, d))

-- The inode that `remove` records.
abbrev pub removed_inode : Inode
removed_inode = record {
  valid = 0;
  size = 0;
  direct = replicate pointers_per_inode 0;
  indirect = 0;
}

unfoldable pub remove : FileSystem → ℕ → Outcome (Bool × FileSystem)
remove fs inumber = do
  (loaded, fs) ← load_inode fs inumber
  elim loaded [
    | none ↦ returns (false, fs)
    | some node ↦ if node.valid == 0 then returns (false, fs) else (do
      bitmap ← free_all fs.free_bitmap node.direct
      (bitmap, d) ← free_indirect fs.disk bitmap node.indirect
      save_inode (record fs { disk = d; free_bitmap = bitmap }) inumber removed_inode)
  ]

unfoldable pub stat : FileSystem → ℕ → Outcome (ℤ × FileSystem)
stat fs inumber = do
  (loaded, fs) ← load_inode fs inumber
  elim loaded [
    | none ↦ returns (negsuc 0, fs)
    | some node ↦ returns (if node.valid == 0 then negsuc 0 else pos node.size, fs)
  ]
