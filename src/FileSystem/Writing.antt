-- ===== src/FileSystem/Writing.antt =====
-- Assignment7/lab7/src/library/fs.cpp: `write`.
use cs232_operating_systems.Common.{
  ℕ, zero, suc, ◌+◌, ◌-◌, ◌*◌, ◌/◌, ◌%◌, ◌^◌, min, max, Bool, true, false, Option, none, some, set,
  ltb, ◌==◌, if◌then◌else◌, Outcome, returns, undefined, ◌>>=◌,
}
use cs232_operating_systems.Common.Int.{ℤ, pos, negsuc}
use cs232_operating_systems.FileSystem.Block.{
  Block, Inode, put_word, blank, pointers_per_inode, pointers_per_block,
}
use cs232_operating_systems.FileSystem.Emulator.{disk_read, disk_write}
use cs232_operating_systems.FileSystem.State.{
  FileSystem, load_inode, save_inode, allocate_free_block,
}
use cs232_operating_systems.FileSystem.Transfer.{
  Buffer, block_size, copy, round_offset, round_length, pointer, direct_pointer,
}

-- The variables of `write`. `indirect` is none until `read_indirect` is set.
pub record Write : Type 0 where
  pub node : Inode
  pub indirect : Option Block
  pub modified_inode : Bool
  pub modified_indirect : Bool
  pub written : ℕ
  pub fs : FileSystem

abbrev pub begin : Inode → FileSystem → Write
begin node fs = record {
  node = node;
  indirect = none;
  modified_inode = false;
  modified_indirect = false;
  written = 0;
  fs = fs;
}

-- What the first half of a round comes to: a block to write, a `break`, or the `return` in it.
pub data Target : Type 0 where
  chosen : ℕ → Target
  breaks : Target
  leaves : Target

abbrev pub locate_direct : Write → ℕ → Outcome (Target × Write)
locate_direct w block_num = do
  p ← direct_pointer w.node block_num
  if p == 0
      then (do
        (allocated, fs) ← allocate_free_block w.fs
        returns (elim allocated [
          | none ↦ (breaks, record w { fs = fs })
          | some a ↦ (
            chosen a,
            record w {
              node = record w.node { direct = set w.node.direct block_num a };
              modified_inode = true;
              fs = fs;
            },
          )
        ]))
      else returns (chosen p, w)

-- The indirect block, allocated if there is none.
abbrev pub need_indirect : Write → Outcome (Bool × Write)
need_indirect w =
    if w.node.indirect == 0
    then (do
      (allocated, fs) ← allocate_free_block w.fs
      returns (elim allocated [
        | none ↦ (false, record w { fs = fs })
        | some a ↦ (
          true,
          record w { node = record w.node { indirect = a }; modified_indirect = true; fs = fs },
        )
      ]))
    else returns (true, w)

-- The indirect block, read if it has not been.
abbrev pub fill_indirect : Write → Outcome (Block × Write)
fill_indirect w = elim w.indirect [
  | some b ↦ returns (b, w)
  | none ↦ do
    (b, d) ← disk_read w.fs.disk w.node.indirect
    returns (b, record w { indirect = some b; fs = record w.fs { disk = d } })
]

abbrev pub locate_pointer : Write → Block → ℕ → Outcome (Target × Write)
locate_pointer w b k = do
  p ← pointer (some b) k
  if p == 0
      then (do
        (allocated, fs) ← allocate_free_block w.fs
        returns (elim allocated [
          | none ↦ (breaks, record w { fs = fs })
          | some a ↦ (
            chosen a,
            record w { indirect = some (put_word b k a); modified_indirect = true; fs = fs },
          )
        ]))
      else returns (chosen p, w)

abbrev pub locate_indirect : Write → ℕ → Outcome (Target × Write)
locate_indirect w k = do
  (there, w) ← need_indirect w
  if there then (do (b, w) ← fill_indirect w; locate_pointer w b k) else returns (leaves, w)

abbrev pub locate : Write → ℕ → Outcome (Target × Write)
locate w block_num =
    if ltb block_num pointers_per_inode
    then locate_direct w block_num
    else locate_indirect w (block_num - pointers_per_inode)

-- The second half of a round: the block is read first unless all of it is written.
abbrev pub write_block : Buffer → ℕ → ℕ → Write → ℕ → Outcome Write
write_block from length offset w p =
    let n = round_length length offset w.written in
    do
      (old, d) ← if ltb n block_size then disk_read w.fs.disk p else returns (blank, w.fs.disk)
      d ← disk_write d p (copy old (round_offset offset w.written) from w.written n)
      returns (record w { written = w.written + n; fs = record w.fs { disk = d } })

-- The loop of `write`, from block `block_num` with `n` blocks below the last; the Boolean tells
-- whether it ends by `return`.
unfoldable pub write_loop : Buffer → ℕ → ℕ → Write → ℕ → (n : ℕ) → Outcome (Bool × Write)
write_loop from length offset w block_num zero = returns (false, w)
write_loop from length offset w block_num (suc n) =
    if ltb w.written length
    then (do
      (target, w) ← locate w block_num
      elim target [
        | chosen p ↦ do
          w ← write_block from length offset w p
          write_loop from length offset w (suc block_num) n
        | breaks ↦ returns (false, w)
        | leaves ↦ returns (true, w)
      ])
    else returns (false, w)

abbrev pub update_size : ℕ → Write → Write
update_size offset w =
    let new_size = max w.node.size (w.written + offset) % 2 ^ 32 in
    if new_size == w.node.size
    then w
    else record w { node = record w.node { size = new_size }; modified_inode = true }

-- What `write` does after the loop.
abbrev pub finish : ℕ → ℕ → Write → Outcome (ℤ × FileSystem)
finish inumber offset w₀ =
    let w = update_size offset w₀ in
    do
      (_, fs) ← if w.modified_inode then save_inode w.fs inumber w.node else returns (true, w.fs)
      disk ←
          if w.modified_indirect
          then elim w.indirect [ none ↦ undefined | some b ↦ disk_write fs.disk w.node.indirect b ]
          else returns fs.disk
      returns (pos w.written, record fs { disk = disk })

-- `MAX_FILE_SIZE`.
abbrev pub max_file_size : ℕ
max_file_size = block_size * (pointers_per_inode * pointers_per_block)

unfoldable pub write : FileSystem → ℕ → Buffer → (length offset : ℕ) → Outcome (ℤ × FileSystem)
write fs inumber from length offset = do
  (loaded, fs) ← load_inode fs inumber
  elim loaded [
    | none ↦ returns (negsuc 0, fs)
    | some node ↦
        if ltb node.size offset
        then returns (negsuc 0, fs)
        else let length' = min length ((max_file_size + 2 ^ 64 - offset) % 2 ^ 64) in
          let start_block = offset / block_size in
          let n = pointers_per_inode + pointers_per_block - start_block in
          do
            (left, w) ← write_loop from length' offset (begin node fs) start_block n
            if left then returns (pos w.written, w.fs) else finish inumber offset w
  ]
