-- ===== src/FileSystem/Sequences.antt =====
-- Sequences of calls of Assignment7/lab7/src/library/fs.cpp on a volume that was just formatted.
use cs232_operating_systems.Common.{
  ℕ, ◌≤◌, ◌<◌, ◌≡◌, ◌≢◌, sym, ap, ◌∙◌, length, subst, arith, get_or, get_or-replicate,
}
use cs232_operating_systems.FileSystem.Layout.{IsInode}
use cs232_operating_systems.FileSystem.State.{FileSystem}
use cs232_operating_systems.FileSystem.Table.{inode_at}
use cs232_operating_systems.FileSystem.Removal.{removed-IsInode}
use cs232_operating_systems.FileSystem.Mounting.{IsFresh}
use cs232_operating_systems.FileSystem.Owning.{OwnsBlocks, file_byte}
use cs232_operating_systems.FileSystem.Consistency.{IsConsistent, pointer_of}
use cs232_operating_systems.FileSystem.Calls.{Step, Step-Keeps}

-- The states after any number of calls, each for any file.
pub data Reach (start : FileSystem) : FileSystem → Type 0 where
  none_yet : Reach start start
  then_call : {fs fs' : FileSystem} (n : ℕ) → Reach start fs → Step fs n fs' → Reach start fs'

module _ {fs : FileSystem} (fresh : IsFresh fs) where
  no_pointer : (n k : ℕ) → n < fs.num_inodes → pointer_of fs n k ≡ 0
  no_pointer n k h = ap (λ x. get_or x.direct k 0) (fresh.empty n h) ∙ get_or-replicate 5 k 0

  reserved_fresh :
      (j : ℕ)
      → fs.num_inode_blocks < fs.num_blocks
      → j ≤ fs.num_inode_blocks
      → get_or fs.free_bitmap j 0 ≡ 0
  reserved_fresh j within le = fresh.free j (omega arith) ∙ ground arith

  fresh-OwnsBlocks : (n : ℕ) → n < fs.num_inodes → OwnsBlocks fs (inode_at fs n).direct
  fresh-OwnsBlocks n h = record {
    five = ap (λ x. length x.direct) (fresh.empty n h);
    reserved = λ j le. reserved_fresh j fresh.tables_inside le;
    behind = λ k lt nz. absurd (nz (no_pointer n k h));
    inside = λ k lt nz. absurd (nz (no_pointer n k h));
    in_use = λ k lt nz. absurd (nz (no_pointer n k h));
    apart = λ j k lt lt' ne nz. absurd (nz (no_pointer n j h));
  }

  fresh-IsConsistent : IsConsistent fs
  fresh-IsConsistent = record {
    volume = fresh.volume;
    some_block = omega (arith, fresh.tables_inside);
    files = λ n h. record {
      listed = h;
      fields = subst IsInode (sym (fresh.empty n h)) removed-IsInode;
      owned = fresh-OwnsBlocks n h;
    };
    no_indirect = λ n h. ap (λ x. x.indirect) (fresh.empty n h);
    disjoint = λ n m j k hn hm ne lt lt' nz. absurd (nz (no_pointer n j hn));
  }

  -- After any calls on a volume without files, every pointer of a file that is not 0 is a block of the disk
  -- behind those of inodes that the bitmap calls taken, and no two pointers, of one file or of two, are the
  -- same block. The calls are any `create` and `remove`, writes that end within the first five blocks of
  -- a file, and reads of blocks that are there.
  pub reach-IsConsistent : {fs' : FileSystem} → Reach fs fs' → IsConsistent fs'
  reach-IsConsistent none_yet = fresh-IsConsistent
  reach-IsConsistent (then_call n before step) =
      (Step-Keeps (reach-IsConsistent before) n step).consistent

  -- After any calls of `create` and `remove`, of `write` within the first five blocks of a file and of
  -- `read` where the blocks are there, on a volume without files, a further such call for one file leaves
  -- the inode of every other file, and every byte of its first five blocks, as they were.
  pub other_files_stay :
      {fs' fs'' : FileSystem} (n m q : ℕ)
      → Reach fs fs'
      → Step fs' n fs''
      → m < fs'.num_inodes
      → m ≢ n
      → q < 20480
      → (inode_at fs'' m ≡ inode_at fs' m)
        × (file_byte fs''.disk (inode_at fs'' m).direct q
            ≡ file_byte fs'.disk (inode_at fs' m).direct q)
  other_files_stay n m q before step h ne lt =
      let keeps = Step-Keeps (reach-IsConsistent before) n step in
      (keeps.others m h ne, keeps.bytes m q h ne lt)
