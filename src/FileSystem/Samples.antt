-- ===== src/FileSystem/Samples.antt =====
-- A disk of ten blocks with a file of two blocks, for Assignment7/lab7/src/library/fs.cpp.
use cs232_operating_systems.Common.{
  ℕ, zero, suc, ◌-◌, ◌*◌, ◌%◌, ◌≤◌, ◌<◌, ◌≡◌, ◌≢◌, refl, sym, subst, arith, true, some, [], ◌∷◌,
  get_or, min,
}
use cs232_operating_systems.Common.{get_or-replicate}
use cs232_operating_systems.FileSystem.Owning.{OwnsBlocks}
use cs232_operating_systems.FileSystem.WriteFile.{IsFile}
use cs232_operating_systems.FileSystem.Commands.{Stream, Host}
use cs232_operating_systems.FileSystem.Removal.{removed-IsInode}
use cs232_operating_systems.FileSystem.Layout.{inode-put_inode_ne}
use cs232_operating_systems.Common.{[], ◌∷◌}
use cs232_operating_systems.FileSystem.Block.{inode, word, words_from}
use cs232_operating_systems.FileSystem.Block.{Block, blank, Inode, put_inode}
use cs232_operating_systems.FileSystem.Emulator.{disk_open}
use cs232_operating_systems.FileSystem.Layout.{IsInode, AllSmall, inode-put_inode_self}
use cs232_operating_systems.FileSystem.State.{FileSystem}
use cs232_operating_systems.FileSystem.Operations.{removed_inode}
use cs232_operating_systems.FileSystem.Table.{IsVolume, inode_at}
use cs232_operating_systems.FileSystem.Removal.{AllBelow, blocks_held}
use cs232_operating_systems.FileSystem.ReadFile.{place_of, HasBlocks}

-- Before `mount`.
abbrev pub closed : FileSystem
closed = record {
  disk = disk_open (λ k. blank) 10;
  num_blocks = 0;
  num_inode_blocks = 0;
  num_inodes = 0;
  free_bitmap = [];
}

-- 5000 bytes in blocks 2 and 3.
abbrev pub two_blocks : Inode
two_blocks = record { valid = 1; size = 5000; direct = 2 ∷ 3 ∷ 0 ∷ 0 ∷ 0 ∷ []; indirect = 0 }

pub two_blocks-IsInode : IsInode two_blocks
unfolding AllSmall
two_blocks-IsInode = record {
  valid_small = omega arith;
  size_small = omega arith;
  direct_length = refl;
  direct_small = (omega arith, (omega arith, (omega arith, (omega arith, (omega arith, tt)))));
  indirect_small = omega arith;
}

-- Byte `i` of block 2 and of block 3 is `i % 256`.
abbrev pub file_contents : ℕ → Block
file_contents zero = blank
file_contents (suc zero) = put_inode blank 3 two_blocks
file_contents (suc (suc k)) = λ i. i % 256

-- The file is number 3.
abbrev pub volume : FileSystem
volume = record {
  disk = disk_open file_contents 10;
  num_blocks = 10;
  num_inode_blocks = 1;
  num_inodes = 128;
  free_bitmap = 0 ∷ 0 ∷ 0 ∷ 0 ∷ 1 ∷ 1 ∷ 1 ∷ 1 ∷ 1 ∷ 1 ∷ [];
}

pub volume-IsVolume : IsVolume volume
volume-IsVolume = record {
  small = omega arith;
  tables = omega arith;
  inodes = refl;
  few = omega arith;
  bitmap = refl;
  within = omega arith;
}

pub number_three : inode_at volume 3 ≡ two_blocks
number_three = inode-put_inode_self blank 3 two_blocks two_blocks-IsInode

pub three_valid : (inode_at volume 3).valid ≢ 0
three_valid = subst (λ node. node.valid ≢ 0) (sym number_three) (λ e. omega arith)

pub three_below : AllBelow 10 (blocks_held volume.disk (inode_at volume 3))
unfolding AllBelow
three_below =
    subst (λ node. AllBelow 10 (blocks_held volume.disk node)) (sym number_three)
      (omega arith, (omega arith, (omega arith, (omega arith, (omega arith, tt)))))

pub placed_two :
    (k : ℕ)
    → 4096 * k < 4100
    → (0 < place_of volume.disk two_blocks k) × (place_of volume.disk two_blocks k < 10)
placed_two zero h = (omega arith, omega arith)
placed_two (suc zero) h = (omega arith, omega arith)
placed_two (suc (suc k)) h = absurd (omega arith)

pub three-HasBlocks :
    HasBlocks volume.disk (inode_at volume 3) 4000 (min 100 ((inode_at volume 3).size - 4000))
three-HasBlocks =
    subst (λ node. HasBlocks volume.disk node 4000 (min 100 (node.size - 4000))) (sym number_three)
      (record {
        placed = λ k some_byte lo hi. placed_two k (omega arith);
        indirect_placed = λ h. absurd (omega arith);
        in_reach = omega arith;
      })

-- Behind its two blocks the file has none.
pub no_more : (k : ℕ) → get_or two_blocks.direct (suc (suc k)) 0 ≡ 0
no_more k = get_or-replicate 3 k 0

pub two_blocks_reserved : (j : ℕ) → j ≤ 1 → get_or volume.free_bitmap j 0 ≡ 0
two_blocks_reserved zero h = refl
two_blocks_reserved (suc zero) h = refl
two_blocks_reserved (suc (suc j)) h = absurd (omega arith)

pub two_blocks_placed :
    (k : ℕ)
    → get_or two_blocks.direct k 0 ≢ 0
    → (1 < get_or two_blocks.direct k 0)
      × (get_or two_blocks.direct k 0 < 10)
      × (get_or volume.free_bitmap (get_or two_blocks.direct k 0) 0 ≡ 0)
two_blocks_placed zero h = (omega arith, omega arith, refl)
two_blocks_placed (suc zero) h = (omega arith, omega arith, refl)
two_blocks_placed (suc (suc k)) h = absurd (h (no_more k))

pub two_blocks_apart :
    (j k : ℕ)
    → j ≢ k
    → get_or two_blocks.direct j 0 ≢ 0
    → get_or two_blocks.direct j 0 ≢ get_or two_blocks.direct k 0
two_blocks_apart zero zero ne h = absurd (ne refl)
two_blocks_apart zero (suc zero) ne h = λ e. omega arith
two_blocks_apart zero (suc (suc k)) ne h = λ e. omega (arith, no_more k)
two_blocks_apart (suc zero) zero ne h = λ e. omega arith
two_blocks_apart (suc zero) (suc zero) ne h = absurd (ne refl)
two_blocks_apart (suc zero) (suc (suc k)) ne h = λ e. omega (arith, no_more k)
two_blocks_apart (suc (suc j)) k ne h = absurd (h (no_more j))

pub two_blocks-OwnsBlocks : OwnsBlocks volume two_blocks.direct
two_blocks-OwnsBlocks = record {
  five = refl;
  reserved = two_blocks_reserved;
  behind = λ k lt h. (two_blocks_placed k h).0;
  inside = λ k lt h. (two_blocks_placed k h).1;
  in_use = λ k lt h. (two_blocks_placed k h).2;
  apart = λ j k lt lt' ne h. two_blocks_apart j k ne h;
}

pub three-IsFile : IsFile volume 3
three-IsFile = record {
  listed = omega arith;
  fields = subst IsInode (sym number_three) two_blocks-IsInode;
  owned = subst (λ node. OwnsBlocks volume node.direct) (sym number_three) two_blocks-OwnsBlocks;
}

pub three_near : 4500 ≤ (inode_at volume 3).size
three_near = subst (λ node. 4500 ≤ node.size) (sym number_three) (omega arith)

-- Number 2 is empty.
pub two_empty : inode_at volume 2 ≡ removed_inode
unfolding inode word words_from
two_empty = inode-put_inode_ne blank 3 two_blocks 2 refl (omega arith)

pub removed_inode-OwnsBlocks : OwnsBlocks volume removed_inode.direct
removed_inode-OwnsBlocks = record {
  five = refl;
  reserved = two_blocks_reserved;
  behind = λ k lt h. absurd (h (get_or-replicate 5 k 0));
  inside = λ k lt h. absurd (h (get_or-replicate 5 k 0));
  in_use = λ k lt h. absurd (h (get_or-replicate 5 k 0));
  apart = λ j k lt lt' ne h. absurd (h (get_or-replicate 5 j 0));
}

pub two-IsFile : IsFile volume 2
two-IsFile = record {
  listed = omega arith;
  fields = subst IsInode (sym two_empty) removed-IsInode;
  owned = subst (λ node. OwnsBlocks volume node.direct) (sym two_empty) removed_inode-OwnsBlocks;
}

-- A file of 9000 bytes.
abbrev pub host_file : Stream
host_file = record { bytes = λ i. i % 11; count = 9000 }

abbrev pub host : Host
host = record { files = λ path. some host_file; writable = λ path. true }
