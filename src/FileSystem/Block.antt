-- ===== src/FileSystem/Block.antt =====
-- Assignment7/lab7/include/sfs/fs.h: `union Block`, as its bytes, and what its other members read
-- and write: words of 32 bits with the low byte first, the superblock and the inodes.
use cs232_operating_systems.Common.{
  ℕ, zero, suc, ◌+◌, ◌*◌, ◌/◌, ◌%◌, List, [], ◌∷◌, ◌==◌, if◌then◌else◌,
}

-- `Data`: the bytes, of which 0 to 4095 are there.
abbrev pub Block : Type 0
Block = ℕ → ℕ

abbrev pub inodes_per_block : ℕ
inodes_per_block = 128

abbrev pub pointers_per_inode : ℕ
pointers_per_inode = 5

abbrev pub pointers_per_block : ℕ
pointers_per_block = 1024

abbrev pub magic_number : ℕ
magic_number = 4042273808

-- A block of zeros, as `memset` leaves it.
abbrev pub blank : Block
blank i = 0

-- `Pointers[k]`.
unfoldable pub word : Block → ℕ → ℕ
word b k = b (4 * k) + 256 * b (4 * k + 1) + 65536 * b (4 * k + 2) + 16777216 * b (4 * k + 3)

-- The assignment of a word.
unfoldable pub put_word : Block → ℕ → ℕ → Block
put_word b k v i =
    if i == 4 * k
    then v % 256
    else if i == 4 * k + 1
    then v / 256 % 256
    else if i == 4 * k + 2
    then v / 65536 % 256
    else if i == 4 * k + 3
    then v / 16777216 % 256
    else b i

unfoldable pub words_from : Block → ℕ → ℕ → List ℕ
words_from b k zero = []
words_from b k (suc n) = word b k ∷ words_from b (suc k) n

unfoldable pub put_words : Block → ℕ → List ℕ → Block
put_words b k [] = b
put_words b k (v ∷ vs) = put_words (put_word b k v) (suc k) vs

pub record SuperBlock : Type 0 where
  pub magic : ℕ
  pub blocks : ℕ
  pub inode_blocks : ℕ
  pub inodes : ℕ

pub record Inode : Type 0 where
  pub valid : ℕ
  pub size : ℕ
  pub direct : List ℕ
  pub indirect : ℕ

-- `Super`.
abbrev pub super : Block → SuperBlock
super b = record { magic = word b 0; blocks = word b 1; inode_blocks = word b 2; inodes = word b 3 }

abbrev pub put_super : Block → SuperBlock → Block
put_super b s =
    put_word (put_word (put_word (put_word b 0 s.magic) 1 s.blocks) 2 s.inode_blocks) 3 s.inodes

-- `Inodes[i]`.
unfoldable pub inode : Block → ℕ → Inode
inode b i = record {
  valid = word b (8 * i);
  size = word b (8 * i + 1);
  direct = words_from b (8 * i + 2) pointers_per_inode;
  indirect = word b (8 * i + 7);
}

unfoldable pub put_inode : Block → ℕ → Inode → Block
put_inode b i node =
    let sized = put_word (put_word b (8 * i) node.valid) (8 * i + 1) node.size in
    put_word (put_words sized (8 * i + 2) node.direct) (8 * i + 7) node.indirect
