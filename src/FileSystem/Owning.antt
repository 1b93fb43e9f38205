-- ===== src/FileSystem/Owning.antt =====
-- The first five blocks of a file, while `write` of Assignment7/lab7/src/library/fs.cpp takes new ones.
use cs232_operating_systems.Common.{
  ℕ, ◌+◌, ◌-◌, ◌/◌, ◌%◌, ◌≤◌, ◌<◌, ◌≡◌, ◌≢◌, refl, sym, ap, ◌∙◌, arith, ◌&&◌, some, List, length,
  set, get_or, length-set, get_or-set_self, get_or-set_ne, ltb, leb, ◌==◌, if◌then◌else◌, eq→==,
  ne→not-==, eq-cases, lt-cases, ◌⊎◌, inl, inr,
}
use cs232_operating_systems.FileSystem.Block.{blank, pointers_per_inode}
use cs232_operating_systems.FileSystem.Emulator.{Disk, put_block}
use cs232_operating_systems.FileSystem.State.{FileSystem}
use cs232_operating_systems.FileSystem.Transfer.{Buffer, block_size}
use cs232_operating_systems.FileSystem.Table.{IsVolume}
use cs232_operating_systems.FileSystem.Allocation.{taken, taken-IsVolume}

-- Byte `q` of a file, where a block that is not there reads as zeros.
abbrev pub file_byte : Disk → List ℕ → ℕ → ℕ
file_byte d direct q =
    let p = get_or direct (q / block_size) 0 in if p == 0 then 0 else d.contents p (q % block_size)

-- The direct pointers of an inode and the bitmap agree: each is a block behind those of inodes that is
-- taken, no two are the same, and the superblock and the blocks of inodes are taken.
pub record OwnsBlocks (fs : FileSystem) (direct : List ℕ) : Type 0 where
  pub five : length direct ≡ pointers_per_inode
  pub reserved : (j : ℕ) → j ≤ fs.num_inode_blocks → get_or fs.free_bitmap j 0 ≡ 0
  pub behind :
      (k : ℕ)
      → k < pointers_per_inode
      → get_or direct k 0 ≢ 0
      → fs.num_inode_blocks < get_or direct k 0
  pub inside :
      (k : ℕ) → k < pointers_per_inode → get_or direct k 0 ≢ 0 → get_or direct k 0 < fs.num_blocks
  pub in_use :
      (k : ℕ)
      → k < pointers_per_inode
      → get_or direct k 0 ≢ 0
      → get_or fs.free_bitmap (get_or direct k 0) 0 ≡ 0
  pub apart :
      (j k : ℕ)
      → j < pointers_per_inode
      → k < pointers_per_inode
      → j ≢ k
      → get_or direct j 0 ≢ 0
      → get_or direct j 0 ≢ get_or direct k 0

-- A block that is neither free, nor of inodes, nor of the file.
abbrev pub IsForeign : FileSystem → List ℕ → ℕ → Type 0
IsForeign fs direct k =
    (fs.num_inode_blocks < k)
    × (get_or fs.free_bitmap k 0 ≡ 0)
    × ((j : ℕ) → j < pointers_per_inode → get_or direct j 0 ≢ k)

-- How the state stands when `written` bytes of the buffer are in the file.
pub record Sound (before : FileSystem) (direct₀ : List ℕ) (from : Buffer) (offset : ℕ)
    (fs : FileSystem) (direct : List ℕ) (written : ℕ) : Type 0 where
  pub volume : IsVolume fs
  pub owns : OwnsBlocks fs direct
  pub same_blocks : fs.num_blocks ≡ before.num_blocks
  pub same_tables : fs.num_inode_blocks ≡ before.num_inode_blocks
  pub same_inodes : fs.num_inodes ≡ before.num_inodes
  pub tables : (k : ℕ) → k ≤ before.num_inode_blocks → fs.disk.contents k ≡ before.disk.contents k
  pub bytes :
      (q : ℕ)
      → q < 20480
      → file_byte fs.disk direct q ≡ (
          if leb offset q && ltb q (offset + written)
          then from (q - offset)
          else file_byte before.disk direct₀ q)
  pub reached : (q : ℕ) → offset ≤ q → q < offset + written → get_or direct (q / block_size) 0 ≢ 0
  pub shrinks : (k : ℕ) → get_or before.free_bitmap k 0 ≡ 0 → get_or fs.free_bitmap k 0 ≡ 0
  pub origin :
      (k : ℕ)
      → k < pointers_per_inode
      → (get_or direct k 0 ≡ get_or direct₀ k 0)
        ⊎ (get_or before.free_bitmap (get_or direct k 0) 0 ≢ 0)
  pub foreign : (k : ℕ) → IsForeign before direct₀ k → fs.disk.contents k ≡ before.disk.contents k

pub differ : (bitmap : List ℕ) (a p : ℕ) → get_or bitmap a 0 ≢ 0 → get_or bitmap p 0 ≡ 0 → a ≢ p
differ bitmap a p h e f = h (ap (λ x. get_or bitmap x 0) f ∙ e)

-- A block is taken for the file.
module _ (fs : FileSystem) (direct : List ℕ) (own : OwnsBlocks fs direct) (k a : ℕ)
    (below : k < pointers_per_inode) (absent : get_or direct k 0 ≡ 0)
    (free : get_or fs.free_bitmap a 0 ≢ 0) (on : a < fs.num_blocks) where
  new_pointer :
      (j : ℕ)
      → ((j ≡ k) × (get_or (set direct k a) j 0 ≡ a))
        ⊎ ((j ≢ k) × (get_or (set direct k a) j 0 ≡ get_or direct j 0))
  new_pointer j = elim (eq-cases j k) [
    | inl e ↦ inl (e, rw e (get_or-set_self direct k a 0 (omega (arith, own.five))))
    | inr ne ↦ inr (ne, get_or-set_ne direct k j a 0 (λ e. ne (sym e)))
  ]

  still_taken : (j : ℕ) → get_or fs.free_bitmap j 0 ≡ 0 → get_or (set fs.free_bitmap a 0) j 0 ≡ 0
  still_taken j e = get_or-set_ne fs.free_bitmap a j 0 0 (differ fs.free_bitmap a j free e) ∙ e

  pub a_behind : fs.num_inode_blocks < a
  a_behind = elim (lt-cases fs.num_inode_blocks a) [
    | inl h ↦ h
    | inr le ↦ absurd (free (own.reserved a le))
  ]

  now_taken : a < length fs.free_bitmap → get_or (set fs.free_bitmap a 0) a 0 ≡ 0
  now_taken h = get_or-set_self fs.free_bitmap a 0 0 h

  a_new : (j : ℕ) → j < pointers_per_inode → a ≢ get_or direct j 0
  a_new j lt e =
      free (ap (λ x. get_or fs.free_bitmap x 0) e ∙ own.in_use j lt (λ z. omega (arith, a_behind)))

  take-apart :
      (i j : ℕ)
      → i < pointers_per_inode
      → j < pointers_per_inode
      → i ≢ j
      → get_or (set direct k a) i 0 ≢ 0
      → get_or (set direct k a) i 0 ≢ get_or (set direct k a) j 0
  take-apart i j lt lt' ne nz = elim (new_pointer i) [
    | inl (e, f) ↦ elim (new_pointer j) [
      | inl (e', f') ↦ absurd (omega arith)
      | inr (e', f') ↦ λ same. a_new j lt' (sym f ∙ same ∙ f')
    ]
    | inr (e, f) ↦ elim (new_pointer j) [
      | inl (e', f') ↦ λ same. a_new i lt (sym f' ∙ sym same ∙ f)
      | inr (e', f') ↦ λ same. own.apart i j lt lt' ne (λ z. nz (f ∙ z)) (sym f ∙ same ∙ f')
    ]
  ]

  take-OwnsBlocks : a < length fs.free_bitmap → OwnsBlocks (taken fs (some a)) (set direct k a)
  take-OwnsBlocks h = record {
    five = length-set direct k a ∙ own.five;
    reserved = λ j le. still_taken j (own.reserved j le);
    behind = λ j lt ne. elim (new_pointer j) [
      | inl (e, f) ↦ rw f a_behind
      | inr (e, f) ↦ rw f (own.behind j lt (λ z. ne (f ∙ z)))
    ];
    inside = λ j lt ne. elim (new_pointer j) [
      | inl (e, f) ↦ rw f on
      | inr (e, f) ↦ rw f (own.inside j lt (λ z. ne (f ∙ z)))
    ];
    in_use = λ j lt ne. elim (new_pointer j) [
      | inl (e, f) ↦ rw f (now_taken h)
      | inr (e, f) ↦ rw f (still_taken (get_or direct j 0) (own.in_use j lt (λ z. ne (f ∙ z))))
    ];
    apart = λ i j lt lt' ne nz. take-apart i j lt lt' ne nz;
  }

  -- The bytes of the file stay.
  take-file_byte :
      (q : ℕ)
      → q < 20480
      → file_byte (put_block fs.disk a blank) (set direct k a) q ≡ file_byte fs.disk direct q
  take-file_byte q h = elim (new_pointer (q / block_size)) [
    | inl (e, f) ↦
        let was : get_or direct (q / block_size) 0 ≡ 0 = ap (λ j. get_or direct j 0) e ∙ absent in
        rw (f, was, ne→not-== a 0 (omega (arith, a_behind)), eq→== a a refl) refl
    | inr (e, f) ↦
        let p = get_or direct (q / block_size) 0 in
        rw (f, ne→not-== p a (λ g. a_new (q / block_size) (omega arith) (sym g))) refl
  ]

module _ {before : FileSystem} {direct₀ : List ℕ} {from : Buffer} {offset : ℕ} {fs : FileSystem}
    {direct : List ℕ} {written : ℕ}
    (sound : Sound before direct₀ from offset fs direct written) where
  pub take-Sound :
      (k a : ℕ)
      → k < pointers_per_inode
      → get_or direct k 0 ≡ 0
      → get_or fs.free_bitmap a 0 ≢ 0
      → a < fs.num_blocks
      → Sound before direct₀ from offset (taken fs (some a)) (set direct k a) written
  take-Sound k a lt absent free on =
      let own = sound.owns in
      let vol = sound.volume in
      let behind = a_behind fs direct own k a lt absent free on in
      record {
        volume = taken-IsVolume vol (some a);
        owns = take-OwnsBlocks fs direct own k a lt absent free on (omega (arith, vol.bitmap));
        same_blocks = sound.same_blocks;
        same_tables = sound.same_tables;
        same_inodes = sound.same_inodes;
        tables = λ j le.
            rw (ne→not-== j a (omega (arith, behind, sound.same_tables))) (sound.tables j le);
        bytes = λ q h. take-file_byte fs direct own k a lt absent free on q h ∙ sound.bytes q h;
        reached = λ q lo hi.
            elim (new_pointer fs direct own k a lt absent free on (q / block_size)) [
              | inl (e, f) ↦ λ z. omega (arith, behind)
              | inr (e, f) ↦ λ z. sound.reached q lo hi (sym f ∙ z)
            ];
        shrinks = λ j e. still_taken fs direct own k a lt absent free on j (sound.shrinks j e);
        origin = λ j h. elim (new_pointer fs direct own k a lt absent free on j) [
          | inl (e, f) ↦
              inr
                (λ z. free (sound.shrinks a (ap (λ x. get_or before.free_bitmap x 0) (sym f) ∙ z)))
          | inr (e, f) ↦ elim (sound.origin j h) [
            | inl g ↦ inl (f ∙ g)
            | inr g ↦ inr (λ z. g (ap (λ x. get_or before.free_bitmap x 0) (sym f) ∙ z))
          ]
        ];
        foreign = λ j is.
            rw
              (ne→not-== j a (λ e. differ fs.free_bitmap a j free (sound.shrinks j (is.1)) (sym e)))
              (sound.foreign j is);
      }
