-- ===== src/FileSystem/Table.antt =====
-- The inodes of Assignment7/lab7/src/library/fs.cpp as a table: what `load_inode` and `save_inode` do to it.
use cs232_operating_systems.Common.{
  ℕ, ◌+◌, ◌*◌, ◌/◌, ◌%◌, ◌^◌, ◌≤◌, ◌<◌, ◌≡◌, refl, ap, ◌∙◌, arith, true, false, none, some, List,
  length, assign, ◌==◌, if◌then◌else◌, returns, ◌>>=◌, lt→ltb, le→not-ltb, eq→==, ne→not-==,
  eq-cases, inl, inr,
}
use cs232_operating_systems.FileSystem.Block.{Inode, inode, put_inode, inodes_per_block}
use cs232_operating_systems.FileSystem.Emulator.{
  Disk, IsSmall, disk_read_lem, disk_write_lem, count_read, put_block,
}
use cs232_operating_systems.FileSystem.Layout.{IsInode, inode-put_inode_self, inode-put_inode_ne}
use cs232_operating_systems.FileSystem.State.{FileSystem, load_inode, save_inode}

-- A state that `mount` may leave: the blocks of inodes are on the disk, and the bitmap has an entry
-- for each block.
pub record IsVolume (fs : FileSystem) : Type 0 where
  pub small : IsSmall fs.disk
  pub tables : fs.num_inode_blocks < fs.disk.blocks
  pub inodes : fs.num_inodes ≡ inodes_per_block * fs.num_inode_blocks
  pub few : fs.num_inodes ≤ 2 ^ 31
  pub bitmap : length fs.free_bitmap ≡ fs.num_blocks
  pub within : fs.num_blocks ≤ fs.disk.blocks

pub IsVolume-with :
    {fs : FileSystem} (vol : IsVolume fs) (d : Disk) (free : List ℕ)
    → d.blocks ≡ fs.disk.blocks
    → length free ≡ length fs.free_bitmap
    → IsVolume (record fs { disk = d; free_bitmap = free })
IsVolume-with vol d free e f = record {
  small = omega (arith, vol.small);
  tables = omega (arith, vol.tables);
  inodes = vol.inodes;
  few = vol.few;
  bitmap = f ∙ vol.bitmap;
  within = omega (arith, vol.within);
}

abbrev pub inode_on : Disk → ℕ → Inode
inode_on d n = inode (d.contents (1 + n / inodes_per_block)) (n % inodes_per_block)

abbrev pub inode_at : FileSystem → ℕ → Inode
inode_at fs n = inode_on fs.disk n

abbrev pub with_disk : FileSystem → Disk → FileSystem
with_disk fs d = record fs { disk = d }

-- The two states agree but for the bitmap and the blocks of inodes.
pub record SameData (before after : FileSystem) : Type 0 where
  pub same_blocks : after.num_blocks ≡ before.num_blocks
  pub same_tables : after.num_inode_blocks ≡ before.num_inode_blocks
  pub same_inodes : after.num_inodes ≡ before.num_inodes
  pub same_data :
      (k : ℕ) → before.num_inode_blocks < k → after.disk.contents k ≡ before.disk.contents k

-- The disk after an inode is saved.
abbrev pub saved_on : Disk → ℕ → Inode → Disk
saved_on d n node =
    let k = 1 + n / inodes_per_block in
    put_block (count_read d) k (put_inode (d.contents k) (n % inodes_per_block) node)

pub saved_on-SameData :
    {fs : FileSystem} (vol : IsVolume fs) (n : ℕ) (node : Inode) (d : Disk) (free : List ℕ)
    → n < fs.num_inodes
    → d.contents ≡ fs.disk.contents
    → SameData fs (record fs { disk = saved_on d n node; free_bitmap = free })
saved_on-SameData vol n node d free h e = record {
  same_blocks = refl;
  same_tables = refl;
  same_inodes = refl;
  same_data = λ k lt.
      rw (ne→not-== k (1 + n / inodes_per_block) (omega (arith, vol.inodes))) (ap (λ c. c k) e);
}

pub inode_on-saved_on :
    (d : Disk) (n : ℕ) (node : Inode) (m : ℕ)
    → IsInode node
    → inode_on (saved_on d n node) m ≡ assign (inode_on d) n node m
inode_on-saved_on d n node m is = elim (eq-cases (m / inodes_per_block) (n / inodes_per_block)) [
  | inl e ↦ elim (eq-cases (m % inodes_per_block) (n % inodes_per_block)) [
    | inl f ↦
        rw
          (
            eq→== (1 + m / inodes_per_block) (1 + n / inodes_per_block) (omega arith),
            eq→== m n (omega arith),
            f,
          )
          (inode-put_inode_self (d.contents (1 + n / inodes_per_block)) (n % inodes_per_block) node
            is)
    | inr ne ↦
        rw
          (
            eq→== (1 + m / inodes_per_block) (1 + n / inodes_per_block) (omega arith),
            ne→not-== m n (omega arith),
            e,
          )
          (inode-put_inode_ne (d.contents (1 + n / inodes_per_block)) (n % inodes_per_block) node
            (m % inodes_per_block) is.direct_length ne)
  ]
  | inr ne ↦
      rw
        (
          ne→not-== (1 + m / inodes_per_block) (1 + n / inodes_per_block) (omega arith),
          ne→not-== m n (omega arith),
        )
        refl
]

pub load_inode_lem :
    {fs : FileSystem} (vol : IsVolume fs) (n : ℕ)
    → n < fs.num_inodes
    → load_inode fs n ≡ returns (some (inode_at fs n), with_disk fs (count_read fs.disk))
unfolding load_inode
load_inode_lem {fs = fs} vol n h = rw (lt→ltb n fs.num_inodes h) (
    rw
      (
        disk_read_lem fs.disk (1 + n / inodes_per_block) vol.small
            (omega (arith, vol.tables, vol.inodes)),
        ◌>>=◌,
      )
      refl)

pub save_inode_lem :
    {fs : FileSystem} (vol : IsVolume fs) (n : ℕ) (node : Inode)
    → n < fs.num_inodes
    → save_inode fs n node ≡ returns (true, with_disk fs (saved_on fs.disk n node))
unfolding save_inode
save_inode_lem {fs = fs} vol n node h =
    let k = 1 + n / inodes_per_block in
    let here : k < fs.disk.blocks = omega (arith, vol.tables, vol.inodes) in
    rw (lt→ltb n fs.num_inodes h) (
      rw (disk_read_lem fs.disk k vol.small here, ◌>>=◌)
        (rw
          (
            disk_write_lem (count_read fs.disk) k
                (put_inode (fs.disk.contents k) (n % inodes_per_block) node) vol.small here,
            ◌>>=◌,
          )
          refl))

-- Outside the table nothing is loaded or saved.
pub outside_table :
    (fs : FileSystem) (n : ℕ) (node : Inode)
    → fs.num_inodes ≤ n
    → (load_inode fs n ≡ returns (none, fs)) × (save_inode fs n node ≡ returns (false, fs))
unfolding load_inode save_inode
outside_table fs n node h = let out = le→not-ltb n fs.num_inodes h in (rw out refl, rw out refl)

-- On a volume, after an inode of 32-bit fields is saved in the table, loading that number gives it, and
-- loading any other number of the table gives the inode that was there before.
pub load_inode-save_inode :
    {fs : FileSystem} (vol : IsVolume fs) (n m : ℕ) (node : Inode)
    → IsInode node
    → n < fs.num_inodes
    → m < fs.num_inodes
    → (fs' fs'' : FileSystem) × (save_inode fs n node ≡ returns (true, fs'))
      × (load_inode fs' m ≡ returns (some (if m == n then node else inode_at fs m), fs''))
load_inode-save_inode {fs = fs} vol n m node is hn hm =
    let d = saved_on fs.disk n node in
    let vol' = IsVolume-with vol d fs.free_bitmap refl refl in
    (
      with_disk fs d,
      with_disk fs (count_read d),
      save_inode_lem vol n node hn,
      load_inode_lem vol' m hm
          ∙ ap (λ i. returns (some i, with_disk fs (count_read d)))
              (inode_on-saved_on fs.disk n node m is),
    )
