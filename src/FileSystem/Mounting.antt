-- ===== src/FileSystem/Mounting.antt =====
-- `mount` of Assignment7/lab7/src/library/fs.cpp on a disk that `format` has just written.
use cs232_operating_systems.Common.{
  ℕ, zero, suc, ◌+◌, ◌/◌, ◌%◌, ◌^◌, ◌≤◌, ◌<◌, ◌≡◌, refl, sym, ap, ◌∙◌, arith, true, false, ◌&&◌,
  List, length, set, get_or, length-set, get_or-set_self, replicate, length-replicate,
  get_or-set_ne, ltb, leb, if◌then◌else◌, returns, ◌>>=◌, le→not-ltb, eq-cases, ◌⊎◌, inl, inr,
}
use cs232_operating_systems.FileSystem.Block.{
  Block, inode, word, words_from, super, blank, inodes_per_block,
}
use cs232_operating_systems.FileSystem.Emulator.{
  Disk, IsSmall, disk_read_lem, count_read, mount_disk,
}
use cs232_operating_systems.FileSystem.State.{FileSystem}
use cs232_operating_systems.FileSystem.Format.{
  format, fresh_super, mark_inodes, mark_tables, reserve, load_disk, mount_super, mount,
}
use cs232_operating_systems.FileSystem.Operations.{removed_inode}
use cs232_operating_systems.FileSystem.Table.{IsVolume, inode_at, with_disk}
use cs232_operating_systems.FileSystem.Removal.{mark_lem}
use cs232_operating_systems.FileSystem.Formatting.{Agree, format_lem, accepts_lem}

reserved_one :
    (bitmap : List ℕ) (k n j : ℕ)
    → 1 + k < length bitmap
    → (if ltb (suc k) j && leb j (suc k + n) then 0 else get_or (set bitmap (1 + k) 0) j 0)
      ≡ (if ltb k j && leb j (k + suc n) then 0 else get_or bitmap j 0)
reserved_one bitmap k n j h = elim (eq-cases (1 + k) j) [
  | inl e ↦ rw (sym e, get_or-set_self bitmap (1 + k) 0 0 h) (ground arith)
  | inr ne ↦ rw (get_or-set_ne bitmap (1 + k) j 0 0 ne) (ground arith)
]

reserve_lem :
    (n : ℕ) (bitmap : List ℕ) (k : ℕ)
    → k + n < length bitmap
    → (bitmap' : List ℕ) × (reserve bitmap k n ≡ returns bitmap')
      × (length bitmap' ≡ length bitmap)
      × ((j : ℕ) → get_or bitmap' j 0 ≡ (if ltb k j && leb j (k + n) then 0 else get_or bitmap j 0))
unfolding reserve
reserve_lem zero bitmap k h = (bitmap, refl, refl, λ j. ground arith)
reserve_lem (suc n) bitmap k h =
    let len = length-set bitmap (1 + k) 0 in
    let (bitmap', runs, l, same) = reserve_lem n (set bitmap (1 + k) 0) (suc k) (omega arith) in
    (
      bitmap',
      rw (mark_lem bitmap (1 + k) 0 (omega arith), ◌>>=◌) runs,
      l ∙ len,
      λ j. same j ∙ reserved_one bitmap k n j (omega arith),
    )

mark_inodes_lem :
    (n : ℕ) (d : Disk) (bitmap : List ℕ) (b : Block) (i : ℕ)
    → ((j : ℕ) → (inode b j).valid ≡ 0)
    → mark_inodes d bitmap b i n ≡ returns (bitmap, d)
unfolding mark_inodes
mark_inodes_lem zero d bitmap b i none_valid = refl
mark_inodes_lem (suc n) d bitmap b i none_valid =
    rw (none_valid i, ◌>>=◌) (mark_inodes_lem n d bitmap b (suc i) none_valid)

mark_tables_lem :
    (n : ℕ) (d : Disk) (bitmap : List ℕ) (k : ℕ)
    → IsSmall d
    → k + n < d.blocks
    → ((j i : ℕ) → k ≤ j → j < k + n → (inode (d.contents (1 + j)) i).valid ≡ 0)
    → (r : ℕ) × (mark_tables d bitmap k n ≡ returns (bitmap, record d { reads = r }))
unfolding mark_tables
mark_tables_lem zero d bitmap k small h none_valid = (d.reads, refl)
mark_tables_lem (suc n) d bitmap k small h none_valid =
    let (r, runs) =
      mark_tables_lem n (count_read d) bitmap (suc k) small (omega arith)
        (λ j i lo hi. none_valid j i (omega arith) (omega arith)) in
    (
      r,
      rw (disk_read_lem d (1 + k) small (omega arith), ◌>>=◌)
          (rw
            (
              mark_inodes_lem inodes_per_block (count_read d) bitmap (d.contents (1 + k)) 0
                  (λ i. none_valid k i (omega arith) (omega arith)),
              ◌>>=◌,
            )
            runs),
    )

-- A volume without files: no inode is valid or points to a block, and all blocks behind those of inodes
-- are free.
pub record IsFresh (fs : FileSystem) : Type 0 where
  pub volume : IsVolume fs
  pub tables_inside : fs.num_inode_blocks < fs.num_blocks
  pub empty : (n : ℕ) → n < fs.num_inodes → inode_at fs n ≡ removed_inode
  pub free :
      (k : ℕ)
      → k < fs.num_blocks
      → get_or fs.free_bitmap k 0 ≡ (if leb k fs.num_inode_blocks then 0 else 1)

pub get_or-replicate_in : (n k a d : ℕ) → k < n → get_or (replicate n a) k d ≡ a
get_or-replicate_in zero k a d h = absurd (omega arith)
get_or-replicate_in (suc n) zero a d h = refl
get_or-replicate_in (suc n) (suc k) a d h = get_or-replicate_in n k a d (omega arith)

fresh_free :
    (n r k : ℕ)
    → k < n
    → ◌≡◌ {A = ℕ}
        (if ltb 0 k && leb k (0 + r) then 0 else get_or (set (replicate n 1) 0 0) k 0)
        (if leb k r then 0 else 1)
fresh_free n r k h =
    let one : ℕ = 1 in
    let ones = replicate n one in
    elim (eq-cases 0 k) [
      | inl e ↦
          rw (sym e, get_or-set_self ones 0 0 0 (omega (arith, length-replicate n one)))
            (ground arith)
      | inr ne ↦ rw (get_or-set_ne ones 0 k 0 0 ne, get_or-replicate_in n k 1 0 h) (ground arith)
    ]

pub inode-blank : (n : ℕ) → inode blank n ≡ removed_inode
unfolding inode word words_from
inode-blank n = refl

-- The rest of `mount` on a disk that `format` left.
module _ (d : Disk) (size : ℕ) (fresh : super (d.contents 0) ≡ fresh_super size)
    (agree : Agree size) (some_block : 0 < size) (small : size ≤ 2 ^ 24) (blocks : d.blocks ≡ size)
    (clear : (k : ℕ) → 0 < k → k < d.blocks → d.contents k ≡ blank) where
  load_disk_lem :
      (fs : FileSystem) × (load_disk d (fresh_super size) ≡ returns (true, fs))
      × (fs.num_blocks ≡ size)
      × IsFresh fs
  unfolding load_disk
  load_disk_lem =
      let s = fresh_super size in
      let ones = replicate s.blocks 1 in
      let len = length-replicate s.blocks 1 in
      let len' = length-set ones 0 0 in
      let (bitmap, reserves, l, same) = reserve_lem s.inode_blocks (set ones 0 0) 0 (omega arith) in
      let (r, marks) =
        mark_tables_lem s.inode_blocks (mount_disk d) bitmap 0 (omega arith) (omega arith)
          (λ j i lo hi.
            ap (λ b. (inode b i).valid) (clear (1 + j) (omega arith) (omega arith))
            ∙ ap (λ x. x.valid) (inode-blank i)) in
      (
        record {
          disk = record (mount_disk d) { reads = r };
          num_blocks = s.blocks;
          num_inode_blocks = s.inode_blocks;
          num_inodes = s.inodes;
          free_bitmap = bitmap;
        },
        rw (mark_lem ones 0 0 (omega arith), ◌>>=◌) (rw (reserves, ◌>>=◌) (rw (marks, ◌>>=◌) refl)),
        omega arith,
        record {
          volume = record {
            small = omega arith;
            tables = omega arith;
            inodes = omega arith;
            few = omega arith;
            bitmap = l ∙ len' ∙ len;
            within = omega arith;
          };
          tables_inside = omega arith;
          empty = λ n h.
              ap (λ b. inode b (n % inodes_per_block))
                (clear (1 + n / inodes_per_block) (omega arith) (omega arith))
              ∙ inode-blank (n % inodes_per_block);
          free = λ k h. same k ∙ fresh_free s.blocks s.inode_blocks k h;
        },
      )

-- A disk of 1 to 2^24 blocks that is not mounted is formatted, and then mounted if its number of blocks
-- ends in 0 or in 5 to 9: the volume has no files, no inode points to a block, and exactly the blocks
-- behind those of inodes are free. If the number of blocks ends in 1 to 4, the formatted disk is refused.
pub mount-format :
    (fs : FileSystem)
    → fs.disk.mounts ≡ 0
    → 0 < fs.disk.blocks
    → fs.disk.blocks ≤ 2 ^ 24
    → (d : Disk) × (fs' : FileSystem) × (format fs.disk ≡ returns (true, d))
      × ((Agree fs.disk.blocks
            × (mount (with_disk fs d) ≡ returns (true, fs'))
            × (fs'.num_blocks ≡ fs.disk.blocks)
            × IsFresh fs')
          ⊎ ((0 < fs.disk.blocks % 10)
              × (fs.disk.blocks % 10 < 5)
              × (mount (with_disk fs d) ≡ returns (false, fs'))))
unfolding mount mount_super
mount-format fs closed some_block small =
    let size = fs.disk.blocks in
    let (d, runs, b, m, written, clear) = format_lem fs.disk closed some_block small in
    let reads : mount (with_disk fs d)
        ≡ mount_super (with_disk fs d) (count_read d) (super (d.contents 0)) =
      rw (le→not-ltb 0 d.mounts (omega arith))
        (rw (disk_read_lem d 0 (omega arith) (omega arith), ◌>>=◌) refl) in
    let starts = reads ∙ ap (mount_super (with_disk fs d) (count_read d)) written in
    elim (accepts_lem fs.disk closed some_block small) [
      | inl (agree, e) ↦
          let (fs', loads, n, fresh) =
            load_disk_lem (count_read d) size written agree some_block small b
              (λ k lo hi. clear k lo (omega arith)) in
          (d, fs', runs, inl (agree, starts ∙ rw e loads, n, fresh))
      | inr (lo, hi, e) ↦ (d, with_disk fs (count_read d), runs, inr (lo, hi, starts ∙ rw e refl))
    ]
