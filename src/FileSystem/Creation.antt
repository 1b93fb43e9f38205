-- ===== src/FileSystem/Creation.antt =====
-- What `create` of Assignment7/lab7/src/library/fs.cpp does to the table of inodes.
use cs232_operating_systems.Common.{
  ℕ, zero, suc, ◌+◌, ◌*◌, ◌/◌, ◌%◌, ◌^◌, ◌≤◌, ◌<◌, ◌≡◌, ◌≢◌, refl, sym, ap, ◌∙◌, subst, arith,
  assign, returns, ◌>>=◌, eq→==, ne→not-==, eq-cases, lt-cases, inl, inr,
}
use cs232_operating_systems.Common.Int.{ℤ, pos, negsuc}
use cs232_operating_systems.FileSystem.Block.{Inode, inode, inodes_per_block}
use cs232_operating_systems.FileSystem.Emulator.{Disk, IsSmall, to_int, disk_read_lem, count_read}
use cs232_operating_systems.FileSystem.Layout.{IsInode, AllSmall}
use cs232_operating_systems.FileSystem.State.{FileSystem}
use cs232_operating_systems.FileSystem.Operations.{free_inode, find_inode, fresh_inode, create}
use cs232_operating_systems.FileSystem.Table.{
  IsVolume, IsVolume-with, inode_on, inode_at, with_disk, saved_on, inode_on-saved_on,
  save_inode_lem, SameData, saved_on-SameData,
}

abbrev pub AllValid : (ℕ → Inode) → ℕ → ℕ → Type 0
AllValid table lo hi = (m : ℕ) → lo ≤ m → m < hi → (table m).valid ≢ 0

-- The first inode from `lo` to `hi` that is not valid, or -1.
pub data FirstFree (table : ℕ → Inode) (lo hi : ℕ) : ℤ → Type 0 where
  all_valid : AllValid table lo hi → FirstFree table lo hi (negsuc 0)
  first :
      (n : ℕ)
      → lo ≤ n
      → n < hi
      → (table n).valid ≡ 0
      → AllValid table lo n
      → FirstFree table lo hi (pos n)

module _ (table : ℕ → Inode) where
  AllValid-append :
      (lo mid hi : ℕ) → AllValid table lo mid → AllValid table mid hi → AllValid table lo hi
  AllValid-append lo mid hi below above m h k = elim (lt-cases m mid) [
    | inl l ↦ below m h l
    | inr g ↦ above m g k
  ]

  FirstFree-append :
      (lo mid hi : ℕ) (ind : ℤ)
      → lo ≤ mid
      → AllValid table lo mid
      → FirstFree table mid hi ind
      → FirstFree table lo hi ind
  FirstFree-append lo mid hi ind le below (all_valid above) =
      all_valid (AllValid-append lo mid hi below above)
  FirstFree-append lo mid hi ind le below (first n h k e above) =
      first n (omega arith) k e (AllValid-append lo mid n below above)

  AllValid-single : (lo hi : ℕ) → hi ≡ suc lo → (table lo).valid ≢ 0 → AllValid table lo hi
  AllValid-single lo hi e ne m h k = subst (λ j. (table j).valid ≢ 0) (omega arith) ne

  FirstFree-at :
      {lo lo' hi hi' : ℕ} {ind : ℤ}
      → lo ≡ lo'
      → hi ≡ hi'
      → FirstFree table lo hi ind
      → FirstFree table lo' hi' ind
  FirstFree-at e e' (all_valid above) = all_valid (λ m h k. above m (omega arith) (omega arith))
  FirstFree-at e e' (first n h k f above) =
      first n (omega arith) (omega arith) f (λ m lo hi. above m (omega arith) hi)

in_block :
    (d : Disk) (k i : ℕ)
    → i < inodes_per_block
    → inode_on d (inodes_per_block * k + i) ≡ inode (d.contents (1 + k)) i
in_block d k i h =
    let q : (inodes_per_block * k + i) / inodes_per_block ≡ k = omega arith in
    let r : (inodes_per_block * k + i) % inodes_per_block ≡ i = omega arith in rw (q, r) refl

as_int :
    (k i : ℕ)
    → inodes_per_block * k + i < 2 ^ 31
    → pos (inodes_per_block * k + i) ≡ to_int (i + inodes_per_block * k)
as_int k i h = ground arith

module _ (d : Disk) (k : ℕ) (small : inodes_per_block * k + inodes_per_block ≤ 2 ^ 31) where
  free_inode_lem :
      (i n : ℕ)
      → i + n ≡ inodes_per_block
      → FirstFree
          (inode_on d)
          (inodes_per_block * k + i)
          (inodes_per_block * k + inodes_per_block)
          (free_inode (d.contents (1 + k)) k i n)
  unfolding free_inode
  free_inode_lem i zero h = all_valid (λ m lo hi. absurd (omega arith))
  free_inode_lem i (suc n) h =
      let base = inodes_per_block * k in
      let valid = (inode (d.contents (1 + k)) i).valid in
      let here = ap (λ x. x.valid) (in_block d k i (omega arith)) in
      let rest = free_inode_lem (suc i) n (omega arith) in
      elim (eq-cases valid 0) [
        | inl e ↦
            rw (eq→== valid 0 e, sym (as_int k i (omega arith)))
              (first (base + i) (omega arith) (omega arith) (here ∙ e)
                (λ m lo hi. absurd (omega arith)))
        | inr ne ↦ rw (ne→not-== valid 0 ne) (
            FirstFree-append (inode_on d) (base + i) (base + suc i) (base + inodes_per_block)
              (free_inode (d.contents (1 + k)) k (suc i) n) (omega arith)
              (AllValid-single (inode_on d) (base + i) (base + suc i) (omega arith)
                (λ f. ne (sym here ∙ f)))
              rest)
      ]

-- What `find_inode` returns.
abbrev Finds : Disk → ℕ → ℕ → Type 0
Finds d k n =
    (ind : ℤ) × (r : ℕ) × (find_inode d k n ≡ returns (ind, record d { reads = r }))
    × FirstFree (inode_on d) (inodes_per_block * k) (inodes_per_block * (k + n)) ind

module _ (d : Disk) (k n : ℕ) (small : IsSmall d) (h : 1 + k < d.blocks) where
  find_step :
      (ind : ℤ)
      → free_inode (d.contents (1 + k)) k 0 inodes_per_block ≡ ind
      → FirstFree
          (inode_on d)
          (inodes_per_block * k + 0)
          (inodes_per_block * k + inodes_per_block)
          ind
      → Finds (count_read d) (suc k) n
      → Finds d k (suc n)
  unfolding find_inode
  find_step ind e (all_valid below) (ind', r, runs, is) = (
    ind',
    r,
    rw (disk_read_lem d (1 + k) small h, ◌>>=◌) (rw (e) runs),
    FirstFree-append (inode_on d) (inodes_per_block * k) (inodes_per_block * suc k)
        (inodes_per_block * (k + suc n)) ind' (omega arith)
        (λ j l g. below j (omega arith) (omega arith))
        (FirstFree-at (inode_on d) refl (omega arith) is),
  )
  find_step ind e (first m lo hi free below) rest = (
    pos m,
    (d.reads + 1) % 2 ^ 64,
    rw (disk_read_lem d (1 + k) small h, ◌>>=◌) (rw (e) refl),
    first m (omega arith) (omega arith) free (λ j l g. below j (omega arith) g),
  )

find_inode_lem :
    (n : ℕ) (d : Disk) (k : ℕ)
    → IsSmall d
    → k + n < d.blocks
    → inodes_per_block * (k + n) ≤ 2 ^ 31
    → Finds d k n
unfolding find_inode
find_inode_lem zero d k small h few =
    (negsuc 0, d.reads, refl, all_valid (λ m lo hi. absurd (omega arith)))
find_inode_lem (suc n) d k small h few =
    find_step d k n small (omega arith) (free_inode (d.contents (1 + k)) k 0 inodes_per_block) refl
      (free_inode_lem d k (omega arith) 0 inodes_per_block refl)
      (find_inode_lem n (count_read d) (suc k) small (omega arith) (omega arith))

-- The table after an inode is recorded at the number, if it is not -1.
abbrev pub record_at : (ℕ → Inode) → ℤ → Inode → ℕ → Inode
record_at table (pos n) node = assign table n node
record_at table (negsuc n) node = table

pub fresh-IsInode : IsInode fresh_inode
unfolding AllSmall
fresh-IsInode = record {
  valid_small = omega arith;
  size_small = omega arith;
  direct_length = refl;
  direct_small = (omega arith, (omega arith, (omega arith, (omega arith, (omega arith, tt)))));
  indirect_small = omega arith;
}

module _ {fs : FileSystem} (vol : IsVolume fs) where
  create_step :
      (ind : ℤ) (r : ℕ)
      → find_inode fs.disk 0 fs.num_inode_blocks ≡ returns (ind, record fs.disk { reads = r })
      → FirstFree (inode_at fs) 0 fs.num_inodes ind
      → (fs' : FileSystem) × (create fs ≡ returns (ind, fs'))
        × IsVolume fs'
        × (fs'.free_bitmap ≡ fs.free_bitmap)
        × SameData fs fs'
        × ((m : ℕ) → inode_at fs' m ≡ record_at (inode_at fs) ind fresh_inode m)
  unfolding create
  create_step ind r e (all_valid all) = (
    with_disk fs (record fs.disk { reads = r }),
    rw (e, ◌>>=◌) refl,
    IsVolume-with vol (record fs.disk { reads = r }) fs.free_bitmap refl refl,
    refl,
    record { same_blocks = refl; same_tables = refl; same_inodes = refl; same_data = λ k lt. refl },
    λ m. refl,
  )
  create_step ind r e (first n lo hi free below) =
      let found = with_disk fs (record fs.disk { reads = r }) in
      (
        with_disk fs (saved_on (record fs.disk { reads = r }) n fresh_inode),
        rw (e, ◌>>=◌)
            (rw
              (
                save_inode_lem {fs = found} (IsVolume-with vol found.disk fs.free_bitmap refl refl)
                    n fresh_inode hi,
                ◌>>=◌,
              )
              refl),
        IsVolume-with vol (saved_on (record fs.disk { reads = r }) n fresh_inode) fs.free_bitmap
            refl refl,
        refl,
        saved_on-SameData vol n fresh_inode (record fs.disk { reads = r }) fs.free_bitmap hi refl,
        λ m. inode_on-saved_on (record fs.disk { reads = r }) n fresh_inode m fresh-IsInode,
      )

  -- On a volume `create` returns the number of the first inode that is not valid, or -1 where all are
  -- valid. Only the inode of that number changes, to one that is valid, empty and without blocks, no
  -- block is taken, and no block behind those of inodes changes.
  pub create_lem :
      (ind : ℤ) × (fs' : FileSystem) × (create fs ≡ returns (ind, fs'))
      × FirstFree (inode_at fs) 0 fs.num_inodes ind
      × IsVolume fs'
      × (fs'.free_bitmap ≡ fs.free_bitmap)
      × SameData fs fs'
      × ((m : ℕ) → inode_at fs' m ≡ record_at (inode_at fs) ind fresh_inode m)
  create_lem =
      let (ind, r, e, is) =
        find_inode_lem fs.num_inode_blocks fs.disk 0 vol.small (omega (arith, vol.tables))
          (omega (arith, vol.few, vol.inodes)) in
      let is' = FirstFree-at (inode_at fs) (omega arith) (omega (arith, vol.inodes)) is in
      let (fs', runs, vol', free, same, table) = create_step ind r e is' in
      (ind, fs', runs, is', vol', free, same, table)
