-- ===== src/FileSystem/Removal.antt =====
-- What `remove` of Assignment7/lab7/src/library/fs.cpp does to the table of inodes and the bitmap.
use cs232_operating_systems.Common.{
  ℕ, ◌+◌, ◌%◌, ◌^◌, ◌≤◌, ◌<◌, ◌≡◌, ◌≢◌, refl, sym, ap, ◌∙◌, subst, arith, Bool, true, false, not,
  ◌&&◌, ◌||◌, List, [], ◌∷◌, ◌++◌, length, set, get_or, length-set, get_or-set_self, get_or-set_ne,
  assign, ◌==◌, if◌then◌else◌, returns, ◌>>=◌, lt→ltb, eq→==, ne→not-==, eq-cases, inl, inr,
}
use cs232_operating_systems.FileSystem.Block.{Inode, words_from, pointers_per_block}
use cs232_operating_systems.FileSystem.Emulator.{Disk, IsSmall, disk_read_lem, count_read}
use cs232_operating_systems.FileSystem.Layout.{IsInode, AllSmall}
use cs232_operating_systems.FileSystem.State.{FileSystem, mark}
use cs232_operating_systems.FileSystem.Operations.{free_all, free_indirect, removed_inode, remove}
use cs232_operating_systems.FileSystem.Table.{
  IsVolume, IsVolume-with, inode_at, saved_on, inode_on-saved_on, load_inode_lem, save_inode_lem,
  SameData, saved_on-SameData,
}

-- All numbers of a list are below `n`.
unfoldable pub AllBelow : ℕ → List ℕ → Type 0
AllBelow n [] = Unit
AllBelow n (p ∷ ps) = (p < n) × AllBelow n ps

unfoldable pub member : ℕ → List ℕ → Bool
member k [] = false
member k (p ∷ ps) = k == p || member k ps

-- The blocks that an inode points to, with its indirect block; 0 stands for none.
abbrev pub blocks_held : Disk → Inode → List ℕ
blocks_held d node =
    node.direct
    ++ (if node.indirect == 0
        then []
        else node.indirect ∷ words_from (d.contents node.indirect) 0 pointers_per_block)

-- The bitmap after the blocks of a list are freed.
unfoldable pub freed : List ℕ → List ℕ → List ℕ
freed bitmap [] = bitmap
freed bitmap (p ∷ ps) = freed (if p == 0 then bitmap else set bitmap p 1) ps

pub mark_lem :
    (bitmap : List ℕ) (i v : ℕ) → i < length bitmap → mark bitmap i v ≡ returns (set bitmap i v)
unfolding mark
mark_lem bitmap i v h = rw (lt→ltb i (length bitmap) h) refl

length-freed : (bitmap ps : List ℕ) → length (freed bitmap ps) ≡ length bitmap
unfolding freed
length-freed bitmap [] = refl
length-freed bitmap (p ∷ ps) = elim (eq-cases p 0) [
  | inl e ↦ rw (eq→== p 0 e) (length-freed bitmap ps)
  | inr ne ↦ rw (ne→not-== p 0 ne) (length-freed (set bitmap p 1) ps ∙ length-set bitmap p 1)
]

free_all_lem :
    (bitmap ps : List ℕ)
    → AllBelow (length bitmap) ps
    → free_all bitmap ps ≡ returns (freed bitmap ps)
unfolding free_all freed AllBelow
free_all_lem bitmap [] below = refl
free_all_lem bitmap (p ∷ ps) (h, below) = elim (eq-cases p 0) [
  | inl e ↦ rw (eq→== p 0 e, ◌>>=◌) (free_all_lem bitmap ps below)
  | inr ne ↦ rw (ne→not-== p 0 ne) (
      rw (mark_lem bitmap p 1 h, ◌>>=◌)
        (free_all_lem (set bitmap p 1) ps
          (subst (λ n. AllBelow n ps) (sym (length-set bitmap p 1)) below)))
]

AllBelow-append : (n : ℕ) (ps qs : List ℕ) → AllBelow n (ps ++ qs) → AllBelow n ps × AllBelow n qs
unfolding AllBelow
AllBelow-append n [] qs below = (tt, below)
AllBelow-append n (p ∷ ps) qs (h, below) =
    let (left, right) = AllBelow-append n ps qs below in ((h, left), right)

freed-append : (bitmap ps qs : List ℕ) → freed bitmap (ps ++ qs) ≡ freed (freed bitmap ps) qs
unfolding freed
freed-append bitmap [] qs = refl
freed-append bitmap (p ∷ ps) qs = freed-append (if p == 0 then bitmap else set bitmap p 1) ps qs

freed_one :
    (bitmap : List ℕ) (p k : ℕ) (later : Bool)
    → p < length bitmap
    → p ≢ 0
    → (if not (k == 0) && later then 1 else get_or (set bitmap p 1) k 0)
      ≡ (if not (k == 0) && (k == p || later) then 1 else get_or bitmap k 0)
freed_one bitmap p k later h ne = elim (eq-cases p k) [
  | inl e ↦
      rw (sym e, eq→== p p refl, ne→not-== p 0 ne)
        (rw (get_or-set_self bitmap p 1 0 h) (ground arith))
  | inr other ↦ rw (get_or-set_ne bitmap p k 1 0 other, ne→not-== k p (λ e. other (sym e))) refl
]

-- Exactly the blocks of the list become free, but for number 0.
get_or-freed :
    (bitmap ps : List ℕ) (k : ℕ)
    → AllBelow (length bitmap) ps
    → get_or (freed bitmap ps) k 0 ≡ (if not (k == 0) && member k ps then 1 else get_or bitmap k 0)
unfolding freed AllBelow member
get_or-freed bitmap [] k below = ground arith
get_or-freed bitmap (p ∷ ps) k (h, below) = elim (eq-cases p 0) [
  | inl e ↦ rw (eq→== p 0 e) (get_or-freed bitmap ps k below ∙ ground arith)
  | inr ne ↦ rw (ne→not-== p 0 ne) (
      get_or-freed (set bitmap p 1) ps k
        (subst (λ n. AllBelow n ps) (sym (length-set bitmap p 1)) below)
      ∙ freed_one bitmap p k (member k ps) h ne)
]

-- The blocks of the indirect part of an inode.
abbrev indirect_held : Disk → ℕ → List ℕ
indirect_held d p = if p == 0 then [] else p ∷ words_from (d.contents p) 0 pointers_per_block

held_some :
    (d : Disk) (bitmap : List ℕ) (p : ℕ)
    → p ≢ 0
    → freed bitmap (indirect_held d p)
      ≡ freed (set bitmap p 1) (words_from (d.contents p) 0 pointers_per_block)
unfolding freed
held_some d bitmap p ne = rw (ne→not-== p 0 ne, freed) (rw (ne→not-== p 0 ne) refl)

module _ (d : Disk) (bitmap : List ℕ) (p : ℕ) (small : IsSmall d)
    (le : length bitmap ≤ d.blocks) where
  free_indirect_some :
      p ≢ 0
      → AllBelow (length bitmap) (p ∷ words_from (d.contents p) 0 pointers_per_block)
      → free_indirect d bitmap p
        ≡ returns
            (freed (set bitmap p 1) (words_from (d.contents p) 0 pointers_per_block), count_read d)
  unfolding free_indirect AllBelow
  free_indirect_some ne (h, below) =
      let ps = words_from (d.contents p) 0 pointers_per_block in
      let below' = subst (λ n. AllBelow n ps) (sym (length-set bitmap p 1)) below in
      rw (ne→not-== p 0 ne) (
        rw (mark_lem bitmap p 1 h, ◌>>=◌)
          (rw (disk_read_lem d p small (omega arith), ◌>>=◌)
            (rw (free_all_lem (set bitmap p 1) ps below', ◌>>=◌) refl)))

  free_indirect_lem :
      AllBelow (length bitmap) (indirect_held d p)
      → (r : ℕ) × (free_indirect d bitmap p
          ≡ returns (freed bitmap (indirect_held d p), record d { reads = r }))
  unfolding free_indirect freed
  free_indirect_lem below = elim (eq-cases p 0) [
    | inl e ↦ (d.reads, rw (eq→== p 0 e) refl)
    | inr ne ↦
        let below' =
          subst
            (λ x.
              AllBelow (length bitmap)
                (if x then [] else p ∷ words_from (d.contents p) 0 pointers_per_block))
            (ne→not-== p 0 ne) below in
        (
          (d.reads + 1) % 2 ^ 64,
          free_indirect_some ne below'
              ∙ ap (λ l. returns (l, count_read d)) (sym (held_some d bitmap p ne)),
        )
  ]

pub removed-IsInode : IsInode removed_inode
unfolding AllSmall
removed-IsInode = record {
  valid_small = omega arith;
  size_small = omega arith;
  direct_length = refl;
  direct_small = (omega arith, (omega arith, (omega arith, (omega arith, (omega arith, tt)))));
  indirect_small = omega arith;
}

module _ {fs : FileSystem} (vol : IsVolume fs) (n : ℕ) where
  -- Where the inode is in the table and valid, and its pointers are numbers of blocks, `remove` returns
  -- true, the inode becomes invalid and empty, no other inode and no block behind those of inodes
  -- changes, and of the bitmap exactly the
  -- entries of the blocks that the inode points to, directly, by its indirect block or in it, become 1.
  pub remove_lem :
      n < fs.num_inodes
      → (inode_at fs n).valid ≢ 0
      → AllBelow fs.num_blocks (blocks_held fs.disk (inode_at fs n))
      → (fs' : FileSystem) × (remove fs n ≡ returns (true, fs'))
        × IsVolume fs'
        × SameData fs fs'
        × ((m : ℕ) → inode_at fs' m ≡ assign (inode_at fs) n removed_inode m)
        × ((k : ℕ)
            → get_or fs'.free_bitmap k 0 ≡ (
                if not (k == 0) && member k (blocks_held fs.disk (inode_at fs n))
                then 1
                else get_or fs.free_bitmap k 0))
  unfolding remove
  remove_lem h valid below =
      let node = inode_at fs n in
      let held = blocks_held fs.disk node in
      let below' = subst (λ k. AllBelow k held) (sym vol.bitmap) below in
      let (left, right) =
        AllBelow-append (length fs.free_bitmap) node.direct (indirect_held fs.disk node.indirect)
          below' in
      let direct_freed = freed fs.free_bitmap node.direct in
      let same = length-freed fs.free_bitmap node.direct in
      let (r, runs) =
        free_indirect_lem (count_read fs.disk) direct_freed node.indirect vol.small
          (omega (arith, vol.bitmap, vol.within))
          (subst (λ k. AllBelow k (indirect_held fs.disk node.indirect)) (sym same) right) in
      let d = record fs.disk { reads = r } in
      let split = freed-append fs.free_bitmap node.direct (indirect_held fs.disk node.indirect) in
      let whole = freed fs.free_bitmap held in
      let len = length-freed fs.free_bitmap held in
      let vol' = IsVolume-with vol d whole refl len in
      (
        record fs { disk = saved_on d n removed_inode; free_bitmap = whole },
        rw (load_inode_lem vol n h, ◌>>=◌)
            (rw (ne→not-== node.valid 0 valid, free_all_lem fs.free_bitmap node.direct left, ◌>>=◌)
              (rw (runs, ◌>>=◌) (rw (sym split) (save_inode_lem vol' n removed_inode h)))),
        IsVolume-with vol (saved_on d n removed_inode) whole refl len,
        saved_on-SameData vol n removed_inode d whole h refl,
        λ m. inode_on-saved_on d n removed_inode m removed-IsInode,
        λ k. get_or-freed fs.free_bitmap held k below',
      )
