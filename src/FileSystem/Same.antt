-- ===== src/FileSystem/Same.antt =====
-- The state after calls of Assignment7/lab7/src/library/fs.cpp that change no inode, and the blocks that
-- `remove` gives back.
use cs232_operating_systems.Common.{
  ℕ, suc, ◌/◌, ◌%◌, ◌<◌, ◌≡◌, ◌≢◌, refl, sym, ap, ◌∙◌, subst, arith, false, not, ◌&&◌, List, [],
  ◌∷◌, append-nil, length, get_or, ◌==◌, eq→==, ne→not-==, eq-cases, inl, inr,
}
use cs232_operating_systems.FileSystem.Block.{pointers_per_inode}
use cs232_operating_systems.FileSystem.Emulator.{Disk}
use cs232_operating_systems.FileSystem.Layout.{IsInode}
use cs232_operating_systems.FileSystem.State.{FileSystem}
use cs232_operating_systems.FileSystem.Transfer.{block_size}
use cs232_operating_systems.FileSystem.Table.{IsVolume, SameData, inode_at}
use cs232_operating_systems.FileSystem.Removal.{AllBelow, member, blocks_held}
use cs232_operating_systems.FileSystem.Owning.{OwnsBlocks, file_byte}
use cs232_operating_systems.FileSystem.Consistency.{IsConsistent, pointer_of}

module _ {fs fs' : FileSystem} (con : IsConsistent fs) (vol : IsVolume fs') (same : SameData fs fs')
    (bitmap : fs'.free_bitmap ≡ fs.free_bitmap)
    (table : (m : ℕ) → inode_at fs' m ≡ inode_at fs m) where
  same_pointer : (m k : ℕ) → pointer_of fs' m k ≡ pointer_of fs m k
  same_pointer m k = ap (λ x. get_or x.direct k 0) (table m)

  same_entry : (k : ℕ) → get_or fs.free_bitmap k 0 ≡ 0 → get_or fs'.free_bitmap k 0 ≡ 0
  same_entry k e = ap (λ b. get_or b k 0) bitmap ∙ e

  same-OwnsBlocks : (m : ℕ) → m < fs.num_inodes → OwnsBlocks fs' (inode_at fs' m).direct
  same-OwnsBlocks m h =
      let own = (con.files m h).owned in
      subst (λ x. OwnsBlocks fs' x.direct) (sym (table m))
        (record {
          five = own.five;
          reserved = λ j le. same_entry j (own.reserved j (omega (arith, same.same_tables)));
          behind = λ k lt nz. omega (arith, own.behind k lt nz, same.same_tables);
          inside = λ k lt nz. omega (arith, own.inside k lt nz, same.same_blocks);
          in_use = λ k lt nz. same_entry (pointer_of fs m k) (own.in_use k lt nz);
          apart = own.apart;
        })

  pub same-IsConsistent : IsConsistent fs'
  same-IsConsistent = record {
    volume = vol;
    some_block = omega (arith, con.some_block, same.same_blocks);
    files = λ m h.
        let h' : m < fs.num_inodes = omega (arith, same.same_inodes) in
        record {
          listed = h;
          fields = subst IsInode (sym (table m)) (con.files m h').fields;
          owned = same-OwnsBlocks m h';
        };
    no_indirect =
        λ m h. ap (λ x. x.indirect) (table m) ∙ con.no_indirect m (omega (arith, same.same_inodes));
    disjoint = λ a b j k ha hb ne lt lt' nz e.
        con.disjoint a b j k (omega (arith, same.same_inodes)) (omega (arith, same.same_inodes)) ne
          lt lt' (λ z. nz (same_pointer a j ∙ z)) (sym (same_pointer a j) ∙ e ∙ same_pointer b k);
  }

-- A byte of a file is the same on two disks that agree on its blocks.
pub same_bytes :
    (d d' : Disk) (direct : List ℕ)
    → ((k : ℕ)
        → k < pointers_per_inode
        → get_or direct k 0 ≢ 0
        → d'.contents (get_or direct k 0) ≡ d.contents (get_or direct k 0))
    → (q : ℕ) → q < 20480
    → file_byte d' direct q ≡ file_byte d direct q
same_bytes d d' direct agree q h =
    let p = get_or direct (q / block_size) 0 in
    elim (eq-cases p 0) [
      | inl e ↦ rw (eq→== p 0 e) refl
      | inr ne ↦
          rw (ne→not-== p 0 ne)
            (ap (λ b. b (q % block_size)) (agree (q / block_size) (omega arith) ne))
    ]

pub AllBelow-pointwise :
    (n : ℕ) (ps : List ℕ) → ((j : ℕ) → j < length ps → get_or ps j 0 < n) → AllBelow n ps
unfolding AllBelow
AllBelow-pointwise n [] below = tt
AllBelow-pointwise n (p ∷ ps) below =
    (below 0 (omega arith), AllBelow-pointwise n ps (λ j h. below (suc j) (omega arith)))

pub member-pointwise :
    (k : ℕ) (ps : List ℕ) → ((j : ℕ) → j < length ps → get_or ps j 0 ≢ k) → member k ps ≡ false
unfolding member
member-pointwise k [] other = refl
member-pointwise k (p ∷ ps) other =
    rw (ne→not-== k p (λ e. other 0 (omega arith) (sym e)))
      (member-pointwise k ps (λ j h. other (suc j) (omega arith)))

-- Without an indirect block, an inode holds the blocks of its direct pointers.
module _ {fs : FileSystem} (con : IsConsistent fs) (n : ℕ) (h : n < fs.num_inodes) where
  pub held_direct : blocks_held fs.disk (inode_at fs n) ≡ (inode_at fs n).direct
  held_direct =
      rw (eq→== (inode_at fs n).indirect 0 (con.no_indirect n h))
        (append-nil (inode_at fs n).direct)

  pointer_below : (j : ℕ) → j < pointers_per_inode → pointer_of fs n j < fs.num_blocks
  pointer_below j lt = elim (eq-cases (pointer_of fs n j) 0) [
    | inl e ↦ omega (arith, con.some_block)
    | inr ne ↦ (con.files n h).owned.inside j lt ne
  ]

  pub held-AllBelow : AllBelow fs.num_blocks (blocks_held fs.disk (inode_at fs n))
  held-AllBelow = subst (AllBelow fs.num_blocks) (sym held_direct) (
      AllBelow-pointwise fs.num_blocks (inode_at fs n).direct
        (λ j lt. pointer_below j (omega (arith, (con.files n h).owned.five))))

  -- A block that is not the file's is not given back.
  pub not_held :
      (k : ℕ)
      → ((j : ℕ) → j < pointers_per_inode → pointer_of fs n j ≢ 0 → pointer_of fs n j ≢ k)
      → not (k == 0) && member k (blocks_held fs.disk (inode_at fs n)) ≡ false
  not_held k other = elim (eq-cases k 0) [
    | inl e ↦ rw (eq→== k 0 e) refl
    | inr ne ↦
        rw (ne→not-== k 0 ne, held_direct)
          (member-pointwise k (inode_at fs n).direct
            (λ j lt e. other j (omega (arith, (con.files n h).owned.five)) (λ z. ne (sym e ∙ z)) e))
  ]
