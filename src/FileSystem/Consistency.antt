-- ===== src/FileSystem/Consistency.antt =====
-- When the files of a volume have blocks of their own, for Assignment7/lab7/src/library/fs.cpp, and what
-- `write` does to that.
use cs232_operating_systems.Common.{
  ℕ, ◌<◌, ◌≡◌, ◌≢◌, sym, ap, ◌∙◌, subst, arith, get_or, eq-cases, inl, inr,
}
use cs232_operating_systems.FileSystem.Block.{pointers_per_inode}
use cs232_operating_systems.FileSystem.Layout.{IsInode}
use cs232_operating_systems.FileSystem.State.{FileSystem}
use cs232_operating_systems.FileSystem.Transfer.{Buffer}
use cs232_operating_systems.FileSystem.Table.{IsVolume, inode_at}
use cs232_operating_systems.FileSystem.Owning.{OwnsBlocks, IsForeign}
use cs232_operating_systems.FileSystem.WriteSettle.{Written}
use cs232_operating_systems.FileSystem.WriteFile.{IsFile}

abbrev pub pointer_of : FileSystem → ℕ → ℕ → ℕ
pointer_of fs n k = get_or (inode_at fs n).direct k 0

-- Every inode of the table owns its blocks, has no indirect block, and shares no block with another.
pub record IsConsistent (fs : FileSystem) : Type 0 where
  pub volume : IsVolume fs
  pub some_block : 0 < fs.num_blocks
  pub files : (n : ℕ) → n < fs.num_inodes → IsFile fs n
  pub no_indirect : (n : ℕ) → n < fs.num_inodes → (inode_at fs n).indirect ≡ 0
  pub disjoint :
      (n m j k : ℕ)
      → n < fs.num_inodes
      → m < fs.num_inodes
      → n ≢ m
      → j < pointers_per_inode
      → k < pointers_per_inode
      → pointer_of fs n j ≢ 0
      → pointer_of fs n j ≢ pointer_of fs m k

-- A block of one file is foreign to every other.
pub IsConsistent-IsForeign :
    {fs : FileSystem} (con : IsConsistent fs) (n m k : ℕ)
    → n < fs.num_inodes
    → m < fs.num_inodes
    → n ≢ m
    → k < pointers_per_inode
    → pointer_of fs m k ≢ 0
    → IsForeign fs (inode_at fs n).direct (pointer_of fs m k)
IsConsistent-IsForeign con n m k hn hm ne lt nz =
    let own = (con.files m hm).owned in
    (
      own.behind k lt nz,
      own.in_use k lt nz,
      λ j lt' e. con.disjoint m n k j hm hn (λ f. ne (sym f)) lt lt' nz (sym e),
    )

module _ {fs fs' : FileSystem} {n : ℕ} {from : Buffer} {offset length written : ℕ}
    (con : IsConsistent fs) (inside : n < fs.num_inodes)
    (is : Written fs n from offset length written fs') where
  same_pointer : (m k : ℕ) → m < fs.num_inodes → m ≢ n → pointer_of fs' m k ≡ pointer_of fs m k
  same_pointer m k h ne = ap (λ x. get_or x.direct k 0) (is.other_inodes m h ne)

  -- A pointer of the file after the write is no block of another.
  apart_after :
      (m j k : ℕ)
      → m < fs.num_inodes
      → m ≢ n
      → j < pointers_per_inode
      → k < pointers_per_inode
      → pointer_of fs m k ≢ 0
      → pointer_of fs' n j ≢ pointer_of fs m k
  apart_after m j k h ne lt lt' nz e = elim (is.origin j lt) [
    | inl old ↦ con.disjoint m n k j h inside ne lt' lt nz (sym e ∙ old)
    | inr new ↦ new (ap (λ x. get_or fs.free_bitmap x 0) e ∙ (con.files m h).owned.in_use k lt' nz)
  ]

  others-OwnsBlocks : (m : ℕ) → m < fs.num_inodes → m ≢ n → OwnsBlocks fs' (inode_at fs' m).direct
  others-OwnsBlocks m h ne =
      let own = (con.files m h).owned in
      subst (λ x. OwnsBlocks fs' x.direct) (sym (is.other_inodes m h ne))
        (record {
          five = own.five;
          reserved = is.owns.reserved;
          behind = λ k lt nz. omega (arith, own.behind k lt nz, is.same_tables);
          inside = λ k lt nz. omega (arith, own.inside k lt nz, is.same_blocks);
          in_use = λ k lt nz. is.shrinks (pointer_of fs m k) (own.in_use k lt nz);
          apart = own.apart;
        })

  disjoint_after :
      (a b j k : ℕ)
      → a < fs.num_inodes
      → b < fs.num_inodes
      → a ≢ b
      → j < pointers_per_inode
      → k < pointers_per_inode
      → pointer_of fs' a j ≢ 0
      → pointer_of fs' a j ≢ pointer_of fs' b k
  disjoint_after a b j k ha hb ne lt lt' nz same = elim (eq-cases a n) [
    | inl e ↦
        let other : b ≢ n = λ f. ne (e ∙ sym f) in
        let old = same_pointer b k hb other in
        apart_after b j k hb other lt lt' (λ z. nz (same ∙ old ∙ z))
          (sym (ap (λ i. pointer_of fs' i j) e) ∙ same ∙ old)
    | inr ne_a ↦
        let old = same_pointer a j ha ne_a in
        elim (eq-cases b n) [
          | inl e ↦
              apart_after a k j ha ne_a lt' lt (λ z. nz (old ∙ z))
                (sym (ap (λ i. pointer_of fs' i k) e) ∙ sym same ∙ old)
          | inr ne_b ↦
              con.disjoint a b j k ha hb ne lt lt' (λ z. nz (old ∙ z))
                (sym old ∙ same ∙ same_pointer b k hb ne_b)
        ]
  ]

  pub write-IsConsistent : IsConsistent fs'
  write-IsConsistent = record {
    volume = is.volume;
    some_block = omega (arith, con.some_block, is.same_blocks);
    files = λ m h. elim (eq-cases m n) [
      | inl e ↦ subst (IsFile fs') (sym e) (record {
        listed = omega (arith, is.same_inodes);
        fields = is.fields_after;
        owned = is.owns;
      })
      | inr ne ↦ record {
        listed = h;
        fields =
            subst IsInode (sym (is.other_inodes m (omega (arith, is.same_inodes)) ne))
              (con.files m (omega (arith, is.same_inodes))).fields;
        owned = others-OwnsBlocks m (omega (arith, is.same_inodes)) ne;
      }
    ];
    no_indirect = λ m h. elim (eq-cases m n) [
      | inl e ↦ ap (λ i. (inode_at fs' i).indirect) e ∙ is.indirect_kept ∙ con.no_indirect n inside
      | inr ne ↦
          ap (λ x. x.indirect) (is.other_inodes m (omega (arith, is.same_inodes)) ne)
          ∙ con.no_indirect m (omega (arith, is.same_inodes))
    ];
    disjoint = λ a b j k ha hb ne lt lt' nz.
        disjoint_after a b j k (omega (arith, is.same_inodes)) (omega (arith, is.same_inodes)) ne lt
          lt' nz;
  }
