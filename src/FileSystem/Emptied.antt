-- ===== src/FileSystem/Emptied.antt =====
-- What `create` and `remove` of Assignment7/lab7/src/library/fs.cpp do to the blocks of all files: an inode
-- is replaced by one without blocks.
use cs232_operating_systems.Common.{
  ℕ, ◌≤◌, ◌<◌, ◌≡◌, ◌≢◌, refl, sym, ap, ◌∙◌, subst, arith, length, get_or, assign, eq→==, ne→not-==,
  eq-cases, inl, inr,
}
use cs232_operating_systems.FileSystem.Block.{Inode, pointers_per_inode}
use cs232_operating_systems.FileSystem.Layout.{IsInode}
use cs232_operating_systems.FileSystem.State.{FileSystem}
use cs232_operating_systems.FileSystem.Table.{IsVolume, SameData, inode_at}
use cs232_operating_systems.FileSystem.Owning.{OwnsBlocks}
use cs232_operating_systems.FileSystem.WriteFile.{IsFile}
use cs232_operating_systems.FileSystem.Consistency.{IsConsistent, pointer_of}

-- The entries of the bitmap that stay 0: those of all blocks but the file's.
abbrev pub KeepsTaken : FileSystem → ℕ → FileSystem → Type 0
KeepsTaken fs n fs' =
    (k : ℕ)
    → get_or fs.free_bitmap k 0 ≡ 0
    → ((j : ℕ) → j < pointers_per_inode → pointer_of fs n j ≢ 0 → pointer_of fs n j ≢ k)
    → get_or fs'.free_bitmap k 0 ≡ 0

module _ {fs fs' : FileSystem} {n : ℕ} (con : IsConsistent fs) (inside : n < fs.num_inodes)
    (node : Inode) (is : IsInode node) (bare : (k : ℕ) → get_or node.direct k 0 ≡ 0)
    (alone : node.indirect ≡ 0) (vol : IsVolume fs') (same : SameData fs fs')
    (table : (m : ℕ) → inode_at fs' m ≡ assign (inode_at fs) n node m)
    (keeps : KeepsTaken fs n fs') where
  emptied : inode_at fs' n ≡ node
  emptied = table n ∙ rw (eq→== n n refl) refl

  pub other_stays : (m : ℕ) → m ≢ n → inode_at fs' m ≡ inode_at fs m
  other_stays m ne = table m ∙ rw (ne→not-== m n ne) refl

  no_pointer : (k : ℕ) → pointer_of fs' n k ≡ 0
  no_pointer k = ap (λ x. get_or x.direct k 0) emptied ∙ bare k

  reserved_after : (j : ℕ) → j ≤ fs'.num_inode_blocks → get_or fs'.free_bitmap j 0 ≡ 0
  reserved_after j le =
      let own = (con.files n inside).owned in
      keeps j (own.reserved j (omega (arith, same.same_tables)))
        (λ i lt nz e. omega (arith, own.behind i lt nz, e, same.same_tables))

  emptied-OwnsBlocks : OwnsBlocks fs' (inode_at fs' n).direct
  emptied-OwnsBlocks = record {
    five = ap (λ x. length x.direct) emptied ∙ is.direct_length;
    reserved = reserved_after;
    behind = λ k lt nz. absurd (nz (no_pointer k));
    inside = λ k lt nz. absurd (nz (no_pointer k));
    in_use = λ k lt nz. absurd (nz (no_pointer k));
    apart = λ j k lt lt' ne nz. absurd (nz (no_pointer j));
  }

  kept-OwnsBlocks : (m : ℕ) → m < fs.num_inodes → m ≢ n → OwnsBlocks fs' (inode_at fs' m).direct
  kept-OwnsBlocks m h ne =
      let own = (con.files m h).owned in
      subst (λ x. OwnsBlocks fs' x.direct) (sym (other_stays m ne))
        (record {
          five = own.five;
          reserved = reserved_after;
          behind = λ k lt nz. omega (arith, own.behind k lt nz, same.same_tables);
          inside = λ k lt nz. omega (arith, own.inside k lt nz, same.same_blocks);
          in_use = λ k lt nz.
              keeps (pointer_of fs m k) (own.in_use k lt nz)
                (λ j lt' nz' e. con.disjoint n m j k inside h (λ f. ne (sym f)) lt' lt nz' e);
          apart = own.apart;
        })

  disjoint_emptied :
      (a b j k : ℕ)
      → a < fs.num_inodes
      → b < fs.num_inodes
      → a ≢ b
      → j < pointers_per_inode
      → k < pointers_per_inode
      → pointer_of fs' a j ≢ 0
      → pointer_of fs' a j ≢ pointer_of fs' b k
  disjoint_emptied a b j k ha hb ne lt lt' nz e = elim (eq-cases a n) [
    | inl f ↦ nz (ap (λ i. pointer_of fs' i j) f ∙ no_pointer j)
    | inr ne_a ↦
        let old = ap (λ x. get_or x.direct j 0) (other_stays a ne_a) in
        elim (eq-cases b n) [
          | inl f ↦ nz (e ∙ ap (λ i. pointer_of fs' i k) f ∙ no_pointer k)
          | inr ne_b ↦
              con.disjoint a b j k ha hb ne lt lt' (λ z. nz (old ∙ z))
                (sym old ∙ e ∙ ap (λ x. get_or x.direct k 0) (other_stays b ne_b))
        ]
  ]

  pub emptied-IsConsistent : IsConsistent fs'
  emptied-IsConsistent = record {
    volume = vol;
    some_block = omega (arith, con.some_block, same.same_blocks);
    files = λ m h. elim (eq-cases m n) [
      | inl e ↦ subst (IsFile fs') (sym e) (record {
        listed = omega (arith, same.same_inodes);
        fields = subst IsInode (sym emptied) is;
        owned = emptied-OwnsBlocks;
      })
      | inr ne ↦
          let h' : m < fs.num_inodes = omega (arith, same.same_inodes) in
          record {
            listed = h;
            fields = subst IsInode (sym (other_stays m ne)) (con.files m h').fields;
            owned = kept-OwnsBlocks m h' ne;
          }
    ];
    no_indirect = λ m h. elim (eq-cases m n) [
      | inl e ↦ ap (λ i. (inode_at fs' i).indirect) e ∙ ap (λ x. x.indirect) emptied ∙ alone
      | inr ne ↦
          ap (λ x. x.indirect) (other_stays m ne)
          ∙ con.no_indirect m (omega (arith, same.same_inodes))
    ];
    disjoint = λ a b j k ha hb ne lt lt' nz.
        disjoint_emptied a b j k (omega (arith, same.same_inodes)) (omega (arith, same.same_inodes))
          ne lt lt' nz;
  }
