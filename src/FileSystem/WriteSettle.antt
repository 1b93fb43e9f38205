-- ===== src/FileSystem/WriteSettle.antt =====
-- The state that `write` of Assignment7/lab7/src/library/fs.cpp leaves, within the first five blocks.
use cs232_operating_systems.Common.{
  ℕ, suc, ◌+◌, ◌-◌, ◌/◌, ◌%◌, ◌^◌, max, ◌≤◌, ◌<◌, ◌≡◌, ◌≢◌, refl, sym, ap, ◌∙◌, subst, arith, false,
  ◌&&◌, Bool-cases, List, [], ◌∷◌, length, get_or, ltb, leb, if◌then◌else◌, assign, returns, ◌>>=◌,
  eq→==, ne→not-==, eq-cases, ◌⊎◌, inl, inr,
}
use cs232_operating_systems.Common.Int.{pos}
use cs232_operating_systems.FileSystem.Block.{Inode, inode, inodes_per_block, pointers_per_inode}
use cs232_operating_systems.FileSystem.Emulator.{Disk}
use cs232_operating_systems.FileSystem.Layout.{IsInode, AllSmall, inode_cong}
use cs232_operating_systems.FileSystem.State.{FileSystem}
use cs232_operating_systems.FileSystem.Transfer.{Buffer, block_size}
use cs232_operating_systems.FileSystem.Writing.{Write, update_size, finish}
use cs232_operating_systems.FileSystem.Table.{
  IsVolume, IsVolume-with, inode_at, inode_on, with_disk, saved_on, inode_on-saved_on,
  save_inode_lem,
}
use cs232_operating_systems.FileSystem.Allocation.{AllTaken}
use cs232_operating_systems.FileSystem.Owning.{file_byte, OwnsBlocks, IsForeign, Sound}
use cs232_operating_systems.FileSystem.WriteLoop.{Running}
use cs232_operating_systems.FileSystem.WriteEnd.{Ended}

-- The volume after `written` of `length` bytes of the buffer are written into file `n` at the offset.
pub record Written (before : FileSystem) (n : ℕ) (from : Buffer) (offset length written : ℕ)
    (after : FileSystem) : Type 0 where
  pub volume : IsVolume after
  pub same_blocks : after.num_blocks ≡ before.num_blocks
  pub same_tables : after.num_inode_blocks ≡ before.num_inode_blocks
  pub same_inodes : after.num_inodes ≡ before.num_inodes
  pub fields_after : IsInode (inode_at after n)
  pub indirect_kept : (inode_at after n).indirect ≡ (inode_at before n).indirect
  pub owns : OwnsBlocks after (inode_at after n).direct
  pub all_or_full : (written ≡ length) ⊎ AllTaken after.free_bitmap 0 after.num_blocks
  pub size_after : (inode_at after n).size ≡ max (inode_at before n).size (offset + written)
  pub bytes :
      (q : ℕ)
      → q < 20480
      → file_byte after.disk (inode_at after n).direct q ≡ (
          if leb offset q && ltb q (offset + written)
          then from (q - offset)
          else file_byte before.disk (inode_at before n).direct q)
  pub reached :
      (q : ℕ)
      → offset ≤ q
      → q < offset + written
      → get_or (inode_at after n).direct (q / block_size) 0 ≢ 0
  pub other_inodes : (m : ℕ) → m < before.num_inodes → m ≢ n → inode_at after m ≡ inode_at before m
  pub foreign :
      (k : ℕ)
      → IsForeign before (inode_at before n).direct k
      → after.disk.contents k ≡ before.disk.contents k
  pub shrinks : (k : ℕ) → get_or before.free_bitmap k 0 ≡ 0 → get_or after.free_bitmap k 0 ≡ 0
  pub origin :
      (k : ℕ)
      → k < pointers_per_inode
      → (get_or (inode_at after n).direct k 0 ≡ get_or (inode_at before n).direct k 0)
        ⊎ (get_or before.free_bitmap (get_or (inode_at after n).direct k 0) 0 ≢ 0)

module _ {before : FileSystem} {n : ℕ} {from : Buffer} {offset length : ℕ} {fs : FileSystem}
    {direct : List ℕ} {written : ℕ}
    (sound : Sound before (inode_at before n).direct from offset fs direct written)
    (ended : (written ≡ length) ⊎ AllTaken fs.free_bitmap 0 fs.num_blocks)
    (inside : n < before.num_inodes) (node : Inode) (has : node.direct ≡ direct)
    (sized : node.size ≡ max (inode_at before n).size (offset + written)) (is : IsInode node)
    (indirect : node.indirect ≡ (inode_at before n).indirect) where
  same_byte :
      (d : Disk)
      → ((k : ℕ) → before.num_inode_blocks < k → d.contents k ≡ fs.disk.contents k)
      → (q : ℕ) → q < 20480
      → file_byte d direct q ≡ file_byte fs.disk direct q
  same_byte d kept q h = elim (eq-cases (get_or direct (q / block_size) 0) 0) [
    | inl z ↦ rw (z) refl
    | inr nz ↦
        rw
          (kept (get_or direct (q / block_size) 0)
            (omega (arith, sound.owns.behind (q / block_size) (omega arith) nz, sound.same_tables)))
          refl
  ]

  -- The inode is on the disk at last.
  settle :
      (d : Disk)
      → d.blocks ≡ fs.disk.blocks
      → ((m : ℕ) → m < before.num_inodes → inode_on d m ≡ assign (inode_at before) n node m)
      → ((k : ℕ) → before.num_inode_blocks < k → d.contents k ≡ fs.disk.contents k)
      → Written before n from offset length written (with_disk fs d)
  settle d e table kept =
      let own = sound.owns in
      let self : inode_on d n ≡ node = table n inside ∙ rw (eq→== n n refl) refl in
      let mine : (inode_on d n).direct ≡ direct = ap (λ x. x.direct) self ∙ has in
      record {
        volume = IsVolume-with sound.volume d fs.free_bitmap e refl;
        owns = subst (OwnsBlocks (with_disk fs d)) (sym mine) (record {
          five = own.five;
          reserved = own.reserved;
          behind = own.behind;
          inside = own.inside;
          in_use = own.in_use;
          apart = own.apart;
        });
        same_blocks = sound.same_blocks;
        same_tables = sound.same_tables;
        same_inodes = sound.same_inodes;
        fields_after = subst IsInode (sym self) is;
        indirect_kept = ap (λ x. x.indirect) self ∙ indirect;
        all_or_full = ended;
        size_after = ap (λ x. x.size) self ∙ sized;
        bytes = λ q h. ap (λ ps. file_byte d ps q) mine ∙ same_byte d kept q h ∙ sound.bytes q h;
        reached = λ q lo hi.
            subst (λ ps. get_or ps (q / block_size) 0 ≢ 0) (sym mine) (sound.reached q lo hi);
        other_inodes = λ m h ne. table m h ∙ rw (ne→not-== m n ne) refl;
        foreign = λ k away. kept k (away.0) ∙ sound.foreign k away;
        shrinks = sound.shrinks;
        origin = λ k h.
            subst
              (λ ps.
                (get_or ps k 0 ≡ get_or (inode_at before n).direct k 0)
                ⊎ (get_or before.free_bitmap (get_or ps k 0) 0 ≢ 0))
              (sym mine) (sound.origin k h);
      }

  -- The blocks of inodes stand as before.
  same_table : (m : ℕ) → m < before.num_inodes → inode_on fs.disk m ≡ inode_at before m
  same_table m h =
      ap (λ b. inode b (m % inodes_per_block))
        (sound.tables (1 + m / inodes_per_block)
          (omega (arith, sound.volume.inodes, sound.same_inodes, sound.same_tables)))

  settle_saved :
      Written before n from offset length written (with_disk fs (saved_on fs.disk n node))
  settle_saved =
      settle (saved_on fs.disk n node) refl
        (λ m h. inode_on-saved_on fs.disk n node m is ∙ (elim (eq-cases m n) [
          | inl e ↦ rw (eq→== m n e) refl
          | inr ne ↦ rw (ne→not-== m n ne) (same_table m h)
        ]))
        (λ k h.
          rw
            (ne→not-== k (1 + n / inodes_per_block)
              (omega (arith, sound.volume.inodes, sound.same_inodes, sound.same_tables)))
            refl)

  settle_unsaved : inode_at before n ≡ node → Written before n from offset length written fs
  settle_unsaved e =
      settle fs.disk refl
        (λ m h. elim (eq-cases m n) [
          | inl f ↦ rw (eq→== m n f) (ap (inode_on fs.disk) f ∙ same_table n inside ∙ e)
          | inr ne ↦ rw (ne→not-== m n ne) (same_table m h)
        ])
        (λ k h. refl)

AllSmall-pointwise :
    (vs : List ℕ) → ((k : ℕ) → k < length vs → get_or vs k 0 < 2 ^ 32) → AllSmall vs
unfolding AllSmall
AllSmall-pointwise [] h = tt
AllSmall-pointwise (v ∷ vs) h =
    (h 0 (omega arith), AllSmall-pointwise vs (λ k lt. h (suc k) (omega arith)))

module _ {before : FileSystem} {n : ℕ} {from : Buffer} {offset length : ℕ} {w : Write}
    (run : Running before (inode_at before n) from offset w) (is₀ : IsInode (inode_at before n))
    (inside : n < before.num_inodes) (within : offset + length ≤ 20480) (le : w.written ≤ length)
    (ended : Ended before (inode_at before n) from offset length within w) where
  small_pointers : AllSmall w.node.direct
  small_pointers = AllSmall-pointwise w.node.direct (λ k lt.
      elim (eq-cases (get_or w.node.direct k 0) 0) [
        | inl z ↦ omega arith
        | inr nz ↦ omega (
          arith,
          run.sound.owns.inside k (omega (arith, run.sound.owns.five)) nz,
          run.sound.volume.within,
          run.sound.volume.small,
        )
      ])

  abbrev sized_node : Inode
  sized_node = record w.node { size = max w.node.size (w.written + offset) % 2 ^ 32 }

  sized_node-IsInode : IsInode sized_node
  sized_node-IsInode = record {
    valid_small = omega (arith, run.same_valid, is₀.valid_small);
    size_small = omega arith;
    direct_length = run.sound.owns.five;
    direct_small = small_pointers;
    indirect_small = omega (arith, run.same_indirect, is₀.indirect_small);
  }

  sized :
      max w.node.size (w.written + offset) % 2 ^ 32
      ≡ max (inode_at before n).size (offset + w.written)
  sized = omega (arith, run.same_size, is₀.size_small)

  node-IsInode : IsInode w.node
  node-IsInode = record {
    valid_small = omega (arith, run.same_valid, is₀.valid_small);
    size_small = omega (arith, run.same_size, is₀.size_small);
    direct_length = run.sound.owns.five;
    direct_small = small_pointers;
    indirect_small = omega (arith, run.same_indirect, is₀.indirect_small);
  }

  unchanged : w.modified_inode ≡ false → inode_at before n ≡ w.node
  unchanged h =
      inode_cong (sym run.same_valid) (sym run.same_size) (sym (run.unmodified h))
        (sym run.same_indirect)

  pub finish_lem :
      (fs' : FileSystem) × (finish n offset w ≡ returns (pos w.written, fs'))
      × Written before n from offset length w.written fs'
  finish_lem = elim (eq-cases (max w.node.size (w.written + offset) % 2 ^ 32) w.node.size) [
    | inr ne ↦ (
      with_disk w.fs (saved_on w.fs.disk n sized_node),
      rw
          (
            finish,
            update_size,
            ne→not-== (max w.node.size (w.written + offset) % 2 ^ 32) w.node.size ne,
            save_inode_lem run.sound.volume n sized_node (omega (arith, run.sound.same_inodes)),
            ◌>>=◌,
            run.no_indirect,
          )
          refl,
      settle_saved run.sound ended inside sized_node refl sized sized_node-IsInode
          run.same_indirect,
    )
    | inl e ↦
        let same = eq→== (max w.node.size (w.written + offset) % 2 ^ 32) w.node.size e in
        elim (Bool-cases w.modified_inode) [
          | inl yes' ↦ (
            with_disk w.fs (saved_on w.fs.disk n w.node),
            rw
                (
                  finish,
                  update_size,
                  same,
                  yes',
                  save_inode_lem run.sound.volume n w.node (omega (arith, run.sound.same_inodes)),
                  ◌>>=◌,
                  run.no_indirect,
                )
                refl,
            settle_saved run.sound ended inside w.node refl (sym e ∙ sized) node-IsInode
                run.same_indirect,
          )
          | inr no' ↦ (
            w.fs,
            rw (finish, update_size, same, no', ◌>>=◌, run.no_indirect) refl,
            settle_unsaved run.sound ended inside w.node refl (sym e ∙ sized) node-IsInode
                run.same_indirect (unchanged no'),
          )
        ]
  ]
