-- ===== src/FileSystem/Formatting.antt =====
-- The disk that `format` of Assignment7/lab7/src/library/fs.cpp leaves, and whether `mount` accepts it.
use cs232_operating_systems.Common.{
  ℕ, zero, suc, ◌+◌, ◌-◌, ◌*◌, ◌%◌, ◌^◌, ◌≤◌, ◌<◌, ◌≡◌, refl, ap, ◌∙◌, arith, true, false, ◌&&◌,
  ltb, leb, if◌then◌else◌, returns, ◌>>=◌, le→not-ltb, eq→==, ne→not-==, eq-cases, ◌⊎◌, inl, inr,
}
use cs232_operating_systems.FileSystem.Block.{
  Block, put_word, super, put_super, SuperBlock, blank, inodes_per_block,
}
use cs232_operating_systems.FileSystem.Emulator.{Disk, IsSmall, disk_write_lem, put_block}
use cs232_operating_systems.FileSystem.Layout.{word-put_word_self, word-put_word_ne}
use cs232_operating_systems.FileSystem.Format.{
  format, clear_from, fresh_super, rounded_tenth, tenth_up, accepts,
}

clear_from_lem :
    (n : ℕ) (d : Disk) (i : ℕ)
    → IsSmall d
    → i + n ≤ d.blocks
    → (d' : Disk) × (clear_from d i n ≡ returns d')
      × (d'.blocks ≡ d.blocks)
      × (d'.mounts ≡ d.mounts)
      × ((k : ℕ) → d'.contents k ≡ (if leb i k && ltb k (i + n) then blank else d.contents k))
unfolding clear_from
clear_from_lem zero d i small h = (d, refl, refl, refl, λ k. ground arith)
clear_from_lem (suc n) d i small h =
    let (d', runs, b, m, same) =
      clear_from_lem n (put_block d i blank) (suc i) small (omega arith) in
    (
      d',
      rw (disk_write_lem d i blank small (omega arith), ◌>>=◌) runs,
      b,
      m,
      λ k. same k ∙ ground arith,
    )

-- A superblock reads as it was written.
super-put_super :
    (b : Block) (s : SuperBlock)
    → s.magic < 2 ^ 32
    → s.blocks < 2 ^ 32
    → s.inode_blocks < 2 ^ 32
    → s.inodes < 2 ^ 32
    → super (put_super b s) ≡ s
super-put_super b s hm hb hi hn =
    let one = put_word b 0 s.magic in
    let two = put_word one 1 s.blocks in
    let three = put_word two 2 s.inode_blocks in
    rw
      (
        word-put_word_ne three 3 s.inodes 0 (omega arith),
        word-put_word_ne three 3 s.inodes 1 (omega arith),
        word-put_word_ne three 3 s.inodes 2 (omega arith),
        word-put_word_self three 3 s.inodes hn,
        word-put_word_ne two 2 s.inode_blocks 0 (omega arith),
        word-put_word_ne two 2 s.inode_blocks 1 (omega arith),
        word-put_word_self two 2 s.inode_blocks hi,
        word-put_word_ne one 1 s.blocks 0 (omega arith),
        word-put_word_self one 1 s.blocks hb,
        word-put_word_self b 0 s.magic hm,
      )
      refl

-- The sizes of which a tenth, rounded to the nearest, is a tenth, rounded up.
abbrev pub Agree : ℕ → Type 0
Agree size = (size % 10 ≡ 0) ⊎ (5 ≤ size % 10)

module _ (d : Disk) (closed : d.mounts ≡ 0) (some_block : 0 < d.blocks)
    (small : d.blocks ≤ 2 ^ 24) where
  -- The disk that `format` leaves.
  pub format_lem :
      (d' : Disk) × (format d ≡ returns (true, d'))
      × (d'.blocks ≡ d.blocks)
      × (d'.mounts ≡ 0)
      × (super (d'.contents 0) ≡ fresh_super d.blocks)
      × ((k : ℕ) → 0 < k → k < d.blocks → d'.contents k ≡ blank)
  unfolding format
  format_lem =
      let b = put_super blank (fresh_super d.blocks) in
      let (d', runs, e, m, same) =
        clear_from_lem (d.blocks % 2 ^ 32 - 1) (put_block d 0 b) 1 (omega arith) (omega arith) in
      (
        d',
        rw (le→not-ltb 0 d.mounts (omega arith))
            (rw (disk_write_lem d 0 b (omega arith) some_block, ◌>>=◌) (rw (runs, ◌>>=◌) refl)),
        e,
        m ∙ closed,
        ap super (same 0)
            ∙ super-put_super blank (fresh_super d.blocks) (omega arith) (omega arith) (omega arith)
                (omega arith),
        λ k lo hi. same k ∙ ground arith,
      )

  pub accepts_lem :
      (Agree d.blocks × (accepts (fresh_super d.blocks) ≡ true))
      ⊎ ((0 < d.blocks % 10) × (d.blocks % 10 < 5) × (accepts (fresh_super d.blocks) ≡ false))
  accepts_lem =
      let s = fresh_super d.blocks in
      let inodes = eq→== s.inodes (s.inode_blocks * inodes_per_block % 2 ^ 32) (omega arith) in
      elim (eq-cases (rounded_tenth d.blocks % 2 ^ 32) (tenth_up (d.blocks % 2 ^ 32))) [
        | inl e ↦ inl (
          omega arith,
          rw (inodes, eq→== (rounded_tenth d.blocks % 2 ^ 32) (tenth_up (d.blocks % 2 ^ 32)) e)
              refl,
        )
        | inr ne ↦ inr (
          omega arith,
          omega arith,
          rw (inodes, ne→not-== (rounded_tenth d.blocks % 2 ^ 32) (tenth_up (d.blocks % 2 ^ 32)) ne)
              refl,
        )
      ]
