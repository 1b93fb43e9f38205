-- ===== src/FileSystem/ReadFile.antt =====
-- What `read` of Assignment7/lab7/src/library/fs.cpp returns for a file whose blocks are there.
use cs232_operating_systems.Common.{
  ℕ, suc, ◌+◌, ◌-◌, ◌*◌, ◌/◌, ◌%◌, ◌^◌, min, ◌≤◌, ◌<◌, ◌≡◌, refl, sym, ap₂, ◌∙◌, arith, Bool, true,
  false, ◌&&◌, Option, none, some, length, get_or, get_elem?-eq-get_or, ltb, if◌then◌else◌, Outcome,
  returns, undefined, ◌>>=◌, lt→ltb, le→not-ltb, ne→not-==, eq-cases, lt-cases, ◌⊎◌, inl, inr,
}
use cs232_operating_systems.Common.Int.{ℤ, pos}
use cs232_operating_systems.FileSystem.Block.{
  Block, Inode, inodes_per_block, word, pointers_per_inode, pointers_per_block,
}
use cs232_operating_systems.FileSystem.Emulator.{Disk, IsSmall, disk_read_lem, count_read}
use cs232_operating_systems.FileSystem.Layout.{length-direct}
use cs232_operating_systems.FileSystem.State.{FileSystem}
use cs232_operating_systems.FileSystem.Transfer.{
  Buffer, block_size, direct_pointer, block_to_read, read_loop, read_inode, read,
}
use cs232_operating_systems.FileSystem.Table.{IsVolume, inode_at, with_disk, load_inode_lem}
use cs232_operating_systems.FileSystem.Reading.{
  filled, filled_done, AllThere, read_loop_lem, read_loop_gap,
}

-- Where the blocks of a file are: the pointers of its inode, and then those of its indirect block.
abbrev pub place_of : Disk → Inode → ℕ → ℕ
place_of d node k =
    if ltb k pointers_per_inode
    then get_or node.direct k 0
    else word (d.contents node.indirect) (k - pointers_per_inode)

module _ (d : Disk) (node : Inode) (five : length node.direct ≡ pointers_per_inode) where
  direct_there :
      (indirect : Option Block) (k : ℕ)
      → k < pointers_per_inode
      → block_to_read node indirect k ≡ returns (place_of d node k)
  direct_there indirect k h =
      rw
        (
          lt→ltb k pointers_per_inode h,
          direct_pointer,
          get_elem?-eq-get_or node.direct k 0 (omega arith),
        )
        refl

  pointer_there :
      (k : ℕ)
      → k < pointers_per_inode + pointers_per_block
      → block_to_read node (some (d.contents node.indirect)) k ≡ returns (place_of d node k)
  pointer_there k h = elim (lt-cases k pointers_per_inode) [
    | inl below ↦ direct_there (some (d.contents node.indirect)) k below
    | inr above ↦
        rw
          (
            le→not-ltb k pointers_per_inode above,
            lt→ltb (k - pointers_per_inode) pointers_per_block (omega arith),
          )
          refl
  ]

-- Whether a read ends in the sixth block of the file.
abbrev pub ends_in_sixth : (offset length : ℕ) → Bool
ends_in_sixth offset length =
    ltb 0 length && (ltb 20480 (offset + length) && ltb (offset + length) 24576)

sixth_true :
    (offset length : ℕ)
    → 0 < length
    → 20480 < offset + length
    → offset + length < 24576
    → ends_in_sixth offset length ≡ true
sixth_true offset length h lo hi = ground arith

pub sixth_false :
    (offset length : ℕ)
    → (length ≡ 0) ⊎ ((offset + length ≤ 20480) ⊎ (24576 ≤ offset + length))
    → ends_in_sixth offset length ≡ false
sixth_false offset length h = ground arith

read_nothing :
    (d : Disk) (node : Inode) (indirect : Option Block) (place : ℕ → ℕ)
    (length offset fuel block_num : ℕ) (to : Buffer)
    → length ≡ 0
    → read_loop node indirect length offset (suc fuel) block_num 0 to d
      ≡ returns (pos length, filled d place offset length 0 to, d)
unfolding read_loop
read_nothing d node indirect place length offset fuel block_num to e =
    rw (le→not-ltb 0 length (omega arith)) (
      ap₂ (λ n b. returns (pos n, b, d)) (sym e)
        (sym (filled_done d place offset length 0 to (omega arith))))

-- The blocks of a file that a read needs are on the disk.
pub record HasBlocks (d : Disk) (node : Inode) (offset length : ℕ) : Type 0 where
  pub placed :
      (k : ℕ)
      → 0 < length
      → offset / block_size ≤ k
      → block_size * k < offset + length
      → (0 < place_of d node k) × (place_of d node k < d.blocks)
  pub indirect_placed : 24576 ≤ offset + length → (0 < node.indirect) × (node.indirect < d.blocks)
  pub in_reach : offset + length ≤ block_size * (pointers_per_inode + pointers_per_block)

-- `read_inode` on a file whose blocks are there.
module _ (d : Disk) (node : Inode) (five : length node.direct ≡ pointers_per_inode)
    (small : IsSmall d) (asked offset : ℕ) (to : Buffer)
    (has : HasBlocks d node offset (min asked (node.size - offset))) where
  abbrev pub Reads : Type 0
  Reads =
      let length = min asked (node.size - offset) in
      (r : ℕ) × (read_inode node asked offset to d ≡ (
        if ends_in_sixth offset length
        then undefined
        else returns
            (pos length, filled d (place_of d node) offset length 0 to, record d { reads = r })))

  reads_below : offset + min asked (node.size - offset) ≤ 20480 → Reads
  unfolding read_inode
  reads_below h =
      let length = min asked (node.size - offset) in
      let shut = le→not-ltb pointers_per_inode ((offset + length) / block_size) (omega arith) in
      let blocks : AllThere node none length offset (place_of d node) d (offset + length) =
        λ k some_byte lo hi.
          let (positive, on_disk) = has.placed k some_byte lo hi in
          (direct_there d node five none k (omega arith), positive, on_disk) in
      let (r, runs) =
        read_loop_lem node none length offset (place_of d node) d small blocks (suc length)
          (offset / block_size) 0 to d.reads (omega arith) (omega arith)
          (inr (inl refl, omega arith)) in
      (r, rw (shut, sixth_false offset length (inr (inl h))) runs)

  reads_gap :
      20480 < offset + min asked (node.size - offset)
      → offset + min asked (node.size - offset) < 24576
      → Reads
  unfolding read_inode
  reads_gap above below =
      let length = min asked (node.size - offset) in
      let shut = le→not-ltb pointers_per_inode ((offset + length) / block_size) (omega arith) in
      let blocks : AllThere node none length offset (place_of d node) d 20480 = λ k some_byte lo hi.
        let (positive, on_disk) = has.placed k some_byte lo (omega (arith, above)) in
        (direct_there d node five none k (omega arith), positive, on_disk) in
      elim (eq-cases length 0) [
        | inl e ↦ (
          d.reads,
          rw (shut, sixth_false offset length (inl e))
              (read_nothing d node none (place_of d node) length offset length (offset / block_size)
                to e),
        )
        | inr ne ↦ (
          d.reads,
          rw (shut, sixth_true offset length (omega arith) above below)
              (read_loop_gap node none length offset (place_of d node) d small refl above below
                blocks (suc length) (offset / block_size) 0 to d.reads (omega arith) (omega arith)
                (inl refl) (omega arith)),
        )
      ]

  reads_indirect : 24576 ≤ offset + min asked (node.size - offset) → Reads
  unfolding read_inode
  reads_indirect h =
      let length = min asked (node.size - offset) in
      let open' = lt→ltb pointers_per_inode ((offset + length) / block_size) (omega arith) in
      let (positive, on_disk) = has.indirect_placed h in
      let blocks : AllThere node (some (d.contents node.indirect)) length offset (place_of d node) d
          (offset + length) =
        λ k some_byte lo hi.
          let (positive, on_disk) = has.placed k some_byte lo hi in
          (pointer_there d node five k (omega (arith, has.in_reach)), positive, on_disk) in
      let (r, runs) =
        read_loop_lem node (some (d.contents node.indirect)) length offset (place_of d node) d small
          blocks (suc length) (offset / block_size) 0 to ((d.reads + 1) % 2 ^ 64) (omega arith)
          (omega arith) (inr (inl refl, omega arith)) in
      (
        r,
        rw
            (
              open',
              ne→not-== node.indirect 0 (omega arith),
              disk_read_lem d node.indirect small on_disk,
              ◌>>=◌,
              sixth_false offset length (inr (inr h)),
            )
            runs,
      )

  reads_lem : Reads
  reads_lem =
      let end = offset + min asked (node.size - offset) in
      elim (lt-cases 20480 end) [
        | inr below ↦ reads_below below
        | inl above ↦ elim (lt-cases end 24576) [
          | inl gap ↦ reads_gap above gap
          | inr far ↦ reads_indirect far
        ]
      ]

if_bind :
    {A B : Type 0} (b : Bool) (a : A) (f : A → Outcome B)
    → ((if b then undefined else returns a) >>= f) ≡ (if b then undefined else f a)
if_bind true a f = refl
if_bind false a f = refl

module _ {fs : FileSystem} (vol : IsVolume fs) (n : ℕ) (inside : n < fs.num_inodes)
    (asked offset : ℕ) (to : Buffer) where
  read_step :
      offset ≤ (inode_at fs n).size
      → (result : Outcome (ℤ × Buffer × Disk))
      → read_inode (inode_at fs n) asked offset to (count_read fs.disk) ≡ result
      → read fs n to asked offset ≡ (do (ret, to', d) ← result; returns (ret, to', with_disk fs d))
  unfolding read
  read_step le result e =
      rw (load_inode_lem vol n inside, ◌>>=◌)
        (rw (le→not-ltb (inode_at fs n).size offset le, e) refl)

  -- On a volume, for an inode of the table, an offset that is not past its size, and a file whose blocks
  -- are on the disk, `read` returns the number of bytes asked for, or of those left after the offset
  -- where they are fewer, has put exactly these bytes of the file at the start of the buffer, and has
  -- changed nothing but the count of reads. But when it reads some bytes and ends in the sixth block,
  -- it uses an indirect block that it has not read.
  pub read_lem :
      offset ≤ (inode_at fs n).size
      → HasBlocks fs.disk (inode_at fs n) offset (min asked ((inode_at fs n).size - offset))
      → let length = min asked ((inode_at fs n).size - offset) in
        (r : ℕ) × (read fs n to asked offset ≡ (
          if ends_in_sixth offset length
          then undefined
          else returns (
            pos length,
            filled fs.disk (place_of fs.disk (inode_at fs n)) offset length 0 to,
            with_disk fs (record fs.disk { reads = r }),
          )))
  read_lem le has =
      let d = count_read fs.disk in
      let node = inode_at fs n in
      let length = min asked (node.size - offset) in
      let has' : HasBlocks d node offset length = record {
        placed = has.placed;
        indirect_placed = has.indirect_placed;
        in_reach = has.in_reach;
      } in
      let five =
        length-direct (fs.disk.contents (1 + n / inodes_per_block)) (n % inodes_per_block) in
      let (r, e) = reads_lem d node five vol.small asked offset to has' in
      (
        r,
        read_step le
              (if ends_in_sixth offset length
                then undefined
                else returns (
                  pos length,
                  filled d (place_of d node) offset length 0 to,
                  record d { reads = r },
                ))
              e
            ∙ if_bind (ends_in_sixth offset length)
                (pos length, filled d (place_of d node) offset length 0 to, record d { reads = r })
                (λ (ret, to', d'). returns (ret, to', with_disk fs d')),
      )
