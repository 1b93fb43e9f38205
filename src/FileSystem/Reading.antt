-- ===== src/FileSystem/Reading.antt =====
-- What `read` of Assignment7/lab7/src/library/fs.cpp puts into the buffer.
use cs232_operating_systems.Common.{
  ℕ, zero, suc, ◌+◌, ◌-◌, ◌*◌, ◌/◌, ◌%◌, ◌^◌, min, ◌≤◌, ◌<◌, ◌≡◌, refl, sym, ap, ap₂, ◌∙◌, fun_ext,
  arith, ◌&&◌, Option, none, length, ltb, leb, if◌then◌else◌, returns, undefined, ◌>>=◌, lt→ltb,
  le→not-ltb, ne→not-==, eq-cases, lt-cases, ◌⊎◌, inl, inr,
}
use cs232_operating_systems.Common.Int.{pos}
use cs232_operating_systems.FileSystem.Block.{Block, Inode}
use cs232_operating_systems.FileSystem.Emulator.{Disk, IsSmall, disk_read_lem, count_read}
use cs232_operating_systems.FileSystem.Transfer.{
  Buffer, block_size, copy, round_offset, round_length, block_to_read, read_loop,
}

-- Byte `q` of the file whose blocks are `place 0`, `place 1` and so on.
abbrev pub byte_at : Disk → (ℕ → ℕ) → ℕ → ℕ
byte_at d place q = d.contents (place (q / block_size)) (q % block_size)

-- The buffer with the bytes from `done` on replaced up to `length`.
abbrev pub filled : Disk → (ℕ → ℕ) → (offset length done : ℕ) → Buffer → Buffer
filled d place offset length done to i =
    if leb done i && ltb i length then byte_at d place (offset + i) else to i

-- A round starts at the offset or at the start of a block.
abbrev pub Starts : ℕ → ℕ → Type 0
Starts offset done = (done ≡ 0) ⊎ ((offset + done) % block_size ≡ 0)

pub round_offset_lem :
    (offset done : ℕ) → Starts offset done → round_offset offset done ≡ (offset + done) % block_size
round_offset_lem offset done start = ground arith

pub round_length_lem :
    (length offset done : ℕ)
    → Starts offset done
    → done < length
    → round_length length offset done
      ≡ min (block_size - (offset + done) % block_size) (length - done)
round_length_lem length offset done start h = ground arith

-- One round, and the rest.
module _ (d : Disk) (place : ℕ → ℕ) (offset length done n : ℕ) (to : Buffer) where
  filled_at :
      (i : ℕ)
      → done < length
      → n ≡ min (block_size - (offset + done) % block_size) (length - done)
      → filled d place offset length
          (done + n)
          (copy to done
            (d.contents (place ((offset + done) / block_size)))
            ((offset + done) % block_size)
            n)
          i
        ≡ filled d place offset length done to i
  filled_at i h e = elim (lt-cases i done) [
    | inl before ↦ ground arith
    | inr from ↦ elim (lt-cases i (done + n)) [
      | inl now ↦
          let q : (offset + i) / block_size ≡ (offset + done) / block_size = omega arith in
          let r : (offset + i) % block_size ≡ (offset + done) % block_size + (i - done) =
            omega arith in
          let same : d.contents (place ((offset + i) / block_size)) ((offset + i) % block_size)
              ≡ d.contents (place ((offset + done) / block_size))
                  ((offset + done) % block_size + (i - done)) =
            rw (q, r) refl in
          ground (arith, same)
      | inr later ↦ ground arith
    ]
  ]

  pub filled_round :
      done < length
      → n ≡ min (block_size - (offset + done) % block_size) (length - done)
      → filled d place offset length (done + n) (
          copy to done
            (d.contents (place ((offset + done) / block_size)))
            ((offset + done) % block_size)
            n)
        ≡ filled d place offset length done to
  filled_round h e = fun_ext λ i. filled_at i h e

pub filled_done :
    (d : Disk) (place : ℕ → ℕ) (offset length done : ℕ) (to : Buffer)
    → length ≤ done
    → filled d place offset length done to ≡ to
filled_done d place offset length done to h = fun_ext λ i. ground arith

-- A round of the loop, on a block that is there.
module _ (node : Inode) (indirect : Option Block) (length offset : ℕ) (place : ℕ → ℕ) where
  pub read_round :
      (d : Disk) (fuel block_num done : ℕ) (to : Buffer)
      → IsSmall d
      → done < length
      → Starts offset done
      → block_num ≡ (offset + done) / block_size
      → block_to_read node indirect block_num ≡ returns (place block_num)
      → 0 < place block_num
      → place block_num < d.blocks
      → (n : ℕ) × (n ≡ min (block_size - (offset + done) % block_size) (length - done))
        × (read_loop node indirect length offset (suc fuel) block_num done to d
            ≡ read_loop node indirect length offset fuel
                (suc block_num)
                (done + n)
                (copy to done
                  (d.contents (place ((offset + done) / block_size)))
                  ((offset + done) % block_size)
                  n)
                (count_read d))
  unfolding read_loop
  read_round d fuel block_num done to small h start at there positive on_disk =
      let n = min (block_size - (offset + done) % block_size) (length - done) in
      (
        n,
        refl,
        rw (lt→ltb done length h) (
            rw (there, ◌>>=◌)
              (rw
                (
                  ne→not-== (place block_num) 0 (omega arith),
                  disk_read_lem d (place block_num) small on_disk,
                  ◌>>=◌,
                )
                (rw
                  (
                    round_offset_lem offset done start,
                    round_length_lem length offset done start h,
                    at,
                  )
                  refl))),
      )

  -- The pointers from the offset up to byte `end` are read as `place` says, and are blocks of the disk.
  abbrev pub AllThere : Disk → ℕ → Type 0
  AllThere d end =
      (k : ℕ)
      → 0 < length
      → offset / block_size ≤ k
      → block_size * k < end
      → (block_to_read node indirect k ≡ returns (place k)) × (0 < place k) × (place k < d.blocks)

  next_start :
      (done n block_num : ℕ)
      → done < length
      → n ≡ min (block_size - (offset + done) % block_size) (length - done)
      → block_num ≡ (offset + done) / block_size
      → (done + n ≡ length)
        ⊎ (Starts offset (done + n) × (suc block_num ≡ (offset + (done + n)) / block_size))
  next_start done n block_num h e at = elim (eq-cases (done + n) length) [
    | inl all ↦ inl all
    | inr more ↦ inr (inr (omega arith), omega arith)
  ]

  -- The loop, where all blocks from the offset on are there.
  pub read_loop_lem :
      (d : Disk)
      → IsSmall d
      → AllThere d (offset + length)
      → (fuel block_num done : ℕ) (to : Buffer) (reads : ℕ) → length - done < fuel
      → done ≤ length
      → (done ≡ length) ⊎ (Starts offset done × (block_num ≡ (offset + done) / block_size))
      → (r : ℕ) × (read_loop node indirect length offset fuel block_num done to
            (record d { reads = reads })
          ≡ returns (pos length, filled d place offset length done to, record d { reads = r }))
  unfolding read_loop
  read_loop_lem d small blocks zero block_num done to reads more le at = absurd (omega arith)
  read_loop_lem d small blocks (suc fuel) block_num done to reads more le at =
      elim (lt-cases done length) [
        | inr ge ↦ (
          reads,
          rw (le→not-ltb done length ge) (
              ap₂ (λ n b. returns (pos n, b, record d { reads = reads })) (omega arith)
                (sym (filled_done d place offset length done to ge))),
        )
        | inl h ↦ elim at [
          | inl all ↦ absurd (omega arith)
          | inr (start, e) ↦
              let (there, positive, on_disk) =
                blocks block_num (omega arith) (omega arith) (omega arith) in
              let d' = record d { reads = reads } in
              let (n, size, goes) =
                read_round d' fuel block_num done to small h start e there positive on_disk in
              let (r, rest) =
                read_loop_lem d small blocks fuel (suc block_num) (done + n)
                  (copy to done (d.contents (place ((offset + done) / block_size)))
                    ((offset + done) % block_size) n)
                  ((reads + 1) % 2 ^ 64) (omega arith) (omega arith)
                  (next_start done n block_num h size e) in
              (
                r,
                goes
                    ∙ rest
                    ∙ ap (λ b. returns (pos length, b, record d { reads = r }))
                        (filled_round d place offset length done n to h size),
              )
        ]
      ]

  -- The loop, where the sixth block is reached and the indirect block was not read.
  pub read_loop_gap :
      (d : Disk)
      → IsSmall d
      → indirect ≡ none
      → 20480 < offset + length
      → offset + length < 24576
      → AllThere d 20480
      → (fuel block_num done : ℕ) (to : Buffer) (reads : ℕ) → length - done < fuel
      → done < length
      → Starts offset done
      → block_num ≡ (offset + done) / block_size
      → read_loop node indirect length offset fuel block_num done to (record d { reads = reads })
        ≡ undefined
  unfolding read_loop
  read_loop_gap d small unread lo hi blocks zero block_num done to reads more h start e =
      absurd (omega arith)
  read_loop_gap d small unread lo hi blocks (suc fuel) block_num done to reads more h start e =
      elim (lt-cases (offset + done) 20480) [
        | inr ge ↦
            let sixth : block_num ≡ 5 = omega arith in rw (lt→ltb done length h, unread, sixth) refl
        | inl below ↦
            let (there, positive, on_disk) =
              blocks block_num (omega arith) (omega arith) (omega arith) in
            let (n, size, goes) =
              read_round (record d { reads = reads }) fuel block_num done to small h start e there
                positive on_disk in
            goes
            ∙ read_loop_gap d small unread lo hi blocks fuel (suc block_num) (done + n)
                (copy to done (d.contents (place ((offset + done) / block_size)))
                  ((offset + done) % block_size) n)
                ((reads + 1) % 2 ^ 64) (omega arith) (omega arith) (inr (omega arith)) (omega arith)
      ]
