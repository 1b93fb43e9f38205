-- ===== src/FileSystem/WriteLoop.antt =====
-- The loop of `write` of Assignment7/lab7/src/library/fs.cpp, within the first five blocks of a file.
use cs232_operating_systems.Common.{
  ℕ, ◌+◌, ◌-◌, ◌/◌, ◌%◌, ◌^◌, min, ◌<◌, ◌≡◌, ◌≢◌, refl, arith, true, false, Option, none, some, set,
  get_or, get_or-set_self, get_elem?-eq-get_or, returns, ◌>>=◌, eq→==, ne→not-==, lt→ltb,
  le→not-ltb, eq-cases, lt-cases, inl, inr,
}
use cs232_operating_systems.FileSystem.Block.{Block, Inode, blank, pointers_per_inode}
use cs232_operating_systems.FileSystem.Emulator.{disk_read_lem, disk_write_lem, put_block}
use cs232_operating_systems.FileSystem.State.{FileSystem, allocate_free_block}
use cs232_operating_systems.FileSystem.Transfer.{Buffer, block_size, copy, direct_pointer}
use cs232_operating_systems.FileSystem.Writing.{
  Write, Target, chosen, breaks, locate_direct, locate, write_block,
}
use cs232_operating_systems.FileSystem.Table.{with_disk}
use cs232_operating_systems.FileSystem.Reading.{Starts, round_offset_lem, round_length_lem}
use cs232_operating_systems.FileSystem.Allocation.{
  AllTaken, FirstBlock, all_taken, free_block, taken, allocate_free_block_lem,
}
use cs232_operating_systems.FileSystem.Owning.{Sound, take-Sound, a_behind}
use cs232_operating_systems.FileSystem.WriteRound.{put-Sound}

module _ (before : FileSystem) (node₀ : Inode) (from : Buffer) (offset : ℕ) where
  -- The variables of `write`, while only direct blocks are written.
  pub record Running (w : Write) : Type 0 where
    pub sound : Sound before node₀.direct from offset w.fs w.node.direct w.written
    pub same_valid : w.node.valid ≡ node₀.valid
    pub same_size : w.node.size ≡ node₀.size
    pub same_indirect : w.node.indirect ≡ node₀.indirect
    pub no_indirect : w.modified_indirect ≡ false
    pub unmodified : w.modified_inode ≡ false → w.node.direct ≡ node₀.direct

  -- What the first half of a round finds for block `k`.
  pub data Located (k written : ℕ) : Target → Write → Type 0 where
    there :
        {w : Write} (p : ℕ)
        → Running w
        → w.written ≡ written
        → get_or w.node.direct k 0 ≡ p
        → p ≢ 0
        → Located k written (chosen p) w
    full :
        {w : Write}
        → Running w
        → w.written ≡ written
        → AllTaken w.fs.free_bitmap 0 w.fs.num_blocks
        → Located k written breaks w

  module _ (w : Write) (run : Running w) (k : ℕ) (lt : k < pointers_per_inode) where
    pointer_at : direct_pointer w.node k ≡ returns (get_or w.node.direct k 0)
    pointer_at =
        rw
          (
            direct_pointer,
            get_elem?-eq-get_or w.node.direct k 0 (omega (arith, run.sound.owns.five)),
          )
          refl

    new_block :
        get_or w.node.direct k 0 ≡ 0
        → (found : Option ℕ) → allocate_free_block w.fs ≡ returns (found, taken w.fs found)
        → FirstBlock w.fs.free_bitmap 0 w.fs.num_blocks found
        → (t : Target) × (w' : Write) × (locate_direct w k ≡ returns (t, w'))
          × Located k w.written t w'
    new_block absent none e (all_taken all) = (
      breaks,
      w,
      rw (locate_direct, pointer_at, ◌>>=◌)
          (rw (eq→== (get_or w.node.direct k 0) 0 absent, e, ◌>>=◌) refl),
      full run refl all,
    )
    new_block absent (some a) e (free_block _ lo hi free below) = (
      chosen a,
      record w {
        node = record w.node { direct = set w.node.direct k a };
        modified_inode = true;
        fs = taken w.fs (some a);
      },
      rw (locate_direct, pointer_at, ◌>>=◌)
          (rw (eq→== (get_or w.node.direct k 0) 0 absent, e, ◌>>=◌) refl),
      there a
          (record {
            sound = take-Sound run.sound k a lt absent free hi;
            same_valid = run.same_valid;
            same_size = run.same_size;
            same_indirect = run.same_indirect;
            no_indirect = run.no_indirect;
            unmodified = λ f. cc;
          })
          refl (get_or-set_self w.node.direct k a 0 (omega (arith, run.sound.owns.five)))
          (λ z. omega (arith, a_behind w.fs w.node.direct run.sound.owns k a lt absent free hi)),
    )

    pub locate_lem :
        (t : Target) × (w' : Write) × (locate w k ≡ returns (t, w')) × Located k w.written t w'
    locate_lem = elim (eq-cases (get_or w.node.direct k 0) 0) [
      | inl absent ↦
          let (found, e, is, _) = allocate_free_block_lem run.sound.volume in
          let (t, w', runs, at) = new_block absent found e is in
          (t, w', rw (lt→ltb k pointers_per_inode lt) runs, at)
      | inr ne ↦ (
        chosen (get_or w.node.direct k 0),
        w,
        rw (lt→ltb k pointers_per_inode lt) (
            rw (locate_direct, pointer_at, ◌>>=◌)
              (rw (ne→not-== (get_or w.node.direct k 0) 0 ne) refl)),
        there (get_or w.node.direct k 0) run refl refl ne,
      )
    ]

  -- The second half of a round.
  module _ (w : Write) (run : Running w) (k length : ℕ) (lt : k < pointers_per_inode)
      (at : k ≡ (offset + w.written) / block_size) (start : Starts offset w.written)
      (more : w.written < length) (present : get_or w.node.direct k 0 ≢ 0) where
    abbrev place : ℕ
    place = get_or w.node.direct k 0

    abbrev pub moved : ℕ
    moved = min (block_size - (offset + w.written) % block_size) (length - w.written)

    abbrev put_on : ℕ → Block → Write
    put_on r old = record w {
      written = w.written + moved;
      fs = with_disk w.fs (
          put_block (record w.fs.disk { reads = r }) place
            (copy old ((offset + w.written) % block_size) from w.written moved));
    }

    put_on-Running :
        (r : ℕ) (old : Block)
        → ((i : ℕ)
            → i < block_size
            → copy old ((offset + w.written) % block_size) from w.written moved i
              ≡ copy
                  (w.fs.disk.contents place)
                  ((offset + w.written) % block_size)
                  from
                  w.written
                  moved
                  i)
        → Running (put_on r old)
    put_on-Running r old same = record {
      sound =
          put-Sound run.sound k moved
            (copy old ((offset + w.written) % block_size) from w.written moved) r at lt present
            (omega arith) same;
      same_valid = run.same_valid;
      same_size = run.same_size;
      same_indirect = run.same_indirect;
      no_indirect = run.no_indirect;
      unmodified = run.unmodified;
    }

    on_disk : place < w.fs.disk.blocks
    on_disk = omega (arith, run.sound.owns.inside k lt present, run.sound.volume.within)

    pub write_block_lem :
        (w' : Write) × (write_block from length offset w place ≡ returns w')
        × Running w'
        × (w'.written ≡ w.written + moved)
    write_block_lem =
        let small = run.sound.volume.small in
        let amount = round_length_lem length offset w.written start more in
        let begin = round_offset_lem offset w.written start in
        elim (lt-cases moved block_size) [
          | inl part ↦
              let old = w.fs.disk.contents place in
              let r = (w.fs.disk.reads + 1) % 2 ^ 64 in
              (
                put_on r old,
                rw
                    (
                      write_block,
                      amount,
                      begin,
                      lt→ltb moved block_size part,
                      disk_read_lem w.fs.disk place small on_disk,
                      ◌>>=◌,
                    )
                    (rw
                      (
                        disk_write_lem (record w.fs.disk { reads = r }) place
                            (copy old ((offset + w.written) % block_size) from w.written moved)
                            small on_disk,
                        ◌>>=◌,
                      )
                      refl),
                put_on-Running r old (λ i h. refl),
                refl,
              )
          | inr whole ↦ (
            put_on w.fs.disk.reads blank,
            rw (write_block, amount, begin, le→not-ltb moved block_size whole, ◌>>=◌)
                (rw
                  (
                    disk_write_lem w.fs.disk place
                        (copy blank ((offset + w.written) % block_size) from w.written moved) small
                        on_disk,
                    ◌>>=◌,
                  )
                  refl),
            put_on-Running w.fs.disk.reads blank (λ i h. ground arith),
            refl,
          )
        ]
