-- ===== src/FileSystem/WriteEnd.antt =====
-- The end of the loop of `write` of Assignment7/lab7/src/library/fs.cpp, within the first five blocks.
use cs232_operating_systems.Common.{
  ℕ, zero, suc, ◌+◌, ◌-◌, ◌/◌, ◌%◌, min, ◌≤◌, ◌<◌, ◌≡◌, refl, sym, ap, ◌∙◌, subst, arith, false,
  returns, ◌>>=◌, lt→ltb, le→not-ltb, eq-cases, lt-cases, ◌⊎◌, inl, inr,
}
use cs232_operating_systems.FileSystem.Block.{Inode, pointers_per_inode}
use cs232_operating_systems.FileSystem.State.{FileSystem}
use cs232_operating_systems.FileSystem.Transfer.{Buffer, block_size}
use cs232_operating_systems.FileSystem.Writing.{Write, Target, locate, write_block, write_loop}
use cs232_operating_systems.FileSystem.Reading.{Starts}
use cs232_operating_systems.FileSystem.Allocation.{AllTaken}
use cs232_operating_systems.FileSystem.WriteLoop.{
  Running, Located, there, full, locate_lem, write_block_lem,
}

module _ (before : FileSystem) (node₀ : Inode) (from : Buffer) (offset length : ℕ)
    (within : offset + length ≤ 20480) where
  -- All is written, or the disk is full.
  abbrev pub Ended : Write → Type 0
  Ended w = (w.written ≡ length) ⊎ AllTaken w.fs.free_bitmap 0 w.fs.num_blocks

  abbrev pub Ends : ℕ → ℕ → Write → Type 0
  Ends k n w =
      (w' : Write) × (write_loop from length offset w k n ≡ returns (false, w'))
      × Running before node₀ from offset w'
      × (w'.written ≤ length)
      × Ended w'

  next_round :
      (written written' k : ℕ)
      → written < length
      → written' ≡ written + min (block_size - (offset + written) % block_size) (length - written)
      → k ≡ (offset + written) / block_size
      → (written' ≡ length) ⊎ (Starts offset written' × (suc k ≡ (offset + written') / block_size))
  next_round written written' k h e at = elim (eq-cases written' length) [
    | inl all ↦ inl all
    | inr more ↦ inr (inr (omega arith), omega arith)
  ]

  -- A round, when a block is found or not.
  round :
      (n k : ℕ) (w w' : Write) (t : Target)
      → w.written < length
      → Starts offset w.written
      → k ≡ (offset + w.written) / block_size
      → locate w k ≡ returns (t, w')
      → Located before node₀ from offset k w.written t w'
      → ((w'' : Write)
          → Running before node₀ from offset w''
          → w''.written
            ≡ w.written + min (block_size - (offset + w.written) % block_size) (length - w.written)
          → Ends (suc k) n w'')
      → Ends k (suc n) w
  unfolding write_loop
  round n k w w' _ more start at e (full run same all) rest =
      (w', rw (lt→ltb w.written length more) (rw (e, ◌>>=◌) refl), run, omega arith, inr all)
  round n k w w' _ more start at e (there p run same is ne) rest =
      let (w'', runs, run', count) =
        write_block_lem before node₀ from offset w' run k length (omega arith) (omega arith)
          (subst (Starts offset) (sym same) start) (omega arith) (λ z. ne (sym is ∙ z)) in
      let (last, ends, run'', le, ended) =
        rest w'' run'
          (count ∙ ap (λ x. x + min (block_size - (offset + x) % block_size) (length - x)) same) in
      let runs' = ap (write_block from length offset w') (sym is) ∙ runs in
      (
        last,
        rw (lt→ltb w.written length more) (rw (e, ◌>>=◌) (rw (runs', ◌>>=◌) ends)),
        run'',
        le,
        ended,
      )

  -- The rounds that are left reach past the first five blocks.
  pub write_loop_lem :
      (n k : ℕ) (w : Write)
      → Running before node₀ from offset w
      → w.written ≤ length
      → (w.written ≡ length) ⊎ (Starts offset w.written × (k ≡ (offset + w.written) / block_size))
      → pointers_per_inode < k + n
      → Ends k n w
  unfolding write_loop
  write_loop_lem zero k w run le at more = elim at [
    | inl e ↦ (w, refl, run, le, inl e)
    | inr (start, e) ↦ (w, refl, run, le, inl (omega arith))
  ]
  write_loop_lem (suc n) k w run le at more = elim at [
    | inl e ↦ (w, rw (le→not-ltb w.written length (omega arith)) refl, run, le, inl e)
    | inr (start, e) ↦ elim (lt-cases w.written length) [
      | inr all ↦ (w, rw (le→not-ltb w.written length all) refl, run, le, inl (omega arith))
      | inl h ↦
          let (t, w', finds, located) = locate_lem before node₀ from offset w run k (omega arith) in
          round n k w w' t h start e finds located (λ w'' run' count.
            write_loop_lem n (suc k) w'' run' (omega arith)
              (next_round w.written w''.written k h count e) (omega arith))
    ]
  ]
