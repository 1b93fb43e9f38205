-- ===== src/FileSystem/Calls.antt =====
-- The calls of Assignment7/lab7/src/library/fs.cpp on a mounted volume as steps, and what a call for one
-- file does to the others.
use cs232_operating_systems.Common.{
  ℕ, ◌+◌, ◌-◌, ◌%◌, min, ◌≤◌, ◌<◌, ◌≡◌, ◌≢◌, refl, sym, ap, ◌∙◌, subst, arith, Bool, false,
  Bool-cases, assign, ◌⊎◌, ◌^◌, get_or, get_or-replicate, returns, returns-injective, ◌>>=◌,
  le→not-ltb, eq→==, eq-cases, lt-cases, inl, inr,
}
use cs232_operating_systems.Common.Int.{ℤ, pos, negsuc}
use cs232_operating_systems.FileSystem.Block.{Inode}
use cs232_operating_systems.FileSystem.Emulator.{count_read}
use cs232_operating_systems.FileSystem.Layout.{IsInode}
use cs232_operating_systems.FileSystem.State.{FileSystem, load_inode}
use cs232_operating_systems.FileSystem.Operations.{fresh_inode, create, removed_inode, remove}
use cs232_operating_systems.FileSystem.Transfer.{Buffer, read}
use cs232_operating_systems.FileSystem.Writing.{write}
use cs232_operating_systems.FileSystem.Table.{
  IsVolume, IsVolume-with, SameData, inode_at, with_disk, load_inode_lem,
}
use cs232_operating_systems.FileSystem.Creation.{
  FirstFree, all_valid, first, record_at, create_lem, fresh-IsInode,
}
use cs232_operating_systems.FileSystem.Removal.{remove_lem, removed-IsInode}
use cs232_operating_systems.FileSystem.ReadFile.{HasBlocks, ends_in_sixth, read_lem}
use cs232_operating_systems.FileSystem.Owning.{file_byte}
use cs232_operating_systems.FileSystem.WriteFile.{write_lem}
use cs232_operating_systems.FileSystem.Consistency.{
  IsConsistent, IsConsistent-IsForeign, pointer_of, write-IsConsistent,
}
use cs232_operating_systems.FileSystem.Emptied.{KeepsTaken, emptied-IsConsistent, other_stays}
use cs232_operating_systems.FileSystem.Same.{same-IsConsistent, same_bytes, held-AllBelow, not_held}

-- A call for file `n`, with the state that it leaves. Writes are those within the first five blocks, and
-- reads those of blocks that are there; `create` is for the file whose number it returns.
pub data Step (fs : FileSystem) (n : ℕ) (fs' : FileSystem) : Type 0 where
  creates : create fs ≡ returns (pos n, fs') → Step fs n fs'
  create_fails : (k : ℕ) → create fs ≡ returns (negsuc k, fs') → Step fs n fs'
  removes : (done : Bool) → remove fs n ≡ returns (done, fs') → Step fs n fs'
  writes :
      (from : Buffer) (length offset : ℕ) (result : ℤ)
      → n < fs.num_inodes
      → offset ≤ (inode_at fs n).size
      → offset + length ≤ 20480
      → write fs n from length offset ≡ returns (result, fs')
      → Step fs n fs'
  reads :
      (to to' : Buffer) (length offset : ℕ) (result : ℤ)
      → n < fs.num_inodes
      → offset ≤ (inode_at fs n).size
      → HasBlocks fs.disk (inode_at fs n) offset (min length ((inode_at fs n).size - offset))
      → read fs n to length offset ≡ returns (result, to', fs')
      → Step fs n fs'

-- The files still have blocks of their own, and every other file is as before.
pub record Keeps (fs : FileSystem) (n : ℕ) (fs' : FileSystem) : Type 0 where
  pub consistent : IsConsistent fs'
  pub same_inodes : fs'.num_inodes ≡ fs.num_inodes
  pub others : (m : ℕ) → m < fs.num_inodes → m ≢ n → inode_at fs' m ≡ inode_at fs m
  pub bytes :
      (m q : ℕ)
      → m < fs.num_inodes
      → m ≢ n
      → q < 20480
      → file_byte fs'.disk (inode_at fs' m).direct q ≡ file_byte fs.disk (inode_at fs m).direct q

module _ {fs : FileSystem} (con : IsConsistent fs) where
  -- Where the blocks of files do not change.
  data_bytes :
      {fs' : FileSystem}
      → SameData fs fs'
      → (m q : ℕ) → m < fs.num_inodes
      → q < 20480
      → inode_at fs' m ≡ inode_at fs m
      → file_byte fs'.disk (inode_at fs' m).direct q ≡ file_byte fs.disk (inode_at fs m).direct q
  data_bytes {fs' = fs'} same m q h lt e =
      ap (λ x. file_byte fs'.disk x.direct q) e
      ∙ same_bytes fs.disk fs'.disk (inode_at fs m).direct
          (λ k below nz.
            same.same_data (pointer_of fs m k) ((con.files m h).owned.behind k below nz))
          q lt

  idle-Keeps :
      {fs' : FileSystem} (n : ℕ)
      → IsVolume fs'
      → SameData fs fs'
      → fs'.free_bitmap ≡ fs.free_bitmap
      → ((m : ℕ) → inode_at fs' m ≡ inode_at fs m)
      → Keeps fs n fs'
  idle-Keeps n vol same bitmap table = record {
    consistent = same-IsConsistent con vol same bitmap table;
    same_inodes = same.same_inodes;
    others = λ m h ne. table m;
    bytes = λ m q h ne lt. data_bytes same m q h lt (table m);
  }

  counted-Keeps : (n r : ℕ) → Keeps fs n (with_disk fs (record fs.disk { reads = r }))
  counted-Keeps n r =
      let d = record fs.disk { reads = r } in
      idle-Keeps n (IsVolume-with con.volume d fs.free_bitmap refl refl)
        (record {
          same_blocks = refl;
          same_tables = refl;
          same_inodes = refl;
          same_data = λ k lt. refl;
        })
        refl (λ m. refl)

  emptied-Keeps :
      {fs' : FileSystem} {n : ℕ}
      → n < fs.num_inodes
      → (node : Inode) → IsInode node
      → ((k : ℕ) → get_or node.direct k 0 ≡ 0)
      → node.indirect ≡ 0
      → IsVolume fs'
      → SameData fs fs'
      → ((m : ℕ) → inode_at fs' m ≡ assign (inode_at fs) n node m)
      → KeepsTaken fs n fs'
      → Keeps fs n fs'
  emptied-Keeps inside node is bare alone vol same table keeps =
      let stays = other_stays con inside node is bare alone vol same table keeps in
      record {
        consistent = emptied-IsConsistent con inside node is bare alone vol same table keeps;
        same_inodes = same.same_inodes;
        others = λ m h ne. stays m ne;
        bytes = λ m q h ne lt. data_bytes same m q h lt (stays m ne);
      }

  created-Keeps :
      {fs' : FileSystem} (n : ℕ) (ind : ℤ)
      → FirstFree (inode_at fs) 0 fs.num_inodes ind
      → IsVolume fs'
      → fs'.free_bitmap ≡ fs.free_bitmap
      → SameData fs fs'
      → ((m : ℕ) → inode_at fs' m ≡ record_at (inode_at fs) ind fresh_inode m)
      → (ind ≡ pos n) ⊎ ((k : ℕ) × (ind ≡ negsuc k))
      → Keeps fs n fs'
  created-Keeps n ind (all_valid all) vol bitmap same table which =
      idle-Keeps n vol same bitmap table
  created-Keeps {fs' = fs'} n ind (first j lo hi e below) vol bitmap same table (inl is) =
      let made =
        emptied-Keeps hi fresh_inode fresh-IsInode (λ k. get_or-replicate 5 k 0) refl vol same table
          (λ k e other. ap (λ b. get_or b k 0) bitmap ∙ e) in
      subst (λ i. Keeps fs i fs') (cc) made
  created-Keeps n ind (first j lo hi e below) vol bitmap same table (inr (k, is)) = absurd (cc)

  create-Keeps :
      {fs' : FileSystem} (n : ℕ) (ind : ℤ)
      → create fs ≡ returns (ind, fs')
      → (ind ≡ pos n) ⊎ ((k : ℕ) × (ind ≡ negsuc k))
      → Keeps fs n fs'
  create-Keeps n ind runs which =
      let (ind', fs'', runs', is, vol, bitmap, same, table) = create_lem con.volume in
      let e = returns-injective (sym runs' ∙ runs) in
      subst (Keeps fs n) (ap (λ x. x.1) e) (
        created-Keeps n ind' is vol bitmap same table
          (subst (λ i. (i ≡ pos n) ⊎ ((k : ℕ) × (i ≡ negsuc k))) (sym (ap (λ x. x.0) e)) which))

  write-Keeps :
      {fs' : FileSystem} (n : ℕ) (from : Buffer) (length offset : ℕ) (result : ℤ)
      → n < fs.num_inodes
      → offset ≤ (inode_at fs n).size
      → offset + length ≤ 20480
      → write fs n from length offset ≡ returns (result, fs')
      → Keeps fs n fs'
  write-Keeps n from length offset result inside near within runs =
      let (written, fs'', runs', le, is) =
        write_lem con.volume n (con.files n inside) from length offset near within in
      let e = returns-injective (sym runs' ∙ runs) in
      subst (Keeps fs n) (ap (λ x. x.1) e) (record {
        consistent = write-IsConsistent con inside is;
        same_inodes = is.same_inodes;
        others = is.other_inodes;
        bytes = λ m q h ne lt.
            ap (λ x. file_byte fs''.disk x.direct q) (is.other_inodes m h ne)
            ∙ same_bytes fs.disk fs''.disk (inode_at fs m).direct
                (λ k below nz.
                  is.foreign (pointer_of fs m k)
                    (IsConsistent-IsForeign con n m k inside h (λ f. ne (sym f)) below nz))
                q lt;
      })

  read-Keeps :
      {fs' : FileSystem} (n : ℕ) (to to' : Buffer) (length offset : ℕ) (result : ℤ)
      → n < fs.num_inodes
      → offset ≤ (inode_at fs n).size
      → HasBlocks fs.disk (inode_at fs n) offset (min length ((inode_at fs n).size - offset))
      → read fs n to length offset ≡ returns (result, to', fs')
      → Keeps fs n fs'
  read-Keeps n to to' length offset result inside near has runs =
      let (r, runs') = read_lem con.volume n inside length offset to near has in
      elim (Bool-cases (ends_in_sixth offset (min length ((inode_at fs n).size - offset)))) [
        | inl e ↦ absurd (ground arith)
        | inr e ↦ subst (Keeps fs n) (cc) (counted-Keeps n r)
      ]

  remove-Keeps :
      {fs' : FileSystem} (n : ℕ) (done : Bool) → remove fs n ≡ returns (done, fs') → Keeps fs n fs'
  unfolding remove load_inode
  remove-Keeps {fs' = fs'} n done runs = elim (lt-cases n fs.num_inodes) [
    | inr out ↦
        let runs' : remove fs n ≡ returns (false, fs) =
          rw (le→not-ltb n fs.num_inodes out, ◌>>=◌) refl in
        subst (Keeps fs n) (ap (λ x. x.1) (returns-injective (sym runs' ∙ runs)))
          (counted-Keeps n fs.disk.reads)
    | inl inside ↦ elim (eq-cases (inode_at fs n).valid 0) [
      | inl e ↦
          let runs' : remove fs n ≡ returns (false, with_disk fs (count_read fs.disk)) =
            rw (load_inode_lem con.volume n inside, ◌>>=◌)
              (rw (eq→== (inode_at fs n).valid 0 e) refl) in
          subst (Keeps fs n) (ap (λ x. x.1) (returns-injective (sym runs' ∙ runs)))
            (counted-Keeps n ((fs.disk.reads + 1) % 2 ^ 64))
      | inr valid ↦
          let (fs'', runs', vol, same, table, bitmap) =
            remove_lem con.volume n inside valid (held-AllBelow con n inside) in
          subst (Keeps fs n) (ap (λ x. x.1) (returns-injective (sym runs' ∙ runs))) (
            emptied-Keeps inside removed_inode removed-IsInode (λ k. get_or-replicate 5 k 0) refl
              vol same table (λ k e other. bitmap k ∙ rw (not_held con n inside k other) e))
    ]
  ]

  pub Step-Keeps : {fs' : FileSystem} (n : ℕ) → Step fs n fs' → Keeps fs n fs'
  Step-Keeps n (creates runs) = create-Keeps n (pos n) runs (inl refl)
  Step-Keeps n (create_fails k runs) = create-Keeps n (negsuc k) runs (inr (k, refl))
  Step-Keeps n (removes done runs) = remove-Keeps n done runs
  Step-Keeps n (writes from length offset result inside near within runs) =
      write-Keeps n from length offset result inside near within runs
  Step-Keeps n (reads to to' length offset result inside near has runs) =
      read-Keeps n to to' length offset result inside near has runs
