-- ===== src/FileSystem/Allocation.antt =====
-- What `allocate_free_block` of Assignment7/lab7/src/library/fs.cpp takes.
use cs232_operating_systems.Common.{
  ℕ, zero, suc, ◌+◌, ◌≤◌, ◌<◌, ◌≡◌, ◌≢◌, refl, subst, arith, Option, none, some, List, length, set,
  get_or, get_elem?-eq-get_or, length-set, returns, ◌>>=◌, eq→==, ne→not-==, eq-cases, inl, inr,
}
use cs232_operating_systems.FileSystem.Block.{blank}
use cs232_operating_systems.FileSystem.Emulator.{disk_write_lem, put_block}
use cs232_operating_systems.FileSystem.State.{FileSystem, free_from, allocate_free_block}
use cs232_operating_systems.FileSystem.Table.{IsVolume, IsVolume-with}
use cs232_operating_systems.FileSystem.Removal.{mark_lem}

abbrev pub AllTaken : List ℕ → ℕ → ℕ → Type 0
AllTaken bitmap lo hi = (j : ℕ) → lo ≤ j → j < hi → get_or bitmap j 0 ≡ 0

-- The first block from `lo` to `hi` that is free, or none.
pub data FirstBlock (bitmap : List ℕ) (lo hi : ℕ) : Option ℕ → Type 0 where
  all_taken : AllTaken bitmap lo hi → FirstBlock bitmap lo hi none
  free_block :
      (k : ℕ)
      → lo ≤ k
      → k < hi
      → get_or bitmap k 0 ≢ 0
      → AllTaken bitmap lo k
      → FirstBlock bitmap lo hi (some k)

later :
    {bitmap : List ℕ} {lo hi : ℕ} (found : Option ℕ)
    → get_or bitmap lo 0 ≡ 0
    → lo < hi
    → FirstBlock bitmap (suc lo) hi found
    → FirstBlock bitmap lo hi found
later {bitmap = bitmap} {lo = lo} found e h (all_taken all) = all_taken (λ j l g.
    elim (eq-cases lo j) [
      | inl same ↦ subst (λ i. get_or bitmap i 0 ≡ 0) same e
      | inr ne ↦ all j (omega arith) g
    ])
later {bitmap = bitmap} {lo = lo} found e h (free_block k l g free all) =
    free_block k (omega arith) g free (λ j l' g'. elim (eq-cases lo j) [
      | inl same ↦ subst (λ i. get_or bitmap i 0 ≡ 0) same e
      | inr ne ↦ all j (omega arith) g'
    ])

free_from_lem :
    (n : ℕ) (bitmap : List ℕ) (i : ℕ)
    → i + n ≤ length bitmap
    → (found : Option ℕ) × (free_from bitmap i n ≡ returns found)
      × FirstBlock bitmap i (i + n) found
unfolding free_from
free_from_lem zero bitmap i h = (none, refl, all_taken (λ j lo hi. absurd (omega arith)))
free_from_lem (suc n) bitmap i h =
    let here = get_elem?-eq-get_or bitmap i 0 (omega arith) in
    elim (eq-cases (get_or bitmap i 0) 0) [
      | inl e ↦
          let (found, runs, is) = free_from_lem n bitmap (suc i) (omega arith) in
          (
            found,
            rw (free_from, here) (rw (eq→== (get_or bitmap i 0) 0 e) runs),
            later found e (omega arith)
                (subst (λ hi. FirstBlock bitmap (suc i) hi found) (omega arith) is),
          )
      | inr ne ↦ (
        some i,
        rw (free_from, here) (rw (ne→not-== (get_or bitmap i 0) 0 ne) refl),
        free_block i (omega arith) (omega arith) ne (λ j lo hi. absurd (omega arith)),
      )
    ]

-- The state after a block is taken.
abbrev pub taken : FileSystem → Option ℕ → FileSystem
taken fs none = fs
taken fs (some k) = record fs {
  disk = put_block fs.disk k blank;
  free_bitmap = set fs.free_bitmap k 0;
}

pub taken-IsVolume :
    {fs : FileSystem} (vol : IsVolume fs) (found : Option ℕ) → IsVolume (taken fs found)
taken-IsVolume vol none = vol
taken-IsVolume {fs = fs} vol (some k) =
    IsVolume-with vol (put_block fs.disk k blank) (set fs.free_bitmap k 0) refl
      (length-set fs.free_bitmap k 0)

module _ {fs : FileSystem} (vol : IsVolume fs) where
  take_step :
      (found : Option ℕ)
      → free_from fs.free_bitmap 0 fs.num_blocks ≡ returns found
      → FirstBlock fs.free_bitmap 0 fs.num_blocks found
      → allocate_free_block fs ≡ returns (found, taken fs found)
  unfolding allocate_free_block
  take_step none e (all_taken all) = rw (e, ◌>>=◌) refl
  take_step (some k) e (free_block _ lo hi free below) =
      rw (e, ◌>>=◌)
        (rw (mark_lem fs.free_bitmap k 0 (omega (arith, vol.bitmap)), ◌>>=◌)
          (rw (disk_write_lem fs.disk k blank vol.small (omega (arith, vol.within)), ◌>>=◌) refl))

  -- On a volume `allocate_free_block` gives the first block that the bitmap says is free, or none where
  -- there is none; the block that it gives is filled with zeros and no longer free, and nothing else
  -- changes.
  pub allocate_free_block_lem :
      (found : Option ℕ) × (allocate_free_block fs ≡ returns (found, taken fs found))
      × FirstBlock fs.free_bitmap 0 fs.num_blocks found
      × IsVolume (taken fs found)
  allocate_free_block_lem =
      let (found, e, is) =
        free_from_lem fs.num_blocks fs.free_bitmap 0 (omega (arith, vol.bitmap)) in
      let is' = subst (λ hi. FirstBlock fs.free_bitmap 0 hi found) (omega arith) is in
      (found, take_step found e is', is', taken-IsVolume vol found)
