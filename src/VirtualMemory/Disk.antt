-- ===== src/VirtualMemory/Disk.antt =====
-- Assignment6/vm_assignment/disk.c: a disk of blocks. The calls of the system that can fail are given by
-- whether they succeed; the file is its blocks.
use cs232_operating_systems.Common.{
  ℕ, ◌≡◌, ◌<◌, refl, arith, ◌==◌, ltb, lt→ltb, le→not-ltb, ◌≤◌, if◌then◌else◌, Bool, true, false,
  Option, none, some, List, assign, Outcome, returns, aborts, ◌>>=◌,
}
use cs232_operating_systems.Common.Int.{ℤ, pos, negsuc}

-- `fd` and `block_size` are left out: there is one file, and the size of a block is fixed.
pub record Disk : Type 0 where
  pub nblocks : ℕ
  pub blocks : ℕ → List ℕ

-- `disk_open`, with the file as it is found: `malloc`, `open` and `ftruncate` must succeed.
abbrev pub disk_open : Bool → Bool → Bool → (ℕ → List ℕ) → ℕ → Option Disk
disk_open false _ _ file nblocks = none
disk_open true false _ file nblocks = none
disk_open true true false file nblocks = none
disk_open true true true file nblocks = some (record { nblocks = nblocks; blocks = file })

-- `disk_write`; the first argument says whether `pwrite` writes the whole block.
abbrev pub disk_write : Bool → Disk → ℤ → List ℕ → Outcome Disk
disk_write whole d (negsuc _) bytes = aborts
disk_write whole d (pos block) bytes =
    if ltb block d.nblocks
    then if whole then returns (record d { blocks = assign d.blocks block bytes }) else aborts
    else aborts

-- `disk_read`; the first argument says whether `pread` reads the whole block.
abbrev pub disk_read : Bool → Disk → ℤ → Outcome (List ℕ)
disk_read whole d (negsuc _) = aborts
disk_read whole d (pos block) =
    if ltb block d.nblocks then if whole then returns (d.blocks block) else aborts else aborts

-- A block that is on the disk reads as it was last written, and writing it changes no other block.
pub disk_read-disk_write :
    (d : Disk) (block other : ℕ) (bytes : List ℕ)
    → block < d.nblocks
    → other < d.nblocks
    → (disk_write true d (pos block) bytes >>= λ d'. disk_read true d' (pos other))
      ≡ (if other == block then returns bytes else disk_read true d (pos other))
disk_read-disk_write d block other bytes h k =
    rw (lt→ltb block d.nblocks h, lt→ltb other d.nblocks k) (ground arith)

-- A block that is not on the disk is neither read nor written: the process ends.
pub disk_bounds :
    (d : Disk) (block below : ℕ) (whole : Bool) (bytes : List ℕ)
    → d.nblocks ≤ block
    → (disk_write whole d (pos block) bytes ≡ aborts)
      × (disk_read whole d (pos block) ≡ aborts)
      × (disk_write whole d (negsuc below) bytes ≡ aborts)
      × (disk_read whole d (negsuc below) ≡ aborts)
disk_bounds d block below whole bytes h =
    let out = le→not-ltb block d.nblocks h in (rw out refl, rw out refl, refl, refl)
