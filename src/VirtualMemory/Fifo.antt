-- ===== src/VirtualMemory/Fifo.antt =====
-- The FIFO policy as it is meant: a queue of at most `n` pages, the oldest first. A page that is
-- not in the queue is put at its end, and costs the oldest page its place once the queue is full.
pub mod Refine
pub mod Runs
use cs232_operating_systems.Common.{
  ℕ, ◌+◌, Bool, true, false, ◌||◌, List, [], ◌∷◌, ◌++◌, ◌==◌, ltb, if◌then◌else◌, length, drop,
}

abbrev pub Queue : Type 0
Queue = List ℕ

abbrev pub contains : Queue → ℕ → Bool
contains [] p = false
contains (x ∷ q) p = x == p || contains q p

unfoldable pub load : ℕ → Queue → ℕ → Queue
load n q p = if ltb (length q) n then q ++ (p ∷ []) else drop 1 q ++ (p ∷ [])

-- The queue and the number of misses after a sequence of references.
unfoldable pub simulate : ℕ → Queue → ℕ → List ℕ → Queue × ℕ
simulate n q misses [] = (q, misses)
simulate n q misses (p ∷ ps) =
    simulate n (if contains q p then q else load n q p)
      (if contains q p then misses else misses + 1) ps
