-- ===== src/Scheduler.antt =====
-- Assignment3/scheduler.c: a simulator of three scheduling policies over a table of processes. Here
-- the table and its sort by arrival, with which every policy starts.
pub mod Sort
pub mod Totals
pub mod Fcfs
pub mod Srbf
pub mod RoundRobin
mod Tests
use cs232_operating_systems.Common.{
  ℕ, zero, suc, List, [], ◌∷◌, length, get_or, if◌then◌else◌, ◌+◌, ◌==◌, Bool,
}
use cs232_operating_systems.Common.Int.{ℤ, pos, ◌+ℤ◌, ltb_ℤ, pos_part, neg_part}

pub record Process : Type 0 where
  pub name : List ℕ
  pub arr : ℤ
  pub burst : ℤ
  pub tat : ℤ
  pub wait : ℤ

abbrev pub is_zero : ℤ → Bool
is_zero v = pos_part v + neg_part v == 0

-- The entries of `table` past the last process, as C starts them.
abbrev pub no_process : Process
no_process = record { name = []; arr = pos 0; burst = pos 0; tat = pos 0; wait = pos 0 }

abbrev pub swap : Process → Process → Process × Process
swap x y = (y, x)

-- One step of the inner loop: the two neighbours after the test.
abbrev pub order : Process → Process → Process × Process
order x y = if ltb_ℤ y.arr x.arr then swap x y else (x, y)

-- The inner loop, from the process `x` at its position on.
unfoldable pub bubble_from : Process → List Process → List Process
bubble_from x [] = x ∷ []
bubble_from x (y ∷ ys) = let (low, high) = order x y in low ∷ bubble_from high ys

abbrev pub bubble : List Process → List Process
bubble [] = []
bubble (x ∷ xs) = bubble_from x xs

-- The outer loop.
unfoldable pub passes : ℕ → List Process → List Process
passes zero table = table
passes (suc n) table = passes n (bubble table)

abbrev pub sort : List Process → List Process
sort table = passes (length table) table

-- The processes of `table` by their place after the sort.
abbrev pub sorted_at : List Process → ℕ → Process
sorted_at table l = get_or (sort table) l no_process

-- `tt`, the sum of the bursts.
abbrev pub total_burst : List Process → ℤ
total_burst [] = pos 0
total_burst (p ∷ ps) = p.burst +ℤ total_burst ps
