-- ===== src/Scheduler/RoundRobin/Waiting.antt =====
-- `RR` of Assignment3/scheduler.c when no process is there at time 0.
use cs232_operating_systems.Common.{
  ℕ, zero, suc, ◌+◌, ◌%◌, ◌≡◌, ◌≢◌, refl, arith, sym, ◌∙◌, ap, List, length, none, returns, false,
  ◌>>=◌,
}
use cs232_operating_systems.Common.Int.{ℤ, pos, ◌≤ℤ◌, eq_of_parts}
use cs232_operating_systems.Scheduler.{Process, sorted_at, total_burst}
use cs232_operating_systems.Scheduler.RoundRobin.{
  State, rr, rr_loop, rr_step, rr_start, leb_ℤ, eq_ℤ,
}

not-eq_ℤ : (a b : ℤ) → a ≢ b → eq_ℤ a b ≡ false
not-eq_ℤ a b ne = ground (arith, eq_of_parts a b)

module _ (qu : ℤ) (table : List Process) (late : pos 1 ≤ℤ (sorted_at table 0).arr) where
  abbrev turned : ℕ → State
  turned i = record (rr_start table) { i = i }

  idle_step :
      (i : ℕ) → rr_step qu (length table) (turned i) ≡ returns (turned ((i + 1) % length table))
  idle_step i =
      let not_yet : leb_ℤ (sorted_at table 0).arr (pos 0) ≡ false = ground arith in rw not_yet refl

  idle_loop :
      (fuel i : ℕ)
      → total_burst table ≢ pos 0
      → rr_loop fuel qu (length table) (total_burst table) (turned i) ≡ returns none
  unfolding rr_loop
  idle_loop zero i ne = rw (not-eq_ℤ (pos 0) (total_burst table) (λ e. ne (sym e))) refl
  idle_loop (suc fuel) i ne = rw (not-eq_ℤ (pos 0) (total_burst table) (λ e. ne (sym e))) (
      ap (λ o. o >>= (λ s. rr_loop fuel qu (length table) (total_burst table) s)) (idle_step i)
      ∙ idle_loop fuel ((i + 1) % length table) ne)

-- When the first process arrives after time 0, and the bursts do not add up to 0, the loop of `RR`
-- does not end: the clock moves only when a process runs.
pub rr_never_ends :
    (fuel : ℕ) (qu : ℤ) (table : List Process)
    → pos 1 ≤ℤ (sorted_at table 0).arr
    → total_burst table ≢ pos 0
    → rr fuel qu table ≡ returns none
rr_never_ends fuel qu table late ne = idle_loop qu table late fuel 0 ne
