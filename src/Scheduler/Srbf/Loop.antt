-- ===== src/Scheduler/Srbf/Loop.antt =====
-- The loop of `SRBF` in Assignment3/scheduler.c ends: each round lets a process in or moves the clock.
use cs232_operating_systems.Common.{
  ℕ, zero, suc, ◌+◌, ◌-◌, ◌≡◌, ◌≢◌, ◌≤◌, ◌<◌, arith, Bool-cases, eq-cases, inl, inr, some, true,
  false,
}
use cs232_operating_systems.Scheduler.Srbf.{
  State, srbf_step, srbf_loop, arrives, admit, run_for_tick,
}

-- What the loop does in a round.
pub data Round (N : ℕ) (s : State) : State → Type 0 where
  lets_in : arrives N s ≡ true → Round N s (admit s)
  runs : arrives N s ≡ false → Round N s (run_for_tick N s)

pub srbf_step-Round : (N : ℕ) (s : State) → Round N s (srbf_step N s)
unfolding srbf_step
srbf_step-Round N s = elim (Bool-cases (arrives N s)) [
  | inl e ↦ rw e (lets_in e)
  | inr e ↦ rw e (runs e)
]

pub arrives_below : (N : ℕ) (s : State) → arrives N s ≡ true → s.j < N
arrives_below N s e = ground arith

-- Rounds to go, at most.
abbrev pub rounds_left : ℕ → ℕ → State → ℕ
rounds_left N tt s = (tt - s.time) + (N - s.j)

Round-rounds_left :
    {N tt : ℕ} {s s' : State}
    → s.time ≤ tt
    → s.time ≢ tt
    → Round N s s'
    → (s'.time ≤ tt) × (rounds_left N tt s' + 1 ≤ rounds_left N tt s)
Round-rounds_left {N} {s = s} h ne (lets_in e) = (h, omega (arith, arrives_below N s e))
Round-rounds_left h ne (runs e) = (omega arith, omega arith)

-- A property that every round keeps holds when the loop ends, and the loop ends.
pub srbf_loop_ends :
    {N tt : ℕ} (P : State → Type 0)
    → ((s s' : State) → P s → s.time < tt → Round N s s' → P s')
    → (fuel : ℕ) (s : State) → s.time ≤ tt
    → rounds_left N tt s ≤ fuel
    → P s
    → (s' : State) × (srbf_loop fuel N tt s ≡ some s') × (s'.time ≡ tt) × P s'
unfolding srbf_loop
srbf_loop_ends {N} {tt} P keep zero s le h p = (s, ground arith, omega arith, p)
srbf_loop_ends {N} {tt} P keep (suc fuel) s le h p = elim (eq-cases s.time tt) [
  | inl e ↦ (s, ground arith, e, p)
  | inr ne ↦
      let round = srbf_step-Round N s in
      let (le', less) = Round-rounds_left le ne round in
      let (s', run, e, q) =
        srbf_loop_ends P keep fuel (srbf_step N s) le' (omega arith)
          (keep s (srbf_step N s) p (omega arith) round) in
      (s', ground (arith, run), e, q)
]
