-- ===== src/Scheduler/Tests.antt =====
-- Runs of Assignment3/scheduler.c on small tables.
use cs232_operating_systems.Common.{
  ℕ, zero, suc, ◌+◌, ◌≡◌, ◌≤◌, ◌<◌, ◌↔◌, refl, arith, List, [], ◌∷◌, get_or, returns, undefined,
  some, none, weigh,
}
use cs232_operating_systems.Common.Int.{ℤ, pos, ◌+ℤ◌, ◌-ℤ◌}
use cs232_operating_systems.Scheduler.{Process, sort, sorted_at, no_process, bubble_from, passes}
use cs232_operating_systems.Scheduler.Sort.{IsSorted, arriving, sort-IsSorted}
use cs232_operating_systems.Scheduler.Fcfs.{
  fcfs, serve_from, IsBusy, ready, finished, NoneNegative, fcfs-eq-serve, fcfs-NoneNegative,
}
use cs232_operating_systems.Scheduler.Srbf.{srbf, srbf_start, srbf_step}
use cs232_operating_systems.Scheduler.Srbf.Inv.{rem, need}
use cs232_operating_systems.Scheduler.Srbf.Completes.{
  IsLoad, IsServed, Passes, begin, on, srbf_completes, srbf_ends, srbf_runs_shortest,
}
use cs232_operating_systems.Scheduler.RoundRobin.{State, rr}
use cs232_operating_systems.Scheduler.RoundRobin.FirstLap.{IsPunctual}
use cs232_operating_systems.Scheduler.RoundRobin.Ends.{rr-eq-fcfs, rr_overruns}
use cs232_operating_systems.Scheduler.RoundRobin.Waiting.{rr_never_ends}

abbrev job : ℕ → ℕ → ℕ → Process
job name arr burst = record {
  name = name ∷ [];
  arr = pos arr;
  burst = pos burst;
  tat = pos 0;
  wait = pos 0;
}

-- Out of the order of arrival.
abbrev two_jobs : List Process
two_jobs = job 1 2 1 ∷ job 2 0 3 ∷ []

abbrev late_job : List Process
late_job = job 1 4 2 ∷ []

two_jobs_sorted : sort two_jobs ≡ job 2 0 3 ∷ job 1 2 1 ∷ []
unfolding bubble_from passes
two_jobs_sorted = refl

-- The wait of a process that comes into an idle processor is printed as less than 0.
late_job-fcfs :
    fcfs late_job ≡ record (job 1 4 2) { tat = pos 2 -ℤ pos 4; wait = pos 2 -ℤ pos 4 -ℤ pos 2 } ∷ []
unfolding bubble_from passes ◌+ℤ◌
late_job-fcfs = refl

sort-IsSorted_example :
    IsSorted (sort two_jobs) × ((a : ℤ) → arriving a (sort two_jobs) ≡ arriving a two_jobs)
sort-IsSorted_example = sort-IsSorted two_jobs

two_jobs-IsBusy : IsBusy (pos 0) (sort two_jobs)
unfolding bubble_from passes ◌+ℤ◌
two_jobs-IsBusy = ready (omega arith) (ready (omega arith) finished)

fcfs-eq-serve_example : fcfs two_jobs ≡ serve_from (pos 0) (sort two_jobs)
fcfs-eq-serve_example = fcfs-eq-serve two_jobs two_jobs-IsBusy

fcfs-NoneNegative_example : NoneNegative (fcfs late_job) ↔ IsBusy (pos 0) (sort late_job)
fcfs-NoneNegative_example = fcfs-NoneNegative late_job

two_places : (P : ℕ → Type 0) → P 0 → P 1 → (l : ℕ) → l < 2 → P l
two_places P a b zero h = a
two_places P a b (suc zero) h = b
two_places P a b (suc (suc l)) h = absurd (omega arith)

two_jobs-IsLoad : IsLoad two_jobs
unfolding bubble_from passes weigh
two_jobs-IsLoad = record {
  arr_nat = two_places _ refl refl;
  burst_nat = two_places _ refl refl;
  some_work = two_places (λ l. 0 < need (sorted_at two_jobs l)) (omega arith) (omega arith);
  fits = two_places (λ l. need (sorted_at two_jobs l) < 2147483647) (omega arith) (omega arith);
  busy = two_places _ (omega arith) (omega arith);
}

srbf_completes_example :
    (after : ℕ → Process) × (srbf two_jobs ≡ returns (some after))
    × ((l : ℕ)
        → l < 2
        → IsServed (weigh need (sorted_at two_jobs) 2) (sorted_at two_jobs l) (after l))
srbf_completes_example = srbf_completes two_jobs two_jobs-IsLoad

srbf_ends_example : (after : ℕ → Process) × (srbf late_job ≡ returns (some after))
unfolding ◌+ℤ◌
srbf_ends_example = srbf_ends late_job 2 refl

-- Job 2 has been let in.
let_in :
    Passes 2
      (weigh need (sorted_at two_jobs) 2)
      (srbf_start two_jobs)
      (srbf_step 2 (srbf_start two_jobs))
unfolding bubble_from passes weigh
let_in = on begin (omega arith)

srbf_runs_shortest_example :
    let s = srbf_step 2 (srbf_start two_jobs) in
    let s' = srbf_step 2 s in
    (s'.i < s.j)
    × (rem (s'.t s'.i) + 1 ≡ rem (s.t s'.i))
    × ((l : ℕ) → l < s.j → 0 < rem (s.t l) → rem (s.t s'.i) ≤ rem (s.t l))
unfolding bubble_from passes weigh srbf_step
srbf_runs_shortest_example = srbf_runs_shortest two_jobs-IsLoad let_in (omega arith) refl

two_jobs-IsPunctual : (q : ℕ) → 2 ≤ q → IsPunctual q two_jobs
unfolding bubble_from passes weigh
two_jobs-IsPunctual q h = record {
  fits = omega arith;
  some_time = omega arith;
  arr_nat = two_places _ refl refl;
  burst_nat = two_places _ refl refl;
  some_work = two_places _ (omega arith) (omega arith);
  in_time = two_places _ (omega arith) (omega arith);
}

rr-eq-fcfs_example :
    (s : State) × (rr (2 + 5) (pos 4) two_jobs ≡ returns (some s))
    × ((l : ℕ) → l < 2 → s.table l ≡ get_or (fcfs two_jobs) l no_process)
unfolding bubble_from passes
rr-eq-fcfs_example =
    rr-eq-fcfs 4 two_jobs (two_jobs-IsPunctual 4 (omega arith))
      (two_places _ (omega arith) (omega arith)) 5

rr_overruns_example : rr (2 + suc 0) (pos 2) two_jobs ≡ undefined
unfolding bubble_from passes
rr_overruns_example =
    rr_overruns 2 two_jobs (two_jobs-IsPunctual 2 (omega arith)) 0 (omega arith) (omega arith) 0

rr_never_ends_example : rr 100 (pos 1) late_job ≡ returns none
unfolding bubble_from passes ◌+ℤ◌
rr_never_ends_example = rr_never_ends 100 (pos 1) late_job (omega arith) (λ e. ground arith)
