-- ===== src/Scheduler/Srbf/Completes.antt =====
-- `SRBF` of Assignment3/scheduler.c ends and runs every process to its end, and each tick goes to a
-- process with the least left to do.
use mathlib.Core.Option.{map}
use cs232_operating_systems.Common.{
  ℕ, zero, suc, ◌+◌, ◌≡◌, ◌≤◌, ◌<◌, refl, sym, ap, ◌∙◌, subst, arith, List, length, weigh, weigh_le,
  weight-le-weigh, lt-cases, eq-cases, inl, inr, returns, some, false, if◌then◌else◌, ltb,
}
use cs232_operating_systems.Common.Int.{pos, pos_part, neg_part, ◌-ℤ◌, -ℤ_nat}
use cs232_operating_systems.Scheduler.{Process, sort, total_burst, no_process, sorted_at}
use cs232_operating_systems.Scheduler.Sort.{sort-IsSorted}
use cs232_operating_systems.Scheduler.Totals.{
  length-sort, total_burst-sort, total_burst-weigh, IsSorted_at,
}
use cs232_operating_systems.Scheduler.Srbf.{
  State, int_max, srbf_start, srbf_step, set_waits, srbf, srbf_until, arrives, run_for_tick,
}
use cs232_operating_systems.Scheduler.Srbf.Loop.{srbf_loop_ends, srbf_step-Round}
use cs232_operating_systems.Scheduler.Srbf.Inv.{rem, need, arrival, IsSortedLoad, IsDone, Inv}
use cs232_operating_systems.Scheduler.Srbf.Rounds.{Round-Inv, chosen, rem_at}

-- Arrivals are not negative, bursts are positive and below INT_MAX, and each process arrives no later
-- than the processor would run out of the work of those before it.
pub record IsLoad (table : List Process) : Type 0 where
  pub arr_nat : (l : ℕ) → l < length table → neg_part (sorted_at table l).arr ≡ 0
  pub burst_nat : (l : ℕ) → l < length table → neg_part (sorted_at table l).burst ≡ 0
  pub some_work : (l : ℕ) → l < length table → 0 < need (sorted_at table l)
  pub fits : (l : ℕ) → l < length table → need (sorted_at table l) < int_max
  pub busy :
      (l : ℕ) → l < length table → arrival (sorted_at table l) ≤ weigh need (sorted_at table) l

-- `q` is the process `p` after it was served: it has ended between its arrival and `tt`, its turnaround
-- time is at least its burst, and its waiting time is the rest.
pub record IsServed (tt : ℕ) (p q : Process) : Type 0 where
  pub same_arr : q.arr ≡ p.arr
  pub same_burst : q.burst ≡ p.burst
  pub tat_nat : neg_part q.tat ≡ 0
  pub wait_nat : neg_part q.wait ≡ 0
  pub parts : pos_part q.wait + need p ≡ pos_part q.tat
  pub ended : arrival p + pos_part q.tat ≤ tt

module _ {table : List Process} (load : IsLoad table) where
  abbrev T : ℕ → Process
  T = sorted_at table

  abbrev N : ℕ
  N = length table

  load-IsSortedLoad : IsSortedLoad T N
  load-IsSortedLoad = record {
    arr_nat = load.arr_nat;
    burst_nat = load.burst_nat;
    some_work = load.some_work;
    fits = load.fits;
    busy = load.busy;
    ordered = λ l m le h.
        let up =
          IsSorted_at no_process (sort-IsSorted table).0 l m le
            (omega (arith, length-sort table)) in
        omega (arith, up, load.arr_nat l, load.arr_nat m);
  }

  total : total_burst table ≡ pos (weigh need T N)
  total =
      let sum =
        total_burst-weigh (sort table) no_process
          (λ l h. load.burst_nat l (omega (arith, length-sort table))) in
      sym (total_burst-sort table) ∙ sum ∙ ap (λ n. pos (weigh need T n)) (length-sort table)

  start-Inv : Inv T N (srbf_start table)
  unfolding weigh
  start-Inv = record {
    same_arr = λ l. refl;
    same_burst = λ l. refl;
    j_le = omega arith;
    nonneg = λ l. refl;
    at_zero = λ l h. absurd (omega arith);
    future_t = λ l h. refl;
    future_time = λ l h k. omega arith;
    cap = λ l h. absurd (omega arith);
    age = λ l h. absurd (omega arith);
    done = λ l h e. absurd (omega arith);
    work = refl;
  }

  -- When the clock has reached the sum of the bursts, every process is done.
  all-IsDone :
      {s : State}
      → Inv T N s
      → s.time ≡ weigh need T N
      → (l : ℕ) → l < N
      → IsDone (s.table l) s.time
  unfolding weigh
  all-IsDone {s} inv e l h = elim (lt-cases s.j N) [
    | inl below ↦
        absurd
          (omega (arith, inv.work, weigh_le need T (suc s.j) N below, load.some_work s.j below))
    | inr above ↦
        let all_in : s.j ≡ N = omega (arith, inv.j_le) in
        let none_left : weigh rem s.t s.j ≡ 0 = omega (arith, inv.work, ap (weigh need T) all_in) in
        inv.done l (omega arith) (omega (arith, weight-le-weigh rem s.t s.j l (omega arith)))
  ]

set_waits_at :
    (n : ℕ) (table : ℕ → Process) (l : ℕ)
    → set_waits n table l
      ≡ (if ltb l n then record (table l) { wait = (table l).tat -ℤ (table l).burst } else table l)
unfolding set_waits
set_waits_at zero table l = ground arith
set_waits_at (suc n) table l = elim (eq-cases l n) [
  | inl same ↦ ground (arith, set_waits_at n table l, set_waits_at n table n)
  | inr ne ↦ ground (arith, set_waits_at n table l)
]

served :
    {tt : ℕ} {p q : Process}
    → q.arr ≡ p.arr
    → q.burst ≡ p.burst
    → neg_part p.burst ≡ 0
    → IsDone q tt
    → IsServed tt p (record q { wait = q.tat -ℤ q.burst })
served {q = q} arr burst nat d =
    let q_nat : neg_part q.burst ≡ 0 = ap neg_part burst ∙ nat in
    let (wait, sum) = -ℤ_nat q.tat q.burst d.tat_nat q_nat d.long_enough in
    record {
      same_arr = arr;
      same_burst = burst;
      tat_nat = d.tat_nat;
      wait_nat = wait;
      parts = omega (arith, sum, ap pos_part burst);
      ended = omega (arith, d.ended, ap pos_part arr);
    }

-- On a table that keeps the processor busy, `SRBF` ends, and every process has run to its end by the
-- time that is the sum of the bursts: its turnaround time is its burst and a waiting time that is not
-- negative. (Arrivals are not negative, bursts are positive and below INT_MAX.)
pub srbf_completes :
    (table : List Process)
    → IsLoad table
    → (after : ℕ → Process) × (srbf table ≡ returns (some after))
      × ((l : ℕ)
          → l < length table
          → IsServed (weigh need (sorted_at table) (length table)) (sorted_at table l) (after l))
srbf_completes table load =
    let tt = weigh need (sorted_at table) (length table) in
    let (s, run, e, inv) =
      srbf_loop_ends (Inv (sorted_at table) (length table))
        (λ s s' p h r. Round-Inv (load-IsSortedLoad load) s s' p h r) (tt + length table)
        (srbf_start table) (omega arith) (omega arith) (start-Inv load) in
    (
      set_waits (length table) s.table,
      ap (λ z. srbf_until z table) (total load)
          ∙ ap (λ r. returns (map (λ z. set_waits (length table) z.table) r)) run,
      λ l h.
          let d = subst (λ n. IsDone (s.table l) n) e (all-IsDone load inv e l h) in
          let at_l : set_waits (length table) s.table l
              ≡ record (s.table l) { wait = (s.table l).tat -ℤ (s.table l).burst } =
            set_waits_at (length table) s.table l ∙ ground arith in
          subst (λ q. IsServed tt (sorted_at table l) q) (sym at_l)
            (served (inv.same_arr l) (inv.same_burst l) (load.burst_nat l h) d),
    )

-- The loop of `SRBF` ends on every table whose bursts do not add up to less than 0: each round lets a
-- process in or moves the clock on, so the sum of the bursts and the number of processes bound it.
pub srbf_ends :
    (table : List Process) (tt : ℕ)
    → total_burst table ≡ pos tt
    → (after : ℕ → Process) × (srbf table ≡ returns (some after))
srbf_ends table tt e =
    let (s, run, _, _) =
      srbf_loop_ends (λ s. s ≡ s) (λ s s' p h r. refl) (tt + length table) (srbf_start table)
        (omega arith) (omega arith) refl in
    (
      set_waits (length table) s.table,
      ap (λ z. srbf_until z table) e
          ∙ ap (λ r. returns (map (λ z. set_waits (length table) z.table) r)) run,
    )

-- The states that the loop goes through before the clock reaches `tt`.
pub data Passes (N tt : ℕ) (s₀ : State) : State → Type 0 where
  begin : Passes N tt s₀ s₀
  on : {s : State} → Passes N tt s₀ s → s.time < tt → Passes N tt s₀ (srbf_step N s)

Passes-Inv :
    {table : List Process}
    → IsLoad table
    → {s : State}
    → Passes (length table) (weigh need (sorted_at table) (length table)) (srbf_start table) s
    → Inv (sorted_at table) (length table) s
Passes-Inv load begin = start-Inv load
Passes-Inv {table} load (on {s} r h) =
    Round-Inv (load-IsSortedLoad load) s (srbf_step (length table) s) (Passes-Inv load r) h
      (srbf_step-Round (length table) s)

-- On such a table, each tick of the clock goes to a process that has been let in and has something
-- left, none that has been let in and has something left has less, and the tick takes one from it.
pub srbf_runs_shortest :
    {table : List Process} {s : State}
    → IsLoad table
    → Passes (length table) (weigh need (sorted_at table) (length table)) (srbf_start table) s
    → s.time < weigh need (sorted_at table) (length table)
    → arrives (length table) s ≡ false
    → let s' = srbf_step (length table) s in
      (s'.i < s.j)
      × (rem (s'.t s'.i) + 1 ≡ rem (s.t s'.i))
      × ((l : ℕ) → l < s.j → 0 < rem (s.t l) → rem (s.t s'.i) ≤ rem (s.t l))
unfolding srbf_step
srbf_runs_shortest {table} {s} load r h no_one =
    let wl = load-IsSortedLoad load in
    let inv = Passes-Inv load r in
    let c = chosen wl inv h no_one in
    rw no_one (
      c.in_table,
      ground (arith, rem_at wl inv h no_one (run_for_tick (length table) s).i),
      c.least,
    )
