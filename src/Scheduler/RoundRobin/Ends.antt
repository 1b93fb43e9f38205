-- ===== src/Scheduler/RoundRobin/Ends.antt =====
-- How `RR` of Assignment3/scheduler.c ends after the first lap.
use cs232_operating_systems.Common.{
  ℕ, zero, suc, ◌+◌, ◌-◌, ◌≡◌, ◌≤◌, ◌<◌, refl, arith, sym, ◌∙◌, ap, List, [], ◌∷◌, length, get_or,
  get_or_out, some, returns, undefined, true, false, ltb, weigh, weigh_shift, weigh_cong,
  weight-le-weigh, lt-cases, lt→ltb, le→not-ltb, inl, inr,
}
use cs232_operating_systems.Common.Int.{ℤ, pos, ◌+ℤ◌, pos_part, neg_part, int_laws}
use cs232_operating_systems.Scheduler.{Process, sort, sorted_at, total_burst, no_process}
use cs232_operating_systems.Scheduler.Totals.{length-sort, total_burst-sort, total_burst-weigh}
use cs232_operating_systems.Scheduler.Fcfs.{fcfs, fcfs_from}
use cs232_operating_systems.Scheduler.RoundRobin.{
  State, max_process, rr, rr_loop, rr_start, rr_admit, leb_ℤ, eq_ℤ,
}
use cs232_operating_systems.Scheduler.RoundRobin.FirstLap.{
  share, IsPunctual, ends_at, Lap, lap, start-Lap, behind,
}

abbrev burst_of : Process → ℕ
burst_of p = pos_part p.burst

-- The processes as first come, first served leaves them, by their place.
fcfs_from_at :
    (n : ℕ) (ps : List Process) (d : Process) (l : ℕ)
    → l < length ps
    → ((m : ℕ) → m < length ps → neg_part (get_or ps m d).burst ≡ 0)
    → get_or (fcfs_from (pos n) ps) l d
      ≡ ends_at (pos (n + weigh burst_of (λ m. get_or ps m d) (suc l))) (get_or ps l d)
unfolding weigh
fcfs_from_at n [] d l h nat = absurd (omega arith)
fcfs_from_at n (p ∷ ps) d zero h nat =
    let here = nat 0 (omega arith) in ap (λ time. ends_at time p) (omega int_laws)
fcfs_from_at n (p ∷ ps) d (suc l) h nat =
    let here = nat 0 (omega arith) in
    let later : pos n +ℤ p.burst ≡ pos (n + burst_of p) = omega int_laws in
    let rest =
      fcfs_from_at (n + burst_of p) ps d l (omega arith) (λ m k. nat (suc m) (omega arith)) in
    let shift = weigh_shift burst_of (λ m. get_or (p ∷ ps) m d) (suc l) in
    ap (λ time. get_or (fcfs_from time ps) l d) later
    ∙ rest
    ∙ ap (λ k. ends_at (pos k) (get_or ps l d)) (omega (arith, shift))

module _ {q : ℕ} {table : List Process} (ok : IsPunctual q table) where
  abbrev T : ℕ → Process
  T = sorted_at table

  abbrev N : ℕ
  N = length table

  past : (l : ℕ) → N ≤ l → T l ≡ no_process
  past l h = get_or_out (sort table) l no_process (omega (arith, length-sort table))

  total : total_burst table ≡ pos (weigh burst_of T N)
  total =
      let sum =
        total_burst-weigh (sort table) no_process
          (λ l h. ok.burst_nat l (omega (arith, length-sort table))) in
      sym (total_burst-sort table) ∙ sum ∙ ap (λ n. pos (weigh burst_of T n)) (length-sort table)

  -- The state when the first lap is over.
  after-Lap :
      (fuel : ℕ)
      → (s : State) × (rr (N + fuel) (pos q) table
          ≡ rr_loop fuel (pos q) N (pos (weigh burst_of T N)) s)
        × Lap q T N N s
  after-Lap fuel =
      let (s, run, l) = lap ok fuel N 0 (rr_start table) (omega arith) (start-Lap ok) in
      (s, ap (λ z. rr_loop (N + fuel) (pos q) N z (rr_start table)) total ∙ run, l)

  stops :
      (fuel : ℕ) {s : State} {tt : ℤ} → s.time ≡ tt → rr_loop fuel (pos q) N tt s ≡ returns (some s)
  unfolding rr_loop
  stops zero e = ground (arith, ap pos_part e, ap neg_part e)
  stops (suc fuel) {s} {tt} e =
      let over : eq_ℤ s.time tt ≡ true = ground (arith, ap pos_part e, ap neg_part e) in
      rw over refl

  -- Nothing stops the loop from letting in one process more than there are.
  no_more : {s : State} → Lap q T N N s → rr_admit N s ≡ undefined
  no_more {s} l = elim (lt-cases s.j max_process) [
    | inl below ↦
        let there : ltb s.j max_process ≡ true = lt→ltb s.j max_process below in
        let mine : ltb s.j N ≡ false = ground (arith, l.j) in
        let p : s.table s.j ≡ no_process =
          l.waiting s.j (omega (arith, l.j)) ∙ past s.j (omega (arith, l.j)) in
        let here : leb_ℤ (s.table s.j).arr s.time ≡ true =
          ground
            (arith, ap (λ z. pos_part z.arr) p, ap (λ z. neg_part z.arr) p, ap neg_part l.time) in
        rw (there, here, mine) refl
    | inr above ↦
        let there : ltb s.j max_process ≡ false = le→not-ltb s.j max_process above in rw there refl
  ]

  runs_out :
      (fuel : ℕ) {s : State}
      → Lap q T N N s
      → weigh (share q) T N < weigh burst_of T N
      → rr_loop (suc fuel) (pos q) N (pos (weigh burst_of T N)) s ≡ undefined
  unfolding rr_loop
  runs_out fuel {s} l less =
      let not_over : eq_ℤ s.time (pos (weigh burst_of T N)) ≡ false =
        ground (arith, ap pos_part l.time, ap neg_part l.time) in
      rw (not_over, no_more l) refl

plus_none : (n : ℕ) → n ≡ 0 + n
plus_none n = omega arith

-- When each process has arrived by its turn, needs no more than the quantum, and the table holds at
-- most ten, `RR` ends with every fuel from the number of processes on, and gives each process what
-- first come, first served gives it. (Arrivals are not negative, bursts are positive.)
pub rr-eq-fcfs :
    (q : ℕ) (table : List Process)
    → IsPunctual q table
    → ((l : ℕ) → l < length table → burst_of (sorted_at table l) ≤ q)
    → (fuel : ℕ)
    → (s : State) × (rr (length table + fuel) (pos q) table ≡ returns (some s))
      × ((l : ℕ) → l < length table → s.table l ≡ get_or (fcfs table) l no_process)
rr-eq-fcfs q table ok small fuel =
    let (s, run, l) = after-Lap ok fuel in
    let whole : (k : ℕ) → share q (sorted_at table k) ≡ burst_of (sorted_at table k) = λ k.
      elim (lt-cases k (length table)) [
        | inl h ↦ omega (arith, small k h)
        | inr h ↦ omega (arith, ap burst_of (past ok k h))
      ] in
    let same = weigh_cong (share q) burst_of (sorted_at table) (sorted_at table) whole in
    (
      s,
      run ∙ stops ok fuel (l.time ∙ ap pos (same (length table))),
      λ k h.
          l.ended k h (small k h)
          ∙ ap (λ n. ends_at (pos n) (sorted_at table k))
              (same (suc k) ∙ plus_none (weigh burst_of (sorted_at table) (suc k)))
          ∙ sym (
              fcfs_from_at 0 (sort table) no_process k (omega (arith, length-sort table))
                (λ m j. ok.burst_nat m (omega (arith, length-sort table)))),
    )

-- When each process has arrived by its turn in the first lap, and some process needs more than the
-- quantum, the loop goes on after every process has been let in, and the next round writes past the
-- end of `t` or reads past the end of `table`. (The table holds at most ten processes, arrivals are
-- not negative, bursts and the quantum are positive.)
pub rr_overruns :
    (q : ℕ) (table : List Process)
    → IsPunctual q table
    → (l : ℕ) → l < length table
    → q < burst_of (sorted_at table l)
    → (fuel : ℕ) → rr (length table + suc fuel) (pos q) table ≡ undefined
rr_overruns q table ok l h big fuel =
    let (s, run, lap) = after-Lap ok (suc fuel) in
    let excess = weight-le-weigh (λ p. burst_of p - q) (sorted_at table) (length table) l h in
    run ∙ runs_out ok fuel lap (omega (arith, behind ok (length table), excess))
