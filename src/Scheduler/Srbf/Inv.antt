-- ===== src/Scheduler/Srbf/Inv.antt =====
-- The invariant of the loop of `SRBF` in Assignment3/scheduler.c, for a table that keeps the
-- processor busy.
use cs232_operating_systems.Common.{
  ℕ, zero, suc, ◌+◌, ◌≡◌, ◌≤◌, ◌<◌, arith, ap, ◌==◌, if◌then◌else◌, eq-cases, lt-cases, inl, inr,
  weigh, lt→ltb, le→not-ltb,
}
use cs232_operating_systems.Common.Int.{ℤ, pos_part, neg_part, ltb_ℤ}
use cs232_operating_systems.Scheduler.{Process}
use cs232_operating_systems.Scheduler.Srbf.{State, int_max, scan}

-- What an entry of `t` leaves to do; INT_MAX stands for a process that is not there.
abbrev pub rem : ℤ → ℕ
rem v = if pos_part v == int_max then 0 else pos_part v

abbrev pub need : Process → ℕ
need p = pos_part p.burst

abbrev pub arrival : Process → ℕ
arrival p = pos_part p.arr

-- A table in the order of arrival, of processes with something to do, that arrive no later than the
-- processor would run out of work.
pub record IsSortedLoad (T : ℕ → Process) (N : ℕ) : Type 0 where
  pub arr_nat : (l : ℕ) → l < N → neg_part (T l).arr ≡ 0
  pub burst_nat : (l : ℕ) → l < N → neg_part (T l).burst ≡ 0
  pub some_work : (l : ℕ) → l < N → 0 < need (T l)
  pub fits : (l : ℕ) → l < N → need (T l) < int_max
  pub ordered : (l m : ℕ) → l ≤ m → m < N → arrival (T l) ≤ arrival (T m)
  pub busy : (l : ℕ) → l < N → arrival (T l) ≤ weigh need T l

-- The process has ended between its arrival and `time`, with its turnaround time noted.
pub record IsDone (p : Process) (time : ℕ) : Type 0 where
  pub tat_nat : neg_part p.tat ≡ 0
  pub long_enough : need p ≤ pos_part p.tat
  pub ended : arrival p + pos_part p.tat ≤ time

pub record Inv (T : ℕ → Process) (N : ℕ) (s : State) : Type 0 where
  pub same_arr : (l : ℕ) → (s.table l).arr ≡ (T l).arr
  pub same_burst : (l : ℕ) → (s.table l).burst ≡ (T l).burst
  pub j_le : s.j ≤ N
  pub nonneg : (l : ℕ) → neg_part (s.t l) ≡ 0
  pub at_zero : (l : ℕ) → pos_part (s.t l) ≡ 0 → l ≡ s.i
  pub future_t : (l : ℕ) → s.j ≤ l → pos_part (s.t l) ≡ int_max
  pub future_time : (l : ℕ) → s.j ≤ l → l < N → s.time ≤ arrival (T l)
  pub cap : (l : ℕ) → l < s.j → rem (s.t l) ≤ need (T l)
  pub age : (l : ℕ) → l < s.j → arrival (T l) + need (T l) ≤ s.time + rem (s.t l)
  pub done : (l : ℕ) → l < s.j → rem (s.t l) ≡ 0 → IsDone (s.table l) s.time
  pub work : s.time + weigh rem s.t s.j ≡ weigh need T s.j

-- One comparison of the scan.
better :
    (t : ℕ → ℤ) (l k : ℕ)
    → neg_part (t l) ≡ 0
    → neg_part (t k) ≡ 0
    → let best = if ltb_ℤ (t l) (t k) then l else k in
      (pos_part (t best) ≤ pos_part (t k)) × (pos_part (t best) ≤ pos_part (t l))
better t l k hl hk =
    elim (lt-cases (pos_part (t l) + neg_part (t k)) (pos_part (t k) + neg_part (t l))) [
      | inl h ↦ rw (lt→ltb _ _ h) (omega arith, omega arith)
      | inr h ↦ rw (le→not-ltb _ _ h) (omega arith, omega arith)
    ]

-- The scan finds a least entry.
pub scan-least :
    (t : ℕ → ℤ) (count l k : ℕ)
    → ((m : ℕ) → neg_part (t m) ≡ 0)
    → (pos_part (t (scan t count l k)) ≤ pos_part (t k))
      × ((m : ℕ) → l ≤ m → m < l + count → pos_part (t (scan t count l k)) ≤ pos_part (t m))
unfolding scan
scan-least t zero l k h = (omega arith, λ m a b. absurd (omega arith))
scan-least t (suc count) l k h =
    let (to_k, to_l) = better t l k (h l) (h k) in
    let (first, rest) = scan-least t count (suc l) (if ltb_ℤ (t l) (t k) then l else k) h in
    (
      omega arith,
      λ m lo hi. elim (eq-cases l m) [
        | inl same ↦ omega (arith, ap (λ z. pos_part (t z)) same)
        | inr ne ↦ rest m (omega arith) (omega arith)
      ],
    )
