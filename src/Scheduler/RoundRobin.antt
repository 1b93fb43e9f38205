-- ===== src/Scheduler/RoundRobin.antt =====
-- `RR` of Assignment3/scheduler.c: the processes run in turn, for at most a quantum `qu` each time.
pub mod Turns
pub mod FirstLap
pub mod Ends
pub mod Waiting
use mathlib.Core.Option.{map}
use cs232_operating_systems.Common.{
  ℕ, zero, suc, ◌+◌, ◌%◌, ◌==◌, ltb, leb, ◌&&◌, if◌then◌else◌, Bool, assign, List, length, get_or,
  Option, none, some, Outcome, returns, undefined, ◌>>=◌,
}
use cs232_operating_systems.Common.Int.{ℤ, pos, ◌+ℤ◌, ◌-ℤ◌, pos_part, neg_part}
use cs232_operating_systems.Scheduler.{Process, sort, total_burst, sorted_at, is_zero}

abbrev pub max_process : ℕ
max_process = 10

abbrev pub leb_ℤ : ℤ → ℤ → Bool
leb_ℤ a b = leb (pos_part a + neg_part b) (pos_part b + neg_part a)

abbrev pub eq_ℤ : ℤ → ℤ → Bool
eq_ℤ a b = pos_part a + neg_part b == pos_part b + neg_part a

pub record State : Type 0 where
  pub table : ℕ → Process
  pub t : ℕ → ℤ
  pub time : ℤ
  pub i : ℕ
  pub j : ℕ

-- The first `if`. `table` has `max_process` entries and `t` has `N`; no test keeps `j` below `N`.
abbrev pub rr_admit : ℕ → State → Outcome State
rr_admit N s =
    if ltb s.j max_process
    then if leb_ℤ (s.table s.j).arr s.time
      then if ltb s.j N
        then returns (record s { t = assign s.t s.j (s.table s.j).burst; j = s.j + 1 })
        else undefined
      else returns s
    else undefined

-- The process `i` has ended.
abbrev pub rr_finish : State → State
rr_finish s =
    let p = s.table s.i in
    let tat = s.time -ℤ p.arr in
    record s { table = assign s.table s.i (record p { tat = tat; wait = tat -ℤ p.burst }) }

-- The second `if`.
abbrev pub rr_serve : ℤ → State → State
rr_serve qu s =
    let left = s.t s.i in
    let cut = record s { time = s.time +ℤ qu; t = assign s.t s.i (left -ℤ qu) } in
    let whole = record s { time = s.time +ℤ left; t = assign s.t s.i (pos 0) } in
    if is_zero left
    then s
    else if leb_ℤ qu left
    then if is_zero (left -ℤ qu) then rr_finish cut else cut
    else rr_finish whole

-- The body of the loop.
abbrev pub rr_step : ℤ → ℕ → State → Outcome State
rr_step qu N s = rr_admit N s >>= λ s'. returns (record (rr_serve qu s') { i = (s'.i + 1) % N })

-- The loop, for at most so many rounds.
unfoldable pub rr_loop : ℕ → ℤ → ℕ → ℤ → State → Outcome (Option State)
rr_loop zero qu N tt s = returns (if eq_ℤ s.time tt then some s else none)
rr_loop (suc fuel) qu N tt s =
    let rest = rr_step qu N s >>= λ s'. rr_loop fuel qu N tt s' in
    if eq_ℤ s.time tt then returns (some s) else rest

abbrev pub rr_start : List Process → State
rr_start table = record { table = sorted_at table; t = λ l. pos 0; time = pos 0; i = 0; j = 0 }

abbrev pub rr : ℕ → ℤ → List Process → Outcome (Option State)
rr fuel qu table = rr_loop fuel qu (length table) (total_burst table) (rr_start table)
