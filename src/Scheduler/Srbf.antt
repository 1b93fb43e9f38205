-- ===== src/Scheduler/Srbf.antt =====
-- `SRBF` of Assignment3/scheduler.c: at each tick of the clock the process runs that has the least
-- left to do. The arrays `table` and `t` are functions of the index, which stays below `N`.
pub mod Loop
pub mod Inv
pub mod Rounds
pub mod Completes
use mathlib.Core.Option.{map}
use cs232_operating_systems.Common.{
  ℕ, zero, suc, ◌+◌, ◌-◌, ◌^◌, ◌==◌, ltb, ◌&&◌, if◌then◌else◌, Bool, assign, List, [], length,
  get_or, Option, none, some, Outcome, returns, undefined,
}
use cs232_operating_systems.Common.Int.{ℤ, pos, negsuc, ◌-ℤ◌, ltb_ℤ, pos_part, neg_part}
use cs232_operating_systems.Scheduler.{Process, sort, total_burst, sorted_at, is_zero}

abbrev pub int_max : ℕ
int_max = 2147483647

pub record State : Type 0 where
  pub table : ℕ → Process
  pub t : ℕ → ℤ
  pub time : ℕ
  pub j : ℕ
  pub i : ℕ

-- The loop over `l`, with `count` rounds to go and `k` the best so far.
unfoldable pub scan : (ℕ → ℤ) → ℕ → ℕ → ℕ → ℕ
scan t zero l k = k
scan t (suc count) l k = scan t count (suc l) (if ltb_ℤ (t l) (t k) then l else k)

-- The process that ran last is taken out when it has ended.
abbrev pub retire : State → ℕ → ℤ
retire s = if is_zero (s.t s.i) then assign s.t s.i (pos int_max) else s.t

abbrev pub run_for_tick : ℕ → State → State
run_for_tick N s =
    let t = retire s in
    let k = scan t N 0 s.i in
    let left = t k -ℤ pos 1 in
    let p = s.table k in
    record s {
      table =
          if is_zero left
          then assign s.table k (record p { tat = pos (s.time + 1) -ℤ p.arr })
          else s.table;
      t = assign t k left;
      time = s.time + 1;
      i = k;
    }

abbrev pub admit : State → State
admit s = record s { t = assign s.t s.j (s.table s.j).burst; j = s.j + 1 }

abbrev pub arrives : ℕ → State → Bool
arrives N s = ltb s.j N && (s.time + neg_part (s.table s.j).arr == pos_part (s.table s.j).arr)

-- The body of the loop.
unfoldable pub srbf_step : ℕ → State → State
srbf_step N s = if arrives N s then admit s else run_for_tick N s

-- The loop, for at most so many rounds.
unfoldable pub srbf_loop : ℕ → ℕ → ℕ → State → Option State
srbf_loop zero N tt s = if s.time == tt then some s else none
srbf_loop (suc fuel) N tt s =
    let rest = srbf_loop fuel N tt (srbf_step N s) in if s.time == tt then some s else rest

-- The last loop, over the first `n` processes.
unfoldable pub set_waits : ℕ → (ℕ → Process) → ℕ → Process
set_waits zero table = table
set_waits (suc n) table =
    let rest = set_waits n table in
    assign rest n (record (rest n) { wait = (rest n).tat -ℤ (rest n).burst })

abbrev pub srbf_start : List Process → State
srbf_start table = record { table = sorted_at table; t = λ l. pos int_max; time = 0; j = 0; i = 0 }

-- With a negative `tt` the clock runs on until it overflows.
abbrev pub srbf_until : ℤ → List Process → Outcome (Option (ℕ → Process))
srbf_until (pos tt) table =
    let fuel = tt + length table in
    returns (
      map (λ s. set_waits (length table) s.table)
        (srbf_loop fuel (length table) tt (srbf_start table)))
srbf_until (negsuc _) table = undefined

abbrev pub srbf : List Process → Outcome (Option (ℕ → Process))
srbf table = srbf_until (total_burst table) table
