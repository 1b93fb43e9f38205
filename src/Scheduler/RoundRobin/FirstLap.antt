-- ===== src/Scheduler/RoundRobin/FirstLap.antt =====
-- The first lap of `RR` in Assignment3/scheduler.c, in which each process runs once, and its end.
use native.Mathlib.Nat.{mod-eq_of_lt}
use cs232_operating_systems.Common.{
  ℕ, zero, suc, ◌+◌, ◌-◌, ◌%◌, ◌≡◌, ◌≤◌, ◌<◌, min, refl, arith, sym, ◌∙◌, ap, ap₂, subst, List,
  length, returns, true, false, ◌>>=◌, ltb, assign, weigh, weigh_le, weigh_mono, eq-cases, lt-cases,
  inl, inr,
}
use cs232_operating_systems.Common.Int.{ℤ, pos, ◌+ℤ◌, ◌-ℤ◌, pos_part, neg_part, int_laws}
use cs232_operating_systems.Scheduler.{Process, sorted_at}
use cs232_operating_systems.Scheduler.RoundRobin.{
  State, max_process, rr_admit, rr_finish, rr_loop, rr_step, rr_start, leb_ℤ, eq_ℤ,
}
use cs232_operating_systems.Scheduler.RoundRobin.Turns.{serve_whole, serve_cut}

-- How long the first lap gives a process.
abbrev pub share : ℕ → Process → ℕ
share q p = min (pos_part p.burst) q

-- A table that fits, of processes with something to do, each of which has arrived when its turn comes.
pub record IsPunctual (q : ℕ) (table : List Process) : Type 0 where
  pub fits : length table ≤ max_process
  pub some_time : 0 < q
  pub arr_nat : (l : ℕ) → l < length table → neg_part (sorted_at table l).arr ≡ 0
  pub burst_nat : (l : ℕ) → l < length table → neg_part (sorted_at table l).burst ≡ 0
  pub some_work : (l : ℕ) → l < length table → 0 < pos_part (sorted_at table l).burst
  pub in_time :
      (l : ℕ)
      → l < length table
      → pos_part (sorted_at table l).arr ≤ weigh (share q) (sorted_at table) l

-- The process `p`, as it ends at `time`.
abbrev pub ends_at : ℤ → Process → Process
ends_at time p = record p { tat = time -ℤ p.arr; wait = time -ℤ p.arr -ℤ p.burst }

module _ (q : ℕ) (T : ℕ → Process) (N : ℕ) where
  -- The clock after the turns of `r` processes.
  abbrev clock : ℕ → ℤ
  clock r = pos (weigh (share q) T r)

  -- The state after `r` rounds of the loop.
  pub record Lap (r : ℕ) (s : State) : Type 0 where
    pub time : s.time ≡ clock r
    pub j : s.j ≡ r
    pub i : r < N → s.i ≡ r
    pub waiting : (l : ℕ) → r ≤ l → s.table l ≡ T l
    pub ended :
        (l : ℕ) → l < r → pos_part (T l).burst ≤ q → s.table l ≡ ends_at (clock (suc l)) (T l)

module _ {q : ℕ} {table : List Process} (ok : IsPunctual q table) where
  abbrev T : ℕ → Process
  T = sorted_at table

  abbrev N : ℕ
  N = length table

  module _ (r : ℕ) (s : State) (h : r < N) (lap : Lap q T N r s) where
    p_eq : s.table s.j ≡ T r
    p_eq = ap s.table lap.j ∙ lap.waiting r (omega arith)

    admitted : State
    admitted = record s { t = assign s.t s.j (s.table s.j).burst; j = s.j + 1 }

    admits : rr_admit N s ≡ returns admitted
    unfolding admitted
    admits =
        let there : ltb s.j max_process ≡ true = ground (arith, lap.j, ok.fits) in
        let mine : ltb s.j N ≡ true = ground (arith, lap.j) in
        let here : leb_ℤ (s.table s.j).arr s.time ≡ true = ground (
          arith,
          ap (λ p. pos_part p.arr) p_eq,
          ap (λ p. neg_part p.arr) p_eq,
          lap.time,
          ok.in_time r h,
          ok.arr_nat r h,
        ) in
        rw (there, here, mine) refl

    left_eq : admitted.t admitted.i ≡ pos (pos_part (T r).burst)
    unfolding admitted
    left_eq = ground (arith, lap.i h, lap.j, p_eq, ok.burst_nat r h)

    i_eq : s.i ≡ r
    i_eq = lap.i h

    b : ℕ
    b = pos_part (T r).burst

    next_i : suc r < N → (s.i + 1) % N ≡ suc r
    next_i k = ap (λ n. (n + 1) % N) i_eq ∙ mod-eq_of_lt (omega arith) ∙ omega arith

    whole : State
    whole =
        record (rr_finish
          (record admitted { time = s.time +ℤ pos b; t = assign admitted.t s.i (pos 0) })) {
            i = (s.i + 1) % N;
          }

    whole_time : b ≤ q → s.time +ℤ pos b ≡ clock q T N (suc r)
    unfolding weigh b
    whole_time k = ap (λ z. z +ℤ pos (pos_part (T r).burst)) lap.time ∙ omega int_laws

    i_T : s.table s.i ≡ T r
    i_T = ap s.table i_eq ∙ lap.waiting r (omega arith)

    here : whole.table r ≡ ends_at (s.time +ℤ pos b) (s.table s.i)
    unfolding whole admitted
    here = ground (arith, i_eq)

    whole-Lap : b ≤ q → Lap q T N (suc r) whole
    unfolding whole admitted
    whole-Lap k = record {
      time = whole_time k;
      j = omega (arith, lap.j);
      i = next_i;
      waiting = λ l le. ground (arith, lap.waiting l, i_eq);
      ended = λ l below small. elim (eq-cases l r) [
        | inl same ↦
            subst (λ m. whole.table m ≡ ends_at (clock q T N (suc m)) (T m)) (sym same)
              (here ∙ ap₂ ends_at (whole_time k) i_T)
        | inr ne ↦ ground (arith, lap.ended l, i_eq)
      ];
    }

    cut : State
    cut =
        record (record admitted {
          time = s.time +ℤ pos q;
          t = assign admitted.t s.i (pos b -ℤ pos q);
        }) { i = (s.i + 1) % N }

    cut-Lap : q < b → Lap q T N (suc r) cut
    unfolding cut admitted weigh b
    cut-Lap k = record {
      time = ap (λ z. z +ℤ pos q) lap.time ∙ omega int_laws;
      j = omega (arith, lap.j);
      i = next_i;
      waiting = λ l le. lap.waiting l (omega arith);
      ended = λ l below small. elim (eq-cases l r) [
        | inl same ↦ absurd (omega (arith, ap (λ n. pos_part (T n).burst) same))
        | inr ne ↦ lap.ended l (omega arith) small
      ];
    }

    round : (s' : State) × (rr_step (pos q) N s ≡ returns s') × Lap q T N (suc r) s'
    unfolding whole cut admitted b
    round =
        let work = ok.some_work r h in
        elim (lt-cases q b) [
          | inl k ↦ (
            cut,
            rw admits (
                ap (λ (z : State). returns (record z { i = (s.i + 1) % N }))
                  (serve_cut q b admitted left_eq ok.some_time k)),
            cut-Lap k,
          )
          | inr k ↦ (
            whole,
            rw admits (
                ap (λ (z : State). returns (record z { i = (s.i + 1) % N }))
                  (serve_whole q b admitted left_eq work k)),
            whole-Lap k,
          )
        ]

  abbrev tt : ℕ
  tt = weigh (λ p. pos_part p.burst) T N

  -- The clock is behind by what the first lap leaves over.
  pub behind :
      (r : ℕ)
      → weigh (share q) T r + weigh (λ p. pos_part p.burst - q) T r
        ≤ weigh (λ p. pos_part p.burst) T r
  behind r =
      weigh_mono (share q) (λ p. pos_part p.burst - q) (λ p. pos_part p.burst) (λ p. omega arith) T
        r

  early : (r : ℕ) → r < N → weigh (share q) T r < tt
  unfolding weigh
  early r h =
      omega (arith, behind r, weigh_le (λ p. pos_part p.burst) T (suc r) N h, ok.some_work r h)

  loop_step :
      (n : ℕ) (s : State) {s₁ : State}
      → eq_ℤ s.time (pos tt) ≡ false
      → rr_step (pos q) N s ≡ returns s₁
      → rr_loop (suc n) (pos q) N (pos tt) s ≡ rr_loop n (pos q) N (pos tt) s₁
  unfolding rr_loop
  loop_step n s ne one = rw ne (ap (λ o. o >>= (λ z. rr_loop n (pos q) N (pos tt) z)) one)

  -- The first lap.
  pub lap :
      (fuel d r : ℕ) (s : State)
      → r + d ≡ N
      → Lap q T N r s
      → (s' : State) × (rr_loop (d + fuel) (pos q) N (pos tt) s
          ≡ rr_loop fuel (pos q) N (pos tt) s')
        × Lap q T N N s'
  lap fuel zero r s e l = (
    s,
    ap (λ n. rr_loop n (pos q) N (pos tt) s) (omega arith),
    subst (λ n. Lap q T N n s) (omega arith) l,
  )
  lap fuel (suc d) r s e l =
      let (s₁, one, l₁) = round r s (omega arith) l in
      let (s', run, l') = lap fuel d (suc r) s₁ (omega arith) l₁ in
      let not_yet : eq_ℤ s.time (pos tt) ≡ false =
        ground (arith, ap pos_part l.time, ap neg_part l.time, early r) in
      (
        s',
        ap (λ n. rr_loop n (pos q) N (pos tt) s) (omega arith)
            ∙ loop_step (d + fuel) s not_yet one
            ∙ run,
        l',
      )

  pub start-Lap : Lap q T N 0 (rr_start table)
  unfolding weigh
  start-Lap = record {
    time = refl;
    j = refl;
    i = λ h. refl;
    waiting = λ l h. refl;
    ended = λ l h. absurd (omega arith);
  }
