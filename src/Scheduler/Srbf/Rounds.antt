-- ===== src/Scheduler/Srbf/Rounds.antt =====
-- Each round of the loop of `SRBF` in Assignment3/scheduler.c keeps the invariant, and the process
-- that a round runs is one with the least left to do.
use cs232_operating_systems.Common.{
  ℕ, ◌+◌, ◌≡◌, ◌≢◌, ◌≤◌, ◌<◌, refl, arith, ◌∙◌, sym, ap, ◌==◌, ◌&&◌, if◌then◌else◌, Bool-cases,
  eq-cases, lt-cases, inl, inr, true, false, weigh, weigh-assign, weigh-assign_above, weigh_cong,
  weigh_pos, subst,
}
use cs232_operating_systems.Common.Int.{ℤ, pos, pos_part, neg_part, ◌-ℤ◌, -ℤ_nat}
use cs232_operating_systems.Scheduler.{Process, is_zero}
use cs232_operating_systems.Scheduler.Srbf.{
  State, int_max, scan, retire, run_for_tick, admit, arrives,
}
use cs232_operating_systems.Scheduler.Srbf.Loop.{Round, lets_in, runs, arrives_below}
use cs232_operating_systems.Scheduler.Srbf.Inv.{
  rem, need, arrival, IsSortedLoad, IsDone, Inv, scan-least,
}

module _ {T : ℕ → Process} {N : ℕ} {s : State} (wl : IsSortedLoad T N) (inv : Inv T N s) where
  open inv use {
    same_arr, same_burst, j_le, nonneg, at_zero, future_t, future_time, cap, age, done, work,
  }

  record Retired (t : ℕ → ℤ) : Type 0 where
    same_rem : (l : ℕ) → rem (t l) ≡ rem (s.t l)
    natural : (l : ℕ) → neg_part (t l) ≡ 0
    nonzero : (l : ℕ) → pos_part (t l) ≢ 0
    outside : (l : ℕ) → s.j ≤ l → pos_part (t l) ≡ int_max

  retire-Retired : Retired (retire s)
  retire-Retired = elim (Bool-cases (is_zero (s.t s.i))) [
    | inl e ↦ rw e (record {
      same_rem = λ l. ground arith;
      natural = λ l. ground (arith, nonneg l);
      nonzero = λ l h. ground (arith, at_zero l);
      outside = λ l h. ground (arith, future_t l h);
    })
    | inr e ↦ rw e (record {
      same_rem = λ l. refl;
      natural = nonneg;
      nonzero = λ l h. ground (arith, at_zero l h, nonneg l);
      outside = future_t;
    })
  ]

  abbrev k : ℕ
  k = scan (retire s) N 0 s.i

  module _ (tt_more : s.time < weigh need T N) (no_one : arrives N s ≡ false) where
    -- Some process has something left: the clock is behind the work let in.
    time_behind : s.time < weigh need T s.j
    time_behind = elim (lt-cases s.j N) [
      | inl h ↦ ground (arith, wl.busy s.j h, future_time s.j, same_arr s.j, wl.arr_nat s.j h)
      | inr h ↦
          let all_in : s.j ≡ N = omega (arith, j_le) in omega (arith, ap (weigh need T) all_in)
    ]

    -- The process that the round runs.
    pub record Chosen : Type 0 where
      pub in_table : k < s.j
      pub some_left : 0 < rem (s.t k)
      pub least : (l : ℕ) → l < s.j → 0 < rem (s.t l) → rem (s.t k) ≤ rem (s.t l)
      pub value : pos_part (retire s k) ≡ rem (s.t k)

    pub chosen : Chosen
    chosen =
        let re = retire-Retired in
        let (_, all_least) = scan-least (retire s) N 0 s.i re.natural in
        let small : (l : ℕ) → l < s.j → 0 < rem (s.t l) → pos_part (retire s l) ≡ rem (s.t l) =
          λ l hl pl. rem_some (retire s l) (re.same_rem l) pl in
        let least : (l : ℕ) → l < s.j → 0 < rem (s.t l) → pos_part (retire s k) ≤ rem (s.t l) =
          λ l hl pl. omega (arith, all_least l, small l hl pl, j_le) in
        let (l, hl, pl) = weigh_pos rem s.t s.j (omega (arith, work, time_behind)) in
        let below : pos_part (retire s k) < int_max =
          omega (arith, least l hl pl, cap l hl, wl.fits l, j_le) in
        let value : pos_part (retire s k) ≡ rem (s.t k) =
          rem_few (retire s k) below ∙ re.same_rem k in
        record {
          in_table = below_end k (re.outside k) below;
          some_left = omega (arith, re.nonzero k, value);
          least = λ l hl pl. omega (arith, value, least l hl pl);
          value = value;
        }
      where
        rem_some : (v : ℤ) {r : ℕ} → rem v ≡ r → 0 < r → pos_part v ≡ r
        rem_some v e h = ground arith

        rem_few : (v : ℤ) → pos_part v < int_max → pos_part v ≡ rem v
        rem_few v h = ground arith

        below_end : (l : ℕ) {m : ℕ} → (s.j ≤ l → m ≡ int_max) → m < int_max → l < s.j
        below_end l out h = elim (lt-cases l s.j) [
          | inl below ↦ below
          | inr above ↦ absurd (omega (arith, out above))
        ]

    abbrev left : ℤ
    left = retire s k -ℤ pos 1

    left_lem :
        (neg_part left ≡ 0) × (pos_part left + 1 ≡ rem (s.t k)) × (rem left + 1 ≡ rem (s.t k))
    left_lem =
        let c = chosen in
        let small = cap k c.in_table in
        let fits = wl.fits k (omega (arith, c.in_table, j_le)) in
        let (nat, sum) =
          -ℤ_nat (retire s k) (pos 1) (retire-Retired.natural k) refl
            (omega (arith, c.value, c.some_left)) in
        let value : pos_part left + 1 ≡ rem (s.t k) = omega (arith, sum, c.value) in
        (nat, value, ground (arith, value))

    -- The table after the round, at one process.
    table_at :
        (l : ℕ)
        → (run_for_tick N s).table l ≡ (
            if is_zero left && l == k
            then record (s.table k) { tat = pos (s.time + 1) -ℤ (s.table k).arr }
            else s.table l)
    table_at l = elim (Bool-cases (is_zero left)) [ inl e ↦ rw e refl | inr e ↦ rw e refl ]

    t_at : (l : ℕ) → (run_for_tick N s).t l ≡ (if l == k then left else retire s l)
    t_at l = refl

    pub rem_at : (l : ℕ) → rem ((run_for_tick N s).t l) + (if l == k then 1 else 0) ≡ rem (s.t l)
    rem_at l = elim (eq-cases l k) [
      | inl same ↦ ground (arith, left_lem)
      | inr ne ↦ ground (arith, retire-Retired.same_rem l)
    ]

    not_now : s.j < N → s.time ≢ arrival (T s.j)
    not_now h e = ground (arith, same_arr s.j, wl.arr_nat s.j h)

    -- The process that ends in the round.
    ends_now :
        pos_part left ≡ 0
        → IsDone (record (s.table k) { tat = pos (s.time + 1) -ℤ (s.table k).arr }) (s.time + 1)
    ends_now h =
        let c = chosen in
        let in_N : k < N = omega (arith, c.in_table, j_le) in
        let one : rem (s.t k) ≡ 1 = omega (arith, left_lem) in
        let arr : arrival (s.table k) ≡ arrival (T k) = ap pos_part (same_arr k) in
        let burst : need (s.table k) ≡ need (T k) = ap pos_part (same_burst k) in
        let nat : neg_part (s.table k).arr ≡ 0 = ap neg_part (same_arr k) ∙ wl.arr_nat k in_N in
        let (tat, sum) =
          -ℤ_nat (pos (s.time + 1)) (s.table k).arr refl nat (omega (arith, age k c.in_table)) in
        record {
          tat_nat = tat;
          long_enough = omega (arith, sum, age k c.in_table);
          ended = omega (arith, sum);
        }

    IsDone-after :
        (l : ℕ)
        → l < s.j
        → rem ((run_for_tick N s).t l) ≡ 0
        → IsDone ((run_for_tick N s).table l) (s.time + 1)
    IsDone-after l h e = elim (eq-cases l k) [
      | inl same ↦
          let zero : pos_part left ≡ 0 = ground (arith, rem_at l, left_lem, same) in
          subst (λ p. IsDone p (s.time + 1)) (sym (table_at l ∙ ground (arith, left_lem)))
            (ends_now zero)
      | inr ne ↦
          let d = done l h (ground (arith, rem_at l)) in
          let later : IsDone (s.table l) (s.time + 1) = record {
            tat_nat = d.tat_nat;
            long_enough = d.long_enough;
            ended = omega (arith, d.ended);
          } in
          subst (λ p. IsDone p (s.time + 1)) (sym (table_at l ∙ ground arith)) later
    ]

    pub run_for_tick-Inv : Inv T N (run_for_tick N s)
    run_for_tick-Inv =
        let c = chosen in
        let (left_nat, left_pos, left_rem) = left_lem in
        let re = retire-Retired in
        record {
          same_arr = λ l. ground (arith, table_at l, same_arr l, same_arr k);
          same_burst = λ l. ground (arith, table_at l, same_burst l, same_burst k);
          j_le = j_le;
          nonneg = λ l. ground (arith, re.natural l, left_nat);
          at_zero = λ l h. ground (arith, re.nonzero l);
          future_t = λ l h. ground (arith, re.outside l h, c.in_table);
          future_time = λ l h hl.
              omega (arith, not_now (omega arith), wl.ordered s.j l h hl, future_time s.j);
          cap = λ l h. omega (arith, rem_at l, cap l h);
          age = λ l h. ground (arith, rem_at l, age l h);
          done = IsDone-after;
          work = omega (
            arith,
            weigh-assign rem (retire s) k left s.j c.in_table,
            weigh_cong rem rem (retire s) s.t re.same_rem s.j,
            re.same_rem k,
            left_rem,
            work,
          );
        }

  module _ (now : arrives N s ≡ true) where
    arrived : (s.j < N) × (s.time ≡ arrival (T s.j))
    arrived =
        let below = arrives_below N s now in
        (below, ground (arith, same_arr s.j, wl.arr_nat s.j below))

    whole : rem (s.table s.j).burst ≡ need (T s.j)
    whole = ground (arith, same_burst s.j, wl.fits s.j, arrived)

    pub admit-Inv : Inv T N (admit s)
    unfolding weigh
    admit-Inv =
        let (below, time) = arrived in
        let work_j = wl.some_work s.j below in
        let burst : need (s.table s.j) ≡ need (T s.j) = ap pos_part (same_burst s.j) in
        let nat : neg_part (s.table s.j).burst ≡ 0 =
          ap neg_part (same_burst s.j) ∙ wl.burst_nat s.j below in
        record {
          same_arr = same_arr;
          same_burst = same_burst;
          j_le = omega arith;
          nonneg = λ l. ground (arith, nonneg l);
          at_zero = λ l h. ground (arith, at_zero l);
          future_t = λ l h. ground (arith, future_t l);
          future_time = λ l h. future_time l (omega arith);
          cap = λ l h. ground (arith, cap l, whole);
          age = λ l h. ground (arith, age l, whole);
          done = λ l h e. elim (eq-cases l s.j) [
            | inl same ↦ absurd (ground (arith, whole))
            | inr ne ↦ done l (omega arith) (ground arith)
          ];
          work =
              ground (arith, weigh-assign_above rem s.t s.j (s.table s.j).burst s.j, whole, work);
        }

pub Round-Inv :
    {T : ℕ → Process} {N : ℕ}
    → IsSortedLoad T N
    → (s s' : State) → Inv T N s
    → s.time < weigh need T N
    → Round N s s'
    → Inv T N s'
Round-Inv wl s s' inv h (lets_in e) = admit-Inv wl inv e
Round-Inv wl s s' inv h (runs e) = run_for_tick-Inv wl inv h e
