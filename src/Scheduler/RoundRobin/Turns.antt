-- ===== src/Scheduler/RoundRobin/Turns.antt =====
-- What a turn of `RR` in Assignment3/scheduler.c does with the time that is left to a process.
use cs232_operating_systems.Common.{
  ℕ, ◌≡◌, ◌≤◌, ◌<◌, refl, arith, sym, ap, true, false, assign, eq-cases, inl, inr,
}
use cs232_operating_systems.Common.Int.{pos, ◌+ℤ◌, ◌-ℤ◌, int_laws, -ℤ_nat}
use cs232_operating_systems.Scheduler.{is_zero}
use cs232_operating_systems.Scheduler.RoundRobin.{State, rr_finish, rr_serve, leb_ℤ}

-- A process that needs no more than the quantum runs to its end.
pub serve_whole :
    (q b : ℕ) (s : State)
    → s.t s.i ≡ pos b
    → 0 < b
    → b ≤ q
    → rr_serve (pos q) s
      ≡ rr_finish (record s { time = s.time +ℤ pos b; t = assign s.t s.i (pos 0) })
serve_whole q b s e some_work h =
    let not_none : is_zero (pos b) ≡ false = ground arith in
    elim (eq-cases b q) [
      | inl same ↦
          let full : leb_ℤ (pos q) (pos b) ≡ true = ground arith in
          let none_left : pos b -ℤ pos q ≡ pos 0 = omega (int_laws, same) in
          rw (e, not_none, full, none_left)
            (ap (λ z. rr_finish (record s { time = s.time +ℤ pos z; t = assign s.t s.i (pos 0) }))
              (sym same))
      | inr ne ↦
          let part : leb_ℤ (pos q) (pos b) ≡ false = ground arith in rw (e, not_none, part) refl
    ]

-- Any other runs for the quantum.
pub serve_cut :
    (q b : ℕ) (s : State)
    → s.t s.i ≡ pos b
    → 0 < q
    → q < b
    → rr_serve (pos q) s ≡ record s { time = s.time +ℤ pos q; t = assign s.t s.i (pos b -ℤ pos q) }
serve_cut q b s e some_time h =
    let not_none : is_zero (pos b) ≡ false = ground arith in
    let full : leb_ℤ (pos q) (pos b) ≡ true = ground arith in
    let some_left : is_zero (pos b -ℤ pos q) ≡ false =
      ground (arith, -ℤ_nat (pos b) (pos q) refl refl (omega arith)) in
    rw (e, not_none, full, some_left) refl
