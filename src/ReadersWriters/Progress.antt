-- ===== src/ReadersWriters/Progress.antt =====
-- With the threads that `main` of Assignment4/ReaWri.c starts there is no deadlock.
use cs232_operating_systems.Common.{
  ℕ, ◌≡◌, ◌<◌, refl, arith, ap, weigh, weight-le-weigh, weigh_pos, assign, eq-cases, inl, inr,
}
use cs232_operating_systems.ReadersWriters.{
  Pc, r_idle, r_blocked, r_woken, entered, holding, w_idle, w_blocked, w_woken, writing, written,
  System, Signal, Signal4, wakes, nobody, four, Move, read_again, read_wake, read_data, read_leave,
  write_again, write_wake, write_data, write_leave, Reach,
}
use cs232_operating_systems.ReadersWriters.Counting.{reads, writes, waits}
use cs232_operating_systems.ReadersWriters.Exclusion.{Inv, Reach-Inv}
use cs232_operating_systems.ReadersWriters.Sleepers.{reader_sleeps, writer_sleeps}
use cs232_operating_systems.ReadersWriters.Wakeups.{Awake, IsCrew, Reach-Awake}

reader_asleep : (p : Pc) → 0 < reader_sleeps p → p ≡ r_blocked
reader_asleep r_blocked h = refl
reader_asleep _ h = absurd (omega arith)

writer_asleep : (p : Pc) → 0 < writer_sleeps p → p ≡ w_blocked
writer_asleep w_blocked h = refl
writer_asleep _ h = absurd (omega arith)

-- A signal always has an outcome.
Signal-total :
    (w : Pc → ℕ) (n : ℕ) (at to : Pc) (pc : ℕ → Pc)
    → w at ≡ 1
    → ((p : Pc) → 0 < w p → p ≡ at)
    → (pc' : ℕ → Pc) × Signal n at to pc pc'
Signal-total w n at to pc one only = elim (eq-cases (weigh w pc n) 0) [
  | inl none_there ↦
      (pc, nobody (λ j h e. absurd (omega (arith, ap w e, weight-le-weigh w pc n j h))))
  | inr some_there ↦
      let (j, h, p) = weigh_pos w pc n (omega arith) in (assign pc j to, wakes j h (only (pc j) p))
]

wake_writer : (n : ℕ) (pc : ℕ → Pc) → (pc' : ℕ → Pc) × Signal n w_blocked w_woken pc pc'
wake_writer n pc = Signal-total writer_sleeps n w_blocked w_woken pc refl writer_asleep

wake_reader : (n : ℕ) (pc : ℕ → Pc) → (pc' : ℕ → Pc) × Signal n r_blocked r_woken pc pc'
wake_reader n pc = Signal-total reader_sleeps n r_blocked r_woken pc refl reader_asleep

wake_four : (n : ℕ) (pc : ℕ → Pc) → (pc' : ℕ → Pc) × Signal4 n pc pc'
wake_four n pc =
    let (p₁, a) = wake_reader n pc in
    let (p₂, b) = wake_reader n p₁ in
    let (p₃, c) = wake_reader n p₂ in let (p₄, d) = wake_reader n p₃ in (p₄, four a b c d)

-- 1 for a thread between the call of `readlock` or `writelock` and the return of the unlock.
abbrev pub inside : Pc → ℕ
inside r_idle = 0
inside w_idle = 0
inside _ = 1

inside_of_reads : (p : Pc) → 0 < reads p → 0 < inside p
inside_of_reads entered h = omega arith
inside_of_reads (holding _) h = omega arith
inside_of_reads _ h = absurd (omega arith)

inside_of_writes : (p : Pc) → 0 < writes p → 0 < inside p
inside_of_writes writing h = omega arith
inside_of_writes written h = omega arith
inside_of_writes _ h = absurd (omega arith)

module _ (n : ℕ) (s : System) (i : ℕ) where
  abbrev CanMove : Type 0
  CanMove = (t : System) × Move n s i t

  reading_moves : 0 < reads (s.pc i) → CanMove
  reading_moves h = at (s.pc i) refl
    where
      at : (p : Pc) → s.pc i ≡ p → (t : System) × Move n s i t
      at entered e = (_, read_data e)
      at (holding d) e = (_, read_leave e (wake_writer n (assign s.pc i r_idle)).1)
      at _ e = absurd (omega (arith, ap reads e))

  writing_moves : 0 < writes (s.pc i) → CanMove
  writing_moves h = at (s.pc i) refl
    where
      at : (p : Pc) → s.pc i ≡ p → (t : System) × Move n s i t
      at writing e = (_, write_data 0 e)
      at written e = (_, write_leave e (wake_four n (assign s.pc i w_idle)).1)
      at _ e = absurd (omega (arith, ap writes e))

  woken_moves : s.pc i ≡ w_woken → CanMove
  woken_moves e = elim (eq-cases s.lock.readers 0) [
    | inl r0 ↦ elim (eq-cases s.lock.writers 0) [
      | inl w0 ↦ (_, write_wake e r0 w0)
      | inr w ↦ (_, write_again e (inr w))
    ]
    | inr r ↦ (_, write_again e (inl r))
  ]

  read_woken_moves : s.pc i ≡ r_woken → CanMove
  read_woken_moves e = elim (eq-cases s.lock.writers 0) [
    | inl w0 ↦ (_, read_wake e w0)
    | inr w ↦ (_, read_again e w)
  ]

module _ {n : ℕ} {s : System} (inv : Inv n s) (aw : Awake n s) where
  abbrev SomeMove : Type 0
  SomeMove = (j : ℕ) × (j < n) × (0 < inside (s.pc j)) × (t : System) × Move n s j t

  some_reader : 0 < s.lock.readers → SomeMove
  some_reader h =
      let (j, hj, p) = weigh_pos reads s.pc n (omega (arith, inv.readers)) in
      let (t, m) = reading_moves n s j p in (j, hj, inside_of_reads (s.pc j) p, t, m)

  some_writer : 0 < s.lock.writers → SomeMove
  some_writer h =
      let (j, hj, p) = weigh_pos writes s.pc n (omega (arith, inv.writers)) in
      let (t, m) = writing_moves n s j p in (j, hj, inside_of_writes (s.pc j) p, t, m)

  from_blocked_writer : (i : ℕ) → i < n → s.pc i ≡ w_blocked → SomeMove
  from_blocked_writer i hi e = some_reader (
      aw.writer_sleep
        (omega (arith, ap writer_sleeps e, weight-le-weigh writer_sleeps s.pc n i hi)))

  some_waiting : 0 < s.lock.waiting → SomeMove
  some_waiting h =
      let (j, hj, p) = weigh_pos waits s.pc n (omega (arith, inv.waiting)) in
      at j hj p (s.pc j) refl
    where
      at : (j : ℕ) → j < n → 0 < waits (s.pc j) → (p : Pc) → s.pc j ≡ p → SomeMove
      at j hj p w_blocked e = from_blocked_writer j hj e
      at j hj p w_woken e =
          let (t, m) = woken_moves n s j e in (j, hj, omega (arith, ap inside e), t, m)
      at j hj p _ e = absurd (omega (arith, ap waits e))

  from_blocked_reader : (i : ℕ) → i < n → s.pc i ≡ r_blocked → SomeMove
  from_blocked_reader i hi e = elim (eq-cases s.lock.writers 0) [
    | inl w0 ↦ some_waiting (
        omega
          (arith, aw.reader_sleep, ap reader_sleeps e, weight-le-weigh reader_sleeps s.pc n i hi))
    | inr w ↦ some_writer (omega arith)
  ]

  some_move : (i : ℕ) → i < n → 0 < inside (s.pc i) → (p : Pc) → s.pc i ≡ p → SomeMove
  some_move i hi h r_idle e = absurd (omega (arith, ap inside e))
  some_move i hi h w_idle e = absurd (omega (arith, ap inside e))
  some_move i hi h r_blocked e = from_blocked_reader i hi e
  some_move i hi h w_blocked e = from_blocked_writer i hi e
  some_move i hi h r_woken e = let (t, m) = read_woken_moves n s i e in (i, hi, h, t, m)
  some_move i hi h w_woken e = let (t, m) = woken_moves n s i e in (i, hi, h, t, m)
  some_move i hi h entered e =
      let (t, m) = reading_moves n s i (omega (arith, ap reads e)) in (i, hi, h, t, m)
  some_move i hi h (holding d) e =
      let (t, m) = reading_moves n s i (omega (arith, ap reads e)) in (i, hi, h, t, m)
  some_move i hi h writing e =
      let (t, m) = writing_moves n s i (omega (arith, ap writes e)) in (i, hi, h, t, m)
  some_move i hi h written e =
      let (t, m) = writing_moves n s i (omega (arith, ap writes e)) in (i, hi, h, t, m)

-- With at most one writer and four readers, in every reachable state: when some thread stands between
-- the call of `readlock` or `writelock` and the return of its unlock, some thread that stands there
-- can move, by a step that is no spurious wake-up. So the threads never all wait for each other, even
-- when those outside the lock have ended.
pub some_thread_moves :
    {n : ℕ} {s₀ s : System}
    → IsCrew n s₀
    → Reach n s₀ s
    → (i : ℕ) → i < n
    → 0 < inside (s.pc i)
    → (j : ℕ) × (j < n) × (0 < inside (s.pc j)) × (t : System) × Move n s j t
some_thread_moves {s = s} crew r i hi h =
    some_move (Reach-Inv crew.begins r) (Reach-Awake crew r) i hi h (s.pc i) refl
