-- ===== src/ReadersWriters/Sleepers.antt =====
-- The threads that sleep on the condition variables of Assignment4/ReaWri.c, and what a signal does to
-- their numbers.
use cs232_operating_systems.Common.{
  ℕ, ◌+◌, ◌-◌, ◌≡◌, ◌≢◌, ◌≤◌, refl, arith, ap, weigh, weigh-assign, weight-le-weigh, weigh-eq-zero,
  weigh_mono,
}
use cs232_operating_systems.ReadersWriters.{
  Pc, r_idle, r_blocked, r_woken, entered, holding, w_idle, w_blocked, w_woken, writing, written,
  Signal, Signal4, wakes, nobody, four,
}
use cs232_operating_systems.ReadersWriters.Counting.{waits}

abbrev pub is_reader : Pc → ℕ
is_reader r_idle = 1
is_reader r_blocked = 1
is_reader r_woken = 1
is_reader entered = 1
is_reader (holding _) = 1
is_reader _ = 0

abbrev pub is_writer : Pc → ℕ
is_writer w_idle = 1
is_writer w_blocked = 1
is_writer w_woken = 1
is_writer writing = 1
is_writer written = 1
is_writer _ = 0

abbrev pub idles : Pc → ℕ
idles w_idle = 1
idles _ = 0

abbrev pub reader_sleeps : Pc → ℕ
reader_sleeps r_blocked = 1
reader_sleeps _ = 0

abbrev pub writer_sleeps : Pc → ℕ
writer_sleeps w_blocked = 1
writer_sleeps _ = 0

abbrev pub writer_woken : Pc → ℕ
writer_woken w_woken = 1
writer_woken _ = 0

abbrev nothing : Pc → ℕ
nothing _ = 0

-- A signal takes one from the number of the threads that sleep, if it is not 0.
pub Signal-sleeps :
    (w : Pc → ℕ) {n : ℕ} {at to : Pc} {pc pc' : ℕ → Pc}
    → w at ≡ 1
    → w to ≡ 0
    → ((p : Pc) → p ≢ at → w p ≡ 0)
    → Signal n at to pc pc'
    → weigh w pc' n ≡ weigh w pc n - 1
Signal-sleeps w {n} {at} {to} {pc} a t plain (wakes j h e) =
    omega (arith, weigh-assign w pc j to n h, ap w e, weight-le-weigh w pc n j h)
Signal-sleeps w {n} {at} {to} {pc} a t plain (nobody h) =
    omega (arith, weigh-eq-zero w pc n (λ k below. plain (pc k) (h k below)))

pub only_r_blocked : (p : Pc) → p ≢ r_blocked → reader_sleeps p ≡ 0
only_r_blocked r_blocked ne = absurd (ne refl)
only_r_blocked _ ne = refl

pub only_w_blocked : (p : Pc) → p ≢ w_blocked → writer_sleeps p ≡ 0
only_w_blocked w_blocked ne = absurd (ne refl)
only_w_blocked _ ne = refl

pub Signal4-sleeps :
    {n : ℕ} {pc pc' : ℕ → Pc}
    → Signal4 n pc pc'
    → weigh reader_sleeps pc' n ≡ weigh reader_sleeps pc n - 4
Signal4-sleeps (four a b c d) = omega (arith, one a, one b, one c, one d)
  where
    one :
        {n : ℕ} {pc pc' : ℕ → Pc}
        → Signal n r_blocked r_woken pc pc'
        → weigh reader_sleeps pc' n ≡ weigh reader_sleeps pc n - 1
    one = Signal-sleeps reader_sleeps refl refl only_r_blocked

pub sleeping-readers-le : (pc : ℕ → Pc) (n : ℕ) → weigh reader_sleeps pc n ≤ weigh is_reader pc n
sleeping-readers-le pc n = omega (arith, weigh_mono reader_sleeps nothing is_reader bound pc n)
  where
    bound : (p : Pc) → reader_sleeps p + nothing p ≤ is_reader p
    bound p = ground arith

pub sleeping-writers-le :
    (pc : ℕ → Pc) (n : ℕ) → weigh writer_sleeps pc n + weigh writer_woken pc n ≤ weigh waits pc n
sleeping-writers-le pc n = weigh_mono writer_sleeps writer_woken waits bound pc n
  where
    bound : (p : Pc) → writer_sleeps p + writer_woken p ≤ waits p
    bound p = ground arith
