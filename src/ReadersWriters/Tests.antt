-- ===== src/ReadersWriters/Tests.antt =====
-- Runs of Assignment4/ReaWri.c with the writer and the four readers of `main`.
use cs232_operating_systems.Common.{ℕ, zero, suc, inl, inr, ◌+◌, ◌≡◌, ◌<◌, refl, arith, weigh}
use cs232_operating_systems.ReadersWriters.{
  empty_lock, Pc, r_idle, r_blocked, w_idle, w_blocked, System, wakes, Move, read_enter, read_block,
  read_data, read_leave, write_block, write_wake, move, IsRole, reader, writer, IsStart, Reach,
  here, next,
}
use cs232_operating_systems.ReadersWriters.Counting.{reads, writes}
use cs232_operating_systems.ReadersWriters.Exclusion.{exclusion, read_stays_current}
use cs232_operating_systems.ReadersWriters.Wakeups.{IsCrew, no_lost_wakeup}
use cs232_operating_systems.ReadersWriters.Progress.{inside, some_thread_moves}

abbrev roles : ℕ → Pc
roles zero = w_idle
roles (suc _) = r_idle

abbrev crew : System
crew = record { lock = empty_lock; value = 1; pc = roles }

roles-IsRole : (i : ℕ) → IsRole (roles i)
roles-IsRole zero = writer
roles-IsRole (suc _) = reader

crew-IsStart : IsStart crew
crew-IsStart = record { fresh = refl; one = refl; roles = roles-IsRole }

crew-IsCrew : IsCrew 5 crew
unfolding weigh
crew-IsCrew = record { begins = crew-IsStart; writers_le = omega arith; readers_le = omega arith }

-- Reader 1 reads, the writer and reader 2 wait.
abbrev reading : (s : System) × Reach 5 crew s
reading = (
  _,
  next
      (next
        (next (next here (move 1 (omega arith) (read_enter refl refl refl)))
          (move 1 (omega arith) (read_data refl)))
        (move 0 (omega arith) (write_block refl (inl (λ e. omega arith)))))
      (move 2 (omega arith) (read_block refl (inr (λ e. omega arith)))),
)

-- Reader 1 gives the lock back, and the writer takes it.
abbrev writing_now : (s : System) × Reach 5 crew s
writing_now = (
  _,
  next (next reading.1 (move 1 (omega arith) (read_leave refl (wakes 0 (omega arith) refl))))
      (move 0 (omega arith) (write_wake refl refl refl)),
)

exclusion_example :
    ((writes (writing_now.0.pc 2) ≡ 1) → ◌≡◌ {A = ℕ} 0 2) × (reads (writing_now.0.pc 2) ≡ 0)
exclusion_example = exclusion crew-IsStart writing_now.1 0 2 (omega arith) (omega arith) refl

read_stays_current_example : reading.0.value ≡ 1
read_stays_current_example = read_stays_current crew-IsStart reading.1 1 1 (omega arith) refl

no_lost_wakeup_example :
    ((reading.0.pc 2 ≡ r_blocked) → 0 < reading.0.lock.writers + reading.0.lock.waiting)
    × ((reading.0.pc 2 ≡ w_blocked) → 0 < reading.0.lock.readers)
no_lost_wakeup_example = no_lost_wakeup crew-IsCrew reading.1 2 (omega arith)

some_thread_moves_example :
    (j : ℕ) × (j < 5) × (0 < inside (reading.0.pc j)) × (t : System) × Move 5 reading.0 j t
some_thread_moves_example = some_thread_moves crew-IsCrew reading.1 2 (omega arith) (omega arith)
