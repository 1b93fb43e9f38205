-- ===== src/Scheduler/Fcfs.antt =====
-- `FCFS` of Assignment3/scheduler.c: the processes run one after the other in the order of arrival.
use cs232_operating_systems.Common.{◌≡◌, refl, List, [], ◌∷◌, ◌↔◌, ap, le→not-ltb, if◌then◌else◌}
use cs232_operating_systems.Common.Int.{ℤ, pos, ◌+ℤ◌, ◌-ℤ◌, ◌≤ℤ◌, ltb_ℤ, int_laws}
use cs232_operating_systems.Scheduler.{Process, sort}

-- The loop that runs the processes, from the time `time` on.
abbrev pub fcfs_from : ℤ → List Process → List Process
fcfs_from time [] = []
fcfs_from time (p ∷ ps) =
    let ended = time +ℤ p.burst in
    let tat = ended -ℤ p.arr in record p { tat = tat; wait = tat -ℤ p.burst } ∷ fcfs_from ended ps

abbrev pub fcfs : List Process → List Process
fcfs table = fcfs_from (pos 0) (sort table)

-- What first come, first served promises: a process starts when it has arrived and those before it
-- have ended, and waits from its arrival to its start.
abbrev pub serve_from : ℤ → List Process → List Process
serve_from free [] = []
serve_from free (p ∷ ps) =
    let start = if ltb_ℤ free p.arr then p.arr else free in
    let ended = start +ℤ p.burst in
    record p { tat = ended -ℤ p.arr; wait = start -ℤ p.arr } ∷ serve_from ended ps

-- Each process has arrived when the ones before it end.
pub data IsBusy : ℤ → List Process → Type 0 where
  finished : {time : ℤ} → IsBusy time []
  ready :
      {time : ℤ} {p : Process} {ps : List Process}
      → p.arr ≤ℤ time
      → IsBusy (time +ℤ p.burst) ps
      → IsBusy time (p ∷ ps)

pub data NoneNegative : List Process → Type 0 where
  none_at_all : NoneNegative []
  one_more :
      {p : Process} {ps : List Process} → pos 0 ≤ℤ p.wait → NoneNegative ps → NoneNegative (p ∷ ps)

fcfs_from-eq-serve_from :
    (time : ℤ) (ps : List Process) → IsBusy time ps → fcfs_from time ps ≡ serve_from time ps
fcfs_from-eq-serve_from time [] b = refl
fcfs_from-eq-serve_from time (p ∷ ps) (ready h b) =
    let rest = fcfs_from-eq-serve_from (time +ℤ p.burst) ps b in
    let waits : (time +ℤ p.burst -ℤ p.arr) -ℤ p.burst ≡ time -ℤ p.arr = omega int_laws in
    rw (le→not-ltb _ _ h, waits)
      (ap (λ l. record p { tat = time +ℤ p.burst -ℤ p.arr; wait = time -ℤ p.arr } ∷ l) rest)

-- When no process arrives after those before it have ended, the turnaround and waiting times of
-- `FCFS` are those of a processor that serves the processes in the order of arrival.
pub fcfs-eq-serve :
    (table : List Process)
    → IsBusy (pos 0) (sort table)
    → fcfs table ≡ serve_from (pos 0) (sort table)
fcfs-eq-serve table b = fcfs_from-eq-serve_from (pos 0) (sort table) b

negative_from : (time : ℤ) (ps : List Process) → NoneNegative (fcfs_from time ps) ↔ IsBusy time ps
negative_from time [] = (λ _. finished, λ _. none_at_all)
negative_from time (p ∷ ps) =
    let rest = negative_from (time +ℤ p.burst) ps in
    (
      (λ n. elim n [ one_more h m ↦ ready (omega int_laws) (rest.0 m) ]),
      (λ b. elim b [ ready h m ↦ one_more (omega int_laws) (rest.1 m) ]),
    )

-- `FCFS` knows no idle time: it gives every process a waiting time of 0 or more exactly when no
-- process arrives after those before it have ended.
pub fcfs-NoneNegative :
    (table : List Process) → NoneNegative (fcfs table) ↔ IsBusy (pos 0) (sort table)
fcfs-NoneNegative table = negative_from (pos 0) (sort table)
