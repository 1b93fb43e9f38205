-- ===== src/RequestPool/Tests.antt =====
-- A run of Assignment5/web_server/webserver_pool.c with two workers.
use cs232_operating_systems.Common.{
  ℕ, zero, suc, assign, ◌≢◌, ◌+◌, ◌≡◌, ◌≤◌, ◌<◌, ◌⊎◌, refl, arith, inl, some, length, take,
}
use cs232_operating_systems.RequestPool.{
  accepting, blocked, asleep, wake, idle, handling, Pool, alen, wakes_none, accept, put, take_out,
  take_wait, Step, Reach, begin, next,
}
use cs232_operating_systems.RequestPool.Order.{requests_in_order}
use cs232_operating_systems.RequestPool.Sleep.{sleep_in_need, workers_go_on}

-- Worker 1 sleeps.
abbrev one_sleeps : (p : Pool) × Reach 2 p
one_sleeps = (_, next begin (take_wait 1 (omega arith) (inl refl) refl))

not_blocked : (x : ℕ) → accepting ≢ blocked x
not_blocked x e = cc

all_up :
    (k : ℕ) → k < 2 → assign (λ j. wake (wake (one_sleeps.0.worker j))) 0 (handling 5) k ≢ asleep
all_up zero h e = cc
all_up (suc zero) h e = cc
all_up (suc (suc k)) h e = absurd (omega arith)

-- Requests 5 and 6 go in, and worker 0 takes the first.
abbrev one_taken : (p : Pool) × Reach 2 p
one_taken = (
  _,
  next
      (next
        (next (next (next one_sleeps.1 (accept 5 refl)) (put 5 (inl refl) refl)) (accept 6 refl))
        (put 6 (inl refl) refl))
      (take_out 0 5 (omega arith) (inl refl) refl (wakes_none not_blocked all_up)),
)

requests_in_order_example :
    (one_taken.0.taken ≡ take 1 one_taken.0.accepted)
    × (length one_taken.0.accepted ≤ 11)
    × (1 < 2 → one_taken.0.requests 1 ≡ some 6)
requests_in_order_example = requests_in_order one_taken.1

sleep_in_need_example :
    ((i : ℕ) → i < 2 → one_sleeps.0.worker i ≡ asleep → ◌≡◌ {A = ℕ} 0 0)
    × ((x : ℕ) → one_sleeps.0.main ≡ blocked x → ◌≡◌ {A = ℕ} 0 (0 + alen))
sleep_in_need_example = sleep_in_need one_sleeps.1

workers_go_on_example :
    (p : Pool) × Step 2 one_taken.0 p
    × (((x : ℕ) × (one_taken.0.worker 1 ≡ handling x) × (p.worker 1 ≡ idle)) ⊎ (length p.taken ≡ 2))
workers_go_on_example = workers_go_on one_taken.1 1 (omega arith) (omega arith)
