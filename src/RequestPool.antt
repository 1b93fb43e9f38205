-- ===== src/RequestPool.antt =====
-- Assignment5/web_server/webserver_pool.c: the main thread puts requests into a ring of ten places,
-- and worker threads take them out, in scheduling mode FCFS. One mutex guards the ring, and one
-- condition variable serves the main thread and the workers. The threads touch the ring only between
-- `pthread_mutex_lock` and either `pthread_mutex_unlock` or `pthread_cond_wait`, so each stretch of
-- that kind is one step.
pub mod Ring
pub mod Order
pub mod Sleep
mod Tests
use cs232_operating_systems.Common.{
  ℕ, ◌+◌, ◌%◌, ◌≡◌, ◌≢◌, ◌<◌, ◌⊎◌, List, [], ◌∷◌, ◌++◌, Option, none, some, assign,
}

abbrev pub alen : ℕ
alen = 10

-- Where the main thread stands, with the request that it holds.
pub data Main : Type 0 where
  accepting : Main  -- in `tcp_accept` or `request_create`
  holds : ℕ → Main  -- before `pthread_mutex_lock`
  blocked : ℕ → Main  -- in `pthread_cond_wait`
  woken : ℕ → Main

pub data Worker : Type 0 where
  idle : Worker  -- before `pthread_mutex_lock`
  asleep : Worker  -- in `pthread_cond_wait`
  awake : Worker
  handling : ℕ → Worker  -- in `request_handle` or `request_delete`

-- `accepted` and `taken` record what has gone into the ring and out of it.
pub record Pool : Type 0 where
  pub requests : ℕ → Option ℕ
  pub w : ℕ
  pub r : ℕ
  pub main : Main
  pub worker : ℕ → Worker
  pub accepted : List ℕ
  pub taken : List ℕ

abbrev pub empty_pool : Pool
empty_pool = record {
  requests = λ k. none;
  w = 0;
  r = 0;
  main = accepting;
  worker = λ k. idle;
  accepted = [];
  taken = [];
}

-- `pthread_cond_broadcast`, by the main thread: every worker that waits goes on.
abbrev pub wake : Worker → Worker
wake idle = idle
wake asleep = awake
wake awake = awake
wake (handling x) = handling x

-- `pthread_cond_signal`, by a worker: the main thread goes on, or one of `n` workers, or none waits.
pub data Signal (n : ℕ) (main : Main) (worker : ℕ → Worker) : Main → (ℕ → Worker) → Type 0 where
  wakes_main : (x : ℕ) → main ≡ blocked x → Signal n main worker (woken x) worker
  wakes_worker :
      (k : ℕ) → k < n → worker k ≡ asleep → Signal n main worker main (assign worker k awake)
  wakes_none :
      ((x : ℕ) → main ≢ blocked x)
      → ((k : ℕ) → k < n → worker k ≢ asleep)
      → Signal n main worker main worker

-- A step of the program with `n` workers.
pub data Step (n : ℕ) (p : Pool) : Pool → Type 0 where
  accept : (x : ℕ) → p.main ≡ accepting → Step n p (record p { main = holds x })
  -- The section of `main` between the lock and the unlock.
  put :
      (x : ℕ)
      → (p.main ≡ holds x) ⊎ (p.main ≡ woken x)
      → p.requests p.w ≡ none
      → Step n p (record p {
        requests = assign p.requests p.w (some x);
        w = (p.w + 1) % alen;
        main = accepting;
        worker = λ k. wake (p.worker k);
        accepted = p.accepted ++ (x ∷ []);
      })
  put_wait :
      (x y : ℕ)
      → (p.main ≡ holds x) ⊎ (p.main ≡ woken x)
      → p.requests p.w ≡ some y
      → Step n p (record p { main = blocked x })
  -- The section of `workerThreads` between the lock and the unlock.
  take_out :
      (i x : ℕ) {main' : Main} {worker' : ℕ → Worker}
      → i < n
      → (p.worker i ≡ idle) ⊎ (p.worker i ≡ awake)
      → p.requests p.r ≡ some x
      → Signal n p.main (assign p.worker i (handling x)) main' worker'
      → Step n p (record p {
        requests = assign p.requests p.r none;
        r = (p.r + 1) % alen;
        main = main';
        worker = worker';
        taken = p.taken ++ (x ∷ []);
      })
  take_wait :
      (i : ℕ)
      → i < n
      → (p.worker i ≡ idle) ⊎ (p.worker i ≡ awake)
      → p.requests p.r ≡ none
      → Step n p (record p { worker = assign p.worker i asleep })
  handled :
      (i x : ℕ)
      → i < n
      → p.worker i ≡ handling x
      → Step n p (record p { worker = assign p.worker i idle })
  -- `pthread_cond_wait` may also return with no signal.
  spurious_main : (x : ℕ) → p.main ≡ blocked x → Step n p (record p { main = woken x })
  spurious_worker :
      (i : ℕ)
      → i < n
      → p.worker i ≡ asleep
      → Step n p (record p { worker = assign p.worker i awake })

pub data Reach (n : ℕ) : Pool → Type 0 where
  begin : Reach n empty_pool
  next : {p p' : Pool} → Reach n p → Step n p p' → Reach n p'
