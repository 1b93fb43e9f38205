-- ===== src/RequestPool/Sleep.antt =====
-- The one condition variable of Assignment5/web_server/webserver_pool.c serves two kinds of waiting
-- threads, and each signal reaches the kind that it is meant for.
use cs232_operating_systems.Common.{
  ℕ, ◌+◌, ◌≡◌, ◌≢◌, ◌<◌, ◌⊎◌, refl, ap, ◌∙◌, arith, [], ◌∷◌, assign, length, eq-cases, inl, inr,
  length-append,
}
use cs232_operating_systems.RequestPool.{
  Main, accepting, holds, blocked, woken, Worker, idle, asleep, awake, handling, wake, Pool, alen,
  Signal, wakes_main, wakes_worker, wakes_none, Step, accept, put, put_wait, take_out, take_wait,
  handled, spurious_main, spurious_worker, Reach, begin, next,
}
use cs232_operating_systems.RequestPool.Ring.{
  IsWindow, get_elem?_in, full_ring, empty_ring, take_some,
}
use cs232_operating_systems.RequestPool.Order.{Reach-IsWindow}

-- A worker sleeps only while the ring is empty, the main thread only while it is full.
pub record IsCalm (n : ℕ) (p : Pool) : Type 0 where
  pub worker_sleeps : (i : ℕ) → i < n → p.worker i ≡ asleep → length p.accepted ≡ length p.taken
  pub main_sleeps : (x : ℕ) → p.main ≡ blocked x → length p.accepted ≡ length p.taken + alen

wake-ne : (v : Worker) → wake v ≢ asleep
wake-ne idle e = cc
wake-ne asleep e = cc
wake-ne awake e = cc
wake-ne (handling x) e = cc

-- With no worker asleep a signal leaves none asleep, and the main thread does not stay blocked.
Signal-out :
    {n : ℕ} {main main' : Main} {worker worker' : ℕ → Worker}
    → Signal n main worker main' worker'
    → ((k : ℕ) → k < n → worker k ≢ asleep)
    → ((k : ℕ) → k < n → worker' k ≢ asleep) × ((x : ℕ) → main' ≢ blocked x)
Signal-out (wakes_main x e) none_asleep = (none_asleep, λ y f. cc)
Signal-out (wakes_worker k h e) none_asleep = absurd (none_asleep k h e)
Signal-out (wakes_none not_main not_workers) none_asleep = (none_asleep, not_main)

after_assign :
    (f : ℕ → Worker) (i : ℕ) (v : Worker)
    → v ≢ asleep
    → (k : ℕ) → assign f i v k ≡ asleep
    → f k ≡ asleep
after_assign f i v h k e = elim (eq-cases k i) [
  | inl same ↦ absurd (h (ground arith))
  | inr ne ↦ ground arith
]

Step-IsCalm : {n : ℕ} {p p' : Pool} → IsWindow p → IsCalm n p → Step n p p' → IsCalm n p'
Step-IsCalm win c (accept x e) = record { worker_sleeps = c.worker_sleeps; main_sleeps = λ y f. cc }
Step-IsCalm {p = p} win c (put x at e) = record {
  worker_sleeps = λ i h f. absurd (wake-ne (p.worker i) f);
  main_sleeps = λ y f. cc;
}
Step-IsCalm win c (put_wait x y at e) = record {
  worker_sleeps = c.worker_sleeps;
  main_sleeps = λ z f. full_ring win y e;
}
Step-IsCalm {p = p} win c (take_out i x hi at e sig) =
    let (more, _) = take_some win x e in
    let (workers, main) = Signal-out sig (λ k h f.
      absurd (
        omega (arith, c.worker_sleeps k h (after_assign p.worker i (handling x) (λ z. cc) k f)))) in
    record {
      worker_sleeps = λ k h f. absurd (workers k h f);
      main_sleeps = λ y f. absurd (main y f);
    }
Step-IsCalm win c (take_wait i hi at e) = record {
  worker_sleeps = λ k h f. empty_ring win e;
  main_sleeps = c.main_sleeps;
}
Step-IsCalm {p = p} win c (handled i x hi e) = record {
  worker_sleeps = λ k h f. c.worker_sleeps k h (after_assign p.worker i idle (λ z. cc) k f);
  main_sleeps = c.main_sleeps;
}
Step-IsCalm win c (spurious_main x e) = record {
  worker_sleeps = c.worker_sleeps;
  main_sleeps = λ y f. cc;
}
Step-IsCalm {p = p} win c (spurious_worker i hi e) = record {
  worker_sleeps = λ k h f. c.worker_sleeps k h (after_assign p.worker i awake (λ z. cc) k f);
  main_sleeps = c.main_sleeps;
}

Reach-IsCalm : {n : ℕ} {p : Pool} → Reach n p → IsCalm n p
Reach-IsCalm begin = record { worker_sleeps = λ i h f. refl; main_sleeps = λ x f. cc }
Reach-IsCalm (next r m) = Step-IsCalm (Reach-IsWindow r) (Reach-IsCalm r) m

-- In every reachable state: a worker sleeps only while the ring is empty, and the main thread only
-- while ten requests are in it; so a signal on the shared condition variable that is meant for the one
-- never goes to the other.
pub sleep_in_need :
    {n : ℕ} {p : Pool}
    → Reach n p
    → ((i : ℕ) → i < n → p.worker i ≡ asleep → length p.accepted ≡ length p.taken)
      × ((x : ℕ) → p.main ≡ blocked x → length p.accepted ≡ length p.taken + alen)
sleep_in_need r = let c = Reach-IsCalm r in (c.worker_sleeps, c.main_sleeps)

-- A worker that does not sleep can move.
Signal-total :
    (n : ℕ) (main : Main) (worker : ℕ → Worker)
    → ((k : ℕ) → k < n → worker k ≢ asleep)
    → (main' : Main) × (worker' : ℕ → Worker) × Signal n main worker main' worker'
Signal-total n (blocked x) worker h = (_, _, wakes_main x refl)
Signal-total n accepting worker h = (_, _, wakes_none (λ y e. cc) h)
Signal-total n (holds x) worker h = (_, _, wakes_none (λ y e. cc) h)
Signal-total n (woken x) worker h = (_, _, wakes_none (λ y e. cc) h)

module _ {n : ℕ} {p : Pool} (r : Reach n p) (i : ℕ) (hi : i < n)
    (more : length p.taken < length p.accepted) where
  -- The worker ends its request, or takes one out.
  abbrev GoesOn : Type 0
  GoesOn =
      (p' : Pool) × Step n p p'
      × (((x : ℕ) × (p.worker i ≡ handling x) × (p'.worker i ≡ idle))
          ⊎ (length p'.taken ≡ length p.taken + 1))

  none_asleep : (k : ℕ) → k < n → p.worker k ≢ asleep
  none_asleep k h e = omega (arith, (Reach-IsCalm r).worker_sleeps k h e)

  takes : (p.worker i ≡ idle) ⊎ (p.worker i ≡ awake) → GoesOn
  takes at =
      let win = Reach-IsWindow r in
      let (x, there) = get_elem?_in p.accepted (length p.taken) more in
      let ready = ap p.requests win.r_at ∙ win.held (length p.taken) (omega arith) more ∙ there in
      let (main', worker', sig) =
        Signal-total n p.main (assign p.worker i (handling x))
          (λ k h f. none_asleep k h (after_assign p.worker i (handling x) (λ z. cc) k f)) in
      (_, take_out i x hi at ready sig, inr (length-append p.taken (x ∷ [])))

  goes_on : (v : Worker) → p.worker i ≡ v → GoesOn
  goes_on idle e = takes (inl e)
  goes_on awake e = takes (inr e)
  goes_on asleep e = absurd (none_asleep i hi e)
  goes_on (handling x) e = (_, handled i x hi e, inl (x, e, ground arith))

-- In every reachable state in which a request is in the ring, every worker can make a step: it ends
-- the request that it handles, or takes one out of the ring.
pub workers_go_on :
    {n : ℕ} {p : Pool}
    → Reach n p
    → (i : ℕ) → i < n
    → length p.taken < length p.accepted
    → (p' : Pool) × Step n p p'
      × (((x : ℕ) × (p.worker i ≡ handling x) × (p'.worker i ≡ idle))
          ⊎ (length p'.taken ≡ length p.taken + 1))
workers_go_on {p = p} r i hi more = goes_on r i hi more (p.worker i) refl
