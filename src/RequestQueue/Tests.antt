-- ===== src/RequestQueue/Tests.antt =====
-- Runs of the queue of Assignment5/web_server/Meg(Sanit).c.
use cs232_operating_systems.Common.{ℕ, ◌≡◌, ◌≤◌, refl, arith, Bool, false, ◌++◌, true, ◌⊎◌, length}
use cs232_operating_systems.RequestQueue.{append_from, sff_round}
use cs232_operating_systems.RequestQueue.Steps.{Reach, begin, next, chain, queue_in_order}
use cs232_operating_systems.RequestQueue.Steps
use cs232_operating_systems.RequestQueue.Sff.{
  System, fresh, Later, now, then_move, takes_in, starts, goes_round, plain, times,
}
use cs232_operating_systems.RequestQueue.Sff.Round.{blocked}
use cs232_operating_systems.RequestQueue.Sff.Order.{sff_in_order}

-- Requests 4 and 7 go in, and 4 comes out.
abbrev two_in : (s : Steps.System) × Reach s
unfolding append_from
two_in = (
  _,
  next (next (next begin (Steps.takes_in 4 (omega arith))) (Steps.takes_in 7 (omega arith)))
      (Steps.takes_out 4 refl),
)

queue_in_order_example :
    (two_in.0.left ++ chain two_in.0.queue.head ≡ two_in.0.entered)
    × (two_in.0.queue.size ≡ length (chain two_in.0.queue.head))
    × (two_in.0.queue.size ≤ 11)
unfolding append_from
queue_in_order_example = queue_in_order two_in.1

abbrev no_thumb : ℕ → Bool
no_thumb x = false

-- Requests 4, 7 and 9 go in, and a worker starts.
abbrev three_in : (s : System) × Later no_thumb fresh s
unfolding append_from
three_in = (
  _,
  then_move
      (then_move
        (then_move (then_move now (takes_in 4 refl (omega arith))) (takes_in 7 refl (omega arith)))
        (takes_in 9 refl (omega arith)))
      (starts refl),
)

three_in_blocked : blocked no_thumb three_in.0.temp three_in.0.queue.head ≡ true
unfolding append_from
three_in_blocked = refl

sff_in_order_example :
    (plain no_thumb (three_in.0.left ++ chain three_in.0.queue.head)
      ≡ plain no_thumb three_in.0.entered)
    × ((d : ℕ)
        → times d (three_in.0.left ++ chain three_in.0.queue.head) ≡ times d three_in.0.entered)
    × (three_in.0.queue.size ≡ length (chain three_in.0.queue.head))
    × (three_in.0.queue.size ≤ 11)
    × ((blocked no_thumb three_in.0.temp three_in.0.queue.head ≡ false) ⊎ (three_in.0 ≡ three_in.0))
unfolding append_from sff_round
sff_in_order_example = sff_in_order no_thumb three_in.1 (then_move now (goes_round 0 refl refl))
