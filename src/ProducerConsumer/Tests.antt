-- ===== src/ProducerConsumer/Tests.antt =====
-- Runs of Assignment4/ProCon.c in a given order of steps, and the theorems there.
use cs232_operating_systems.Common.{
  ◌+◌, ◌≡◌, ◌≤◌, refl, false, List, [], ◌∷◌, ◌++◌, ◌⊎◌, ◌↔◌, length,
}
use cs232_operating_systems.Common.Int.{ℤ, pos}
use cs232_operating_systems.ProducerConsumer.{init, is_full, is_empty, store, fetch, over}
use cs232_operating_systems.ProducerConsumer.Contents.{init-IsValid, contents, contents-store}
use cs232_operating_systems.ProducerConsumer.Threads.{
  Consumer, System, Move, move, Reach, here, next, program, put_lock, put_store, put_unlock,
  get_lock, get_wait, get_fetch, get_unlock, get_relock,
}
use cs232_operating_systems.ProducerConsumer.Safety.{
  pending, producer_holds, consumer_holds, mutual_exclusion, fifo_transfer,
}
use cs232_operating_systems.ProducerConsumer.Progress.{
  Finished, EndsWithOver, no_deadlock, complete_transfer,
}

abbrev two_items : List ℤ
two_items = pos 5 ∷ over ∷ []

-- The consumer waits on the empty buffer, and is woken by the first item.
abbrev woken : (s : System) × Reach two_items s
unfolding is_full is_empty
woken = (
  _,
  next
      (next
        (next (next (next here (move (get_lock refl refl))) (move (get_wait refl refl)))
          (move (put_lock refl refl)))
        (move (put_store refl refl)))
      (move (put_unlock refl)),
)

abbrev finished : (s : System) × Reach two_items s
unfolding is_full is_empty store fetch
finished = (
  _,
  next
      (next
        (next
          (next
            (next
              (next
                (next
                  (next (next woken.1 (move (get_relock refl refl))) (move (get_fetch refl refl)))
                  (move (get_unlock refl)))
                (move (put_lock refl refl)))
              (move (put_store refl refl)))
            (move (put_unlock refl)))
          (move (get_lock refl refl)))
        (move (get_fetch refl refl)))
      (move (get_unlock refl)),
)

finished_state : (finished.0.received ≡ two_items) × (finished.0.consumer ≡ Consumer.ended)
unfolding is_full is_empty store fetch
finished_state = (refl, refl)

two_items-EndsWithOver : EndsWithOver two_items
two_items-EndsWithOver = record { before = pos 5 ∷ []; shape = refl; plain = refl }

program_last :
    program
    ≡ pos 0 ∷ pos 1 ∷ pos 2 ∷ pos 3 ∷ pos 4 ∷ pos 5 ∷ pos 6 ∷ pos 7 ∷ pos 8 ∷ pos 9 ∷ over ∷ []
program_last = refl

contents-store_example : contents (store init (pos 7)) ≡ contents init ++ (pos 7 ∷ [])
unfolding is_full
contents-store_example = contents-store (pos 7) init-IsValid refl

mutual_exclusion_example :
    (producer_holds woken.0.producer + consumer_holds woken.0.consumer ≤ 1)
    × ((woken.0.locked ≡ false)
        ↔ (producer_holds woken.0.producer + consumer_holds woken.0.consumer ≡ 0))
unfolding is_full is_empty
mutual_exclusion_example = mutual_exclusion woken.1

fifo_transfer_example :
    (woken.0.received ++ (contents woken.0.b ++ pending woken.0.producer) ≡ two_items)
    × (length (contents woken.0.b) ≤ 15)
unfolding is_full is_empty
fifo_transfer_example = fifo_transfer woken.1

no_deadlock_example : Finished woken.0 ⊎ ((t : System) × Move woken.0 t)
unfolding is_full is_empty
no_deadlock_example = no_deadlock two_items-EndsWithOver woken.1

complete_transfer_example : (finished.0.received ≡ two_items) × (contents finished.0.b ≡ [])
unfolding is_full is_empty store fetch
complete_transfer_example = complete_transfer two_items-EndsWithOver finished.1 refl
