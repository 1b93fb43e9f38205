-- ===== src/ProducerConsumer/Progress.antt =====
-- The two threads of Assignment4/ProCon.c never block one another, and the transfer ends complete.
use cs232_operating_systems.Common.{
  ◌≡◌, refl, sym, ◌∙◌, ap, ap₂, arith, true, false, List, [], ◌∷◌, ◌++◌, append-nil, ◌⊎◌, inl, inr,
  Bool-cases, eq-cases, length,
}
use cs232_operating_systems.Common.Int.{ℤ}
use cs232_operating_systems.ProducerConsumer.{is_full, is_empty, over}
use cs232_operating_systems.ProducerConsumer.Contents.{
  contents, contents-empty, full-not-empty, count_bounds,
}
use cs232_operating_systems.ProducerConsumer.Threads.{
  Producer, Consumer, System, Move, Reach, put_lock, put_wait, put_store, put_unlock, put_relock,
  get_lock, get_wait, get_fetch, get_unlock, get_relock,
}
use cs232_operating_systems.ProducerConsumer.Safety.{
  pending, producer_holds, consumer_holds, producer_sleeps, consumer_sleeps, saw_over, has_over,
  Inv, Reach-Inv,
}

-- `producer` returned, and `consumer` left its loop.
pub record Finished (s : System) : Type 0 where
  pub put_all : s.producer ≡ Producer.calling []
  pub got_over : s.consumer ≡ Consumer.ended

-- OVER is the last item, and only the last.
pub record EndsWithOver (input : List ℤ) : Type 0 where
  pub before : List ℤ
  pub shape : before ++ (over ∷ []) ≡ input
  pub plain : has_over before ≡ false

nothing_left :
    (before r rest : List ℤ)
    → r ++ rest ≡ before ++ (over ∷ [])
    → has_over r ≡ true
    → has_over before ≡ false
    → rest ≡ []
nothing_left before [] rest e h p = cc
nothing_left [] (y ∷ []) rest e h p = cc
nothing_left [] (y ∷ z ∷ r) rest e h p = cc
nothing_left (x ∷ before) (y ∷ r) rest e h p =
    nothing_left before r rest (ground arith) (ground arith) (ground arith)

append-eq-nil : (l r : List ℤ) → l ++ r ≡ [] → (l ≡ []) × (r ≡ [])
append-eq-nil [] r e = (refl, e)
append-eq-nil (x ∷ l) r e = cc

has_over-append_over : (l : List ℤ) → has_over (l ++ (over ∷ [])) ≡ true
has_over-append_over [] = refl
has_over-append_over (x ∷ l) = ground (arith, has_over-append_over l)

module _ {input : List ℤ} {s : System} (ends : EndsWithOver input) (inv : Inv input s) where
  open inv use {valid, conserved, lock, put_sleep, get_sleep, overs}

  all_taken : saw_over s.consumer ≡ true → (contents s.b ≡ []) × (pending s.producer ≡ [])
  all_taken h =
      append-eq-nil (contents s.b) (pending s.producer)
        (nothing_left ends.before s.received _ (conserved ∙ sym ends.shape) (overs ∙ h) ends.plain)

  drained : contents s.b ≡ [] → pending s.producer ≡ [] → s.received ≡ input
  drained e f =
      sym (append-nil s.received) ∙ ap₂ (λ a p. s.received ++ (a ++ p)) (sym e) (sym f) ∙ conserved

  starved : contents s.b ≡ [] → pending s.producer ≡ [] → saw_over s.consumer ≡ true
  starved e f =
      sym overs ∙ ap has_over (drained e f ∙ sym ends.shape) ∙ has_over-append_over ends.before

  producer_moves : producer_holds s.producer ≡ 1 → (t : System) × Move s t
  producer_moves h = at s.producer refl
    where
      at : (p : Producer) → s.producer ≡ p → (t : System) × Move s t
      at (Producer.testing item rest) e = elim (Bool-cases (is_full s.b)) [
        | inl full ↦ (_, put_wait e full)
        | inr room ↦ (_, put_store e room)
      ]
      at (Producer.leaving rest) e = (_, put_unlock e)
      at (Producer.calling _) e = absurd (ground arith)
      at (Producer.sleeping _ _) e = absurd (ground arith)
      at (Producer.woken _ _) e = absurd (ground arith)

  consumer_moves : consumer_holds s.consumer ≡ 1 → (t : System) × Move s t
  consumer_moves h = at s.consumer refl
    where
      at : (c : Consumer) → s.consumer ≡ c → (t : System) × Move s t
      at Consumer.testing e = elim (Bool-cases (is_empty s.b)) [
        | inl empty ↦ (_, get_wait e empty)
        | inr some_item ↦ (_, get_fetch e some_item)
      ]
      at (Consumer.leaving item) e = (_, get_unlock e)
      at Consumer.calling e = absurd (ground arith)
      at Consumer.sleeping e = absurd (ground arith)
      at Consumer.woken e = absurd (ground arith)
      at Consumer.ended e = absurd (ground arith)

  -- With the lock free a thread that asks for it gets it.
  free_moves : s.locked ≡ false → Finished s ⊎ ((t : System) × Move s t)
  free_moves free = at s.producer s.consumer refl refl
    where
      at :
          (p : Producer) (c : Consumer)
          → s.producer ≡ p
          → s.consumer ≡ c
          → Finished s ⊎ ((t : System) × Move s t)
      at (Producer.calling (item ∷ rest)) c e f = inr (_, put_lock e free)
      at (Producer.woken item rest) c e f = inr (_, put_relock e free)
      at (Producer.testing item rest) c e f = absurd (ground arith)
      at (Producer.leaving rest) c e f = absurd (ground arith)
      at p Consumer.calling e f = inr (_, get_lock f free)
      at p Consumer.woken e f = inr (_, get_relock f free)
      at p Consumer.testing e f = absurd (ground arith)
      at p (Consumer.leaving item) e f = absurd (ground arith)
      at (Producer.calling []) Consumer.ended e f = inl (record { put_all = e; got_over = f })
      at (Producer.calling []) Consumer.sleeping e f = absurd (
          cc (
            starved (contents-empty valid (get_sleep (ap consumer_sleeps f))) (ap pending e),
            ap saw_over f,
          ))
      at (Producer.sleeping item rest) Consumer.ended e f =
          let full : is_full s.b ≡ true = put_sleep (ap producer_sleeps e) in
          let none_left = (all_taken (ap saw_over f)).0 in
          absurd (omega (arith, (count_bounds valid).1.0 full, ap length none_left))
      at (Producer.sleeping item rest) Consumer.sleeping e f = absurd (
          cc (
            full-not-empty valid (put_sleep (ap producer_sleeps e)),
            get_sleep (ap consumer_sleeps f),
          ))

  moves : Finished s ⊎ ((t : System) × Move s t)
  moves = elim (Bool-cases s.locked) [
    | inl held ↦ elim (eq-cases (producer_holds s.producer) 1) [
      | inl h ↦ inr (producer_moves h)
      | inr h ↦ inr (consumer_moves (ground arith))
    ]
    | inr free ↦ free_moves free
  ]

-- If OVER is the producer's last item and none before it is OVER, then in every reachable state the
-- program has finished or one of the threads can make a move other than a spurious wake-up: no
-- wake-up is lost and there is no deadlock.
pub no_deadlock :
    {input : List ℤ} {s : System}
    → EndsWithOver input
    → Reach input s
    → Finished s ⊎ ((t : System) × Move s t)
no_deadlock ends r = moves ends (Reach-Inv r)

-- Under the same condition a consumer that has left its loop has received all the producer's items
-- in their order, and the buffer is empty.
pub complete_transfer :
    {input : List ℤ} {s : System}
    → EndsWithOver input
    → Reach input s
    → s.consumer ≡ Consumer.ended
    → (s.received ≡ input) × (contents s.b ≡ [])
complete_transfer ends r e =
    let inv = Reach-Inv r in
    let (f, g) = all_taken ends inv (ap saw_over e) in (drained ends inv f g, f)
