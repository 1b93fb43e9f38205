-- ===== src/RequestQueue/Sff/Order.antt =====
-- What mode SFF of Assignment5/web_server/Meg(Sanit).c keeps, and where it stops.
use mathlib.Core.Option.{none-ne-some, some-injective}
use cs232_operating_systems.Common.{
  ℕ, ◌+◌, ◌≡◌, ◌≢◌, ◌≤◌, refl, sym, ap, ◌∙◌, subst, arith, leb, Bool, true, false, Bool-cases,
  Option, none, some, [], ◌∷◌, ◌++◌, append_assoc, length, length-append, ◌⊎◌, inl, inr,
}
use cs232_operating_systems.RequestQueue.{Queue, append_from, sff_round}
use cs232_operating_systems.RequestQueue.Steps.{chain, chain-append_from}
use cs232_operating_systems.RequestQueue.Sff.{
  System, fresh, Move, takes_in, turns_away, no_memory, starts, goes_round, takes_out, finds_none,
  Later, now, then_move, plain, times, plain-append, times-append,
}
use cs232_operating_systems.RequestQueue.Sff.Round.{
  Takes, round-Takes, round_none, blocked, blocked_round,
}

module _ (is_thumb : ℕ → Bool) where
  record IsValid (s : System) : Type 0 where
    order : plain is_thumb (s.left ++ chain s.queue.head) ≡ plain is_thumb s.entered
    kept : (d : ℕ) → times d (s.left ++ chain s.queue.head) ≡ times d s.entered
    counted : s.queue.size ≡ length (chain s.queue.head)
    bound : s.queue.size ≤ 11
    at_head : (k : ℕ) → s.temp ≡ some k → k ≡ 0

  longer :
      (s : System) (d : ℕ)
      → s.left ++ chain (append_from d s.queue.head) ≡ (s.left ++ chain s.queue.head) ++ (d ∷ [])
  longer s d =
      ap (λ l. s.left ++ l) (chain-append_from d s.queue.head)
      ∙ sym (append_assoc s.left (chain s.queue.head) (d ∷ []))

  entered-IsValid :
      (s : System) (d : ℕ)
      → IsValid s
      → s.queue.size ≤ 10
      → IsValid (record s {
        queue = record { head = append_from d s.queue.head; size = s.queue.size + 1 };
        entered = s.entered ++ (d ∷ []);
      })
  entered-IsValid s d v h = record {
    order =
        ap (plain is_thumb) (longer s d)
        ∙ plain-append is_thumb (s.left ++ chain s.queue.head) (d ∷ [])
        ∙ ap (λ l. l ++ plain is_thumb (d ∷ [])) v.order
        ∙ sym (plain-append is_thumb s.entered (d ∷ []));
    kept = λ e. omega (
      arith,
      ap (times e) (longer s d),
      times-append e (s.left ++ chain s.queue.head) (d ∷ []),
      v.kept e,
      times-append e s.entered (d ∷ []),
    );
    counted = omega (
      arith,
      ap length (chain-append_from d s.queue.head),
      length-append (chain s.queue.head) (d ∷ []),
      v.counted,
    );
    bound = omega arith;
    at_head = v.at_head;
  }

  taken-IsValid :
      (s : System) (x : ℕ) (q : Queue)
      → IsValid s
      → Takes is_thumb s.queue.head s.queue.size x q
      → IsValid (record s { queue = q; temp = none; left = s.left ++ (x ∷ []) })
  taken-IsValid s x q v takes =
      let moved = append_assoc s.left (x ∷ []) (chain q.head) in
      record {
        order =
            ap (plain is_thumb) moved
            ∙ plain-append is_thumb s.left (x ∷ chain q.head)
            ∙ ap (λ l. plain is_thumb s.left ++ l) takes.order
            ∙ sym (plain-append is_thumb s.left (chain s.queue.head))
            ∙ v.order;
        kept = λ d.
            ap (times d) moved
            ∙ times-append d s.left (x ∷ chain q.head)
            ∙ ap (λ n. times d s.left + n) (takes.kept d)
            ∙ sym (times-append d s.left (chain s.queue.head))
            ∙ v.kept d;
        counted = omega (arith, takes.counted, takes.shorter, v.counted);
        bound = omega (arith, takes.counted, v.bound);
        at_head = λ k e. absurd (none-ne-some k e);
      }

  with_temp-IsValid :
      (s : System) (temp : Option ℕ)
      → IsValid s
      → ((k : ℕ) → temp ≡ some k → k ≡ 0)
      → IsValid (record s { temp = temp })
  with_temp-IsValid s temp v at_head = record {
    order = v.order;
    kept = v.kept;
    counted = v.counted;
    bound = v.bound;
    at_head = at_head;
  }

  Move-IsValid : {s t : System} → IsValid s → Move is_thumb s t → IsValid t
  Move-IsValid {s} v (takes_in d free h) =
      let ok : leb s.queue.size 10 ≡ true = ground arith in rw ok (entered-IsValid s d v h)
  Move-IsValid {s} v (turns_away d free h) =
      let full : leb s.queue.size 10 ≡ false = ground arith in
      rw full (with_temp-IsValid s s.temp v v.at_head)
  Move-IsValid {s} v (no_memory d free h) = with_temp-IsValid s s.temp v v.at_head
  Move-IsValid {s} v (starts free) =
      with_temp-IsValid s (some 0) v (λ k e. sym (some-injective 0 k e))
  Move-IsValid v (goes_round k e round) = v
  Move-IsValid {s} v (takes_out k x q e round) = taken-IsValid s x q v (
      round-Takes is_thumb s.queue.head s.queue.size x q
        (ap (λ k. sff_round is_thumb k s.queue) (sym (v.at_head k e)) ∙ round))
  Move-IsValid {s} v (finds_none k q e round) =
      let kept =
        round_none is_thumb s.queue.head s.queue.size q
          (ap (λ k. sff_round is_thumb k s.queue) (sym (v.at_head k e)) ∙ round) in
      subst (λ q. IsValid (record s { queue = q; temp = none })) (sym kept)
        (with_temp-IsValid s none v (λ k e. absurd (none-ne-some k e)))

  Later-IsValid : {s t : System} → IsValid s → Later is_thumb s t → IsValid t
  Later-IsValid v now = v
  Later-IsValid v (then_move before move) = Move-IsValid (Later-IsValid v before) move

  fresh-IsValid : IsValid fresh
  fresh-IsValid = record {
    order = refl;
    kept = λ d. refl;
    counted = refl;
    bound = omega arith;
    at_head = λ k e. absurd (none-ne-some k e);
  }

  not_free :
      (s : System) → blocked is_thumb s.temp s.queue.head ≡ true → s.temp ≡ none → false ≡ true
  not_free s e free = ap (λ t. blocked is_thumb t s.queue.head) (sym free) ∙ e

  -- Its round is not the last.
  no_result :
      (s : System) (k : ℕ) (r : Option ℕ × Queue)
      → IsValid s
      → blocked is_thumb s.temp s.queue.head ≡ true
      → s.temp ≡ some k
      → sff_round is_thumb k s.queue ≢ some r
  no_result s k r v e held round =
      let none_yet =
        blocked_round is_thumb k s.queue.head s.queue.size
          (ap (λ t. blocked is_thumb t s.queue.head) (sym held) ∙ e) in
      none-ne-some r
        (sym none_yet ∙ ap (λ k. sff_round is_thumb k s.queue) (sym (v.at_head k held)) ∙ round)

  Move-blocked :
      {s t : System}
      → IsValid s
      → blocked is_thumb s.temp s.queue.head ≡ true
      → Move is_thumb s t
      → t ≡ s
  Move-blocked {s} v e (takes_in d free h) = absurd (let f = not_free s e free in ground arith)
  Move-blocked {s} v e (turns_away d free h) = absurd (let f = not_free s e free in ground arith)
  Move-blocked {s} v e (no_memory d free h) = absurd (let f = not_free s e free in ground arith)
  Move-blocked {s} v e (starts free) = absurd (let f = not_free s e free in ground arith)
  Move-blocked v e (goes_round k held round) = refl
  Move-blocked {s} v e (takes_out k x q held round) =
      absurd (no_result s k (some x, q) v e held round)
  Move-blocked {s} v e (finds_none k q held round) = absurd (no_result s k (none, q) v e held round)

  Later-blocked :
      {s t : System}
      → IsValid s
      → blocked is_thumb s.temp s.queue.head ≡ true
      → Later is_thumb s t
      → t ≡ s
  Later-blocked v e now = refl
  Later-blocked {s} v e (then_move {t = t} before move) =
      let here = Later-blocked v e before in
      Move-blocked (Later-IsValid v before)
        (ap (λ t. blocked is_thumb t.temp t.queue.head) here ∙ e) move
      ∙ here

  -- In every state `s` that is reached in mode SFF: the requests without "thumb" in their names come out of
  -- the queue and stand in it in the order in which they went in; every request has come out or stands in
  -- the queue as often as it went in; `size` is the number in the queue, and it is at most 11. If a worker
  -- is in `remove_sff` with three requests or more, of which the second has no "thumb" in its name, every
  -- later state is `s` again: nothing goes in or out any more.
  pub sff_in_order :
      {s t : System}
      → Later is_thumb fresh s
      → Later is_thumb s t
      → (plain is_thumb (s.left ++ chain s.queue.head) ≡ plain is_thumb s.entered)
        × ((d : ℕ) → times d (s.left ++ chain s.queue.head) ≡ times d s.entered)
        × (s.queue.size ≡ length (chain s.queue.head))
        × (s.queue.size ≤ 11)
        × ((blocked is_thumb s.temp s.queue.head ≡ false) ⊎ (t ≡ s))
  sff_in_order {s} reached later =
      let v = Later-IsValid fresh-IsValid reached in
      (
        v.order,
        v.kept,
        v.counted,
        v.bound,
        elim (Bool-cases (blocked is_thumb s.temp s.queue.head)) [
          | inl e ↦ inr (Later-blocked v e later)
          | inr e ↦ inl e
        ],
      )
