-- ===== src/RequestQueue/Sff/Round.antt =====
-- A round of `remove_sff` of Assignment5/web_server/Meg(Sanit).c.
use mathlib.Core.Option.{none-ne-some}
use cs232_operating_systems.Common.{
  ℕ, suc, ◌-◌, ◌≡◌, refl, sym, ◌∙◌, subst, arith, Bool, true, false, Bool-cases, Option, none, some,
  ◌∷◌, length, not, inl, inr,
}
use cs232_operating_systems.RequestQueue.{Node, null, node, Queue, remove_fcfs, sff_round}
use cs232_operating_systems.RequestQueue.Steps.{chain}
use cs232_operating_systems.RequestQueue.Sff.{plain, times}

module _ (is_thumb : ℕ → Bool) where
  -- What a request that is taken out of a chain leaves.
  pub record Takes (h : Node) (size x : ℕ) (q : Queue) : Type 0 where
    pub order : plain is_thumb (x ∷ chain q.head) ≡ plain is_thumb (chain h)
    pub kept : (d : ℕ) → times d (x ∷ chain q.head) ≡ times d (chain h)
    pub shorter : length (chain h) ≡ suc (length (chain q.head))
    pub counted : q.size ≡ size - 1

  first-Takes :
      (h : Node) (size x : ℕ) (q : Queue)
      → some (remove_fcfs (record { head = h; size = size })) ≡ some (some x, q)
      → Takes h size x q
  first-Takes null size x q e = absurd (cc)
  first-Takes (node y next) size x q e =
      subst {A = ℕ × Queue} (λ r. Takes (node y next) size r.0 r.1)
        {x = (y, record { head = next; size = size - 1 })} (cc)
        (record { order = refl; kept = λ d. refl; shorter = refl; counted = refl })

  pub round-Takes :
      (h : Node) (size x : ℕ) (q : Queue)
      → sff_round is_thumb 0 (record { head = h; size = size }) ≡ some (some x, q)
      → Takes h size x q
  unfolding sff_round
  round-Takes null size x q e = absurd (cc)
  round-Takes (node a null) size x q e = first-Takes (node a null) size x q e
  round-Takes (node a (node b null)) size x q e = first-Takes (node a (node b null)) size x q e
  round-Takes (node a (node b (node c rest))) size x q e = elim (Bool-cases (is_thumb b)) [
    | inl thumb ↦
        let made : some (some b, record { head = node a (node c rest); size = size - 1 })
            ≡ some (some x, q) =
          sym (rw thumb refl) ∙ e in
        subst {A = ℕ × Queue} (λ r. Takes (node a (node b (node c rest))) size r.0 r.1)
          {x = (b, record { head = node a (node c rest); size = size - 1 })} (cc)
          (record {
            order = rw thumb refl;
            kept = λ d. ground arith;
            shorter = refl;
            counted = refl;
          })
    | inr other ↦
        let made : none ≡ some (some x, q) = sym (rw other refl) ∙ e in
        absurd (none-ne-some (some x, q) made)
  ]

  pub round_none :
      (h : Node) (size : ℕ) (q : Queue)
      → sff_round is_thumb 0 (record { head = h; size = size }) ≡ some (none, q)
      → q ≡ record { head = h; size = size }
  unfolding sff_round
  round_none null size q e = cc
  round_none (node a null) size q e = absurd (cc)
  round_none (node a (node b null)) size q e = absurd (cc)
  round_none (node a (node b (node c rest))) size q e = elim (Bool-cases (is_thumb b)) [
    | inl thumb ↦
        let made : some (some b, record { head = node a (node c rest); size = size - 1 })
            ≡ some (none, q) =
          sym (rw thumb refl) ∙ e in
        absurd (cc)
    | inr other ↦
        let made : none ≡ some (none, q) = sym (rw other refl) ∙ e in
        absurd (none-ne-some (none, q) made)
  ]

  -- A worker is at the head of three requests or more, of which the second has no "thumb" in its name.
  abbrev pub blocked : Option ℕ → Node → Bool
  blocked none h = false
  blocked (some k) null = false
  blocked (some k) (node a null) = false
  blocked (some k) (node a (node b null)) = false
  blocked (some k) (node a (node b (node c rest))) = not (is_thumb b)

  pub blocked_round :
      (k : ℕ) (h : Node) (size : ℕ)
      → blocked (some k) h ≡ true
      → sff_round is_thumb 0 (record { head = h; size = size }) ≡ none
  unfolding sff_round
  blocked_round k null size e = absurd (ground arith)
  blocked_round k (node a null) size e = absurd (ground arith)
  blocked_round k (node a (node b null)) size e = absurd (ground arith)
  blocked_round k (node a (node b (node c rest))) size e = elim (Bool-cases (is_thumb b)) [
    | inl thumb ↦ let f : false ≡ true = sym (rw thumb refl) ∙ e in absurd (ground arith)
    | inr other ↦ rw other refl
  ]
