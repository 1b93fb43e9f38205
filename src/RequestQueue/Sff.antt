-- ===== src/RequestQueue/Sff.antt =====
-- The queue of Assignment5/web_server/Meg(Sanit).c in mode SFF, as main and the workers use it.
pub mod Round
pub mod Order
use mathlib.Core.Option.{none-ne-some, some-injective}
use cs232_operating_systems.Common.{
  ℕ, zero, suc, ◌+◌, ◌-◌, ◌≡◌, ◌≢◌, ◌≤◌, ◌<◌, refl, sym, ap, ◌∙◌, subst, arith, if◌then◌else◌, ◌==◌,
  leb, Bool, true, false, Bool-cases, Option, none, some, List, [], ◌∷◌, ◌++◌, append_assoc, length,
  length-append, not, ◌⊎◌, inl, inr,
}
use cs232_operating_systems.RequestQueue.{
  Node, null, node, Queue, append_from, enqueue, remove_fcfs, sff_round, offer,
}
use cs232_operating_systems.RequestQueue.Steps.{chain, chain-append_from}

-- The queue with what went in and what came out, and `temp` of the worker that is in `remove_sff`, where
-- there is one. It holds the mutex until it returns.
pub record System : Type 0 where
  pub queue : Queue
  pub temp : Option ℕ
  pub entered : List ℕ
  pub left : List ℕ

abbrev pub fresh : System
fresh = record { queue = record { head = null; size = 0 }; temp = none; entered = []; left = [] }

pub data Move (is_thumb : ℕ → Bool) (s : System) : System → Type 0 where
  takes_in :
      (d : ℕ)
      → s.temp ≡ none
      → s.queue.size ≤ 10
      → Move is_thumb s (record s { queue = offer d s.queue; entered = s.entered ++ (d ∷ []) })
  turns_away :
      (d : ℕ)
      → s.temp ≡ none
      → 10 < s.queue.size
      → Move is_thumb s (record s { queue = offer d s.queue })
  no_memory :
      (d : ℕ)
      → s.temp ≡ none
      → s.queue.size ≤ 10
      → Move is_thumb s (record s { queue = enqueue false d s.queue })
  starts : s.temp ≡ none → Move is_thumb s (record s { temp = some 0 })
  goes_round : (k : ℕ) → s.temp ≡ some k → sff_round is_thumb k s.queue ≡ none → Move is_thumb s s
  takes_out :
      (k x : ℕ) (q : Queue)
      → s.temp ≡ some k
      → sff_round is_thumb k s.queue ≡ some (some x, q)
      → Move is_thumb s (record s { queue = q; temp = none; left = s.left ++ (x ∷ []) })
  finds_none :
      (k : ℕ) (q : Queue)
      → s.temp ≡ some k
      → sff_round is_thumb k s.queue ≡ some (none, q)
      → Move is_thumb s (record s { queue = q; temp = none })

-- The states that can follow one.
pub data Later (is_thumb : ℕ → Bool) (s : System) : System → Type 0 where
  now : Later is_thumb s s
  then_move : {t u : System} → Later is_thumb s t → Move is_thumb t u → Later is_thumb s u

-- The requests without "thumb" in their names.
abbrev pub plain : (ℕ → Bool) → List ℕ → List ℕ
plain is_thumb [] = []
plain is_thumb (x ∷ xs) = let rest = plain is_thumb xs in if is_thumb x then rest else x ∷ rest

-- How often a request stands in a list.
abbrev pub times : ℕ → List ℕ → ℕ
times d [] = 0
times d (x ∷ xs) = let rest = times d xs in if x == d then 1 + rest else rest

pub plain-append :
    (is_thumb : ℕ → Bool) (l m : List ℕ)
    → plain is_thumb (l ++ m) ≡ plain is_thumb l ++ plain is_thumb m
plain-append is_thumb [] m = refl
plain-append is_thumb (x ∷ xs) m = elim (Bool-cases (is_thumb x)) [
  | inl e ↦ rw e (plain-append is_thumb xs m)
  | inr e ↦ rw e (ap (λ l. x ∷ l) (plain-append is_thumb xs m))
]

pub times-append : (d : ℕ) (l m : List ℕ) → times d (l ++ m) ≡ times d l + times d m
times-append d [] m = omega arith
times-append d (x ∷ xs) m = ground (arith, times-append d xs m)
