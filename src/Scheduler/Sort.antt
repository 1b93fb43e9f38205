-- ===== src/Scheduler/Sort.antt =====
-- The sort of Assignment3/scheduler.c orders the table by arrival and keeps the order of equals.
use cs232_operating_systems.Common.{
  ℕ, zero, suc, ◌+◌, ◌≡◌, ◌≤◌, refl, ap, ◌∙◌, arith, List, [], ◌∷◌, ◌++◌, length, if◌then◌else◌,
  ◌==◌, append-nil, subst, lt-cases, lt→ltb, le→not-ltb, inl, inr,
}
use cs232_operating_systems.Common.Int.{ℤ, pos_part, neg_part, ◌≤ℤ◌}
use cs232_operating_systems.Scheduler.{Process, order, bubble_from, bubble, passes, sort}

-- `x` arrives no later than any of the list.
pub data IsBefore (x : Process) : List Process → Type 0 where
  all : IsBefore x []
  also : {y : Process} {ys : List Process} → x.arr ≤ℤ y.arr → IsBefore x ys → IsBefore x (y ∷ ys)

pub data IsSorted : List Process → Type 0 where
  none_left : IsSorted []
  first : {x : Process} {xs : List Process} → IsBefore x xs → IsSorted xs → IsSorted (x ∷ xs)

-- The processes that arrive at `a`, in the order of the table.
abbrev pub arriving : ℤ → List Process → List Process
arriving a [] = []
arriving a (p ∷ ps) =
    let rest = arriving a ps in
    if pos_part a + neg_part p.arr == pos_part p.arr + neg_part a then p ∷ rest else rest

-- A pass keeps the processes that arrive together in their order.
arriving-bubble_from :
    (a : ℤ) (x : Process) (ys : List Process) → arriving a (bubble_from x ys) ≡ arriving a (x ∷ ys)
unfolding bubble_from
arriving-bubble_from a x [] = refl
arriving-bubble_from a x (y ∷ ys) =
    ground (arith, arriving-bubble_from a x ys, arriving-bubble_from a y ys)

pub arriving-passes : (a : ℤ) (n : ℕ) (xs : List Process) → arriving a (passes n xs) ≡ arriving a xs
unfolding passes
arriving-passes a zero xs = refl
arriving-passes a (suc n) [] = arriving-passes a n []
arriving-passes a (suc n) (x ∷ xs) =
    arriving-passes a n (bubble (x ∷ xs)) ∙ arriving-bubble_from a x xs

-- The part of a pass over the first processes `front`: what it leaves, and the one it carries on.
carry : Process → List Process → List Process × Process
carry x [] = ([], x)
carry x (y ∷ ys) =
    let (low, high) = order x y in let (front, last) = carry high ys in (low ∷ front, last)

bubble_from-append :
    (x : Process) (front back : List Process)
    → bubble_from x (front ++ back) ≡ (carry x front).0 ++ bubble_from (carry x front).1 back
unfolding bubble_from carry
bubble_from-append x [] back = refl
bubble_from-append x (y ∷ ys) back =
    ap (λ l. (order x y).0 ∷ l) (bubble_from-append (order x y).1 ys back)

length-carry : (x : Process) (ys : List Process) → length (carry x ys).0 ≡ length ys
unfolding carry
length-carry x [] = refl
length-carry x (y ∷ ys) = ap suc (length-carry (order x y).1 ys)

IsBefore-trans :
    {x y : Process} {ys : List Process} → x.arr ≤ℤ y.arr → IsBefore y ys → IsBefore x ys
IsBefore-trans h all = all
IsBefore-trans h (also k b) = also (omega arith) (IsBefore-trans h b)

-- A process that comes before a sorted list stays there.
bubble_from-IsSorted :
    {x : Process} {ys : List Process} → IsSorted (x ∷ ys) → bubble_from x ys ≡ x ∷ ys
unfolding bubble_from
bubble_from-IsSorted (first all s) = refl
bubble_from-IsSorted {x} {ys = y ∷ ys} (first (also h b) s) = ground (arith, bubble_from-IsSorted s)

-- Each of a list comes before all of another.
data IsApart (back : List Process) : List Process → Type 0 where
  apart_nil : IsApart back []
  apart :
      {x : Process} {xs : List Process} → IsBefore x back → IsApart back xs → IsApart back (x ∷ xs)

-- A comparison puts the earlier one first, and both are among the two.
record Ordered (back : List Process) (p : Process × Process) : Type 0 where
  le : p.0.arr ≤ℤ p.1.arr
  low : IsBefore p.0 back
  high : IsBefore p.1 back

order-Ordered :
    {back : List Process} (x y : Process)
    → IsBefore x back
    → IsBefore y back
    → Ordered back (order x y) × (x.arr ≤ℤ (order x y).1.arr)
order-Ordered x y bx by =
    elim (lt-cases (pos_part y.arr + neg_part x.arr) (pos_part x.arr + neg_part y.arr)) [
      | inl h ↦ rw (lt→ltb _ _ h) (record { le = omega arith; low = by; high = bx }, omega arith)
      | inr h ↦ rw (le→not-ltb _ _ h) (record { le = h; low = bx; high = by }, h)
    ]

record Carried (back : List Process) (x : Process) (c : List Process × Process) : Type 0 where
  le : x.arr ≤ℤ c.1.arr
  last : IsBefore c.1 back
  rest : IsApart (c.1 ∷ back) c.0

carry-Carried :
    {back : List Process} (x : Process) (ys : List Process)
    → IsBefore x back
    → IsApart back ys
    → Carried back x (carry x ys)
unfolding carry
carry-Carried x [] b a = record { le = omega arith; last = b; rest = apart_nil }
carry-Carried x (y ∷ ys) b (apart by a) =
    let (o, up) = order-Ordered x y b by in
    let c = carry-Carried (order x y).1 ys o.high a in
    record {
      le = omega (arith, up, c.le);
      last = c.last;
      rest = apart (also (omega (arith, o.le, c.le)) o.low) c.rest;
    }

passes-IsSorted :
    (n : ℕ) (front back : List Process)
    → length front ≤ n
    → IsSorted back
    → IsApart back front
    → IsSorted (passes n (front ++ back))
unfolding passes
passes-IsSorted zero [] back h s a = s
passes-IsSorted zero (x ∷ xs) back h s a = absurd (omega arith)
passes-IsSorted (suc n) [] [] h s a = passes-IsSorted n [] [] (omega arith) s a
passes-IsSorted (suc n) [] (y ∷ ys) h s a =
    rw (bubble_from-IsSorted s) (passes-IsSorted n [] (y ∷ ys) (omega arith) s a)
passes-IsSorted (suc n) (x ∷ xs) back h s (apart b a) =
    let c = carry-Carried x xs b a in
    let sorted = first c.last s in
    rw (bubble_from-append x xs back, bubble_from-IsSorted sorted)
      (passes-IsSorted n (carry x xs).0 ((carry x xs).1 ∷ back) (omega (arith, length-carry x xs))
        sorted c.rest)

IsApart-nil : (xs : List Process) → IsApart [] xs
IsApart-nil [] = apart_nil
IsApart-nil (x ∷ xs) = apart all (IsApart-nil xs)

-- The sort with which every policy starts leaves the table in the order of arrival, and processes
-- that arrive at the same time keep their order; so it loses, adds and doubles none.
pub sort-IsSorted :
    (table : List Process)
    → IsSorted (sort table) × ((a : ℤ) → arriving a (sort table) ≡ arriving a table)
sort-IsSorted table =
    let sorted =
      passes-IsSorted (length table) table [] (omega arith) none_left (IsApart-nil table) in
    (
      subst (λ t. IsSorted (passes (length table) t)) (append-nil table) sorted,
      λ a. arriving-passes a (length table) table,
    )
