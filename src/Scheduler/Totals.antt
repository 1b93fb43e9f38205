-- ===== src/Scheduler/Totals.antt =====
-- What the sort of Assignment3/scheduler.c keeps of the whole table, and the sorted table by index.
use cs232_operating_systems.Common.{
  ℕ, zero, suc, ◌+◌, ◌≡◌, ◌≤◌, ◌<◌, refl, ap, ◌∙◌, arith, List, [], ◌∷◌, length, get_or, lt-cases,
  lt→ltb, le→not-ltb, inl, inr, weigh, weigh_shift,
}
use cs232_operating_systems.Common.Int.{ℤ, pos, pos_part, neg_part, ◌+ℤ◌, ◌≤ℤ◌, int_laws}
use cs232_operating_systems.Scheduler.{
  Process, order, bubble_from, bubble, passes, sort, total_burst,
}
use cs232_operating_systems.Scheduler.Sort.{IsBefore, all, also, IsSorted, none_left, first}

length-bubble_from : (x : Process) (ys : List Process) → length (bubble_from x ys) ≡ suc (length ys)
unfolding bubble_from
length-bubble_from x [] = refl
length-bubble_from x (y ∷ ys) = ap suc (length-bubble_from (order x y).1 ys)

length-passes : (n : ℕ) (xs : List Process) → length (passes n xs) ≡ length xs
unfolding passes
length-passes zero xs = refl
length-passes (suc n) [] = length-passes n []
length-passes (suc n) (x ∷ xs) = length-passes n (bubble (x ∷ xs)) ∙ length-bubble_from x xs

pub length-sort : (table : List Process) → length (sort table) ≡ length table
length-sort table = length-passes (length table) table

order_total :
    (x y : Process) (r : ℤ)
    → (order x y).0.burst +ℤ ((order x y).1.burst +ℤ r) ≡ x.burst +ℤ (y.burst +ℤ r)
order_total x y r =
    elim (lt-cases (pos_part y.arr + neg_part x.arr) (pos_part x.arr + neg_part y.arr)) [
      | inl h ↦ rw (lt→ltb _ _ h) (omega int_laws)
      | inr h ↦ rw (le→not-ltb _ _ h) refl
    ]

total_burst-bubble_from :
    (x : Process) (ys : List Process) → total_burst (bubble_from x ys) ≡ total_burst (x ∷ ys)
unfolding bubble_from
total_burst-bubble_from x [] = refl
total_burst-bubble_from x (y ∷ ys) =
    ap (λ r. (order x y).0.burst +ℤ r) (total_burst-bubble_from (order x y).1 ys)
    ∙ order_total x y (total_burst ys)

total_burst-passes : (n : ℕ) (xs : List Process) → total_burst (passes n xs) ≡ total_burst xs
unfolding passes
total_burst-passes zero xs = refl
total_burst-passes (suc n) [] = total_burst-passes n []
total_burst-passes (suc n) (x ∷ xs) =
    total_burst-passes n (bubble (x ∷ xs)) ∙ total_burst-bubble_from x xs

pub total_burst-sort : (table : List Process) → total_burst (sort table) ≡ total_burst table
total_burst-sort table = total_burst-passes (length table) table

-- The sum of bursts that are not negative.
pub total_burst-weigh :
    (ps : List Process) (d : Process)
    → ((l : ℕ) → l < length ps → neg_part (get_or ps l d).burst ≡ 0)
    → total_burst ps ≡ pos (weigh (λ p. pos_part p.burst) (λ l. get_or ps l d) (length ps))
unfolding weigh
total_burst-weigh [] d h = refl
total_burst-weigh (p ∷ ps) d h =
    let rest = total_burst-weigh ps d (λ l k. h (suc l) (omega arith)) in
    let here = h 0 (omega arith) in
    let split =
      weigh_shift (λ (q : Process). pos_part q.burst) (λ l. get_or (p ∷ ps) l d) (length ps) in
    rw rest (omega (int_laws, split))

IsBefore_at :
    {x : Process} {ys : List Process} (d : Process)
    → IsBefore x ys
    → (m : ℕ) → m < length ys
    → x.arr ≤ℤ (get_or ys m d).arr
IsBefore_at d all m h = absurd (omega arith)
IsBefore_at d (also e b) zero h = e
IsBefore_at d (also e b) (suc m) h = IsBefore_at d b m (omega arith)

-- In a sorted table, a process further up arrives no later.
pub IsSorted_at :
    {ys : List Process} (d : Process)
    → IsSorted ys
    → (l m : ℕ) → l ≤ m
    → m < length ys
    → (get_or ys l d).arr ≤ℤ (get_or ys m d).arr
IsSorted_at d none_left l m le h = absurd (omega arith)
IsSorted_at d (first b s) zero zero le h = omega arith
IsSorted_at d (first b s) zero (suc m) le h = IsBefore_at d b m (omega arith)
IsSorted_at d (first b s) (suc l) zero le h = absurd (omega arith)
IsSorted_at d (first b s) (suc l) (suc m) le h = IsSorted_at d s l m (omega arith) (omega arith)
