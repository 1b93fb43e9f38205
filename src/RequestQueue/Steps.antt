-- ===== src/RequestQueue/Steps.antt =====
-- The queue of Assignment5/web_server/Meg(Sanit).c in mode FCFS, as main and the workers use it.
use mathlib.Core.Option.{none-ne-some, some-injective}
use cs232_operating_systems.Common.{
  ℕ, ◌-◌, ◌≡◌, ◌≤◌, ◌<◌, refl, sym, ap, ◌∙◌, arith, leb, true, false, none, some, List, [], ◌∷◌,
  ◌++◌, append_assoc, subst, length, length-append,
}
use cs232_operating_systems.RequestQueue.{
  Node, null, node, Queue, append_from, enqueue, remove_fcfs, offer,
}

-- The requests of a chain, the first first.
abbrev pub chain : Node → List ℕ
chain null = []
chain (node x next) = x ∷ chain next

pub chain-append_from : (d : ℕ) (n : Node) → chain (append_from d n) ≡ chain n ++ (d ∷ [])
unfolding append_from
chain-append_from d null = refl
chain-append_from d (node x next) = ap (λ l. x ∷ l) (chain-append_from d next)

-- The queue with what went in and what came out. `main` offers a request, or a worker takes one; each
-- does so under the mutex.
pub record System : Type 0 where
  pub queue : Queue
  pub entered : List ℕ
  pub left : List ℕ

abbrev pub fresh : System
fresh = record { queue = record { head = null; size = 0 }; entered = []; left = [] }

pub data Step (s : System) : System → Type 0 where
  takes_in :
      (d : ℕ)
      → s.queue.size ≤ 10
      → Step s (record s { queue = offer d s.queue; entered = s.entered ++ (d ∷ []) })
  turns_away : (d : ℕ) → 10 < s.queue.size → Step s (record s { queue = offer d s.queue })
  no_memory : (d : ℕ) → s.queue.size ≤ 10 → Step s (record s { queue = enqueue false d s.queue })
  takes_out :
      (x : ℕ)
      → (remove_fcfs s.queue).0 ≡ some x
      → Step s (record s { queue = (remove_fcfs s.queue).1; left = s.left ++ (x ∷ []) })
  finds_none :
      (remove_fcfs s.queue).0 ≡ none → Step s (record s { queue = (remove_fcfs s.queue).1 })

pub data Reach : System → Type 0 where
  begin : Reach fresh
  next : {s t : System} → Reach s → Step s t → Reach t

pub record IsValid (s : System) : Type 0 where
  pub order : s.left ++ chain s.queue.head ≡ s.entered
  pub counted : s.queue.size ≡ length (chain s.queue.head)
  pub bound : s.queue.size ≤ 11

taken_first :
    (h : Node) (n x : ℕ)
    → let r = remove_fcfs (record { head = h; size = n }) in
      r.0 ≡ some x → (chain h ≡ x ∷ chain r.1.head) × (r.1.size ≡ n - 1)
taken_first null n x e = absurd (none-ne-some x e)
taken_first (node y rest) n x e = (ap (λ z. z ∷ chain rest) (some-injective y x e), refl)

left_alone :
    (h : Node) (n : ℕ)
    → let r = remove_fcfs (record { head = h; size = n }) in
      r.0 ≡ none → r.1 ≡ record { head = h; size = n }
left_alone null n e = refl
left_alone (node y rest) n e = absurd (none-ne-some y (sym e))

Step-IsValid : {s t : System} → IsValid s → Step s t → IsValid t
Step-IsValid {s} v (takes_in d h) =
    let ok : leb s.queue.size 10 ≡ true = ground arith in
    let longer = chain-append_from d s.queue.head in
    rw ok (record {
      order =
          ap (λ l. s.left ++ l) longer
          ∙ sym (append_assoc s.left (chain s.queue.head) (d ∷ []))
          ∙ ap (λ l. l ++ (d ∷ [])) v.order;
      counted =
          omega (arith, ap length longer, length-append (chain s.queue.head) (d ∷ []), v.counted);
      bound = omega arith;
    })
Step-IsValid {s} v (turns_away d h) =
    let full : leb s.queue.size 10 ≡ false = ground arith in
    rw full (record { order = v.order; counted = v.counted; bound = v.bound })
Step-IsValid v (no_memory d h) = record { order = v.order; counted = v.counted; bound = v.bound }
Step-IsValid {s} v (takes_out x e) =
    let (first, less) = taken_first s.queue.head s.queue.size x e in
    record {
      order =
          append_assoc s.left (x ∷ []) (chain (remove_fcfs s.queue).1.head)
          ∙ ap (λ l. s.left ++ l) (sym first)
          ∙ v.order;
      counted = omega (arith, less, v.counted, ap length first);
      bound = omega (arith, less, v.bound);
    }
Step-IsValid {s} v (finds_none e) =
    subst (λ q. IsValid (record s { queue = q })) (sym (left_alone s.queue.head s.queue.size e))
      (record { order = v.order; counted = v.counted; bound = v.bound })

Reach-IsValid : {s : System} → Reach s → IsValid s
Reach-IsValid begin = record { order = refl; counted = refl; bound = omega arith }
Reach-IsValid (next r m) = Step-IsValid (Reach-IsValid r) m

-- In every reachable state in mode FCFS: the requests that came out of the queue and those in it, in
-- their order, are those that went in, in theirs; `size` is the number in it, and it is at most 11.
pub queue_in_order :
    {s : System}
    → Reach s
    → (s.left ++ chain s.queue.head ≡ s.entered)
      × (s.queue.size ≡ length (chain s.queue.head))
      × (s.queue.size ≤ 11)
queue_in_order r = let v = Reach-IsValid r in (v.order, v.counted, v.bound)
