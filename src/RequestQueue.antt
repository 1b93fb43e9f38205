-- ===== src/RequestQueue.antt =====
-- Assignment5/web_server/Meg(Sanit).c: a queue of requests as a linked list, that main fills and the
-- worker threads empty. A request is a number; whether "thumb" stands in its file name is a parameter.
pub mod Steps
pub mod Sff
mod Tests
use cs232_operating_systems.Common.{
  ℕ, zero, suc, ◌+◌, ◌-◌, ◌≡◌, leb, if◌then◌else◌, Bool, Option, none, some, List, [], ◌∷◌, ◌++◌,
  true, false,
}

-- A pointer to a node. No node is reachable in two ways, so a chain is its nodes.
pub data Node : Type 0 where
  null : Node
  node : ℕ → Node → Node

pub record Queue : Type 0 where
  pub head : Node
  pub size : ℕ

-- The walk to the last node, from `temp`, and the new node behind it.
unfoldable pub append_from : ℕ → Node → Node
append_from d null = node d null
append_from d (node x next) = node x (append_from d next)

-- `enqueue`; the first argument says whether `malloc` succeeds.
abbrev pub enqueue : Bool → ℕ → Queue → Queue
enqueue false d q = q
enqueue true d q = record { head = append_from d q.head; size = q.size + 1 }

-- A null head stands for the null pointer that is returned.
abbrev pub remove_fcfs : Queue → Option ℕ × Queue
remove_fcfs q = elim q.head [
  | null ↦ (none, q)
  | node x next ↦ (some x, record { head = next; size = q.size - 1 })
]

-- What stands at the pointer `temp` of `remove_sff`, which is given by the number of nodes before it.
abbrev pub at : ℕ → Node → Node
at zero n = n
at (suc k) null = null
at (suc k) (node x next) = at k next

-- The chain after `temp->next = ptr->next`, where `ptr` is `temp->next`.
abbrev pub unlink : ℕ → Node → Node
unlink zero null = null
unlink zero (node x null) = node x null
unlink zero (node x (node y next)) = node x next
unlink (suc k) null = null
unlink (suc k) (node x next) = node x (unlink k next)

-- A round of the outer loop of `remove_sff`, or what follows it: `none` where the loop goes round again,
-- with `temp` as it is, and otherwise the result.
unfoldable pub sff_round : (ℕ → Bool) → ℕ → Queue → Option (Option ℕ × Queue)
sff_round is_thumb temp q = elim (at temp q.head) [
  | null ↦ some (remove_fcfs q)
  | node x null ↦ some (remove_fcfs q)
  | node x (node y null) ↦ some (remove_fcfs q)
  | node x (node y (node z rest)) ↦
      if is_thumb y
      then some (some y, record { head = unlink temp q.head; size = q.size - 1 })
      else none
]

-- The section of `main` under the mutex.
abbrev pub offer : ℕ → Queue → Queue
offer d q = if leb q.size 10 then enqueue true d q else q
