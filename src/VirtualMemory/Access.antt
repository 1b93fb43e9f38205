-- ===== src/VirtualMemory/Access.antt =====
-- Accesses to the virtual memory: the hardware checks the permission bits of the page, and an
-- access to a page without them is delivered to `internal_fault_handler`
-- (Assignment6/vm_assignment/page_table.c) with the handler of main.c.
use cs232_operating_systems.Common.{
  ℕ, ◌+◌, ◌-◌, ◌*◌, ◌/◌, ◌^◌, ◌≡◌, ◌<◌, arith, Bool, List, [], ◌∷◌, ltb, leb, ◌==◌, ◌&&◌, not,
  if◌then◌else◌, Outcome, returns, ◌>>=◌,
}
use cs232_operating_systems.Common.Int.{pos}
use cs232_operating_systems.VirtualMemory.PageTable.{
  PageTable, page_size, fault_page, internal_fault_handler,
}
use cs232_operating_systems.VirtualMemory.PageTable.Entries.{bits_of}
use cs232_operating_systems.VirtualMemory.Handler.{Machine, page_fault_handler}

-- The page of the table that the address lies in has permission bits.
abbrev pub is_mapped : PageTable → ℕ → Bool
is_mapped pt addr =
    leb pt.virtmem addr
    && ltb (addr - pt.virtmem) (pt.npages * page_size)
    && not (bits_of pt ((addr - pt.virtmem) / page_size) == 0)

-- An access: its address, and what `lrand48` would return.
pub record Access : Type 0 where
  pub addr : ℕ
  pub random : ℕ

unfoldable pub touch : Machine → Access → Outcome Machine
touch m a =
    if is_mapped m.pt a.addr
    then returns m
    else internal_fault_handler m.pt (page_fault_handler a.random m) a.addr

unfoldable pub run : Machine → List Access → Outcome Machine
run m [] = returns m
run m (a ∷ as') = touch m a >>= λ m'. run m' as'

-- An address inside the virtual memory has the page that it lies in.
pub fault_page_inside :
    (base off n : ℕ)
    → off < n * page_size
    → n < 2 ^ 31
    → fault_page base (base + off) ≡ pos (off / page_size)
fault_page_inside base off n h small = ground arith
