-- ===== src/VirtualMemory/Handler.antt =====
-- Assignment6/vm_assignment/main.c: the page-fault handler with its three replacement policies.
-- The static variables `i`, `mode`, `pageFaults` and `arr` are fields of `Machine`. The number that
-- `lrand48` returns is an argument. Counters are numbers: no run here counts up to 2 ^ 31 faults.
use cs232_operating_systems.Common.{
  ℕ, zero, suc, ◌+◌, ◌*◌, ◌%◌, true, false, ◌&&◌, List, ◌==◌, not, get_or, set, replicate, Outcome,
  returns, exits, ◌>>=◌,
}
use cs232_operating_systems.Common.Int.{pos}
use cs232_operating_systems.VirtualMemory.PageTable.{
  PageTable, read_write, page_table_set_entry, page_table_get_entry,
}

-- `mode`: -1, 0, 1 and 2.
pub data Mode : Type 0 where
  unset rand fifo custom : Mode

pub record Machine : Type 0 where
  pub pt : PageTable
  pub i : ℕ
  pub mode : Mode
  pub page_faults : ℕ
  pub arr : List ℕ

-- The `for` over the pages, from `j` on with `left` to go: the first page that is mapped to the
-- frame loses its permission bits. All three policies have this loop.
unfoldable pub unmap_from : ℕ → ℕ → ℕ → PageTable → Outcome PageTable
unmap_from zero j frame pt = returns pt
unmap_from (suc left) j frame pt = page_table_get_entry pt (pos j) >>= λ temp.
    elim (temp.frame == frame && not (temp.bits == 0)) [
      | true ↦ page_table_set_entry pt (pos j) (pos frame) 0
      | false ↦ unmap_from left (suc j) frame pt
    ]

-- The loop, and the entry of the requested page.
unfoldable pub replace_page : PageTable → ℕ → ℕ → Outcome PageTable
unfolding unmap_from
replace_page pt page frame = unmap_from pt.npages 0 frame pt >>= λ pt'.
    page_table_set_entry pt' (pos page) (pos frame) read_write

unfoldable pub rand_fault : Machine → ℕ → ℕ → Outcome Machine
rand_fault m page random = replace_page m.pt page (random % m.pt.nframes) >>= λ pt'.
    returns (record m { pt = pt'; page_faults = m.page_faults + 1 })

unfoldable pub fifo_fault : Machine → ℕ → Outcome Machine
fifo_fault m page = replace_page m.pt page m.i >>= λ pt'.
    returns (record m { pt = pt'; i = (m.i + 1) % m.pt.nframes; page_faults = m.page_faults + 1 })

-- The body of the `else`: the frame at the hand is replaced, marked, and passed.
unfoldable pub custom_replace : Machine → ℕ → Outcome Machine
custom_replace m page = replace_page m.pt page m.i >>= λ pt'. returns (record m {
  pt = pt';
  i = (m.i + 1) % m.pt.nframes;
  page_faults = m.page_faults + 1;
  arr = set m.arr m.i 1;
})

-- The `for` over `k`, with the rounds that are left.
unfoldable pub custom_from : ℕ → Machine → ℕ → Outcome Machine
custom_from zero m page = returns m
custom_from (suc left) m page = elim (get_or m.arr m.i 0 == 1) [
  | true ↦ custom_from left (record m { i = (m.i + 1) % m.pt.nframes; arr = set m.arr m.i 0 }) page
  | false ↦ custom_replace m page
]

unfoldable pub page_fault_handler : ℕ → Machine → ℕ → Outcome Machine
page_fault_handler random m page = elim m.mode [
  | rand ↦ rand_fault m page random
  | fifo ↦ fifo_fault m page
  | custom ↦ custom_from (m.pt.nframes * 2) m page
  | unset ↦ exits 1
]

-- `main`: `calloc` clears `arr`.
unfoldable pub start : Mode → PageTable → Machine
start mode pt = record {
  pt = pt;
  i = 0;
  mode = mode;
  page_faults = 0;
  arr = replicate pt.nframes 0;
}
