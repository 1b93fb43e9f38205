-- ===== src/VirtualMemory/Tests.antt =====
-- Runs of the virtual memory of Assignment6/vm_assignment at concrete inputs, and the theorems there.
use cs232_operating_systems.Common.{
  ℕ, ◌==◌, not, get_or-replicate, ◌+◌, ◌*◌, ◌≡◌, refl, arith, List, [], ◌∷◌, map, returns, aborts,
  Outcome,
}
use cs232_operating_systems.Common.Int.{pos, negsuc}
use cs232_operating_systems.VirtualMemory.PageTable.{
  PageTable, page_table_create, page_table_set_entry, page_table_get_entry, internal_fault_handler,
}
use cs232_operating_systems.VirtualMemory.Handler.{
  fifo, custom, rand, Machine, start, page_fault_handler, custom_from, custom_replace, fifo_fault,
  replace_page,
}
use cs232_operating_systems.VirtualMemory.Replacement.{IsValid}
use cs232_operating_systems.VirtualMemory.Service.{Served, page_fault_handler_serves}
use cs232_operating_systems.VirtualMemory.Access.{Access, touch, run}
use cs232_operating_systems.VirtualMemory.Runs.{page_of, AreInside, Finished, run_returns}
use cs232_operating_systems.VirtualMemory.PageTable.Entries.{bits_of}
use cs232_operating_systems.VirtualMemory.Fifo.{contains, simulate}
use cs232_operating_systems.VirtualMemory.Fifo.Runs.{run-eq-simulate}
use cs232_operating_systems.VirtualMemory.Comparison.{
  page_table_create-IsValid, start-IsReady, second_chance-eq-fifo,
}

-- Four pages, two frames, and what `malloc` may have left in `page_mapping`.
abbrev table : PageTable
table = page_table_create 0x1000 4 2 (7 ∷ 1 ∷ 0 ∷ 1 ∷ [])

abbrev at_page : ℕ → Access
at_page p = record { addr = 0x1000 + p * 4096 + 5; random = 3 }

-- Pages 0, 1, 0, 2, 0, 1.
abbrev program : List Access
program = map at_page (0 ∷ 1 ∷ 0 ∷ 2 ∷ 0 ∷ 1 ∷ [])

abbrev faults : Outcome Machine → ℕ
faults (returns m) = m.page_faults
faults _ = 1000

fifo_faults : faults (run (start fifo table) program) ≡ 5
unfolding run touch internal_fault_handler page_fault_handler fifo_fault replace_page
    page_table_set_entry page_table_get_entry start page_table_create
fifo_faults = refl

custom_faults : faults (run (start custom table) program) ≡ 5
unfolding run touch internal_fault_handler page_fault_handler custom_from custom_replace
    replace_page page_table_set_entry page_table_get_entry start page_table_create
custom_faults = refl

-- A negative page number ends in `abort`.
negative_page : page_table_set_entry table (negsuc 0) (pos 0) 3 ≡ aborts
unfolding page_table_set_entry
negative_page = refl

table-IsValid : IsValid table
table-IsValid = page_table_create-IsValid 0x1000 4 2 (7 ∷ 1 ∷ 0 ∷ 1 ∷ []) (omega arith) refl

program-AreInside : AreInside table program
unfolding page_table_create
program-AreInside = omega arith

page_fault_handler_serves_example :
    (m : Machine) × (page_fault_handler 3 (start custom table) 2 ≡ returns m)
    × Served 2 (start custom table) m
unfolding start page_table_create
page_fault_handler_serves_example =
    page_fault_handler_serves 3 {m = start custom table} 2 (start-IsReady custom table-IsValid)
      (λ e. cc) (omega arith)

run_returns_example :
    (m : Machine) × (run (start rand table) program ≡ returns m)
    × Finished (start rand table) program m
unfolding start
run_returns_example =
    run_returns {m = start rand table} program (start-IsReady rand table-IsValid) (λ e. cc)
      program-AreInside

second_chance-eq-fifo_example :
    (mf : Machine) × (mc : Machine) × (run (start fifo table) program ≡ returns mf)
    × (run (start custom table) program ≡ returns mc)
    × (mc.page_faults ≡ mf.page_faults)
    × (mc.pt ≡ mf.pt)
second_chance-eq-fifo_example = second_chance-eq-fifo table program table-IsValid program-AreInside

run-eq-simulate_example :
    let (q, misses) = simulate 2 [] 0 (map (page_of table) program) in
    (m : Machine) × (run (start fifo table) program ≡ returns m)
    × (m.page_faults ≡ misses)
    × ((p : ℕ) → contains q p ≡ not (bits_of m.pt p == 0))
unfolding page_table_create
run-eq-simulate_example =
    run-eq-simulate table program table-IsValid (λ j. get_or-replicate {A = ℕ} 4 j 0)
      program-AreInside
