-- ===== src/VirtualMemory/PageTable.antt =====
-- Assignment6/vm_assignment/page_table.c: the table, its checked entries, and the delivery of a
-- fault to the handler. `fd` and `physmem` are addresses and handles that the logic never reads;
-- `page_table_create` maps `virtmem` and installs the handler, and both are arguments here.
pub mod Entries
use cs232_operating_systems.Common.{
  ℕ, ◌+◌, ◌-◌, ◌*◌, ◌/◌, ◌%◌, ◌^◌, Bool, false, ◌&&◌, List, ltb, leb, ◌==◌, not, if◌then◌else◌,
  get_or, set, replicate, Outcome, returns, aborts, ◌>>=◌,
}
use cs232_operating_systems.Common.Int.{ℤ, pos, negsuc}

abbrev pub page_size : ℕ
page_size = 4096

-- `struct page_table`. The words of `page_mapping` are the bit patterns of its ints.
pub record PageTable : Type 0 where
  pub virtmem : ℕ
  pub npages : ℕ
  pub nframes : ℕ
  pub page_mapping : List ℕ
  pub page_bits : List ℕ

-- PROT_READ is 1 and PROT_WRITE is 2.
abbrev pub read_write : ℕ
read_write = 3

-- The loop clears the bits. `page_mapping` is left as `malloc` returned it: `garbage`.
unfoldable pub page_table_create : ℕ → ℕ → ℕ → List ℕ → PageTable
page_table_create base npages nframes garbage = record {
  virtmem = base;
  npages = npages;
  nframes = nframes;
  page_mapping = garbage;
  page_bits = replicate npages 0;
}

-- The negation of `x < 0 || x >= n`.
abbrev pub in_range : ℤ → ℕ → Bool
in_range (pos i) n = ltb i n
in_range (negsuc _) n = false

-- The number of an index that passed the test.
abbrev pub index : ℤ → ℕ
index (pos i) = i
index (negsuc _) = 0

-- The calls of `remap_file_pages` and `mprotect` make the two arrays what the hardware sees.
unfoldable pub page_table_set_entry : PageTable → ℤ → ℤ → ℕ → Outcome PageTable
page_table_set_entry pt page frame bits =
    if not (in_range page pt.npages)
    then aborts
    else if not (in_range frame pt.nframes)
    then aborts
    else returns (record pt {
      page_mapping = set pt.page_mapping (index page) (index frame);
      page_bits = set pt.page_bits (index page) bits;
    })

-- `*frame` and `*bits`
pub record Entry : Type 0 where
  pub frame : ℕ
  pub bits : ℕ

unfoldable pub page_table_get_entry : PageTable → ℤ → Outcome Entry
page_table_get_entry pt page =
    if not (in_range page pt.npages)
    then aborts
    else returns (record {
      frame = get_or pt.page_mapping (index page) 0;
      bits = get_or pt.page_bits (index page) 0;
    })

-- The conversion of a 64-bit difference to `int`.
abbrev pub to_int32 : ℤ → ℤ
to_int32 (pos d) =
    let low = d % 2 ^ 32 in if ltb low (2 ^ 31) then pos low else negsuc (2 ^ 32 - low - 1)
to_int32 (negsuc d) =
    let low = d % 2 ^ 32 in if ltb low (2 ^ 31) then negsuc low else pos (2 ^ 32 - low - 1)

-- `(addr - pt->virtmem) / PAGE_SIZE`, rounded towards zero.
abbrev pub fault_page : ℕ → ℕ → ℤ
fault_page base addr = to_int32 (
    if leb base addr
    then pos ((addr - base) / page_size)
    else let down = (base - addr) / page_size in if down == 0 then pos 0 else negsuc (down - 1))

-- The handler is called on a page of the table; any other address ends in `abort`.
unfoldable pub internal_fault_handler {ℓ} :
    {S : Type ℓ} → PageTable → (ℕ → Outcome S) → ℕ → Outcome S
internal_fault_handler pt handler addr =
    let page = fault_page pt.virtmem addr in
    if in_range page pt.npages then handler (index page) else aborts
