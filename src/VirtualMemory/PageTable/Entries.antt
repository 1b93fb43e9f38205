-- ===== src/VirtualMemory/PageTable/Entries.antt =====
-- Reads and writes of entries of a well-formed page table.
use cs232_operating_systems.Common.{
  ℕ, ◌≡◌, ◌<◌, refl, arith, ◌==◌, if◌then◌else◌, length, get_or, set, length-set, get_or-set_self,
  get_or-set_ne, List, returns, inl, inr, eq-cases,
}
use cs232_operating_systems.Common.Int.{pos}
use cs232_operating_systems.VirtualMemory.PageTable.{
  PageTable, page_table_set_entry, page_table_get_entry,
}

abbrev pub frame_of : PageTable → ℕ → ℕ
frame_of pt j = get_or pt.page_mapping j 0

abbrev pub bits_of : PageTable → ℕ → ℕ
bits_of pt j = get_or pt.page_bits j 0

-- Each array has an entry for each page.
pub record IsSized (pt : PageTable) : Type 0 where
  pub mapping : length pt.page_mapping ≡ pt.npages
  pub bits : length pt.page_bits ≡ pt.npages

pub get_entry_lem :
    (pt : PageTable) (j : ℕ)
    → j < pt.npages
    → page_table_get_entry pt (pos j)
      ≡ returns (record { frame = frame_of pt j; bits = bits_of pt j })
unfolding page_table_get_entry
get_entry_lem pt j h = ground arith

-- What a write leaves: one entry changed, the rest alone.
pub record IsWritten (page frame bits : ℕ) (pt pt' : PageTable) : Type 0 where
  pub same_base : pt'.virtmem ≡ pt.virtmem
  pub same_pages : pt'.npages ≡ pt.npages
  pub same_frames : pt'.nframes ≡ pt.nframes
  pub sized : IsSized pt'
  pub frames : (j : ℕ) → frame_of pt' j ≡ (if page == j then frame else frame_of pt j)
  pub bits_at : (j : ℕ) → bits_of pt' j ≡ (if page == j then bits else bits_of pt j)

pub get_or-set :
    (xs : List ℕ) (i j v : ℕ)
    → i < length xs
    → get_or (set xs i v) j 0 ≡ (if i == j then v else get_or xs j 0)
get_or-set xs i j v h = elim (eq-cases i j) [
  | inl e ↦ ground (arith, get_or-set_self xs i v 0)
  | inr ne ↦ ground (arith, get_or-set_ne xs i j v 0 ne)
]

pub set_entry_lem :
    {pt : PageTable} (page frame bits : ℕ)
    → IsSized pt
    → page < pt.npages
    → frame < pt.nframes
    → (pt' : PageTable) × (page_table_set_entry pt (pos page) (pos frame) bits ≡ returns pt')
      × IsWritten page frame bits pt pt'
unfolding page_table_set_entry
set_entry_lem {pt} page frame bits v hp hf = (
  record pt {
    page_mapping = set pt.page_mapping page frame;
    page_bits = set pt.page_bits page bits;
  },
  ground arith,
  record {
    same_base = refl;
    same_pages = refl;
    same_frames = refl;
    sized = record {
      mapping = omega (arith, length-set pt.page_mapping page frame);
      bits = omega (arith, length-set pt.page_bits page bits);
    };
    frames = λ j. get_or-set pt.page_mapping page j frame (omega arith);
    bits_at = λ j. get_or-set pt.page_bits page j bits (omega arith);
  },
)
