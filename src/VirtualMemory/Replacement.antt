-- ===== src/VirtualMemory/Replacement.antt =====
-- What the replacement of a page does to the table (Assignment6/vm_assignment/main.c).
use cs232_operating_systems.Common.{
  ℕ, zero, suc, ◌+◌, ◌≡◌, ◌≢◌, ◌≤◌, ◌<◌, refl, arith, ◌==◌, ◌&&◌, not, if◌then◌else◌, get_or_out,
  returns, ◌>>=◌, inl, inr, lt-cases, Bool-cases,
}
use cs232_operating_systems.VirtualMemory.PageTable.{PageTable, read_write}
use cs232_operating_systems.VirtualMemory.PageTable.Entries.{
  frame_of, bits_of, IsSized, IsWritten, get_entry_lem, set_entry_lem,
}
use cs232_operating_systems.VirtualMemory.Handler.{unmap_from, replace_page}

abbrev pub IsResident : PageTable → ℕ → Type 0
IsResident pt j = bits_of pt j ≢ 0

-- A resident page is readable and writable, its frame exists, and no other page has that frame.
pub record IsValid (pt : PageTable) : Type 0 where
  pub sized : IsSized pt
  pub some_frame : 0 < pt.nframes
  pub usable : (j : ℕ) → IsResident pt j → bits_of pt j ≡ read_write
  pub in_memory : (j : ℕ) → IsResident pt j → frame_of pt j < pt.nframes
  pub exclusive :
      (j k : ℕ) → IsResident pt j → IsResident pt k → frame_of pt j ≡ frame_of pt k → j ≡ k

pub bits_out : (pt : PageTable) (j : ℕ) → IsSized pt → pt.npages ≤ j → bits_of pt j ≡ 0
bits_out pt j v h = get_or_out pt.page_bits j 0 (omega arith)

-- The table after the loop: no page has the frame.
pub record IsUnmapped (frame : ℕ) (pt pt' : PageTable) : Type 0 where
  pub same_base : pt'.virtmem ≡ pt.virtmem
  pub same_pages : pt'.npages ≡ pt.npages
  pub same_frames : pt'.nframes ≡ pt.nframes
  pub sized : IsSized pt'
  pub frames : (j : ℕ) → frame_of pt' j ≡ frame_of pt j
  pub bits_at : (j : ℕ) → bits_of pt' j ≡ (if frame_of pt j == frame then 0 else bits_of pt j)

module _ {pt : PageTable} (v : IsValid pt) (frame : ℕ) (hf : frame < pt.nframes) where
  open v use {sized, exclusive}

  IsUnmapped-none :
      ((k : ℕ) → k < pt.npages → frame_of pt k ≡ frame → bits_of pt k ≡ 0) → IsUnmapped frame pt pt
  IsUnmapped-none clear = record {
    same_base = refl;
    same_pages = refl;
    same_frames = refl;
    sized = sized;
    frames = λ j. refl;
    bits_at = λ j. elim (lt-cases j pt.npages) [
      | inl h ↦ ground (arith, clear j h)
      | inr h ↦ ground (arith, bits_out pt j sized h)
    ];
  }

  IsUnmapped-one :
      {pt' : PageTable} (j : ℕ)
      → frame_of pt j ≡ frame
      → bits_of pt j ≢ 0
      → IsWritten j frame 0 pt pt'
      → IsUnmapped frame pt pt'
  IsUnmapped-one {pt'} j same mapped w = record {
    same_base = w.same_base;
    same_pages = w.same_pages;
    same_frames = w.same_frames;
    sized = w.sized;
    frames = λ k. ground (arith, w.frames k);
    bits_at = λ k. ground (arith, w.bits_at k, exclusive j k mapped);
  }

  pub unmap_from_lem :
      (left j : ℕ)
      → j + left ≡ pt.npages
      → ((k : ℕ) → k < j → frame_of pt k ≡ frame → bits_of pt k ≡ 0)
      → (pt' : PageTable) × (unmap_from left j frame pt ≡ returns pt') × IsUnmapped frame pt pt'
  unfolding unmap_from
  unmap_from_lem zero j e clear = (pt, refl, IsUnmapped-none (λ k h. clear k (omega arith)))
  unmap_from_lem (suc left) j e clear =
      elim (Bool-cases (frame_of pt j == frame && not (bits_of pt j == 0))) [
        | inl hit ↦
            let (pt', run, w) = set_entry_lem j frame 0 sized (omega arith) hf in
            (
              pt',
              rw (get_entry_lem pt j (omega arith), ◌>>=◌, hit) run,
              IsUnmapped-one j (ground arith) (ground arith) w,
            )
        | inr miss ↦
            let (pt', run, u) = unmap_from_lem left (suc j) (omega arith) (λ k h same.
              elim (lt-cases k j) [ inl below ↦ clear k below same | inr here ↦ ground (arith) ]) in
            (pt', rw (get_entry_lem pt j (omega arith), ◌>>=◌, miss) run, u)
      ]

-- The table after the replacement: the page has the frame, and the page that had it is gone.
pub record IsLoaded (page frame : ℕ) (pt pt' : PageTable) : Type 0 where
  pub same_base : pt'.virtmem ≡ pt.virtmem
  pub same_pages : pt'.npages ≡ pt.npages
  pub same_frames : pt'.nframes ≡ pt.nframes
  pub sized : IsSized pt'
  pub frames : (j : ℕ) → frame_of pt' j ≡ (if page == j then frame else frame_of pt j)
  pub bits_at :
      (j : ℕ)
      → bits_of pt' j
        ≡ (if page == j then read_write else if frame_of pt j == frame then 0 else bits_of pt j)

loaded :
    {page frame : ℕ} {pt pt' pt'' : PageTable}
    → IsUnmapped frame pt pt'
    → IsWritten page frame read_write pt' pt''
    → IsLoaded page frame pt pt''
loaded u w = record {
  same_base = cc;
  same_pages = omega arith;
  same_frames = omega arith;
  sized = w.sized;
  frames = λ j. ground (arith, u.frames j, w.frames j);
  bits_at = λ j. ground (arith, u.bits_at j, w.bits_at j);
}

pub replace_page_lem :
    {pt : PageTable} (page frame : ℕ)
    → IsValid pt
    → page < pt.npages
    → frame < pt.nframes
    → (pt' : PageTable) × (replace_page pt page frame ≡ returns pt') × IsLoaded page frame pt pt'
unfolding replace_page
replace_page_lem {pt} page frame v hp hf =
    let (pt', cleared, u) =
      unmap_from_lem v frame hf pt.npages 0 (omega arith) (λ k h _. absurd (omega arith)) in
    let (pt'', run, w) =
      set_entry_lem {pt = pt'} page frame read_write u.sized (omega (arith, u.same_pages))
        (omega (arith, u.same_frames)) in
    (pt'', rw cleared run, loaded u w)

pub IsLoaded-IsValid :
    {page frame : ℕ} {pt pt' : PageTable}
    → IsValid pt
    → frame < pt.nframes
    → IsLoaded page frame pt pt'
    → IsValid pt'
IsLoaded-IsValid {page} {frame} {pt} v hf l = record {
  sized = l.sized;
  some_frame = omega (arith, l.same_frames, v.some_frame);
  usable = λ j r. ground (arith, l.bits_at j, v.usable j);
  in_memory = λ j r. ground (arith, l.bits_at j, l.frames j, l.same_frames, v.in_memory j);
  exclusive = λ j k rj rk e.
      ground (arith, l.bits_at j, l.bits_at k, l.frames j, l.frames k, v.exclusive j k);
}
