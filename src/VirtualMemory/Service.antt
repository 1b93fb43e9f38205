-- ===== src/VirtualMemory/Service.antt =====
-- Each policy serves a fault: the handler returns with the requested page resident, for every state
-- of the hand and of the marks (Assignment6/vm_assignment/main.c).
use cs232_operating_systems.Common.{
  ℕ, zero, suc, ◌+◌, ◌*◌, ◌%◌, ◌≡◌, ◌≢◌, ◌≤◌, ◌<◌, refl, arith, List, [], ◌∷◌, ◌==◌, if◌then◌else◌,
  length, get_or, set, length-set, returns, inl, inr, eq-cases, ◌∙◌,
}
use native.Mathlib.Nat.{mod-lt}
use cs232_operating_systems.VirtualMemory.PageTable.{PageTable}
use cs232_operating_systems.VirtualMemory.Handler.{
  Mode, unset, rand, fifo, custom, Machine, rand_fault, fifo_fault, custom_replace, custom_from,
  page_fault_handler, replace_page,
}
use cs232_operating_systems.VirtualMemory.Replacement.{
  IsValid, IsLoaded, replace_page_lem, IsLoaded-IsValid,
}

-- The hand points at a frame, and each frame has a mark.
pub record IsReady (m : Machine) : Type 0 where
  pub table : IsValid m.pt
  pub hand : m.i < m.pt.nframes
  pub marks : length m.arr ≡ m.pt.nframes

-- One fault: the page went into some frame, everything is ready for the next fault, one more is
-- counted.
pub record Served (page : ℕ) (m m' : Machine) : Type 0 where
  pub frame : ℕ
  pub exists : frame < m.pt.nframes
  pub loaded : IsLoaded page frame m.pt m'.pt
  pub ready : IsReady m'
  pub counted : m'.page_faults ≡ m.page_faults + 1
  pub same_mode : m'.mode ≡ m.mode

pub count_ones : List ℕ → ℕ
count_ones [] = 0
count_ones (x ∷ xs) = (if x == 1 then 1 else 0) + count_ones xs

count_ones-le-length : (xs : List ℕ) → count_ones xs ≤ length xs
unfolding count_ones
count_ones-le-length [] = omega arith
count_ones-le-length (x ∷ xs) = ground (arith, count_ones-le-length xs)

count_ones-set :
    (xs : List ℕ) (i : ℕ) → get_or xs i 0 ≡ 1 → suc (count_ones (set xs i 0)) ≡ count_ones xs
unfolding count_ones
count_ones-set [] i h = absurd (omega arith)
count_ones-set (x ∷ xs) zero h = ground arith
count_ones-set (x ∷ xs) (suc i) h = ground (arith, count_ones-set xs i h)

module _ {m : Machine} (r : IsReady m) (page : ℕ) (hp : page < m.pt.npages) where
  open r use {table, hand, marks}

  served :
      {pt' : PageTable} (frame : ℕ)
      → frame < m.pt.nframes
      → IsLoaded page frame m.pt pt'
      → (i : ℕ) (arr : List ℕ) → i < m.pt.nframes
      → length arr ≡ m.pt.nframes
      → Served page m (record m { pt = pt'; i = i; page_faults = m.page_faults + 1; arr = arr })
  served frame hf l i arr hi ha = record {
    frame = frame;
    exists = hf;
    loaded = l;
    ready = record {
      table = IsLoaded-IsValid table hf l;
      hand = omega (arith, l.same_frames);
      marks = omega (arith, l.same_frames);
    };
    counted = refl;
    same_mode = refl;
  }

  pub rand_fault_lem :
      (random : ℕ) → (m' : Machine) × (rand_fault m page random ≡ returns m') × Served page m m'
  unfolding rand_fault
  rand_fault_lem random =
      let (pt', run, l) =
        replace_page_lem page (random % m.pt.nframes) table hp (omega (arith, table.some_frame)) in
      (
        _,
        rw run,
        served (random % m.pt.nframes) (omega (arith, table.some_frame)) l m.i m.arr hand marks,
      )

  pub fifo_fault_lem : (m' : Machine) × (fifo_fault m page ≡ returns m') × Served page m m'
  unfolding fifo_fault
  fifo_fault_lem =
      let (pt', run, l) = replace_page_lem page m.i table hp hand in
      (
        _,
        rw run,
        served m.i hand l ((m.i + 1) % m.pt.nframes) m.arr (omega (arith, table.some_frame)) marks,
      )

  pub custom_replace_lem : (m' : Machine) × (custom_replace m page ≡ returns m') × Served page m m'
  unfolding custom_replace
  custom_replace_lem =
      let (pt', run, l) = replace_page_lem page m.i table hp hand in
      (
        _,
        rw run,
        served m.i hand l ((m.i + 1) % m.pt.nframes) (set m.arr m.i 1)
            (omega (arith, table.some_frame)) (omega (arith, length-set m.arr m.i 1)),
      )

-- The state after the hand's frame was replaced.
abbrev pub replaced : Machine → PageTable → List ℕ → Machine
replaced m pt' arr = record m {
  pt = pt';
  i = (m.i + 1) % m.pt.nframes;
  page_faults = m.page_faults + 1;
  arr = arr;
}

pub fifo_run :
    (m : Machine) (page : ℕ) (pt' : PageTable)
    → replace_page m.pt page m.i ≡ returns pt'
    → fifo_fault m page ≡ returns (replaced m pt' m.arr)
unfolding fifo_fault
fifo_run m page pt' h = rw h

pub IsReady-after :
    (m : Machine) (pt' : PageTable) (arr : List ℕ)
    → IsReady m
    → length arr ≡ m.pt.nframes
    → IsValid pt'
    → pt'.nframes ≡ m.pt.nframes
    → IsReady (replaced m pt' arr)
IsReady-after m pt' arr r marks v e = record {
  table = v;
  hand = omega (arith, mod-lt (m.i + 1) r.table.some_frame);
  marks = omega arith;
}

-- The mark under the hand is cleared and the hand moves on.
abbrev pub pass : Machine → Machine
pass m = record m { i = (m.i + 1) % m.pt.nframes; arr = set m.arr m.i 0 }

pub pass-IsReady : {m : Machine} → IsReady m → IsReady (pass m)
pass-IsReady {m} r = record {
  table = r.table;
  hand = omega (arith, r.table.some_frame);
  marks = omega (arith, length-set m.arr m.i 0, r.marks);
}

pub custom_from_marked :
    (left : ℕ) (m : Machine) (page : ℕ)
    → get_or m.arr m.i 0 ≡ 1
    → custom_from (suc left) m page ≡ custom_from left (pass m) page
unfolding custom_from
custom_from_marked left m page h = ground arith

pub custom_from_free :
    (left : ℕ) (m : Machine) (page : ℕ)
    → get_or m.arr m.i 0 ≢ 1
    → custom_from (suc left) m page ≡ custom_replace m page
unfolding custom_from
custom_from_free left m page h = ground arith

-- Each round without a replacement clears a mark, so there are at most as many as marks.
pub custom_from_lem :
    (left : ℕ) (m : Machine) (page : ℕ)
    → IsReady m
    → page < m.pt.npages
    → count_ones m.arr < left
    → (m' : Machine) × (custom_from left m page ≡ returns m') × Served page m m'
custom_from_lem zero m page r hp h = absurd (omega arith)
custom_from_lem (suc left) m page r hp h = elim (eq-cases (get_or m.arr m.i 0) 1) [
  | inl marked ↦
      let (m', run, s) =
        custom_from_lem left (pass m) page (pass-IsReady r) hp
          (omega (arith, count_ones-set m.arr m.i marked)) in
      (
        m',
        custom_from_marked left m page marked ∙ run,
        record {
          frame = s.frame;
          exists = s.exists;
          loaded = s.loaded;
          ready = s.ready;
          counted = s.counted;
          same_mode = s.same_mode;
        },
      )
  | inr free ↦
      let (m', run, s) = custom_replace_lem r page hp in
      (m', custom_from_free left m page free ∙ run, s)
]

module _ (random : ℕ) (m : Machine) (page : ℕ) where
  handler-rand : m.mode ≡ rand → page_fault_handler random m page ≡ rand_fault m page random
  unfolding page_fault_handler
  handler-rand e = ground arith

  pub handler-fifo : m.mode ≡ fifo → page_fault_handler random m page ≡ fifo_fault m page
  unfolding page_fault_handler
  handler-fifo e = ground arith

  pub handler-custom :
      m.mode ≡ custom → page_fault_handler random m page ≡ custom_from (m.pt.nframes * 2) m page
  unfolding page_fault_handler
  handler-custom e = ground arith

-- In each of the three modes the handler returns, the requested page is readable and writable in a
-- frame of the memory, no frame has two pages, and one fault is counted. The search of the second
-- chance policy always ends within its `2 * nframes` rounds.
pub page_fault_handler_serves :
    (random : ℕ) {m : Machine} (page : ℕ)
    → IsReady m
    → m.mode ≢ unset
    → page < m.pt.npages
    → (m' : Machine) × (page_fault_handler random m page ≡ returns m') × Served page m m'
page_fault_handler_serves random {m} page r known hp = by_mode m.mode refl
  where
    by_mode :
        (k : Mode)
        → m.mode ≡ k
        → (m' : Machine) × (page_fault_handler random m page ≡ returns m') × Served page m m'
    by_mode unset e = absurd (known e)
    by_mode rand e =
        let (m', run, s) = rand_fault_lem r page hp random in
        (m', handler-rand random m page e ∙ run, s)
    by_mode fifo e =
        let (m', run, s) = fifo_fault_lem r page hp in (m', handler-fifo random m page e ∙ run, s)
    by_mode custom e =
        let (m', run, s) =
          custom_from_lem (m.pt.nframes * 2) m page r hp
            (omega (arith, count_ones-le-length m.arr, r.marks, r.table.some_frame)) in
        (m', handler-custom random m page e ∙ run, s)
