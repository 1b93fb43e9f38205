-- ===== src/VirtualMemory/SecondChance.antt =====
-- The second chance policy of Assignment6/vm_assignment/main.c marks a frame only when it replaces
-- it, so it replaces the frames in the order of the FIFO policy.
use cs232_operating_systems.Common.{
  ℕ, zero, suc, ◌+◌, ◌-◌, ◌*◌, ◌%◌, ◌≡◌, ◌<◌, refl, sym, ◌∙◌, ap, ap₂, arith, length-set, ltb,
  if◌then◌else◌, get_or, set, returns, inl, inr, lt-cases, ◌⊎◌,
}
use native.Mathlib.Nat.{mod-eq_of_lt}
use cs232_operating_systems.VirtualMemory.PageTable.{PageTable}
use cs232_operating_systems.VirtualMemory.PageTable.Entries.{get_or-set}
use cs232_operating_systems.VirtualMemory.Handler.{
  fifo, custom, Machine, custom_replace, custom_from, page_fault_handler, replace_page,
}
use cs232_operating_systems.VirtualMemory.Replacement.{IsValid, replace_page_lem, IsLoaded-IsValid}
use cs232_operating_systems.VirtualMemory.Service.{
  IsReady, replaced, fifo_run, IsReady-after, pass, pass-IsReady, custom_from_marked,
  custom_from_free, handler-fifo, handler-custom,
}

-- The frames behind the hand are marked, the others are not; or the hand is at the first frame and
-- all are marked.
abbrev pub IsSwept : Machine → Type 0
IsSwept m =
    ((f : ℕ) → f < m.pt.nframes → get_or m.arr f 0 ≡ (if ltb f m.i then 1 else 0))
    ⊎ ((m.i ≡ 0) × ((f : ℕ) → f < m.pt.nframes → get_or m.arr f 0 ≡ 1))

-- The same table, hand and count under the two policies.
pub record Alike (mf mc : Machine) : Type 0 where
  pub is_fifo : mf.mode ≡ fifo
  pub is_custom : mc.mode ≡ custom
  pub tables : mf.pt ≡ mc.pt
  pub hands : mf.i ≡ mc.i
  pub counts : mf.page_faults ≡ mc.page_faults
  pub ready_fifo : IsReady mf
  pub ready : IsReady mc
  pub swept : IsSwept mc

-- The hand steps to the next frame, and from the last to the first.
next_inside : (i n : ℕ) → i + 1 < n → (i + 1) % n ≡ i + 1
next_inside i n h = mod-eq_of_lt h

next_around : (i n : ℕ) → i + 1 ≡ n → (i + 1) % n ≡ 0
next_around i n e = grind arith

abbrev IsFront : Machine → Type 0
IsFront m = (f : ℕ) → f < m.pt.nframes → get_or m.arr f 0 ≡ (if ltb f m.i then 1 else 0)

-- A state that differs only in the marks: those of the frames before the hand.
record IsSettled (m m' : Machine) : Type 0 where
  same_pt : m'.pt ≡ m.pt
  same_mode : m'.mode ≡ m.mode
  same_count : m'.page_faults ≡ m.page_faults
  ready : IsReady m'
  front : IsFront m'

-- `d + 1` rounds from the frame `nframes - (d + 1)` on clear the marks up to the last frame.
sweep :
    (d left : ℕ) (m : Machine) (page : ℕ)
    → IsReady m
    → m.i + suc d ≡ m.pt.nframes
    → ((f : ℕ) → f < m.pt.nframes → get_or m.arr f 0 ≡ (if ltb f m.i then 0 else 1))
    → (m' : Machine) × (custom_from (suc (d + left)) m page ≡ custom_from left m' page)
      × (m'.i ≡ 0)
      × IsSettled m m'
sweep zero left m page r e marks = (
  pass m,
  custom_from_marked _ m page (ground (arith, marks m.i))
      ∙ ap (λ k. custom_from k (pass m) page) (omega arith),
  next_around m.i m.pt.nframes e,
  record {
    same_pt = refl;
    same_mode = refl;
    same_count = refl;
    ready = pass-IsReady r;
    front = λ f h. ground (
      arith,
      next_around m.i m.pt.nframes e,
      marks f h,
      get_or-set m.arr m.i f 0,
      r.marks,
      r.hand,
    );
  },
)
sweep (suc d) left m page r e marks =
    let step : (m.i + 1) % m.pt.nframes ≡ m.i + 1 = next_inside m.i m.pt.nframes (omega arith) in
    let (m', run, zeroed, c) =
      sweep d left (pass m) page (pass-IsReady r) (omega arith)
        (λ f h. ground (arith, marks f h, get_or-set m.arr m.i f 0, r.marks, r.hand)) in
    (
      m',
      custom_from_marked _ m page (ground (arith, marks m.i))
          ∙ ap (λ k. custom_from k (pass m) page) (omega arith)
          ∙ run,
      zeroed,
      record {
        same_pt = c.same_pt;
        same_mode = c.same_mode;
        same_count = c.same_count;
        ready = c.ready;
        front = c.front;
      },
    )

-- The search ends at the frame where the hand stood.
settle :
    (m : Machine) (page : ℕ)
    → IsReady m
    → IsSwept m
    → (m' : Machine) × (custom_from (m.pt.nframes * 2) m page ≡ custom_replace m' page)
      × (m'.i ≡ m.i)
      × IsSettled m m'
settle m page r (inl front) = (
  m,
  ap (λ k. custom_from k m page) (omega (arith, r.table.some_frame))
      ∙ custom_from_free (m.pt.nframes * 2 - 1) m page (ground (arith, front m.i, r.hand)),
  refl,
  record { same_pt = refl; same_mode = refl; same_count = refl; ready = r; front = front },
)
settle m page r (inr (zero_hand, all)) =
    let n = m.pt.nframes in
    let (m', run, zeroed, c) =
      sweep (n - 1) n m page r (omega (arith, r.table.some_frame))
        (λ f h. ground (arith, all f h)) in
    (
      m',
      ap (λ k. custom_from k m page) (omega (arith, r.table.some_frame))
          ∙ run
          ∙ ap (λ k. custom_from k m' page) (omega (arith, r.table.some_frame))
          ∙ custom_from_free (n - 1) m' page (ground (arith, c.front m'.i, c.ready.hand)),
      zeroed ∙ sym zero_hand,
      c,
    )

custom_run :
    (m : Machine) (page : ℕ) (pt' : PageTable)
    → replace_page m.pt page m.i ≡ returns pt'
    → custom_replace m page ≡ returns (replaced m pt' (set m.arr m.i 1))
unfolding custom_replace
custom_run m page pt' h = rw h

-- The mark set at the hand keeps the sweep.
IsSwept-after :
    (m : Machine) (pt' : PageTable)
    → IsReady m
    → IsFront m
    → pt'.nframes ≡ m.pt.nframes
    → IsSwept (replaced m pt' (set m.arr m.i 1))
IsSwept-after m pt' r front e = elim (lt-cases (m.i + 1) m.pt.nframes) [
  | inl inside ↦ inl (λ f h. ground (
    arith,
    front f,
    next_inside m.i m.pt.nframes inside,
    get_or-set m.arr m.i f 1,
    r.marks,
    r.hand,
  ))
  | inr last ↦ inr (
    next_around m.i m.pt.nframes (omega (arith, r.hand)),
    λ f h. ground (arith, front f, get_or-set m.arr m.i f 1, r.marks, r.hand),
  )
]

-- On a fault the two policies replace the same page, and stay alike.
pub custom-eq-fifo :
    (random : ℕ) {mf mc : Machine} (page : ℕ)
    → Alike mf mc
    → page < mc.pt.npages
    → (mf' : Machine) × (mc' : Machine) × (page_fault_handler random mf page ≡ returns mf')
      × (page_fault_handler random mc page ≡ returns mc')
      × Alike mf' mc'
custom-eq-fifo random {mf} {mc} page a hp =
    let (m', found, hand, c) = settle mc page a.ready a.swept in
    let hp' : page < m'.pt.npages = ground (arith, c.same_pt) in
    let (pt', run, l) = replace_page_lem page m'.i c.ready.table hp' c.ready.hand in
    let valid : IsValid pt' = IsLoaded-IsValid c.ready.table c.ready.hand l in
    let same : replace_page mf.pt page mf.i ≡ returns pt' =
      ap₂ (λ t i. replace_page t page i) (a.tables ∙ sym c.same_pt) (a.hands ∙ sym hand) ∙ run in
    (
      replaced mf pt' mf.arr,
      replaced m' pt' (set m'.arr m'.i 1),
      handler-fifo random mf page a.is_fifo ∙ fifo_run mf page pt' same,
      handler-custom random mc page a.is_custom ∙ found ∙ custom_run m' page pt' run,
      record {
        is_fifo = a.is_fifo;
        is_custom = c.same_mode ∙ a.is_custom;
        tables = refl;
        hands = ap₂ (λ i t. (i + 1) % t.nframes) (a.hands ∙ sym hand) (a.tables ∙ sym c.same_pt);
        counts = ap (λ k. k + 1) (a.counts ∙ sym c.same_count);
        ready_fifo =
            IsReady-after mf pt' mf.arr a.ready_fifo a.ready_fifo.marks valid
              (ground (arith, l.same_frames, c.same_pt, a.tables));
        ready =
            IsReady-after m' pt' (set m'.arr m'.i 1) c.ready
              (omega (arith, length-set m'.arr m'.i 1, c.ready.marks)) valid l.same_frames;
        swept = IsSwept-after m' pt' c.ready c.front l.same_frames;
      },
    )
