-- ===== src/VirtualMemory/Comparison.antt =====
-- Whole runs under the FIFO and the second chance policy of Assignment6/vm_assignment/main.c.
use cs232_operating_systems.Common.{
  ℕ, ◌≡◌, ◌<◌, refl, sym, ◌∙◌, ap, subst, arith, List, [], ◌∷◌, length, length-replicate,
  get_or-replicate, returns, returns-injective, ◌≢◌, inl, inr, eq-cases,
}
use cs232_operating_systems.VirtualMemory.PageTable.{PageTable, page_table_create}
use cs232_operating_systems.VirtualMemory.PageTable.Entries.{bits_of}
use cs232_operating_systems.VirtualMemory.Handler.{Mode, unset, fifo, custom, Machine, start}
use cs232_operating_systems.VirtualMemory.Replacement.{IsValid}
use cs232_operating_systems.VirtualMemory.Service.{IsReady}
use cs232_operating_systems.VirtualMemory.Access.{Access, touch, run}
use cs232_operating_systems.VirtualMemory.Runs.{
  page_of, IsInside, AreInside, Touched, touch_hit, touch_miss, page_in, touch_serves,
  AreInside-same,
}
use cs232_operating_systems.VirtualMemory.SecondChance.{Alike, custom-eq-fifo}

-- The table that `page_table_create` returns has no resident page, whatever `malloc` left in it.
pub page_table_create-IsValid :
    (base npages nframes : ℕ) (garbage : List ℕ)
    → 0 < nframes
    → length garbage ≡ npages
    → IsValid (page_table_create base npages nframes garbage)
unfolding page_table_create
page_table_create-IsValid base npages nframes garbage h e = record {
  sized = record { mapping = e; bits = length-replicate npages 0 };
  some_frame = h;
  usable = λ j r. absurd (r (get_or-replicate npages j 0));
  in_memory = λ j r. absurd (r (get_or-replicate npages j 0));
  exclusive = λ j k r _ _. absurd (r (get_or-replicate npages j 0));
}

pub start-IsReady : (mode : Mode) {pt : PageTable} → IsValid pt → IsReady (start mode pt)
unfolding start
start-IsReady mode {pt} v = record {
  table = v;
  hand = v.some_frame;
  marks = length-replicate pt.nframes 0;
}

start-Alike : (pt : PageTable) → IsValid pt → Alike (start fifo pt) (start custom pt)
unfolding start
start-Alike pt v = record {
  is_fifo = refl;
  is_custom = refl;
  tables = refl;
  hands = refl;
  counts = refl;
  ready_fifo = start-IsReady fifo v;
  ready = start-IsReady custom v;
  swept = inl (λ f h. ground (arith, get_or-replicate {A = ℕ} pt.nframes f 0));
}

custom≢unset : custom ≢ unset
custom≢unset e = cc

-- One access, under both policies.
touch-Alike :
    {mf mc : Machine} (a : Access)
    → Alike mf mc
    → IsInside mc.pt a
    → (mf' : Machine) × (mc' : Machine) × (touch mf a ≡ returns mf')
      × (touch mc a ≡ returns mc')
      × Alike mf' mc'
touch-Alike {mf} {mc} a s h =
    let hf : IsInside mf.pt a = subst (λ t. IsInside t a) (sym s.tables) h in
    let same_page : page_of mf.pt a ≡ page_of mc.pt a = ap (λ t. page_of t a) s.tables in
    let same_bits : bits_of mf.pt (page_of mf.pt a) ≡ bits_of mc.pt (page_of mc.pt a) =
      ap (λ t. bits_of t (page_of t a)) s.tables in
    elim (eq-cases (bits_of mc.pt (page_of mc.pt a)) 0) [
      | inl miss ↦
          let (mf', mc', one, two, s') =
            custom-eq-fifo a.random {mf = mf} (page_of mc.pt a) s (page_in mc a h) in
          (
            mf',
            mc',
            touch_miss mf a hf (same_bits ∙ miss) ∙ rw same_page one,
            touch_miss mc a h miss ∙ two,
            s',
          )
      | inr hit ↦
          (mf, mc, touch_hit mf a hf (λ e. hit (sym same_bits ∙ e)), touch_hit mc a h hit, s)
    ]

Touched-eq :
    {m m' : Machine} (a : Access)
    → IsInside m.pt a
    → IsReady m
    → m.mode ≢ unset
    → touch m a ≡ returns m'
    → Touched m a m'
Touched-eq {m} {m'} a h r known e =
    let (m'', run, t) = touch_serves m a h r known in
    subst (Touched m a) (returns-injective (sym run ∙ e)) t

run-Alike :
    {mf mc : Machine} (as' : List Access)
    → Alike mf mc
    → AreInside mc.pt as'
    → (mf' : Machine) × (mc' : Machine) × (run mf as' ≡ returns mf')
      × (run mc as' ≡ returns mc')
      × Alike mf' mc'
unfolding run
run-Alike {mf} {mc} [] s h = (mf, mc, refl, refl, s)
run-Alike {mf} {mc} (a ∷ as') s h =
    let (mf₁, mc₁, one, two, s₁) = touch-Alike {mf = mf} a s h.0 in
    let t = Touched-eq a h.0 s.ready (λ e. custom≢unset (sym s.is_custom ∙ e)) two in
    let (mf₂, mc₂, more, more', s₂) =
      run-Alike {mf = mf₁} {mc = mc₁} as' s₁
        (AreInside-same mc.pt mc₁.pt as' t.same_base t.same_pages h.1) in
    (mf₂, mc₂, rw one more, rw two more', s₂)

-- On every program that stays inside the virtual memory the policies `fifo` and `custom` end with
-- the same page table and the same number of page faults.
pub second_chance-eq-fifo :
    (pt : PageTable) (as' : List Access)
    → IsValid pt
    → AreInside pt as'
    → (mf : Machine) × (mc : Machine) × (run (start fifo pt) as' ≡ returns mf)
      × (run (start custom pt) as' ≡ returns mc)
      × (mc.page_faults ≡ mf.page_faults)
      × (mc.pt ≡ mf.pt)
second_chance-eq-fifo pt as' v h =
    let (mf, mc, one, two, s) =
      run-Alike {mf = start fifo pt} {mc = start custom pt} as' (start-Alike pt v)
        (unfold start in h) in
    (mf, mc, one, two, sym s.counts, sym s.tables)
