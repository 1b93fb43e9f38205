-- ===== src/VirtualMemory/Runs.antt =====
-- Programs that stay inside their virtual memory run to the end under each policy
-- (Assignment6/vm_assignment/main.c and page_table.c).
use cs232_operating_systems.Common.{
  ℕ, ◌+◌, ◌-◌, ◌*◌, ◌/◌, ◌^◌, ◌≡◌, ◌≢◌, ◌≤◌, ◌<◌, refl, sym, ◌∙◌, arith, false, List, [], ◌∷◌, ◌==◌,
  if◌then◌else◌, length, Outcome, returns, inl, inr, eq-cases, subst, aborts,
}
use cs232_operating_systems.Common.Int.{pos}
use cs232_operating_systems.VirtualMemory.PageTable.{
  PageTable, page_size, in_range, index, fault_page, internal_fault_handler,
}
use cs232_operating_systems.VirtualMemory.PageTable.Entries.{bits_of}
use cs232_operating_systems.VirtualMemory.Handler.{Machine, unset, page_fault_handler}
use cs232_operating_systems.VirtualMemory.Replacement.{IsResident}
use cs232_operating_systems.VirtualMemory.Service.{IsReady, page_fault_handler_serves}
use cs232_operating_systems.VirtualMemory.Access.{Access, is_mapped, touch, run, fault_page_inside}

abbrev pub page_of : PageTable → Access → ℕ
page_of pt a = (a.addr - pt.virtmem) / page_size

pub record IsInside (pt : PageTable) (a : Access) : Type 0 where
  pub above : pt.virtmem ≤ a.addr
  pub below : a.addr < pt.virtmem + pt.npages * page_size
  pub small : pt.npages < 2 ^ 31

abbrev pub AreInside : PageTable → List Access → Type 0
AreInside pt [] = Unit {0}
AreInside pt (a ∷ as') = IsInside pt a × AreInside pt as'

-- After an access: the page is resident, the memory has its size, and a fault was counted exactly
-- if the page was not resident before.
pub record Touched (m : Machine) (a : Access) (m' : Machine) : Type 0 where
  pub ready : IsReady m'
  pub same_mode : m'.mode ≡ m.mode
  pub same_base : m'.pt.virtmem ≡ m.pt.virtmem
  pub same_pages : m'.pt.npages ≡ m.pt.npages
  pub resident : IsResident m'.pt (page_of m.pt a)
  pub counted :
      m'.page_faults ≡ m.page_faults + (if bits_of m.pt (page_of m.pt a) == 0 then 1 else 0)

-- A fault on a page of the table goes to the handler.
fault_delivered {ℓ} :
    {S : Type ℓ} (pt : PageTable) (handler : ℕ → Outcome S) (addr page : ℕ)
    → fault_page pt.virtmem addr ≡ pos page
    → page < pt.npages
    → internal_fault_handler pt handler addr ≡ handler page
unfolding internal_fault_handler
fault_delivered pt handler addr page e h =
    subst (λ q. (if in_range q pt.npages then handler (index q) else aborts) ≡ handler page) (sym e)
      (ground arith)

module _ (m : Machine) (a : Access) (h : IsInside m.pt a) where
  pub page_in : page_of m.pt a < m.pt.npages
  page_in = omega (arith, h.above, h.below)

  pub touch_hit : bits_of m.pt (page_of m.pt a) ≢ 0 → touch m a ≡ returns m
  unfolding touch
  touch_hit b = ground (arith, h.above, h.below)

  fault_page_lem : fault_page m.pt.virtmem a.addr ≡ pos (page_of m.pt a)
  fault_page_lem =
      let e : a.addr ≡ m.pt.virtmem + (a.addr - m.pt.virtmem) = omega (arith, h.above) in
      subst (λ x. fault_page m.pt.virtmem x ≡ pos (page_of m.pt a)) (sym e)
        (fault_page_inside m.pt.virtmem (a.addr - m.pt.virtmem) m.pt.npages
          (omega (arith, h.below, h.above)) h.small)

  unmapped : bits_of m.pt (page_of m.pt a) ≡ 0 → is_mapped m.pt a.addr ≡ false
  unmapped b = ground arith

  pub touch_miss :
      bits_of m.pt (page_of m.pt a) ≡ 0 → touch m a ≡ page_fault_handler a.random m (page_of m.pt a)
  unfolding touch
  touch_miss b = rw (unmapped b) (
      fault_delivered m.pt (page_fault_handler a.random m) a.addr (page_of m.pt a) fault_page_lem
        page_in)

  -- The access succeeds: at most one fault, after which the page is resident.
  pub touch_serves :
      IsReady m → m.mode ≢ unset → (m' : Machine) × (touch m a ≡ returns m') × Touched m a m'
  touch_serves r known = elim (eq-cases (bits_of m.pt (page_of m.pt a)) 0) [
    | inl miss ↦
        let (m', served, s) = page_fault_handler_serves a.random (page_of m.pt a) r known page_in in
        (
          m',
          touch_miss miss ∙ served,
          record {
            ready = s.ready;
            same_mode = s.same_mode;
            same_base = s.loaded.same_base;
            same_pages = s.loaded.same_pages;
            resident = ground (arith, s.loaded.bits_at (page_of m.pt a));
            counted = ground (arith, s.counted);
          },
        )
    | inr hit ↦ (
      m,
      touch_hit hit,
      record {
        ready = r;
        same_mode = refl;
        same_base = refl;
        same_pages = refl;
        resident = hit;
        counted = ground arith;
      },
    )
  ]

pub AreInside-same :
    (pt pt' : PageTable) (as' : List Access)
    → pt'.virtmem ≡ pt.virtmem
    → pt'.npages ≡ pt.npages
    → AreInside pt as'
    → AreInside pt' as'
AreInside-same pt pt' [] b p h = tt
AreInside-same pt pt' (a ∷ as') b p h = (
  record { above = omega arith; below = omega arith; small = omega arith },
  AreInside-same pt pt' as' b p h.1,
)

-- The whole run.
pub record Finished (m : Machine) (as' : List Access) (m' : Machine) : Type 0 where
  pub ready : IsReady m'
  pub same_mode : m'.mode ≡ m.mode
  pub few : m'.page_faults ≤ m.page_faults + length as'
  pub more : m.page_faults ≤ m'.page_faults

-- Under each policy a program whose accesses lie inside the virtual memory runs to its end, in a
-- state ready for more, with at most one page fault for each access.
pub run_returns :
    {m : Machine} (as' : List Access)
    → IsReady m
    → m.mode ≢ unset
    → AreInside m.pt as'
    → (m' : Machine) × (run m as' ≡ returns m') × Finished m as' m'
unfolding run
run_returns {m} [] r known h =
    (m, refl, record { ready = r; same_mode = refl; few = omega arith; more = omega arith })
run_returns {m} (a ∷ as') r known h =
    let (m₁, one, t) = touch_serves m a h.0 r known in
    let (m₂, rest, f) =
      run_returns {m = m₁} as' t.ready (λ e. known (sym t.same_mode ∙ e))
        (AreInside-same m.pt m₁.pt as' t.same_base t.same_pages h.1) in
    (
      m₂,
      rw one rest,
      record {
        ready = f.ready;
        same_mode = f.same_mode ∙ t.same_mode;
        few = ground (arith, f.few, t.counted);
        more = ground (arith, f.more, t.counted);
      },
    )
