-- ===== src/VirtualMemory/Fifo/Runs.antt =====
-- Whole runs in mode `fifo` (Assignment6/vm_assignment/main.c) against the queue.
use cs232_operating_systems.Common.{
  ℕ, zero, suc, ◌+◌, ◌%◌, ◌≡◌, ◌<◌, refl, ◌∙◌, ap, subst, ◌-◌, ◌/◌, arith, List, [], ◌∷◌, ◌==◌,
  true, map, not, if◌then◌else◌, length, get_or, inl, inr, lt-cases, eq-cases, Bool-cases, returns,
  lt→ltb, le→not-ltb,
}
use cs232_operating_systems.VirtualMemory.PageTable.{PageTable, page_size}
use cs232_operating_systems.VirtualMemory.PageTable.Entries.{bits_of}
use cs232_operating_systems.VirtualMemory.Handler.{Machine, fifo, start, page_fault_handler}
use cs232_operating_systems.VirtualMemory.Replacement.{
  IsResident, IsValid, IsLoaded, IsLoaded-IsValid, replace_page_lem,
}
use cs232_operating_systems.VirtualMemory.Service.{
  IsReady, replaced, fifo_run, IsReady-after, handler-fifo,
}
use cs232_operating_systems.VirtualMemory.Access.{Access, touch, run}
use cs232_operating_systems.VirtualMemory.Runs.{
  page_of, IsInside, AreInside, page_in, touch_hit, touch_miss,
}
use cs232_operating_systems.VirtualMemory.Comparison.{start-IsReady}
use cs232_operating_systems.VirtualMemory.Fifo.{Queue, contains, load, simulate}
use cs232_operating_systems.VirtualMemory.Fifo.Refine.{Represents, grow, turn}

contains-get_or : (q : Queue) (d : ℕ) → d < length q → contains q (get_or q d 0) ≡ true
contains-get_or [] d h = absurd (omega arith)
contains-get_or (x ∷ q) zero h = ground arith
contains-get_or (x ∷ q) (suc d) h = ground (arith, contains-get_or q d)

place_of_contains :
    (q : Queue) (p : ℕ) → contains q p ≡ true → (d : ℕ) × (d < length q) × (get_or q d 0 ≡ p)
place_of_contains [] p h = cc
place_of_contains (x ∷ q) p h = elim (eq-cases x p) [
  | inl e ↦ (0, omega arith, e)
  | inr ne ↦ let (d, k, e) = place_of_contains q p (ground arith) in (suc d, omega arith, e)
]

-- The queue holds exactly the pages whose bits are set.
contains-eq-resident :
    {pt : PageTable} {i : ℕ} {q : Queue} (p : ℕ)
    → Represents pt i q
    → contains q p ≡ not (bits_of pt p == 0)
contains-eq-resident {pt} {i} {q} p r = elim (Bool-cases (contains q p)) [
  | inl y ↦
      let (d, h, e) = place_of_contains q p y in
      let res : IsResident pt p = rw e at (r.resident d h) in ground arith
  | inr n ↦ elim (eq-cases (bits_of pt p) 0) [
    | inl z ↦ ground arith
    | inr res ↦ let (d, h, e) = r.complete p res in cc (contains-get_or q d h, ap (contains q) e)
  ]
]

load-Represents :
    {pt pt' : PageTable} {p i : ℕ} (q : Queue)
    → IsValid pt
    → i < pt.nframes
    → IsLoaded p i pt pt'
    → bits_of pt p ≡ 0
    → Represents pt i q
    → Represents pt' ((i + 1) % pt.nframes) (load pt.nframes q p)
unfolding load
load-Represents {pt} [] v hi l fresh r =
    rw (lt→ltb 0 pt.nframes v.some_frame) (grow l fresh r v.some_frame)
load-Represents {pt} (x ∷ q) v hi l fresh r = elim (lt-cases (suc (length q)) pt.nframes) [
  | inl room ↦ rw (lt→ltb (suc (length q)) pt.nframes room) (grow l fresh r room)
  | inr no_room ↦
      rw (le→not-ltb (suc (length q)) pt.nframes no_room)
        (turn l fresh v hi r (omega (arith, r.few)))
]

-- A machine in mode `fifo`, and the queue that it stands for.
record Simulates (m : Machine) (q : Queue) : Type 0 where
  is_fifo : m.mode ≡ fifo
  ready : IsReady m
  queue : Represents m.pt m.i q

record SameShape (pt₀ pt : PageTable) : Type 0 where
  base : pt.virtmem ≡ pt₀.virtmem
  pages : pt.npages ≡ pt₀.npages
  frames : pt.nframes ≡ pt₀.nframes

record Simulated (pt₀ : PageTable) (q : Queue) (k : ℕ) (m : Machine) : Type 0 where
  simulates : Simulates m q
  shape : SameShape pt₀ m.pt
  counted : m.page_faults ≡ k

fault-Simulated :
    (random : ℕ) {m : Machine} {pt₀ : PageTable} {q : Queue} {k : ℕ} (p : ℕ)
    → Simulated pt₀ q k m
    → p < m.pt.npages
    → bits_of m.pt p ≡ 0
    → (m' : Machine) × (page_fault_handler random m p ≡ returns m')
      × Simulated pt₀ (load pt₀.nframes q p) (k + 1) m'
fault-Simulated random {m} {pt₀} {q} {k} p s hp fresh =
    let (pt', ok, l) = replace_page_lem p m.i ready.table hp ready.hand in
    (
      replaced m pt' m.arr,
      handler-fifo random m p is_fifo ∙ fifo_run m p pt' ok,
      record {
        simulates = record {
          is_fifo = is_fifo;
          ready =
              IsReady-after m pt' m.arr ready ready.marks
                (IsLoaded-IsValid ready.table ready.hand l) l.same_frames;
          queue =
              subst (λ n. Represents pt' ((m.i + 1) % m.pt.nframes) (load n q p)) shape.frames
                (load-Represents q ready.table ready.hand l fresh queue);
        };
        shape = record {
          base = l.same_base ∙ shape.base;
          pages = l.same_pages ∙ shape.pages;
          frames = l.same_frames ∙ shape.frames;
        };
        counted = ap (λ x. x + 1) s.counted;
      },
    )
  where
    open s use {shape, simulates.{is_fifo, ready, queue}}

touch-Simulated :
    {m : Machine} {pt₀ : PageTable} {q : Queue} {k : ℕ} (a : Access)
    → Simulated pt₀ q k m
    → IsInside pt₀ a
    → let p = page_of pt₀ a in
      (m' : Machine) × (touch m a ≡ returns m')
      × Simulated pt₀
          (if contains q p then q else load pt₀.nframes q p)
          (if contains q p then k else k + 1)
          m'
touch-Simulated {m} {pt₀} {q} {k} a s h = elim (Bool-cases (contains q p)) [
  | inl hit ↦ (m, touch_hit m a inside (ground (arith, known)), rw hit s)
  | inr miss ↦
      let fresh : bits_of m.pt (page_of m.pt a) ≡ 0 = ground (arith, known) in
      let (m', one, s') = fault-Simulated a.random (page_of m.pt a) s (page_in m a inside) fresh in
      (
        m',
        touch_miss m a inside fresh ∙ one,
        rw miss (subst (λ x. Simulated pt₀ (load pt₀.nframes q x) (k + 1) m') same s'),
      )
]
  where
    p : ℕ
    p = page_of pt₀ a

    inside : IsInside m.pt a
    inside = record {
      above = omega (arith, s.shape.base, h.above);
      below = omega (arith, s.shape.base, s.shape.pages, h.below);
      small = omega (arith, s.shape.pages, h.small);
    }

    same : page_of m.pt a ≡ page_of pt₀ a
    same = ap (λ b. (a.addr - b) / page_size) s.shape.base

    known : contains q p ≡ not (bits_of m.pt (page_of m.pt a) == 0)
    known = rw (← same) (contains-eq-resident (page_of m.pt a) s.simulates.queue)

run-Simulated :
    {m : Machine} {pt₀ : PageTable} {q : Queue} {k : ℕ} (as' : List Access)
    → Simulated pt₀ q k m
    → AreInside pt₀ as'
    → let (q', misses) = simulate pt₀.nframes q k (map (page_of pt₀) as') in
      (m' : Machine) × (run m as' ≡ returns m') × Simulated pt₀ q' misses m'
unfolding run simulate
run-Simulated {m} [] s h = (m, refl, s)
run-Simulated {m} {pt₀} (a ∷ as') s h =
    let (m₁, one, s₁) = touch-Simulated a s h.0 in
    let (m₂, rest, s₂) = run-Simulated {m = m₁} {pt₀ = pt₀} as' s₁ h.1 in (m₂, rw one rest, s₂)

start-Simulated :
    (pt : PageTable) → IsValid pt → ((j : ℕ) → bits_of pt j ≡ 0) → Simulated pt [] 0 (start fifo pt)
unfolding start
start-Simulated pt v clear = record {
  simulates = record {
    is_fifo = refl;
    ready = start-IsReady fifo v;
    queue = record {
      few = omega arith;
      filling = λ h. refl;
      resident = λ d h. absurd (omega arith);
      held = λ d h. absurd (omega arith);
      complete = λ j r. absurd (r (clear j));
    };
  };
  shape = record { base = refl; pages = refl; frames = refl };
  counted = refl;
}

-- From a table with no resident page, every program that stays inside the virtual memory ends in
-- mode `fifo` with as many page faults as the queue of `nframes` pages has misses on the pages that
-- the program refers to, and the pages in the queue are exactly those that are resident.
pub run-eq-simulate :
    (pt : PageTable) (as' : List Access)
    → IsValid pt
    → ((j : ℕ) → bits_of pt j ≡ 0)
    → AreInside pt as'
    → let (q, misses) = simulate pt.nframes [] 0 (map (page_of pt) as') in
      (m : Machine) × (run (start fifo pt) as' ≡ returns m)
      × (m.page_faults ≡ misses)
      × ((p : ℕ) → contains q p ≡ not (bits_of m.pt p == 0))
run-eq-simulate pt as' v clear h =
    let (m, ok, s) = run-Simulated as' (start-Simulated pt v clear) h in
    (m, ok, s.counted, λ p. contains-eq-resident p s.simulates.queue)
