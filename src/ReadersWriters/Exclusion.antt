-- ===== src/ReadersWriters/Exclusion.antt =====
-- The lock of Assignment4/ReaWri.c excludes: one writer at a time, and no reader beside it.
use cs232_operating_systems.Common.{
  ℕ, ◌+◌, ◌≡◌, ◌≢◌, ◌≤◌, ◌<◌, refl, arith, ap, weigh, weigh-assign, weight-le-weigh,
  weights-le-weigh, assign, eq-cases, inl, inr,
}
use cs232_operating_systems.ReadersWriters.{
  IsStart, IsStart-empty, Pc, r_idle, r_blocked, r_woken, entered, holding, w_idle, w_blocked,
  w_woken, writing, written, System, Move, read_enter, read_block, read_again, read_wake, read_data,
  read_leave, write_enter, write_block, write_again, write_wake, write_data, write_leave, Step,
  move, spurious_read, spurious_write, IsRole, reader, writer, Reach, here, next,
}
use cs232_operating_systems.ReadersWriters.Counting.{
  reads, writes, waits, Signal-weigh, Signal4-weigh, Signal-other, Signal4-other, start-weigh,
}

pub record Inv (n : ℕ) (s : System) : Type 0 where
  pub readers : s.lock.readers ≡ weigh reads s.pc n
  pub writers : s.lock.writers ≡ weigh writes s.pc n
  pub waiting : s.lock.waiting ≡ weigh waits s.pc n
  pub one_writer : s.lock.writers ≤ 1
  pub apart : 0 < s.lock.writers → s.lock.readers ≡ 0
  pub current : (i d : ℕ) → i < n → s.pc i ≡ holding d → s.value ≡ d

module _ {n : ℕ} {s : System} (inv : Inv n s) (i : ℕ) (hi : i < n) where
  open inv use {readers, writers, waiting, one_writer, apart, current}

  -- The counts after thread `i` goes to `p`.
  pub record Counts (p : Pc) : Type 0 where
    pub r : reads (s.pc i) + weigh reads (assign s.pc i p) n ≡ reads p + s.lock.readers
    pub w : writes (s.pc i) + weigh writes (assign s.pc i p) n ≡ writes p + s.lock.writers
    pub q : waits (s.pc i) + weigh waits (assign s.pc i p) n ≡ waits p + s.lock.waiting
    pub r_in : reads (s.pc i) ≤ s.lock.readers
    pub w_in : writes (s.pc i) ≤ s.lock.writers
    pub q_in : waits (s.pc i) ≤ s.lock.waiting

  pub counts : (p : Pc) → Counts p
  counts p = record {
    r = omega (arith, weigh-assign reads s.pc i p n hi, readers);
    w = omega (arith, weigh-assign writes s.pc i p n hi, writers);
    q = omega (arith, weigh-assign waits s.pc i p n hi, waiting);
    r_in = omega (arith, weight-le-weigh reads s.pc n i hi, readers);
    w_in = omega (arith, weight-le-weigh writes s.pc n i hi, writers);
    q_in = omega (arith, weight-le-weigh waits s.pc n i hi, waiting);
  }

  -- A thread that moves to a place where it holds no value leaves the others' values.
  others_current :
      (p : Pc)
      → ((d : ℕ) → p ≢ holding d)
      → (k d : ℕ) → k < n
      → assign s.pc i p k ≡ holding d
      → s.value ≡ d
  others_current p plain k d hk e = elim (eq-cases k i) [
    | inl same ↦ absurd (plain d (ground arith))
    | inr ne ↦ current k d hk (ground arith)
  ]

  -- A reader holds no value while a thread writes.
  none_held : 0 < s.lock.writers → (k d : ℕ) → k < n → s.pc k ≢ holding d
  none_held h k d hk e =
      let one : reads (s.pc k) ≡ 1 = ap reads e in
      absurd (omega (arith, one, weight-le-weigh reads s.pc n k hk, readers, apart h))

  pub Move-Inv : {t : System} → Move n s i t → Inv n t
  Move-Inv (read_enter e w0 q0) =
      let c = counts entered in
      record {
        readers = ground (arith, c.r);
        writers = ground (arith, c.w);
        waiting = ground (arith, c.q);
        one_writer = one_writer;
        apart = λ h. absurd (omega arith);
        current = others_current entered (λ d h. cc);
      }
  Move-Inv (read_block e busy) =
      let c = counts r_blocked in
      record {
        readers = ground (arith, c.r);
        writers = ground (arith, c.w);
        waiting = ground (arith, c.q);
        one_writer = one_writer;
        apart = apart;
        current = others_current r_blocked (λ d h. cc);
      }
  Move-Inv (read_again e busy) =
      let c = counts r_blocked in
      record {
        readers = ground (arith, c.r);
        writers = ground (arith, c.w);
        waiting = ground (arith, c.q);
        one_writer = one_writer;
        apart = apart;
        current = others_current r_blocked (λ d h. cc);
      }
  Move-Inv (read_wake e w0) =
      let c = counts entered in
      record {
        readers = ground (arith, c.r);
        writers = ground (arith, c.w);
        waiting = ground (arith, c.q);
        one_writer = one_writer;
        apart = λ h. absurd (omega arith);
        current = others_current entered (λ d h. cc);
      }
  Move-Inv (read_data e) =
      let c = counts (holding s.value) in
      record {
        readers = ground (arith, c.r);
        writers = ground (arith, c.w);
        waiting = ground (arith, c.q);
        one_writer = one_writer;
        apart = apart;
        current = λ k d hk held. elim (eq-cases k i) [
          | inl same ↦ ground arith
          | inr ne ↦ current k d hk (ground arith)
        ];
      }
  Move-Inv (read_leave e sig) =
      let c = counts r_idle in
      record {
        readers = ground (arith, c.r, Signal-weigh reads refl sig);
        writers = ground (arith, c.w, Signal-weigh writes refl sig);
        waiting = ground (arith, c.q, Signal-weigh waits refl sig);
        one_writer = one_writer;
        apart = λ h. omega (arith, apart h);
        current = λ k d hk held.
            others_current r_idle (λ d h. cc) k d hk (Signal-other k sig held (λ h. cc));
      }
  Move-Inv (write_enter e r0 w0) =
      let c = counts writing in
      record {
        readers = ground (arith, c.r);
        writers = ground (arith, c.w);
        waiting = ground (arith, c.q);
        one_writer = ground arith;
        apart = λ h. r0;
        current = others_current writing (λ d h. cc);
      }
  Move-Inv (write_block e busy) =
      let c = counts w_blocked in
      record {
        readers = ground (arith, c.r);
        writers = ground (arith, c.w);
        waiting = ground (arith, c.q);
        one_writer = one_writer;
        apart = apart;
        current = others_current w_blocked (λ d h. cc);
      }
  Move-Inv (write_again e busy) =
      let c = counts w_blocked in
      record {
        readers = ground (arith, c.r);
        writers = ground (arith, c.w);
        waiting = ground (arith, c.q);
        one_writer = one_writer;
        apart = apart;
        current = others_current w_blocked (λ d h. cc);
      }
  Move-Inv (write_wake e r0 w0) =
      let c = counts writing in
      record {
        readers = ground (arith, c.r);
        writers = ground (arith, c.w);
        waiting = ground (arith, c.q);
        one_writer = ground arith;
        apart = λ h. r0;
        current = others_current writing (λ d h. cc);
      }
  Move-Inv (write_data v e) =
      let c = counts written in
      record {
        readers = ground (arith, c.r);
        writers = ground (arith, c.w);
        waiting = ground (arith, c.q);
        one_writer = one_writer;
        apart = apart;
        current = λ k d hk held. elim (eq-cases k i) [
          | inl same ↦ absurd (ground arith)
          | inr ne ↦ absurd (none_held (ground (arith, c.w_in)) k d hk (ground arith))
        ];
      }
  Move-Inv (write_leave e sig) =
      let c = counts w_idle in
      record {
        readers = ground (arith, c.r, Signal4-weigh reads refl sig);
        writers = ground (arith, c.w, Signal4-weigh writes refl sig);
        waiting = ground (arith, c.q, Signal4-weigh waits refl sig);
        one_writer = omega (arith, one_writer);
        apart = λ h. absurd (omega (arith, one_writer));
        current = λ k d hk held.
            others_current w_idle (λ d h. cc) k d hk (Signal4-other k sig held (λ h. cc));
      }

spurious-Inv :
    {n : ℕ} {s : System} (i : ℕ) (from to : Pc)
    → Inv n s
    → i < n
    → s.pc i ≡ from
    → reads from ≡ reads to
    → writes from ≡ writes to
    → waits from ≡ waits to
    → ((d : ℕ) → to ≢ holding d)
    → Inv n (record s { pc = assign s.pc i to })
spurious-Inv {n} {s} i from to inv hi e r w q plain =
    let c = counts inv i hi to in
    record {
      readers = omega (arith, c.r, ap reads e);
      writers = omega (arith, c.w, ap writes e);
      waiting = omega (arith, c.q, ap waits e);
      one_writer = inv.one_writer;
      apart = inv.apart;
      current = others_current inv i hi to plain;
    }

pub Step-Inv : {n : ℕ} {s t : System} → Inv n s → Step n s t → Inv n t
Step-Inv inv (move i hi m) = Move-Inv inv i hi m
Step-Inv inv (spurious_read i hi e) =
    spurious-Inv i r_blocked r_woken inv hi e refl refl refl (λ d h. cc)
Step-Inv inv (spurious_write i hi e) =
    spurious-Inv i w_blocked w_woken inv hi e refl refl refl (λ d h. cc)

role_plain : {p : Pc} → IsRole p → (d : ℕ) → p ≢ holding d
role_plain reader d e = cc
role_plain writer d e = cc

pub Reach-Inv : {n : ℕ} {s₀ s : System} → IsStart s₀ → Reach n s₀ s → Inv n s
Reach-Inv {n} st here = record {
  readers = ground (arith, IsStart-empty st, start-weigh reads n st refl refl);
  writers = ground (arith, IsStart-empty st, start-weigh writes n st refl refl);
  waiting = ground (arith, IsStart-empty st, start-weigh waits n st refl refl);
  one_writer = ground (arith, IsStart-empty st);
  apart = λ h. ground (arith, IsStart-empty st);
  current = λ i d h e. absurd (role_plain (st.roles i) d e);
}
Reach-Inv st (next r m) = Step-Inv (Reach-Inv st r) m

-- In every reachable state, with any number of readers and writers: two threads that both have the
-- lock to write are one thread, and no thread has it to read while one has it to write.
pub exclusion :
    {n : ℕ} {s₀ s : System}
    → IsStart s₀
    → Reach n s₀ s
    → (i j : ℕ) → i < n
    → j < n
    → writes (s.pc i) ≡ 1
    → ((writes (s.pc j) ≡ 1) → i ≡ j) × (reads (s.pc j) ≡ 0)
exclusion {n} {s = s} st r i j hi hj e = (
  λ f. elim (eq-cases i j) [
    | inl same ↦ same
    | inr ne ↦
        absurd (omega (arith, weights-le-weigh writes s.pc n i j hi hj ne, writers, one_writer))
  ],
  omega (
    arith,
    weight-le-weigh writes s.pc n i hi,
    weight-le-weigh reads s.pc n j hj,
    writers,
    readers,
    apart,
  ),
)
  where
    open (Reach-Inv st r) use {readers, writers, one_writer, apart}

-- In every reachable state the value that a reader has copied is still the value of `data`, until
-- the reader gives the lock back.
pub read_stays_current :
    {n : ℕ} {s₀ s : System}
    → IsStart s₀
    → Reach n s₀ s
    → (i d : ℕ) → i < n
    → s.pc i ≡ holding d
    → s.value ≡ d
read_stays_current st r = (Reach-Inv st r).current

-- In every reachable state the counters of the lock are the numbers of the threads that have it to
-- read, that have it to write, and that wait to write; so `readers--`, `writers--` and `waiting--`
-- never run on 0.
pub counters :
    {n : ℕ} {s₀ s : System}
    → IsStart s₀
    → Reach n s₀ s
    → (s.lock.readers ≡ weigh reads s.pc n)
      × (s.lock.writers ≡ weigh writes s.pc n)
      × (s.lock.waiting ≡ weigh waits s.pc n)
      × ((i : ℕ)
          → i < n
          → (reads (s.pc i) ≤ s.lock.readers)
            × (writes (s.pc i) ≤ s.lock.writers)
            × (waits (s.pc i) ≤ s.lock.waiting))
counters {n} {s = s} st r = (
  inv.readers,
  inv.writers,
  inv.waiting,
  λ i h. let c = counts inv i h (s.pc i) in (c.r_in, c.w_in, c.q_in),
)
  where
    inv : Inv n s
    inv = Reach-Inv st r
