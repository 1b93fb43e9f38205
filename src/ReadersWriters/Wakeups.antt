-- ===== src/ReadersWriters/Wakeups.antt =====
-- With one writer and at most four readers, as `main` of Assignment4/ReaWri.c starts them, the
-- signals of `readunlock` and `writeunlock` reach every thread that waits.
use cs232_operating_systems.Common.{
  ℕ, ◌+◌, ◌≡◌, ◌≤◌, ◌<◌, refl, arith, ap, weigh, weigh-assign, weight-le-weigh, assign,
}
use cs232_operating_systems.ReadersWriters.{
  Pc, r_idle, r_blocked, r_woken, entered, holding, w_idle, w_blocked, w_woken, writing, written,
  System, Move, read_enter, read_block, read_again, read_wake, read_data, read_leave, write_enter,
  write_block, write_again, write_wake, write_data, write_leave, Step, move, spurious_read,
  spurious_write, IsStart, IsStart-empty, Reach, here, next,
}
use cs232_operating_systems.ReadersWriters.Counting.{Signal-weigh, Signal4-weigh, start-weigh}
use cs232_operating_systems.ReadersWriters.Exclusion.{Inv, Counts, counts, Reach-Inv}
use cs232_operating_systems.ReadersWriters.Sleepers.{
  is_reader, idles, reader_sleeps, writer_sleeps, writer_woken, Signal-sleeps, only_w_blocked,
  Signal4-sleeps, sleeping-readers-le, sleeping-writers-le,
}

-- A reader sleeps only while a writer has or wants the lock, a writer only while a reader has it.
pub record Awake (n : ℕ) (s : System) : Type 0 where
  pub one_writer : s.lock.writers + s.lock.waiting + weigh idles s.pc n ≤ 1
  pub few_readers : weigh is_reader s.pc n ≤ 4
  pub reader_sleep : 0 < weigh reader_sleeps s.pc n → 0 < s.lock.writers + s.lock.waiting
  pub writer_sleep : 0 < weigh writer_sleeps s.pc n → 0 < s.lock.readers

module _ {n : ℕ} {s : System} (inv : Inv n s) (aw : Awake n s) (i : ℕ) (hi : i < n) where
  open aw use {one_writer, few_readers, reader_sleep, writer_sleep}

  record Sleeps (p : Pc) : Type 0 where
    base : Counts inv i hi p
    idle : idles (s.pc i) + weigh idles (assign s.pc i p) n ≡ idles p + weigh idles s.pc n
    idle_in : idles (s.pc i) ≤ weigh idles s.pc n
    all :
        is_reader (s.pc i) + weigh is_reader (assign s.pc i p) n
        ≡ is_reader p + weigh is_reader s.pc n
    rs :
        reader_sleeps (s.pc i) + weigh reader_sleeps (assign s.pc i p) n
        ≡ reader_sleeps p + weigh reader_sleeps s.pc n
    ws :
        writer_sleeps (s.pc i) + weigh writer_sleeps (assign s.pc i p) n
        ≡ writer_sleeps p + weigh writer_sleeps s.pc n
    woken : writer_woken (s.pc i) ≤ weigh writer_woken s.pc n
    in_waits : weigh writer_sleeps s.pc n + weigh writer_woken s.pc n ≤ s.lock.waiting

  sleeps : (p : Pc) → Sleeps p
  sleeps p = record {
    base = counts inv i hi p;
    idle = weigh-assign idles s.pc i p n hi;
    idle_in = weight-le-weigh idles s.pc n i hi;
    all = weigh-assign is_reader s.pc i p n hi;
    rs = weigh-assign reader_sleeps s.pc i p n hi;
    ws = weigh-assign writer_sleeps s.pc i p n hi;
    woken = weight-le-weigh writer_woken s.pc n i hi;
    in_waits = omega (arith, sleeping-writers-le s.pc n, inv.waiting);
  }

  pub Move-Awake : {t : System} → Move n s i t → Awake n t
  Move-Awake (read_enter e w0 q0) =
      let c = sleeps entered in
      record {
        one_writer = ground (arith, c.base.w_in, c.base.q_in, c.idle, c.idle_in);
        few_readers = ground (arith, c.all);
        reader_sleep = λ h. ground (arith, c.rs, c.base.w_in, c.base.q_in);
        writer_sleep = λ h. ground (arith, c.ws, c.base.r_in);
      }
  Move-Awake (read_block e busy) =
      let c = sleeps r_blocked in
      record {
        one_writer = ground (arith, c.base.w_in, c.base.q_in, c.idle, c.idle_in);
        few_readers = ground (arith, c.all);
        reader_sleep = λ h. ground (arith, c.rs, c.base.w_in, c.base.q_in);
        writer_sleep = λ h. ground (arith, c.ws, c.base.r_in);
      }
  Move-Awake (read_again e busy) =
      let c = sleeps r_blocked in
      record {
        one_writer = ground (arith, c.base.w_in, c.base.q_in, c.idle, c.idle_in);
        few_readers = ground (arith, c.all);
        reader_sleep = λ h. ground (arith, c.rs, c.base.w_in, c.base.q_in);
        writer_sleep = λ h. ground (arith, c.ws, c.base.r_in);
      }
  Move-Awake (read_wake e w0) =
      let c = sleeps entered in
      record {
        one_writer = ground (arith, c.base.w_in, c.base.q_in, c.idle, c.idle_in);
        few_readers = ground (arith, c.all);
        reader_sleep = λ h. ground (arith, c.rs, c.base.w_in, c.base.q_in);
        writer_sleep = λ h. ground (arith, c.ws, c.base.r_in);
      }
  Move-Awake (read_data e) =
      let c = sleeps (holding s.value) in
      record {
        one_writer = ground (arith, c.base.w_in, c.base.q_in, c.idle, c.idle_in);
        few_readers = ground (arith, c.all);
        reader_sleep = λ h. ground (arith, c.rs, c.base.w_in, c.base.q_in);
        writer_sleep = λ h. ground (arith, c.ws, c.base.r_in);
      }
  Move-Awake (read_leave e sig) =
      let c = sleeps r_idle in
      record {
        one_writer =
            ground
              (arith, c.base.w_in, c.base.q_in, c.idle, c.idle_in, Signal-weigh idles refl sig);
        few_readers = ground (arith, c.all, Signal-weigh is_reader refl sig);
        reader_sleep = λ h. ground (arith, c.rs, Signal-weigh reader_sleeps refl sig);
        writer_sleep = λ h.
            ground
              (arith, c.ws, c.in_waits, Signal-sleeps writer_sleeps refl refl only_w_blocked sig);
      }
  Move-Awake (write_enter e r0 w0) =
      let c = sleeps writing in
      record {
        one_writer = ground (arith, c.base.w_in, c.base.q_in, c.idle, c.idle_in);
        few_readers = ground (arith, c.all);
        reader_sleep = λ h. ground (arith, c.rs);
        writer_sleep = λ h. ground (arith, c.ws, c.in_waits, c.idle_in);
      }
  Move-Awake (write_block e busy) =
      let c = sleeps w_blocked in
      record {
        one_writer = ground (arith, c.base.w_in, c.base.q_in, c.idle, c.idle_in);
        few_readers = ground (arith, c.all);
        reader_sleep = λ h. ground arith;
        writer_sleep = λ h. ground (arith, c.ws, c.idle_in);
      }
  Move-Awake (write_again e busy) =
      let c = sleeps w_blocked in
      record {
        one_writer = ground (arith, c.base.w_in, c.base.q_in, c.idle, c.idle_in);
        few_readers = ground (arith, c.all);
        reader_sleep = λ h. ground (arith, c.rs);
        writer_sleep = λ h. ground (arith, c.ws, c.base.q_in);
      }
  Move-Awake (write_wake e r0 w0) =
      let c = sleeps writing in
      record {
        one_writer = ground (arith, c.base.w_in, c.base.q_in, c.idle, c.idle_in);
        few_readers = ground (arith, c.all);
        reader_sleep = λ h. ground (arith, c.rs);
        writer_sleep = λ h. ground (arith, c.ws, c.in_waits, c.woken);
      }
  Move-Awake (write_data v e) =
      let c = sleeps written in
      record {
        one_writer = ground (arith, c.base.w_in, c.base.q_in, c.idle, c.idle_in);
        few_readers = ground (arith, c.all);
        reader_sleep = λ h. ground (arith, c.rs, c.base.w_in, c.base.q_in);
        writer_sleep = λ h. ground (arith, c.ws, c.base.r_in);
      }
  Move-Awake (write_leave e sig) =
      let c = sleeps w_idle in
      record {
        one_writer =
            ground
              (arith, c.base.w_in, c.base.q_in, c.idle, c.idle_in, Signal4-weigh idles refl sig);
        few_readers = ground (arith, c.all, Signal4-weigh is_reader refl sig);
        reader_sleep = λ h. ground (arith, c.rs, Signal4-sleeps sig, sleeping-readers-le s.pc n);
        writer_sleep = λ h.
            ground (arith, c.ws, c.in_waits, c.base.w_in, Signal4-weigh writer_sleeps refl sig);
      }

Step-Awake : {n : ℕ} {s t : System} → Inv n s → Awake n s → Step n s t → Awake n t
Step-Awake inv aw (move i hi m) = Move-Awake inv aw i hi m
Step-Awake inv aw (spurious_read i hi e) =
    let c = sleeps inv aw i hi r_woken in
    record {
      one_writer = ground (arith, c.idle, aw.one_writer);
      few_readers = ground (arith, c.all, aw.few_readers);
      reader_sleep = λ h. ground (arith, c.rs, aw.reader_sleep);
      writer_sleep = λ h. ground (arith, c.ws, aw.writer_sleep);
    }
Step-Awake inv aw (spurious_write i hi e) =
    let c = sleeps inv aw i hi w_woken in
    record {
      one_writer = ground (arith, c.idle, aw.one_writer);
      few_readers = ground (arith, c.all, aw.few_readers);
      reader_sleep = λ h. ground (arith, c.rs, aw.reader_sleep);
      writer_sleep = λ h. ground (arith, c.ws, aw.writer_sleep);
    }

-- The threads that `main` starts, or fewer.
pub record IsCrew (n : ℕ) (s : System) : Type 0 where
  pub begins : IsStart s
  pub writers_le : weigh idles s.pc n ≤ 1
  pub readers_le : weigh is_reader s.pc n ≤ 4

pub Reach-Awake : {n : ℕ} {s₀ s : System} → IsCrew n s₀ → Reach n s₀ s → Awake n s
Reach-Awake {n} crew here = record {
  one_writer = ground (arith, IsStart-empty crew.begins, crew.writers_le);
  few_readers = crew.readers_le;
  reader_sleep = λ h. absurd (omega (arith, start-weigh reader_sleeps n crew.begins refl refl));
  writer_sleep = λ h. absurd (omega (arith, start-weigh writer_sleeps n crew.begins refl refl));
}
Reach-Awake crew (next r m) = Step-Awake (Reach-Inv crew.begins r) (Reach-Awake crew r) m

-- With at most one writer and four readers, in every reachable state a reader sleeps only while the
-- writer has the lock or wants it, and the writer sleeps only while some reader has the lock: the
-- signals of `readunlock` and `writeunlock` leave no thread asleep.
pub no_lost_wakeup :
    {n : ℕ} {s₀ s : System}
    → IsCrew n s₀
    → Reach n s₀ s
    → (i : ℕ) → i < n
    → ((s.pc i ≡ r_blocked) → 0 < s.lock.writers + s.lock.waiting)
      × ((s.pc i ≡ w_blocked) → 0 < s.lock.readers)
no_lost_wakeup {n} {s = s} crew r i hi =
    let aw = Reach-Awake crew r in
    (
      λ e.
          aw.reader_sleep
            (omega (arith, ap reader_sleeps e, weight-le-weigh reader_sleeps s.pc n i hi)),
      λ e.
          aw.writer_sleep
            (omega (arith, ap writer_sleeps e, weight-le-weigh writer_sleeps s.pc n i hi)),
    )
