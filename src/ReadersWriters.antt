-- ===== src/ReadersWriters.antt =====
-- Assignment4/ReaWri.c: a lock for readers and writers from one mutex, two condition variables and
-- three counters, and the threads that use it. The functions touch the counters only between
-- `pthread_mutex_lock` and either `pthread_mutex_unlock` or `pthread_cond_wait`, so each stretch
-- of that kind is one step.
pub mod Counting
pub mod Exclusion
pub mod Sleepers
pub mod Wakeups
pub mod Progress
mod Tests
use cs232_operating_systems.Common.{
  ℕ, ◌+◌, ◌-◌, ◌≡◌, ◌≢◌, ◌<◌, assign, ◌⊎◌, Bool, true, false, Option, none, some, Outcome, returns,
  undefined,
}

-- The counters of `rwl`.
pub record Rwl : Type 0 where
  pub writers : ℕ
  pub readers : ℕ
  pub waiting : ℕ

abbrev pub empty_lock : Rwl
empty_lock = record { writers = 0; readers = 0; waiting = 0 }

-- `initlock`; the arguments say which of its four allocations succeed. The test after the last one
-- looks at `writeOK` again, so a null `readOK` reaches `pthread_cond_init`.
abbrev pub initlock : Bool → Bool → Bool → Bool → Outcome (Option Rwl)
initlock false _ _ _ = returns none
initlock true false _ _ = returns none
initlock true true false _ = returns none
initlock true true true false = undefined
initlock true true true true = returns (some empty_lock)

-- Where a thread stands.
pub data Pc : Type 0 where
  r_idle : Pc  -- before `readlock`
  r_blocked : Pc  -- in `pthread_cond_wait` of `readlock`
  r_woken : Pc  -- still there, signalled
  entered : Pc  -- `readlock` returned
  holding : ℕ → Pc  -- after `d = data`, before `readunlock`
  w_idle : Pc  -- before `writelock`
  w_blocked : Pc  -- in `pthread_cond_wait` of `writelock`
  w_woken : Pc
  writing : Pc  -- `writelock` returned
  written : Pc  -- after `data = i`, before `writeunlock`

pub record System : Type 0 where
  pub lock : Rwl
  pub value : ℕ  -- `data`
  pub pc : ℕ → Pc

-- `pthread_cond_signal` among `n` threads: one that is blocked at `at` goes on to `to`, or none is.
pub data Signal (n : ℕ) (at to : Pc) (pc : ℕ → Pc) : (ℕ → Pc) → Type 0 where
  wakes : (j : ℕ) → j < n → pc j ≡ at → Signal n at to pc (assign pc j to)
  nobody : ((j : ℕ) → j < n → pc j ≢ at) → Signal n at to pc pc

-- The four signals of `writeunlock`.
pub data Signal4 (n : ℕ) (pc : ℕ → Pc) : (ℕ → Pc) → Type 0 where
  four :
      {p₁ p₂ p₃ p₄ : ℕ → Pc}
      → Signal n r_blocked r_woken pc p₁
      → Signal n r_blocked r_woken p₁ p₂
      → Signal n r_blocked r_woken p₂ p₃
      → Signal n r_blocked r_woken p₃ p₄
      → Signal4 n pc p₄

-- A step of thread `i`.
pub data Move (n : ℕ) (s : System) (i : ℕ) : System → Type 0 where
  -- readlock
  read_enter :
      s.pc i ≡ r_idle
      → s.lock.writers ≡ 0
      → s.lock.waiting ≡ 0
      → Move n s i (record s {
        lock = record (s.lock) { readers = s.lock.readers + 1 };
        pc = assign s.pc i entered;
      })
  read_block :
      s.pc i ≡ r_idle
      → (s.lock.writers ≢ 0) ⊎ (s.lock.waiting ≢ 0)
      → Move n s i (record s { pc = assign s.pc i r_blocked })
  read_again :
      s.pc i ≡ r_woken → s.lock.writers ≢ 0 → Move n s i (record s { pc = assign s.pc i r_blocked })
  read_wake :
      s.pc i ≡ r_woken
      → s.lock.writers ≡ 0
      → Move n s i (record s {
        lock = record (s.lock) { readers = s.lock.readers + 1 };
        pc = assign s.pc i entered;
      })
  -- d = data
  read_data : s.pc i ≡ entered → Move n s i (record s { pc = assign s.pc i (holding s.value) })
  -- readunlock
  read_leave :
      {d : ℕ} {pc' : ℕ → Pc}
      → s.pc i ≡ holding d
      → Signal n w_blocked w_woken (assign s.pc i r_idle) pc'
      → Move n s i (record s { lock = record (s.lock) { readers = s.lock.readers - 1 }; pc = pc' })
  -- writelock; on the way through, `waiting` goes up and down again
  write_enter :
      s.pc i ≡ w_idle
      → s.lock.readers ≡ 0
      → s.lock.writers ≡ 0
      → Move n s i (record s {
        lock = record (s.lock) { writers = s.lock.writers + 1 };
        pc = assign s.pc i writing;
      })
  write_block :
      s.pc i ≡ w_idle
      → (s.lock.readers ≢ 0) ⊎ (s.lock.writers ≢ 0)
      → Move n s i (record s {
        lock = record (s.lock) { waiting = s.lock.waiting + 1 };
        pc = assign s.pc i w_blocked;
      })
  write_again :
      s.pc i ≡ w_woken
      → (s.lock.readers ≢ 0) ⊎ (s.lock.writers ≢ 0)
      → Move n s i (record s { pc = assign s.pc i w_blocked })
  write_wake :
      s.pc i ≡ w_woken
      → s.lock.readers ≡ 0
      → s.lock.writers ≡ 0
      → Move n s i (record s {
        lock = record (s.lock) { waiting = s.lock.waiting - 1; writers = s.lock.writers + 1 };
        pc = assign s.pc i writing;
      })
  -- data = v
  write_data :
      (v : ℕ) → s.pc i ≡ writing → Move n s i (record s { value = v; pc = assign s.pc i written })
  -- writeunlock
  write_leave :
      {pc' : ℕ → Pc}
      → s.pc i ≡ written
      → Signal4 n (assign s.pc i w_idle) pc'
      → Move n s i (record s { lock = record (s.lock) { writers = s.lock.writers - 1 }; pc = pc' })

-- A step of the program. `pthread_cond_wait` may also return with no signal.
pub data Step (n : ℕ) (s : System) : System → Type 0 where
  move : (i : ℕ) {t : System} → i < n → Move n s i t → Step n s t
  spurious_read :
      (i : ℕ) → i < n → s.pc i ≡ r_blocked → Step n s (record s { pc = assign s.pc i r_woken })
  spurious_write :
      (i : ℕ) → i < n → s.pc i ≡ w_blocked → Step n s (record s { pc = assign s.pc i w_woken })

-- The threads start before `readlock` or `writelock`, with `data` 1.
pub data IsRole : Pc → Type 0 where
  reader : IsRole r_idle
  writer : IsRole w_idle

pub record IsStart (s : System) : Type 0 where
  pub fresh : initlock true true true true ≡ returns (some s.lock)
  pub one : s.value ≡ 1
  pub roles : (i : ℕ) → IsRole (s.pc i)

pub IsStart-empty : {s : System} → IsStart s → s.lock ≡ empty_lock
IsStart-empty st = cc (st.fresh)

pub data Reach (n : ℕ) (s₀ : System) : System → Type 0 where
  here : Reach n s₀ s₀
  next : {s t : System} → Reach n s₀ s → Step n s t → Reach n s₀ t
