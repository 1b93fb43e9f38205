-- ===== src/ReadersWriters/Counting.antt =====
-- The counters of Assignment4/ReaWri.c count threads: those that read, those that write, and those
-- that wait to write.
use cs232_operating_systems.Common.{
  ℕ, ◌≡◌, ◌≢◌, refl, arith, ◌∙◌, ap, weigh, weigh-assign, weigh-eq-zero, eq-cases, inl, inr,
}
use cs232_operating_systems.ReadersWriters.{
  Pc, r_idle, r_blocked, r_woken, entered, holding, w_idle, w_blocked, w_woken, writing, written,
  System, Signal, wakes, nobody, Signal4, four, IsRole, reader, writer, IsStart,
}

abbrev pub reads : Pc → ℕ
reads entered = 1
reads (holding _) = 1
reads _ = 0

abbrev pub writes : Pc → ℕ
writes writing = 1
writes written = 1
writes _ = 0

abbrev pub waits : Pc → ℕ
waits w_blocked = 1
waits w_woken = 1
waits _ = 0

-- A signal keeps each weight that its two positions share.
pub Signal-weigh :
    (w : Pc → ℕ) {n : ℕ} {at to : Pc} {pc pc' : ℕ → Pc}
    → w at ≡ w to
    → Signal n at to pc pc'
    → weigh w pc' n ≡ weigh w pc n
Signal-weigh w {n} {at} {to} {pc} e (wakes j h here) =
    let moved : w (pc j) ≡ w to = ap w here ∙ e in omega (arith, weigh-assign w pc j to n h)
Signal-weigh w e (nobody h) = refl

pub Signal4-weigh :
    (w : Pc → ℕ) {n : ℕ} {pc pc' : ℕ → Pc}
    → w r_blocked ≡ w r_woken
    → Signal4 n pc pc'
    → weigh w pc' n ≡ weigh w pc n
Signal4-weigh w e (four a b c d) =
    Signal-weigh w e d ∙ Signal-weigh w e c ∙ Signal-weigh w e b ∙ Signal-weigh w e a

-- A signal moves no thread to another place than that of the woken.
pub Signal-other :
    {n : ℕ} {at to p : Pc} {pc pc' : ℕ → Pc} (i : ℕ)
    → Signal n at to pc pc'
    → pc' i ≡ p
    → to ≢ p
    → pc i ≡ p
Signal-other i (wakes j h here) e other = elim (eq-cases i j) [
  | inl same ↦ absurd (other (ground arith))
  | inr ne ↦ ground arith
]
Signal-other i (nobody h) e other = e

pub Signal4-other :
    {n : ℕ} {p : Pc} {pc pc' : ℕ → Pc} (i : ℕ)
    → Signal4 n pc pc'
    → pc' i ≡ p
    → r_woken ≢ p
    → pc i ≡ p
Signal4-other i (four a b c d) e other =
    Signal-other i a (Signal-other i b (Signal-other i c (Signal-other i d e other) other) other)
      other

pub start-weigh :
    (w : Pc → ℕ) (n : ℕ) {s : System} → IsStart s → w r_idle ≡ 0 → w w_idle ≡ 0 → weigh w s.pc n ≡ 0
start-weigh w n {s} st r wr = weigh-eq-zero w s.pc n (λ k _. at_role (st.roles k))
  where
    at_role : {p : Pc} → IsRole p → w p ≡ 0
    at_role reader = r
    at_role writer = wr
