-- ===== src/Common/Family.antt =====
-- One value for each thread: a write for one thread, and weights summed over the first `n` threads.
use Prim.Native.Nat.{ℕ, zero, suc, ◌+◌, ◌≤◌, ◌<◌}
use mathlib.Core.Path.{◌≡◌, refl, ap, ap₂}
use mathlib.Core.Logic.{◌≢◌, inl, inr}
use native.Mathlib.Omega.{arith}
use cs232_operating_systems.Common.Tests.{◌==◌, if◌then◌else◌, eq-cases}

abbrev pub assign {ℓ} : {T : Type ℓ} → (ℕ → T) → ℕ → T → ℕ → T
assign threads who new k = if k == who then new else threads k

module _ {ℓ} {T : Type ℓ} (weight : T → ℕ) (threads : ℕ → T) where
  unfoldable pub weigh : ℕ → ℕ
  weigh zero = 0
  weigh (suc n) = weight (threads n) + weigh n

  pub weight-le-weigh : (n who : ℕ) → who < n → weight (threads who) ≤ weigh n
  unfolding weigh
  weight-le-weigh zero who h = absurd (omega arith)
  weight-le-weigh (suc n) who h = elim (eq-cases who n) [
    | inl e ↦ rw e (omega arith)
    | inr ne ↦ omega (arith, weight-le-weigh n who (omega arith))
  ]

  -- Two threads weigh at most what all weigh.
  pub weights-le-weigh :
      (n who other : ℕ)
      → who < n
      → other < n
      → who ≢ other
      → weight (threads who) + weight (threads other) ≤ weigh n
  unfolding weigh
  weights-le-weigh zero who other h k ne = absurd (omega arith)
  weights-le-weigh (suc n) who other h k ne = elim (eq-cases who n) [
    | inl e ↦ rw e (omega (arith, weight-le-weigh n other (omega arith)))
    | inr below ↦ elim (eq-cases other n) [
      | inl e ↦ rw e (omega (arith, weight-le-weigh n who (omega arith)))
      | inr below' ↦ omega (arith, weights-le-weigh n who other (omega arith) (omega arith) ne)
    ]
  ]

  pub weigh-eq-zero : (n : ℕ) → ((k : ℕ) → k < n → weight (threads k) ≡ 0) → weigh n ≡ 0
  unfolding weigh
  weigh-eq-zero zero h = refl
  weigh-eq-zero (suc n) h =
      ap₂ ◌+◌ (h n (omega arith)) (weigh-eq-zero n (λ k below. h k (omega arith)))

  pub weigh_le : (m n : ℕ) → m ≤ n → weigh m ≤ weigh n
  unfolding weigh
  weigh_le m zero h = elim (eq-cases m 0) [
    | inl e ↦ rw e (omega arith)
    | inr ne ↦ absurd (omega arith)
  ]
  weigh_le m (suc n) h = elim (eq-cases m (suc n)) [
    | inl e ↦ rw e (omega arith)
    | inr ne ↦ omega (arith, weigh_le m n (omega arith))
  ]

  -- A positive sum has a positive term.
  pub weigh_pos : (n : ℕ) → 0 < weigh n → (k : ℕ) × (k < n) × (0 < weight (threads k))
  unfolding weigh
  weigh_pos zero h = absurd (omega arith)
  weigh_pos (suc n) h = elim (eq-cases (weight (threads n)) 0) [
    | inl none_here ↦ let (k, below, p) = weigh_pos n (omega arith) in (k, omega arith, p)
    | inr some_here ↦ (n, omega arith, omega arith)
  ]

module _ {ℓ} {T : Type ℓ} (small other big : T → ℕ) (le : (t : T) → small t + other t ≤ big t) where
  -- Two weights that a third bounds together.
  pub weigh_mono :
      (threads : ℕ → T) (n : ℕ)
      → weigh small threads n + weigh other threads n ≤ weigh big threads n
  unfolding weigh
  weigh_mono threads zero = omega arith
  weigh_mono threads (suc n) = omega (arith, le (threads n), weigh_mono threads n)

-- The first thread's weight apart.
pub weigh_shift {ℓ} :
    {T : Type ℓ} (weight : T → ℕ) (threads : ℕ → T) (n : ℕ)
    → weigh weight threads (suc n) ≡ weight (threads 0) + weigh weight (λ k. threads (suc k)) n
unfolding weigh
weigh_shift weight threads zero = refl
weigh_shift weight threads (suc n) = omega (arith, weigh_shift weight threads n)

-- Equal weights have equal sums.
pub weigh_cong {ℓ κ} :
    {T : Type ℓ} {U : Type κ} (weight : T → ℕ) (weight' : U → ℕ) (threads : ℕ → T)
    (threads' : ℕ → U)
    → ((k : ℕ) → weight (threads k) ≡ weight' (threads' k))
    → (n : ℕ) → weigh weight threads n ≡ weigh weight' threads' n
unfolding weigh
weigh_cong weight weight' threads threads' h zero = refl
weigh_cong weight weight' threads threads' h (suc n) =
    ap₂ ◌+◌ (h n) (weigh_cong weight weight' threads threads' h n)

module _ {ℓ} {T : Type ℓ} (weight : T → ℕ) (threads : ℕ → T) (who : ℕ) (new : T) where
  pub weigh-assign_above :
      (n : ℕ) → n ≤ who → weigh weight (assign threads who new) n ≡ weigh weight threads n
  unfolding weigh
  weigh-assign_above zero h = refl
  weigh-assign_above (suc n) h =
      ap₂ ◌+◌ (ap weight (ground arith)) (weigh-assign_above n (omega arith))

  -- A write exchanges one weight for another.
  pub weigh-assign :
      (n : ℕ)
      → who < n
      → weight (threads who) + weigh weight (assign threads who new) n
        ≡ weight new + weigh weight threads n
  unfolding weigh
  weigh-assign zero h = absurd (omega arith)
  weigh-assign (suc n) h = elim (eq-cases who n) [
    | inl e ↦ ground (arith, weigh-assign_above n)
    | inr below ↦ ground (arith, weigh-assign n)
  ]
