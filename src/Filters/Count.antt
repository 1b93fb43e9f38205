-- ===== src/Filters/Count.antt =====
-- The counts of Assignment1/Ques2.c.
use cs232_operating_systems.Common.{
  ℕ, zero, suc, ◌+◌, ◌≡◌, refl, ap, ◌==◌, Bool-cases, inl, inr, if◌then◌else◌, List, [], ◌∷◌, take,
  Outcome, returns, exits, none, some,
}
use cs232_operating_systems.Common.Int.{pos, negsuc}
use cs232_operating_systems.Filters.{eof, is_letter, count_up, count_all, count_main}

-- The input up to the first byte that reads as EOF.
abbrev pub readable : List ℕ → List ℕ
readable [] = []
readable (c ∷ cs) = let rest = readable cs in if c == eof then [] else c ∷ rest

abbrev pub non_letters : List ℕ → ℕ
non_letters [] = 0
non_letters (c ∷ cs) = if is_letter c then non_letters cs else non_letters cs + 1

count_up_lem :
    (k : ℕ) (s : List ℕ) → count_up k s ≡ (take k (readable s), non_letters (take k (readable s)))
unfolding count_up
count_up_lem zero s = refl
count_up_lem (suc k) [] = refl
count_up_lem (suc k) (c ∷ cs) = elim (Bool-cases (c == eof)) [
  | inl e ↦ rw e refl
  | inr e ↦ rw (e, count_up_lem k cs) refl
]

count_all_lem : (s : List ℕ) → count_all s ≡ (readable s, non_letters (readable s))
unfolding count_all
count_all_lem [] = refl
count_all_lem (c ∷ cs) = elim (Bool-cases (c == eof)) [
  | inl e ↦ rw e refl
  | inr e ↦ rw (e, count_all_lem cs) refl
]

-- What is to be printed, and how much of it is no letter.
abbrev pub report : List ℕ → Outcome (List ℕ × ℕ)
report out = returns (out, non_letters out)

-- The filter prints its input up to the first byte 255, or with the argument -n the first n bytes of
-- that, and counts those that are no letters; an argument that is not negative ends it with status 2.
pub count_main_lem :
    (s : List ℕ) (n m : ℕ)
    → (count_main none s ≡ report (readable s))
      × (count_main (some (negsuc m)) s ≡ report (take (m + 1) (readable s)))
      × (count_main (some (pos n)) s ≡ exits 2)
count_main_lem s n m = (ap returns (count_all_lem s), ap returns (count_up_lem (m + 1) s), refl)
