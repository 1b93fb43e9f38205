-- ===== src/Filters/Case.antt =====
-- The change of case of Assignment1/Ques3.c.
use cs232_operating_systems.Common.{ℕ, ◌≡◌, refl, ap₂, arith, List, [], ◌∷◌}
use cs232_operating_systems.Filters.{swap_case, swap_text}

swap_case_twice : (c : ℕ) → swap_case (swap_case c) ≡ c
unfolding swap_case
swap_case_twice c = ground arith

-- Changing the case of a text twice gives the text.
swap_text-swap_text : (s : List ℕ) → swap_text (swap_text s) ≡ s
unfolding swap_text
swap_text-swap_text [] = refl
swap_text-swap_text (c ∷ cs) = ap₂ (λ x l. x ∷ l) (swap_case_twice c) (swap_text-swap_text cs)
