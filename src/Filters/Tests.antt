-- ===== src/Filters/Tests.antt =====
-- The programs of Assignment1 on small inputs.
use cs232_operating_systems.Common.{ℕ, ◌+◌, ◌≡◌, refl, none, some, List, [], ◌∷◌, take, exits}
use cs232_operating_systems.Common.Int.{pos, negsuc}
use cs232_operating_systems.Filters.{swap_case, swap_text, count_main, echo_from, echo}
use cs232_operating_systems.Filters.Count.{readable, report, count_main_lem}

-- `aB 1`
abbrev some_text : List ℕ
some_text = 97 ∷ 66 ∷ 32 ∷ 49 ∷ []

swap_text_run : swap_text some_text ≡ 65 ∷ 98 ∷ 32 ∷ 49 ∷ []
unfolding swap_case swap_text
swap_text_run = refl

echo_run : echo ((45 ∷ 110 ∷ []) ∷ (97 ∷ []) ∷ []) ≡ 97 ∷ 32 ∷ 10 ∷ []
unfolding echo_from
echo_run = refl

count_main_lem_example :
    (count_main none some_text ≡ report (readable some_text))
    × (count_main (some (negsuc 2)) some_text ≡ report (take (2 + 1) (readable some_text)))
    × (count_main (some (pos 4)) some_text ≡ exits 2)
count_main_lem_example = count_main_lem some_text 4 2
