-- ===== src/Filters/Echo.antt =====
-- The arguments that Assignment1/Ques1.c prints.
use cs232_operating_systems.Common.{
  ℕ, ◌≡◌, refl, Bool, Bool-cases, true, false, inl, inr, if◌then◌else◌, List, [], ◌∷◌, ◌++◌,
}
use cs232_operating_systems.Filters.{is_option, echo_from, echo}

abbrev pub kept : List (List ℕ) → List (List ℕ)
kept [] = []
kept (a ∷ more) = let rest = kept more in if is_option a then rest else a ∷ rest

abbrev pub spaced : List (List ℕ) → List ℕ
spaced [] = []
spaced (a ∷ more) = a ++ (32 ∷ spaced more)

abbrev pub line_of : List (List ℕ) → List ℕ
line_of [] = []
line_of (a ∷ more) = spaced (a ∷ more) ++ (10 ∷ [])

abbrev is_some : List (List ℕ) → Bool
is_some [] = false
is_some (a ∷ more) = true

echo_from_lem : (args : List (List ℕ)) → echo_from args ≡ (spaced (kept args), is_some (kept args))
unfolding echo_from
echo_from_lem [] = refl
echo_from_lem (a ∷ more) = elim (Bool-cases (is_option a)) [
  | inl e ↦ rw (e, echo_from_lem more) refl
  | inr e ↦ rw (e, echo_from_lem more) refl
]

-- The program prints the arguments that do not start with a dash, each with a space behind it, in one
-- line; when there is none it prints nothing, not even the end of the line.
pub echo_lem : (args : List (List ℕ)) → echo args ≡ line_of (kept args)
echo_lem args = rw (echo_from_lem args) (shown (kept args))
  where
    shown :
        (more : List (List ℕ))
        → (if is_some more then spaced more ++ (10 ∷ []) else spaced more) ≡ line_of more
    shown [] = refl
    shown (a ∷ more) = refl
