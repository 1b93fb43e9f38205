-- ===== src/Filters.antt =====
-- Assignment1: a filter that changes the case of letters (Ques3.c), a filter that counts what is no
-- letter (Ques2.c), and a program that prints its arguments (Ques1.c). A text is a list of bytes.
pub mod Case
pub mod Count
pub mod Echo
mod Tests
use cs232_operating_systems.Common.{
  ℕ, zero, suc, ◌+◌, ◌-◌, ◌==◌, leb, ◌&&◌, ◌||◌, not, Bool, true, false, if◌then◌else◌, Option,
  none, some, List, [], ◌∷◌, ◌++◌, Outcome, returns, exits,
}
use cs232_operating_systems.Common.Int.{ℤ, pos, negsuc}

abbrev pub is_lower : ℕ → Bool
is_lower c = leb 97 c && leb c 122

abbrev pub is_upper : ℕ → Bool
is_upper c = leb 65 c && leb c 90

-- Ques3.c: the body of the loop over the buffer.
unfoldable pub swap_case : ℕ → ℕ
swap_case c = if is_lower c then c - 32 else if is_upper c then c + 32 else c

unfoldable pub swap_text : List ℕ → List ℕ
swap_text [] = []
swap_text (c ∷ cs) = swap_case c ∷ swap_text cs

-- Ques2.c: the byte 255 becomes -1 in a `char`, which is EOF.
abbrev pub eof : ℕ
eof = 255

abbrev pub is_letter : ℕ → Bool
is_letter c = is_lower c || is_upper c

-- The loop with a number `n` that counts up to 0, `k` from it: the bytes it prints, and `j`.
unfoldable pub count_up : ℕ → List ℕ → List ℕ × ℕ
count_up zero input = ([], 0)
count_up (suc k) [] = ([], 0)
count_up (suc k) (c ∷ cs) =
    let (out, j) = count_up k cs in
    if c == eof then ([], 0) else (c ∷ out, if is_letter c then j else j + 1)

-- The loop without a number.
unfoldable pub count_all : List ℕ → List ℕ × ℕ
count_all [] = ([], 0)
count_all (c ∷ cs) =
    let (out, j) = count_all cs in
    if c == eof then ([], 0) else (c ∷ out, if is_letter c then j else j + 1)

-- `main`, with the number that its argument stands for, if there is one.
abbrev pub count_main : Option ℤ → List ℕ → Outcome (List ℕ × ℕ)
count_main none input = returns (count_all input)
count_main (some (pos n)) input = exits 2
count_main (some (negsuc m)) input = returns (count_up (m + 1) input)

-- Ques1.c: what the loop prints, and `f`.
abbrev pub is_option : List ℕ → Bool
is_option [] = false
is_option (c ∷ cs) = c == 45

unfoldable pub echo_from : List (List ℕ) → List ℕ × Bool
echo_from [] = ([], false)
echo_from (a ∷ more) =
    let (out, f) = echo_from more in if not (is_option a) then (a ++ (32 ∷ out), true) else (out, f)

abbrev pub echo : List (List ℕ) → List ℕ
echo args = let (out, f) = echo_from args in if f then out ++ (10 ∷ []) else out
