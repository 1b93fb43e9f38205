-- ===== src/Shell/Builtin.antt =====
-- The commands that Assignment2/shell4.c carries out itself, and those that it gives to a new process.
use cs232_operating_systems.Common.{
  ℕ, zero, suc, ◌+◌, ◌≡◌, ◌<◌, refl, subst, ◌∙◌, ap, ap₂, arith, Bool-cases, inl, inr, true,
  if◌then◌else◌, List, [], ◌∷◌, Option, none, some, get_elem?, Outcome, returns, exits, undefined,
  ◌>>=◌, text_eq,
}
use cs232_operating_systems.Shell.{Text, args_of}

-- exit, cd, pwd, source, echo, help.
abbrev pub list_of_cmds : List Text
list_of_cmds =
    (101 ∷ 120 ∷ 105 ∷ 116 ∷ [])
    ∷ (99 ∷ 100 ∷ [])
    ∷ (112 ∷ 119 ∷ 100 ∷ [])
    ∷ (115 ∷ 111 ∷ 117 ∷ 114 ∷ 99 ∷ 101 ∷ [])
    ∷ (101 ∷ 99 ∷ 104 ∷ 111 ∷ [])
    ∷ (104 ∷ 101 ∷ 108 ∷ 112 ∷ [])
    ∷ []

-- The loop of `ownCmd` from `i` on; `none` stands for `p = -1`.
unfoldable pub find_from : ℕ → Text → List Text → Option ℕ
find_from i c [] = none
find_from i c (name ∷ names) =
    let rest = find_from (i + 1) c names in if text_eq c name then some i else rest

-- What the shell asks of the system for a command: for `fork_exec` a process with these arguments, for
-- which it waits; for `fork_back` a process that it does not wait for; for the pipes processes that
-- are joined by them. Of the arguments of `fork_back` only the first is known.
pub data Effect : Type 0 where
  chdir : Option Text → Effect
  print_directory : Effect
  read_from : Option Text → Effect
  print : Option Text → Effect
  open_help : Effect
  fork_exec : List Text → Effect
  fork_back : Text → Effect
  pipe2 : List Text → List Text → Effect
  pipe3 : List Text → List Text → List Text → Effect

-- The `switch`, by what reading `cmd1[1]` gives; a null pointer there is used as it is.
abbrev pub carry_out : Outcome (Option Text) → ℕ → Outcome (Option Effect)
carry_out arg zero = exits 0
carry_out arg (suc zero) = arg >>= λ a. returns (some (chdir a))
carry_out arg (suc (suc zero)) = returns (some print_directory)
carry_out arg (suc (suc (suc zero))) = arg >>= λ a. returns (some (read_from a))
carry_out arg (suc (suc (suc (suc zero)))) = arg >>= λ a. returns (some (print a))
carry_out arg (suc (suc (suc (suc (suc zero))))) = returns (some open_help)
carry_out arg (suc (suc (suc (suc (suc (suc k)))))) = returns none

abbrev pub switch : Outcome (Option Text) → Option ℕ → Outcome (Option Effect)
switch arg none = returns none
switch arg (some p) = carry_out arg p

-- `ownCmd`, by `cmd1[0]` and by what reading `cmd1[1]` gives; a null command is compared all the same.
-- `none` stands for the result 0.
abbrev pub own_cmd : Option Text → Outcome (Option Text) → Outcome (Option Effect)
own_cmd none arg = undefined
own_cmd (some c) arg = switch arg (find_from 0 c list_of_cmds)

abbrev pub after_own : Effect → Option Effect → Outcome Effect
after_own fork none = returns fork
after_own fork (some e) = returns e

-- `execute1`, up to the call of `execvp` in the new process.
abbrev pub execute : (ℕ → Option Text) → Outcome Effect
execute cmd = own_cmd (cmd 0) (returns (cmd 1)) >>= after_own (fork_exec (args_of cmd))

-- `executeBack` for the address of one pointer, behind which nothing can be read.
abbrev pub execute_back : Text → Outcome Effect
execute_back temp = own_cmd (some temp) undefined >>= after_own (fork_back temp)

text_eq_lem : (a b : Text) → text_eq a b ≡ true → a ≡ b
unfolding text_eq
text_eq_lem [] [] e = refl
text_eq_lem [] (y ∷ ys) e = absurd (ground arith)
text_eq_lem (x ∷ xs) [] e = absurd (ground arith)
text_eq_lem (x ∷ xs) (y ∷ ys) e =
    ap₂ (λ z l. z ∷ l) (ground arith) (text_eq_lem xs ys (ground arith))

-- Whether `c` is in a list.
pub data IsIn (c : Text) : List Text → Type 0 where
  here : {names : List Text} → IsIn c (c ∷ names)
  later : {name : Text} {names : List Text} → IsIn c names → IsIn c (name ∷ names)

find_from_out : (i : ℕ) (c : Text) (names : List Text) → ¬ IsIn c names → find_from i c names ≡ none
unfolding find_from
find_from_out i c [] out = refl
find_from_out i c (name ∷ names) out = elim (Bool-cases (text_eq c name)) [
  | inl e ↦ absurd (out (subst (λ n. IsIn c (n ∷ names)) (text_eq_lem c name e) here))
  | inr e ↦ rw e (find_from_out (i + 1) c names (λ h. out (later h)))
]

carried :
    (cmd : ℕ → Option Text) (c : Text) {o : Option Effect}
    → cmd 0 ≡ some c
    → switch (returns (cmd 1)) (find_from 0 c list_of_cmds) ≡ returns o
    → execute cmd ≡ after_own (fork_exec (args_of cmd)) o
carried cmd c e run =
    let done = after_own (fork_exec (args_of cmd)) in
    ap (λ c. own_cmd c (returns (cmd 1)) >>= done) e ∙ ap (λ r. r >>= done) run

-- A command that is none of the six names of the shell goes to a new process with all its arguments.
pub execute_lem :
    (cmd : ℕ → Option Text) (c : Text)
    → cmd 0 ≡ some c
    → ¬ IsIn c list_of_cmds
    → execute cmd ≡ returns (fork_exec (args_of cmd))
execute_lem cmd c e out =
    carried cmd c e (ap (switch (returns (cmd 1))) (find_from_out 0 c list_of_cmds out))

-- The shell carries out its other commands than `exit` itself: for `cd`, `pwd`, `source`, `echo` and
-- `help` it does what the switch says, and starts no process.
pub built_in_lem :
    (cmd : ℕ → Option Text) (k : ℕ)
    → k < 5
    → cmd 0 ≡ get_elem? list_of_cmds (suc k)
    → (e : Effect) × (carry_out (returns (cmd 1)) (suc k) ≡ returns (some e))
      × (execute cmd ≡ returns e)
unfolding find_from text_eq
built_in_lem cmd zero h e = (_, refl, carried cmd _ e refl)
built_in_lem cmd (suc zero) h e = (_, refl, carried cmd _ e refl)
built_in_lem cmd (suc (suc zero)) h e = (_, refl, carried cmd _ e refl)
built_in_lem cmd (suc (suc (suc zero))) h e = (_, refl, carried cmd _ e refl)
built_in_lem cmd (suc (suc (suc (suc zero)))) h e = (_, refl, carried cmd _ e refl)
built_in_lem cmd (suc (suc (suc (suc (suc k))))) h e = absurd (omega arith)
