-- ===== src/Shell.antt =====
-- Assignment2/shell4.c: how the shell splits a line into commands and their arguments. A text is the
-- list of its characters, and a null pointer is `none`.
pub mod Builtin
pub mod Arguments
pub mod Controller
pub mod Words
pub mod Lines
mod Tests
use cs232_operating_systems.Common.{
  ℕ, zero, suc, ◌+◌, ◌==◌, ltb, if◌then◌else◌, List, [], ◌∷◌, Option, none, some, assign, length,
  get_elem?,
}

abbrev pub Text : Type 0
Text = List ℕ

abbrev pub space : ℕ
space = 32

abbrev pub semicolon : ℕ
semicolon = 59

abbrev pub bar : ℕ
bar = 124

abbrev pub max_arg : ℕ
max_arg = 10

-- The text before the first `delim`, and the text after it.
unfoldable pub cut : ℕ → Text → Text × Option Text
cut delim [] = ([], none)
cut delim (c ∷ cs) =
    let (before, after) = cut delim cs in if c == delim then ([], some cs) else (c ∷ before, after)

-- `strsep` of the C library.
abbrev pub strsep : ℕ → Option Text → Option Text × Option Text
strsep delim none = (none, none)
strsep delim (some s) = let (before, after) = cut delim s in (some before, after)

-- The loop of `parseCmd`, for at most so many rounds.
unfoldable pub parse_from : ℕ → ℕ → Option Text → (ℕ → Option Text) → Option (ℕ → Option Text)
parse_from zero i str cmd = none
parse_from (suc fuel) i str cmd =
    let (token, rest) = strsep space str in
    let cmd' = assign cmd i token in
    let again = parse_from fuel i rest cmd' in
    let on = parse_from fuel (i + 1) rest cmd' in
    if ltb i max_arg
    then elim token [ none ↦ some cmd' | some [] ↦ again | some (c ∷ cs) ↦ on ]
    else some cmd

abbrev pub size : Option Text → ℕ
size none = 0
size (some s) = length s + 1

abbrev pub parse_cmd : Option Text → (ℕ → Option Text) → Option (ℕ → Option Text)
parse_cmd str cmd = parse_from (size str + max_arg + 1) 0 str cmd

-- What `execvp` reads of an array of arguments, up to the null pointer or `n` of them.
abbrev pub argv : ℕ → (ℕ → Option Text) → ℕ → List Text
argv zero cmd i = []
argv (suc n) cmd i = let rest = argv n cmd (suc i) in elim (cmd i) [ none ↦ [] | some t ↦ t ∷ rest ]

-- The three arrays of arguments of `controller`.
pub record Cmds : Type 0 where
  pub cmd1 : ℕ → Option Text
  pub cmd2 : ℕ → Option Text
  pub cmd3 : ℕ → Option Text

-- The loop of `pipeParser`, from `i` on with `left` rounds to go: the parts of the line, and `pipeNo`,
-- which is set only when the line ends before the loop does.
unfoldable pub pipe_from : ℕ → ℕ → Option Text → List Text × ℕ
pipe_from zero i line = ([], 0)
pipe_from (suc left) i line =
    let (token, rest) = strsep bar line in
    let (parts, pipe_no) = pipe_from left (suc i) rest in
    elim token [ none ↦ ([], i) | some t ↦ (t ∷ parts, pipe_no) ]

infixl 5 ◌>>?◌
abbrev pub ◌>>?◌ {ℓ κ} : {A : Type ℓ} {B : Type κ} → Option A → (A → Option B) → Option B
none >>? f = none
some a >>? f = f a

unfoldable pub pipe_parser : Option Text → Cmds → Option (Cmds × ℕ)
pipe_parser line cmds =
    let (parts, pipe_no) = pipe_from 3 0 line in
    parse_cmd (get_elem? parts 0) cmds.cmd1 >>? λ c1.
    parse_cmd (get_elem? parts 1) cmds.cmd2 >>? λ c2.
    parse_cmd (get_elem? parts 2) cmds.cmd3 >>? λ c3.
    some (record { cmd1 = c1; cmd2 = c2; cmd3 = c3 }, pipe_no)

abbrev pub args_of : (ℕ → Option Text) → List Text
args_of cmd = argv (max_arg + 1) cmd 0
