-- ===== src/Shell/Tests.antt =====
-- Lines given to Assignment2/shell4.c.
use cs232_operating_systems.Common.{
  ℕ, ◌+◌, ◌≡◌, refl, Bool, true, [], ◌∷◌, Option, none, some, take, text_eq,
}
use cs232_operating_systems.Shell.{Text, max_arg, parse_cmd, argv, Cmds, semicolon, cut}
use cs232_operating_systems.Shell.Words.{split, words, parse_cmd_lem}
use cs232_operating_systems.Shell.Builtin.{Effect, fork_exec, pipe2, find_from}
use cs232_operating_systems.Shell.Controller.{ready, ended, crashed}
use cs232_operating_systems.Shell.Lines.{line_run}

-- `a  b|c;d`
abbrev two_parts : Text
two_parts = 97 ∷ 32 ∷ 32 ∷ 98 ∷ 124 ∷ 99 ∷ 59 ∷ 100 ∷ []

-- `a|b|c`
abbrev two_pipes : Text
two_pipes = 97 ∷ 124 ∷ 98 ∷ 124 ∷ 99 ∷ []

abbrev no_cmds : Cmds
no_cmds = record { cmd1 = λ k. none; cmd2 = λ k. none; cmd3 = λ k. none }

-- `exit;a`
abbrev exit_first : Text
exit_first = 101 ∷ 120 ∷ 105 ∷ 116 ∷ 59 ∷ 97 ∷ []

abbrev all_end : Effect → Bool
all_end e = true

two_parts_done : line_run all_end (split semicolon two_parts) ≡ (
  pipe2 ((97 ∷ []) ∷ (98 ∷ []) ∷ []) ((99 ∷ []) ∷ []) ∷ fork_exec ((100 ∷ []) ∷ []) ∷ [],
  ready,
)
unfolding split find_from text_eq
two_parts_done = refl

-- Two pipes are promised, and do nothing.
two_pipes_done : line_run all_end (split semicolon two_pipes) ≡ ([], ready)
unfolding split
two_pipes_done = refl

-- After `exit` nothing else is done.
exit_first_done : line_run all_end (split semicolon exit_first) ≡ ([], ended 0)
unfolding split cut find_from text_eq
exit_first_done = refl

-- An empty line reads through a null pointer.
empty_line_done : line_run all_end (split semicolon []) ≡ ([], crashed)
unfolding split
empty_line_done = refl

parse_cmd_lem_example :
    (cmd' : ℕ → Option Text) × (parse_cmd (some two_parts) (λ k. none) ≡ some cmd')
    × (argv (max_arg + 1) cmd' 0 ≡ take max_arg (words (some two_parts)))
    × (cmd' max_arg ≡ none)
parse_cmd_lem_example = parse_cmd_lem (some two_parts) (λ k. none) refl
