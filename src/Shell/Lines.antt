-- ===== src/Shell/Lines.antt =====
-- What a round of the loop of `controller` in Assignment2/shell4.c does for a line.
use cs232_operating_systems.Common.{
  ℕ, zero, suc, ◌≡◌, Bool, List, [], ◌∷◌, ◌++◌, Option, none, some, take, get_elem?, returns,
}
use cs232_operating_systems.Shell.{Text, bar, max_arg, args_of, Cmds}
use cs232_operating_systems.Shell.Words.{split, words}
use cs232_operating_systems.Shell.Builtin.{Effect, pipe2}
use cs232_operating_systems.Shell.Controller.{Run, ready, ended, crashed, stuck, ending}
use cs232_operating_systems.Shell.Arguments.{command, first_command}

-- Place 10 of each array is null: it is so at the start, and no call of `parseCmd` writes there.
pub record IsClear (cmds : Cmds) : Type 0 where
  pub end1 : cmds.cmd1 max_arg ≡ none
  pub end2 : cmds.cmd2 max_arg ≡ none
  pub end3 : cmds.cmd3 max_arg ≡ none

abbrev pub first_ten : Option Text → List Text
first_ten part = take max_arg (words part)

-- The loop of `pipeParser` on the parts of the line.
abbrev pipes : ℕ → ℕ → List Text → List Text × ℕ
pipes zero i parts = ([], 0)
pipes (suc left) i [] = ([], i)
pipes (suc left) i (p ∷ ps) = let (parts, pipe_no) = pipes left (suc i) ps in (p ∷ parts, pipe_no)

-- What a part of a line does, by its pieces between pipes: up to two pipes are meant, but with two or
-- more nothing is called.
abbrev pub part_run : (Effect → Bool) → (List Text → Run) → List Text → Run
part_run ends one [] = ([], ready)
part_run ends one (a ∷ []) = one (first_ten (some a))
part_run ends one (a ∷ b ∷ []) =
    ending ends (returns (pipe2 (first_ten (some a)) (first_ten (some b))))
part_run ends one (a ∷ b ∷ c ∷ parts) = ([], ready)

record IsSplit (parts : List Text) (cmds : Cmds) : Type 0 where
  clear : IsClear cmds
  args1 : args_of cmds.cmd1 ≡ first_ten (get_elem? parts 0)
  args2 : args_of cmds.cmd2 ≡ first_ten (get_elem? parts 1)
  args3 : args_of cmds.cmd3 ≡ first_ten (get_elem? parts 2)

-- A function is called for a command without pipes, and does to its words what `spec` says.
abbrev Does : ((ℕ → Option Text) → Run × (ℕ → Option Text)) → (List Text → Run) → Type 0
Does one spec =
    (str : Option Text) (cmd : ℕ → Option Text)
    → args_of cmd ≡ first_ten str
    → ((one cmd).0 ≡ spec (first_ten str)) × ((one cmd).1 max_arg ≡ cmd max_arg)

module _ (ends : Effect → Bool) where
  abbrev first_run : Text → Run
  first_run s = part_run ends (first_command ends) (split bar s)

  abbrev second_run : Text → Run
  second_run s = part_run ends (λ l. ending ends (command l)) (split bar s)

  -- One run and then the other, if the shell goes on after the first.
  abbrev followed : Run → Run → Run
  followed (es, ready) (fs, status) = (es ++ fs, status)
  followed (es, ended n) next = (es, ended n)
  followed (es, crashed) next = (es, crashed)
  followed (es, stuck) next = (es, stuck)

  -- What a line does, by its parts between semicolons.
  abbrev pub line_run : List Text → Run
  line_run [] = ([], ready)
  line_run (p ∷ []) = first_run p
  line_run (p ∷ q ∷ parts) = followed (first_run p) (second_run q)
