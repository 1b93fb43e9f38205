-- ===== src/Shell/Controller.antt =====
-- Assignment2/shell4.c: what `controller` calls for a line, up to the work of the new processes. The calls
-- of the system succeed.
use cs232_operating_systems.Common.{
  ℕ, ◌==◌, if◌then◌else◌, Bool, List, [], ◌∷◌, ◌++◌, Option, none, some, assign, Outcome, returns,
  aborts, exits, undefined,
}
use cs232_operating_systems.Shell.{Text, semicolon, cut, strsep, args_of, Cmds, pipe_parser, ◌>>?◌}
use cs232_operating_systems.Shell.Builtin.{Effect, fork_exec, pipe2, pipe3, execute, execute_back}

abbrev pub ampersand : ℕ
ampersand = 38

-- How the shell stands after a call: it goes on, it has called `exit`, it has done what is undefined, or
-- the call never returns.
pub data Status : Type 0 where
  ready : Status
  ended : ℕ → Status
  crashed : Status
  stuck : Status

-- What was asked of the system, in order, and how the shell stands.
abbrev pub Run : Type 0
Run = List Effect × Status

-- Whether the calls of `wait` for what was started return is up to the processes: a parameter.
abbrev pub waited : (Effect → Bool) → Effect → Status
waited ends (Effect.fork_exec args) = if ends (fork_exec args) then ready else stuck
waited ends (Effect.pipe2 a b) = if ends (pipe2 a b) then ready else stuck
waited ends (Effect.pipe3 a b c) = if ends (pipe3 a b c) then ready else stuck
waited ends (Effect.chdir a) = ready
waited ends Effect.print_directory = ready
waited ends (Effect.read_from a) = ready
waited ends (Effect.print a) = ready
waited ends Effect.open_help = ready
waited ends (Effect.fork_back a) = ready

abbrev pub ending : (Effect → Bool) → Outcome Effect → Run
ending ends (returns e) = (e ∷ [], waited ends e)
ending ends aborts = ([], crashed)
ending ends (exits n) = ([], ended n)
ending ends undefined = ([], crashed)

-- `checkSymExecute`, with the array after it: `strsep` stores what is behind the ampersand in it. The loop
-- before reads the first character of the first word, and never moves on where that is the null character.
abbrev pub check_sym_execute : (Effect → Bool) → (ℕ → Option Text) → Run × (ℕ → Option Text)
check_sym_execute ends cmd = elim (cmd 0) [
  | none ↦ (([], crashed), cmd)
  | some [] ↦ (([], stuck), cmd)
  | some (c ∷ cs) ↦
      let (temp, rest) = cut ampersand (c ∷ cs) in
      (ending ends (execute_back temp), assign cmd 0 rest)
]

abbrev pub execute1 : (Effect → Bool) → (ℕ → Option Text) → Run × (ℕ → Option Text)
execute1 ends cmd = (ending ends (execute cmd), cmd)

-- The tests of `n` after `pipeParser`; `one` is what is called for a command without pipes.
abbrev pub choose :
    (Effect → Bool) → ((ℕ → Option Text) → Run × (ℕ → Option Text)) → Cmds × ℕ → Run × Cmds
choose ends one (cmds, n) =
    let (run, cmd) = one cmds.cmd1 in
    if n == 1
    then (run, record cmds { cmd1 = cmd })
    else if n == 2
    then (ending ends (returns (pipe2 (args_of cmds.cmd1) (args_of cmds.cmd2))), cmds)
    else if n == 3
    then (
      ending ends (returns (pipe3 (args_of cmds.cmd1) (args_of cmds.cmd2) (args_of cmds.cmd3))),
      cmds,
    )
    else (([], ready), cmds)

-- The second part of the line, if the call for the first returns.
abbrev pub second_part : (Effect → Bool) → Text → Cmds → Run → Option (Cmds × Run)
second_part ends s cmds (es, ready) = pipe_parser (some s) cmds >>? λ p.
    let ((fs, status), cmds) = choose ends (execute1 ends) p in some (cmds, (es ++ fs, status))
second_part ends s cmds (es, ended n) = some (cmds, (es, ended n))
second_part ends s cmds (es, crashed) = some (cmds, (es, crashed))
second_part ends s cmds (es, stuck) = some (cmds, (es, stuck))

-- A round of the loop of `controller`, after the line is read; `sColParser` cuts the line twice.
unfoldable pub run_line : (Effect → Bool) → Text → Cmds → Option (Cmds × Run)
run_line ends line cmds =
    let (first, rest) = strsep semicolon (some line) in
    let (second, _) = strsep semicolon rest in
    pipe_parser first cmds >>? λ p.
    let (run, cmds) = choose ends (check_sym_execute ends) p in
    elim second [ none ↦ some (cmds, run) | some s ↦ second_part ends s cmds run ]
