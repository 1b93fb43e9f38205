-- ===== src/FileSystem/Console.antt =====
-- Assignment7/lab7/src/shell/sfssh.cpp: the command functions and the loop of main. `sscanf` and `atoi` are
-- read on the characters of a line; a number that is no `int` is not reduced.
use cs232_operating_systems.Common.{
  ℕ, zero, suc, ◌+◌, ◌-◌, ◌*◌, Bool, true, false, ◌&&◌, ◌||◌, Option, none, some, List, [], ◌∷◌,
  length, min, ◌++◌, leb, ◌==◌, if◌then◌else◌, text_eq, Outcome, returns, undefined, ◌>>=◌,
}
use cs232_operating_systems.Common.Int.{ℤ, pos, negsuc}
use cs232_operating_systems.FileSystem.State.{FileSystem}
use cs232_operating_systems.FileSystem.Format.{format, mount}
use cs232_operating_systems.FileSystem.Operations.{create, remove, stat, to_size}
use cs232_operating_systems.FileSystem.Debug.{debug}
use cs232_operating_systems.FileSystem.Commands.{
  Text, Host, Message, usage, done, failed, lines_of, created, removed, size_of, list_of_commands,
  unknown_command, copyout, copyin,
}

-- The characters of white space.
abbrev pub is_space : ℕ → Bool
is_space c = c == 32 || leb 9 c && leb c 13

abbrev pub and_word : Text → List Text → List Text
and_word [] rest = rest
and_word (c ∷ cs) rest = (c ∷ cs) ∷ rest

-- The words of a text, by `%s`; the first part is the word that the text begins with.
unfoldable pub words : Text → Text × List Text
words [] = ([], [])
words (c ∷ cs) =
    let (word, rest) = words cs in if is_space c then ([], and_word word rest) else (c ∷ word, rest)

abbrev pub scanned : Text → List Text
scanned line = let (word, rest) = words line in and_word word rest

unfoldable pub digits : ℕ → Text → ℕ
digits n [] = n
digits n (c ∷ cs) =
    let more = digits (n * 10 + (c - 48)) cs in if leb 48 c && leb c 57 then more else n

abbrev pub negated : ℕ → ℤ
negated zero = pos 0
negated (suc n) = negsuc n

abbrev pub atoi : Text → ℤ
atoi [] = pos 0
atoi (c ∷ cs) =
    if c == 45
    then negated (digits 0 cs)
    else if c == 43
    then pos (digits 0 cs)
    else pos (digits 0 (c ∷ cs))

-- What a command function prints, and the file system after it.
abbrev pub Result : Type 0
Result = Outcome (List Message × FileSystem)

abbrev pub or_usage : FileSystem → Bool → Result → Result
or_usage fs right run = if right then run else returns (usage ∷ [], fs)

abbrev pub said : Bool → Message
said true = done
said false = failed

abbrev pub do_debug : FileSystem → Result
do_debug fs = do (lines, d) ← debug fs.disk; returns (lines_of lines ∷ [], record fs { disk = d })

abbrev pub do_format : FileSystem → Result
do_format fs = do (ok, d) ← format fs.disk; returns (said ok ∷ [], record fs { disk = d })

abbrev pub do_mount : FileSystem → Result
do_mount fs = do (ok, fs) ← mount fs; returns (said ok ∷ [], fs)

-- /dev/stdout.
abbrev pub standard_output : Text
standard_output = 47 ∷ 100 ∷ 101 ∷ 118 ∷ 47 ∷ 115 ∷ 116 ∷ 100 ∷ 111 ∷ 117 ∷ 116 ∷ []

abbrev pub or_failed : Bool × List Message × FileSystem → Result
or_failed (true, printed, fs) = returns (printed, fs)
or_failed (false, printed, fs) = returns (printed ++ (failed ∷ []), fs)

abbrev pub do_copyout : Host → (rounds : ℕ) → FileSystem → ℤ → Text → Result
do_copyout host rounds fs inumber path =
    copyout host rounds fs (to_size inumber) path >>= λ ended. or_failed ended

abbrev pub do_copyin : Host → (rounds : ℕ) → FileSystem → Text → ℤ → Result
do_copyin host rounds fs path inumber =
    copyin host rounds fs path (to_size inumber) >>= λ ended. or_failed ended

abbrev pub do_create : FileSystem → Result
do_create fs = do
  (inumber, fs) ← create fs
  returns ((elim inumber [ pos n ↦ created (pos n) | negsuc _ ↦ failed ]) ∷ [], fs)

abbrev pub do_remove : FileSystem → ℤ → Result
do_remove fs inumber = do
  (ok, fs) ← remove fs (to_size inumber)
  returns ((if ok then removed inumber else failed) ∷ [], fs)

abbrev pub do_stat : FileSystem → ℤ → Result
do_stat fs inumber = do
  (bytes, fs) ← stat fs (to_size inumber)
  returns ((elim bytes [ pos n ↦ size_of inumber (pos n) | negsuc _ ↦ failed ]) ∷ [], fs)

pub data Command : Type 0 where
  debug_command format_command mount_command cat_command copyout_command : Command
  create_command remove_command stat_command copyin_command help_command exit_command : Command

-- debug, format, mount, cat, copyout, create, remove, stat, copyin, help, exit, quit.
abbrev pub command_names : List (Text × Command)
command_names =
    (100 ∷ 101 ∷ 98 ∷ 117 ∷ 103 ∷ [], debug_command)
    ∷ (102 ∷ 111 ∷ 114 ∷ 109 ∷ 97 ∷ 116 ∷ [], format_command)
    ∷ (109 ∷ 111 ∷ 117 ∷ 110 ∷ 116 ∷ [], mount_command)
    ∷ (99 ∷ 97 ∷ 116 ∷ [], cat_command)
    ∷ (99 ∷ 111 ∷ 112 ∷ 121 ∷ 111 ∷ 117 ∷ 116 ∷ [], copyout_command)
    ∷ (99 ∷ 114 ∷ 101 ∷ 97 ∷ 116 ∷ 101 ∷ [], create_command)
    ∷ (114 ∷ 101 ∷ 109 ∷ 111 ∷ 118 ∷ 101 ∷ [], remove_command)
    ∷ (115 ∷ 116 ∷ 97 ∷ 116 ∷ [], stat_command)
    ∷ (99 ∷ 111 ∷ 112 ∷ 121 ∷ 105 ∷ 110 ∷ [], copyin_command)
    ∷ (104 ∷ 101 ∷ 108 ∷ 112 ∷ [], help_command)
    ∷ (101 ∷ 120 ∷ 105 ∷ 116 ∷ [], exit_command)
    ∷ (113 ∷ 117 ∷ 105 ∷ 116 ∷ [], exit_command)
    ∷ []

unfoldable pub command_of : Text → List (Text × Command) → Option Command
command_of cmd [] = none
command_of cmd ((name, command) ∷ names) =
    let rest = command_of cmd names in if text_eq cmd name then some command else rest

-- The variables of main that last from line to line: each is none until a line has set it.
pub record Session : Type 0 where
  pub fs : FileSystem
  pub cmd : Option Text
  pub arg1 : Option Text
  pub arg2 : Option Text

-- A word that the number of words says is there.
abbrev pub text_of : Option Text → Text
text_of none = []
text_of (some t) = t

-- The words that `sscanf` stores; the others keep what they had.
abbrev pub scan : Session → List Text → Session
scan s [] = s
scan s (a ∷ []) = record s { cmd = some a }
scan s (a ∷ b ∷ []) = record s { cmd = some a; arg1 = some b }
scan s (a ∷ b ∷ c ∷ _) = record s { cmd = some a; arg1 = some b; arg2 = some c }

-- What `sscanf` returns, when it finds so many words: -1 is none, and then `args == 0` does not hold.
abbrev pub args_of : ℕ → ℤ
args_of zero = negsuc 0
args_of (suc n) = pos (min (suc n) 3)

abbrev pub is_args : ℤ → ℕ → Bool
is_args (pos n) k = n == k
is_args (negsuc n) k = false

abbrev pub carry_out : Host → (rounds : ℕ) → Session → ℤ → Option Command → Result
carry_out host rounds s args none = returns (unknown_command ∷ [], s.fs)
carry_out host rounds s args (some c) =
    let first = text_of s.arg1 in
    let second = text_of s.arg2 in
    elim c [
      | debug_command ↦ or_usage s.fs (is_args args 1) (do_debug s.fs)
      | format_command ↦ or_usage s.fs (is_args args 1) (do_format s.fs)
      | mount_command ↦ or_usage s.fs (is_args args 1) (do_mount s.fs)
      | cat_command ↦
          or_usage s.fs (is_args args 2) (do_copyout host rounds s.fs (atoi first) standard_output)
      | copyout_command ↦
          or_usage s.fs (is_args args 3) (do_copyout host rounds s.fs (atoi first) second)
      | create_command ↦ or_usage s.fs (is_args args 1) (do_create s.fs)
      | remove_command ↦ or_usage s.fs (is_args args 2) (do_remove s.fs (atoi first))
      | stat_command ↦ or_usage s.fs (is_args args 2) (do_stat s.fs (atoi first))
      | copyin_command ↦
          or_usage s.fs (is_args args 3) (do_copyin host rounds s.fs first (atoi second))
      | help_command ↦ returns (list_of_commands ∷ [], s.fs)
      | exit_command ↦ returns ([], s.fs)
    ]

-- A line of the loop of main: what is printed, and the session after it, or none where the loop ends.
unfoldable pub run_line :
    Host → (rounds : ℕ) → Session → Text → Outcome (List Message × Option Session)
run_line host rounds s line =
    let found = scanned line in
    let s' = scan s found in
    elim s'.cmd [
      | none ↦ undefined
      | some cmd ↦ do
        (printed, fs) ←
            carry_out host rounds s' (args_of (length found)) (command_of cmd command_names)
        returns (
          printed,
          elim (command_of cmd command_names) [
            | none ↦ some (record s' { fs = fs })
            | some c ↦ elim c [ exit_command ↦ none | _ ↦ some (record s' { fs = fs }) ]
          ],
        )
    ]
