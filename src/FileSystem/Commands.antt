-- ===== src/FileSystem/Commands.antt =====
-- Assignment7/lab7/src/shell/sfssh.cpp: the shell of the file system. A text is the list of its
-- characters; `fopen`, `fread` and `fwrite` work on whole files that are given by their bytes.
use cs232_operating_systems.Common.{
  ℕ, zero, suc, ◌+◌, ◌-◌, min, Bool, true, false, Option, none, some, List, [], ◌∷◌, ◌++◌, ◌==◌,
  if◌then◌else◌, Outcome, returns, ◌>>=◌,
}
use cs232_operating_systems.Common.Int.{ℤ, pos, negsuc}
use cs232_operating_systems.FileSystem.Block.{blank}
use cs232_operating_systems.FileSystem.State.{FileSystem}
use cs232_operating_systems.FileSystem.Transfer.{Buffer, copy, read}
use cs232_operating_systems.FileSystem.Writing.{write}
use cs232_operating_systems.FileSystem.Debug.{Line}

abbrev pub Text : Type 0
Text = List ℕ

-- A file of the host, open or not.
pub record Stream : Type 0 where
  pub bytes : Buffer
  pub count : ℕ

pub record Host : Type 0 where
  pub files : Text → Option Stream
  pub writable : Text → Bool

-- `4*BUFSIZ`.
abbrev pub buffer_size : ℕ
buffer_size = 32768

-- `fwrite(buffer, 1, n, stream)`.
abbrev pub fwrite : Stream → Buffer → ℕ → Stream
fwrite stream buffer n = record {
  bytes = copy stream.bytes stream.count buffer 0 n;
  count = stream.count + n;
}

-- The loop of `copyout`, for at most so many rounds.
unfoldable pub copyout_from :
    (rounds : ℕ) → FileSystem → ℕ → Buffer → ℕ → Stream → Outcome (ℕ × Stream × FileSystem)
copyout_from zero fs inumber buffer offset stream = returns (offset, stream, fs)
copyout_from (suc rounds) fs inumber buffer offset stream = do
  (result, buffer, fs) ← read fs inumber buffer buffer_size offset
  elim result [
    | negsuc _ ↦ returns (offset, stream, fs)
    | pos zero ↦ returns (offset, stream, fs)
    | pos (suc n) ↦
        copyout_from rounds fs inumber buffer (offset + suc n) (fwrite stream buffer (suc n))
  ]

-- What the loop of `copyin` ends with, besides the end of the stream.
pub data Trouble : Type 0 where
  invalid_result : ℤ → Trouble
  only_wrote : ℕ → ℕ → Trouble

-- The loop of `copyin`, for at most so many rounds, with the place in the stream.
unfoldable pub copyin_from :
    (rounds : ℕ)
    → FileSystem
    → Stream
    → ℕ
    → ℕ
    → Buffer
    → ℕ
    → Outcome (Option Trouble × ℕ × FileSystem)
copyin_from zero fs stream place inumber buffer offset = returns (none, offset, fs)
copyin_from (suc rounds) fs stream place inumber buffer offset =
    let result = min buffer_size (stream.count - place) in
    let buffer' = copy buffer 0 stream.bytes place result in
    elim result [
      | zero ↦ returns (none, offset, fs)
      | suc k ↦ do
        (actual, fs) ← write fs inumber buffer' (suc k) offset
        elim actual [
          | negsuc m ↦ returns (some (invalid_result (negsuc m)), offset, fs)
          | pos n ↦ elim (n == suc k) [
            | false ↦ returns (some (only_wrote n (suc k)), offset + n, fs)
            | true ↦ copyin_from rounds fs stream (place + suc k) inumber buffer' (offset + n)
          ]
        ]
    ]

-- What the shell prints, and the file that it writes.
pub data Message : Type 0 where
  usage : Message
  done : Message
  failed : Message
  lines_of : List Line → Message
  created : ℤ → Message
  removed : ℤ → Message
  size_of : ℤ → ℤ → Message
  unable_to_open : Text → Message
  wrote : Text → Stream → Message
  trouble : Trouble → Message
  bytes_copied : ℕ → Message
  list_of_commands : Message
  unknown_command : Message

abbrev pub troubles : Option Trouble → List Message
troubles none = []
troubles (some t) = trouble t ∷ []

abbrev pub empty_stream : Stream
empty_stream = record { bytes = blank; count = 0 }

unfoldable pub copyout :
    Host → (rounds : ℕ) → FileSystem → ℕ → Text → Outcome (Bool × List Message × FileSystem)
copyout host rounds fs inumber path =
    if host.writable path
    then (do
      (offset, stream, fs) ← copyout_from rounds fs inumber blank 0 empty_stream
      returns (true, wrote path stream ∷ bytes_copied offset ∷ [], fs))
    else returns (false, unable_to_open path ∷ [], fs)

unfoldable pub copyin :
    Host → (rounds : ℕ) → FileSystem → Text → ℕ → Outcome (Bool × List Message × FileSystem)
copyin host rounds fs path inumber = elim (host.files path) [
  | none ↦ returns (false, unable_to_open path ∷ [], fs)
  | some stream ↦ do
    (ended, offset, fs) ← copyin_from rounds fs stream 0 inumber blank 0
    returns (true, troubles ended ++ (bytes_copied offset ∷ []), fs)
]
