-- ===== src/Shell/Words.antt =====
-- `parseCmd` of Assignment2/shell4.c gives the words of a command.
use cs232_operating_systems.Common.{
  ℕ, zero, suc, ◌+◌, ◌≡◌, ◌≢◌, ◌≤◌, ◌<◌, refl, sym, ap, ◌∙◌, arith, ◌==◌, ltb, lt→ltb, le→not-ltb,
  if◌then◌else◌, List, [], ◌∷◌, Option, none, some, assign, length, take, true, false, Bool-cases,
  ◌⊎◌, inl, inr,
}
use cs232_operating_systems.Shell.{Text, space, max_arg, cut, parse_from, parse_cmd, size, argv}

-- The pieces of a text between the delimiters.
unfoldable pub split : ℕ → Text → List Text
split delim [] = [] ∷ []
split delim (c ∷ cs) = let rest = split delim cs in if c == delim then [] ∷ rest else attach c rest
  where
    attach : ℕ → List Text → List Text
    attach c [] = (c ∷ []) ∷ []
    attach c (t ∷ ts) = (c ∷ t) ∷ ts

abbrev pub pieces : ℕ → Option Text → List Text
pieces delim none = []
pieces delim (some s) = split delim s

abbrev pub not_empty : List Text → List Text
not_empty [] = []
not_empty ([] ∷ ts) = not_empty ts
not_empty ((c ∷ cs) ∷ ts) = (c ∷ cs) ∷ not_empty ts

-- The words of a command: its pieces between spaces, but for the empty ones.
abbrev pub words : Option Text → List Text
words str = not_empty (pieces space str)

-- The first piece is what `strsep` cuts off.
pub split-cut :
    (delim : ℕ) (s : Text) → split delim s ≡ (cut delim s).0 ∷ pieces delim (cut delim s).1
unfolding split cut
split-cut delim [] = refl
split-cut delim (c ∷ cs) = elim (Bool-cases (c == delim)) [
  | inl e ↦ rw e refl
  | inr e ↦ rw (e, split-cut delim cs) refl
]

pub size-cut : (delim : ℕ) (s : Text) → size (cut delim s).1 ≤ length s
unfolding cut
size-cut delim [] = omega arith
size-cut delim (c ∷ cs) = ground (arith, size-cut delim cs)

-- The array `cmd'` after the loop went on from place `i`, with `left` places to go.
record IsParsed (i left : ℕ) (str : Option Text) (cmd cmd' : ℕ → Option Text) : Type 0 where
  before : (k : ℕ) → k < i → cmd' k ≡ cmd k
  last : cmd' max_arg ≡ none
  reads : argv (suc left) cmd' i ≡ take left (words str)

assign_here : (cmd : ℕ → Option Text) (i : ℕ) (v : Option Text) → assign cmd i v i ≡ v
assign_here cmd i v = ground arith

assign_else : (cmd : ℕ → Option Text) (i k : ℕ) (v : Option Text) → k ≢ i → assign cmd i v k ≡ cmd k
assign_else cmd i k v h = ground arith

-- What `execvp` reads of an array.
pub argv-none : (n : ℕ) (cmd : ℕ → Option Text) (i : ℕ) → cmd i ≡ none → argv (suc n) cmd i ≡ []
argv-none n cmd i e = rw (argv, e) refl

pub argv-some :
    (n : ℕ) (cmd : ℕ → Option Text) (i : ℕ) (t : Text)
    → cmd i ≡ some t
    → argv (suc n) cmd i ≡ t ∷ argv n cmd (suc i)
argv-some n cmd i t e = rw (argv, e) refl

Text-cases : (t : Text) → (t ≡ []) ⊎ ((c : ℕ) × (cs : Text) × (t ≡ c ∷ cs))
Text-cases [] = inl refl
Text-cases (c ∷ cs) = inr (c, cs, refl)

words_skip : (s : Text) → (cut space s).0 ≡ [] → words (some s) ≡ words (cut space s).1
words_skip s e = ap not_empty (split-cut space s ∙ ap (λ t. t ∷ pieces space (cut space s).1) e)

words_take :
    (s : Text) {c : ℕ} {cs : Text}
    → (cut space s).0 ≡ c ∷ cs
    → words (some s) ≡ (c ∷ cs) ∷ words (cut space s).1
words_take s e = ap not_empty (split-cut space s ∙ ap (λ t. t ∷ pieces space (cut space s).1) e)

-- A round that finds an empty piece, and one that finds a word.
module _ (fuel i : ℕ) (s : Text) (cmd : ℕ → Option Text) (h : i < max_arg) where
  abbrev after_token : Text → Option (ℕ → Option Text)
  after_token a =
      let again = parse_from fuel i (cut space s).1 (assign cmd i (some a)) in
      let on = parse_from fuel (i + 1) (cut space s).1 (assign cmd i (some a)) in
      elim a [ [] ↦ again | c ∷ cs ↦ on ]

  parse_round :
      {a : Text} → (cut space s).0 ≡ a → parse_from (suc fuel) i (some s) cmd ≡ after_token a
  unfolding parse_from
  parse_round e = rw (lt→ltb i max_arg h) (ap after_token e)

-- Enough rounds, and the array is filled with the words.
parse_from_lem :
    (fuel i left : ℕ) (str : Option Text) (cmd : ℕ → Option Text)
    → size str + left < fuel
    → i + left ≡ max_arg
    → cmd max_arg ≡ none
    → (cmd' : ℕ → Option Text) × (parse_from fuel i str cmd ≡ some cmd')
      × IsParsed i left str cmd cmd'
unfolding parse_from
parse_from_lem zero i left str cmd h e end = absurd (omega arith)
parse_from_lem (suc fuel) i zero str cmd h e end =
    let full : ltb i max_arg ≡ false = le→not-ltb i max_arg (omega arith) in
    let here : cmd i ≡ none = ap cmd (omega arith) ∙ end in
    (cmd, rw full refl, record { before = λ k b. refl; last = end; reads = argv-none 0 cmd i here })
parse_from_lem (suc fuel) i (suc left) none cmd h e end =
    let room : ltb i max_arg ≡ true = lt→ltb i max_arg (omega arith) in
    (
      assign cmd i none,
      rw room refl,
      record {
        before = λ k b. assign_else cmd i k none (omega arith);
        last = assign_else cmd i max_arg none (omega arith) ∙ end;
        reads = argv-none (suc left) (assign cmd i none) i (assign_here cmd i none);
      },
    )
parse_from_lem (suc fuel) i (suc left) (some s) cmd h e end =
    let rest = (cut space s).1 in
    let shorter = size-cut space s in
    elim (Text-cases (cut space s).0) [
      | inl empty ↦
          let cmd₁ = assign cmd i (some []) in
          let (cmd', run, ok) =
            parse_from_lem fuel i (suc left) rest cmd₁ (omega arith) e
              (assign_else cmd i max_arg (some []) (omega arith) ∙ end) in
          (
            cmd',
            parse_round fuel i s cmd (omega arith) empty ∙ run,
            record {
              before = λ k b. ok.before k b ∙ assign_else cmd i k (some []) (omega arith);
              last = ok.last;
              reads = ok.reads ∙ ap (take (suc left)) (sym (words_skip s empty));
            },
          )
      | inr (c, cs, full) ↦
          let cmd₁ = assign cmd i (some (c ∷ cs)) in
          let (cmd', run, ok) =
            parse_from_lem fuel (i + 1) left rest cmd₁ (omega arith) (omega arith)
              (assign_else cmd i max_arg (some (c ∷ cs)) (omega arith) ∙ end) in
          let here = ok.before i (omega arith) ∙ assign_here cmd i (some (c ∷ cs)) in
          (
            cmd',
            parse_round fuel i s cmd (omega arith) full ∙ run,
            record {
              before = λ k b.
                  ok.before k (omega arith) ∙ assign_else cmd i k (some (c ∷ cs)) (omega arith);
              last = ok.last;
              reads =
                  argv-some (suc left) cmd' i (c ∷ cs) here
                  ∙ ap (λ n. (c ∷ cs) ∷ argv (suc left) cmd' n) {x = suc i} (omega arith)
                  ∙ ap (λ l. (c ∷ cs) ∷ l) ok.reads
                  ∙ ap (take (suc left)) (sym (words_take s full));
            },
          )
    ]

-- `parseCmd` ends and leaves the first ten words of the command in its array, whatever stood there
-- before, with a null pointer behind them. (Place 10 of the array is null before, and stays so.)
pub parse_cmd_lem :
    (str : Option Text) (cmd : ℕ → Option Text)
    → cmd max_arg ≡ none
    → (cmd' : ℕ → Option Text) × (parse_cmd str cmd ≡ some cmd')
      × (argv (max_arg + 1) cmd' 0 ≡ take max_arg (words str))
      × (cmd' max_arg ≡ none)
parse_cmd_lem str cmd end =
    let (cmd', run, ok) =
      parse_from_lem (size str + max_arg + 1) 0 max_arg str cmd (omega arith) refl end in
    (cmd', run, ok.reads, ok.last)
