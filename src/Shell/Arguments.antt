-- ===== src/Shell/Arguments.antt =====
-- The calls for a command of Assignment2/shell4.c, by its list of words.
use cs232_operating_systems.Common.{
  ℕ, ◌≡◌, refl, sym, ap, ◌∙◌, Bool, List, [], ◌∷◌, Option, none, some, get_elem?, take,
  Option-cases, assign, Outcome, returns, undefined, ◌>>=◌, ◌⊎◌, inl, inr,
}
use cs232_operating_systems.Shell.{Text, space, max_arg, cut, argv, args_of}
use cs232_operating_systems.Shell.Words.{not_empty, pieces, words, argv-none, argv-some}
use cs232_operating_systems.Shell.Builtin.{
  Effect, fork_exec, own_cmd, after_own, execute, execute_back,
}
use cs232_operating_systems.Shell.Controller.{
  ampersand, Run, crashed, stuck, ending, check_sym_execute,
}

-- The first entries of an array, by the words in it.
module _ (cmd : ℕ → Option Text) where
  no_word : args_of cmd ≡ [] → cmd 0 ≡ none
  no_word e = elim (Option-cases (cmd 0)) [
    | inl h ↦ h
    | inr (t, h) ↦ absurd (cc (argv-some max_arg cmd 0 t h, e))
  ]

  second_entry : (l : List Text) → argv max_arg cmd 1 ≡ l → cmd 1 ≡ get_elem? l 0
  second_entry l e = elim (Option-cases (cmd 1)) [
    | inl h ↦ h ∙ ap (λ l. get_elem? l 0) (sym (argv-none 9 cmd 1 h) ∙ e)
    | inr (t, h) ↦ h ∙ ap (λ l. get_elem? l 0) (sym (argv-some 9 cmd 1 t h) ∙ e)
  ]

  entries :
      (w : Text) (ws : List Text)
      → args_of cmd ≡ w ∷ ws
      → (cmd 0 ≡ some w) × (cmd 1 ≡ get_elem? ws 0)
  entries w ws e = elim (Option-cases (cmd 0)) [
    | inl h ↦ absurd (cc (argv-none max_arg cmd 0 h, e))
    | inr (t, h) ↦
        let both = sym (argv-some max_arg cmd 0 t h) ∙ e in
        (h ∙ ap (λ l. get_elem? l 0) both, second_entry ws (cc))
  ]

-- What `execute1` does with a list of words.
abbrev pub command : List Text → Outcome Effect
command [] = undefined
command (w ∷ ws) = own_cmd (some w) (returns (get_elem? ws 0)) >>= after_own (fork_exec (w ∷ ws))

pub execute-command :
    (cmd : ℕ → Option Text) (l : List Text) → args_of cmd ≡ l → execute cmd ≡ command l
execute-command cmd [] e =
    ap (λ c. own_cmd c (returns (cmd 1)) >>= after_own (fork_exec (args_of cmd))) (no_word cmd e)
execute-command cmd (w ∷ ws) e =
    let (zeroth, first) = entries cmd w ws e in
    ap (λ c. own_cmd c (returns (cmd 1)) >>= after_own (fork_exec (args_of cmd))) zeroth
    ∙ ap (λ a. own_cmd (some w) (returns a) >>= after_own (fork_exec (args_of cmd))) first
    ∙ ap (λ l. own_cmd (some w) (returns (get_elem? ws 0)) >>= after_own (fork_exec l)) e

-- What `checkSymExecute` does with a list of words: only the first counts, up to an ampersand.
abbrev pub first_command : (Effect → Bool) → List Text → Run
first_command ends [] = ([], crashed)
first_command ends (w ∷ ws) = ending ends (execute_back (cut ampersand w).0)

not_empty-cases :
    (ts : List Text)
    → (not_empty ts ≡ [])
      ⊎ ((c : ℕ) × (cs : Text) × (ws : List Text) × (not_empty ts ≡ (c ∷ cs) ∷ ws))
not_empty-cases [] = inl refl
not_empty-cases ([] ∷ ts) = not_empty-cases ts
not_empty-cases ((c ∷ cs) ∷ ts) = inr (c, cs, not_empty ts, refl)

module _ (ends : Effect → Bool) (cmd : ℕ → Option Text) where
  abbrev checked : Option Text → Run × (ℕ → Option Text)
  checked none = (([], crashed), cmd)
  checked (some []) = (([], stuck), cmd)
  checked (some (c ∷ cs)) = (
    ending ends (execute_back (cut ampersand (c ∷ cs)).0),
    assign cmd 0 (cut ampersand (c ∷ cs)).1,
  )

  checked_lem : (o : Option Text) → cmd 0 ≡ o → check_sym_execute ends cmd ≡ checked o
  checked_lem none e = rw (check_sym_execute, e) refl
  checked_lem (some []) e = rw (check_sym_execute, e) refl
  checked_lem (some (c ∷ cs)) e = rw (check_sym_execute, e) refl

  -- The loop of `checkSymExecute` ends, since no word is empty.
  pub check_sym_execute-first_command :
      (str : Option Text)
      → args_of cmd ≡ take max_arg (words str)
      → ((check_sym_execute ends cmd).0 ≡ first_command ends (take max_arg (words str)))
        × ((check_sym_execute ends cmd).1 max_arg ≡ cmd max_arg)
  check_sym_execute-first_command str e = elim (not_empty-cases (pieces space str)) [
    | inl f ↦
        let run = checked_lem none (no_word cmd (e ∙ ap (take max_arg) f)) in
        (
          ap (λ r. r.0) run ∙ ap (λ l. first_command ends (take max_arg l)) (sym f),
          ap (λ r. r.1 max_arg) run,
        )
    | inr (c, cs, ws, f) ↦
        let run =
          checked_lem (some (c ∷ cs))
            (entries cmd (c ∷ cs) (take 9 ws) (e ∙ ap (take max_arg) f)).0 in
        (
          ap (λ r. r.0) run ∙ ap (λ l. first_command ends (take max_arg l)) (sym f),
          ap (λ r. r.1 max_arg) run,
        )
  ]
