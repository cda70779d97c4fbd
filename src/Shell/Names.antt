-- ===== src/Shell/Names.antt =====
-- src/remote_shell.rs: the launchers that `build_remote_launcher` builds, and the names in them.
use agent_runtime_sdk.Prelude.{
  ℕ, ◌≤◌, ◌≡◌, ◌⊎◌, inl, inr, Bool-cases, Text, List, [], ◌∷◌, ◌++◌, map, All, all, leb, ◌||◌, ◌&&◌,
  Bool, true, false, not, arith, text_eq,
}
use agent_runtime_sdk.Prelude.Result.{ok, bind_ok, reject_if}
use agent_runtime_sdk.Shell.Words.{shell_words, read_back}
use agent_runtime_sdk.Shell.Commands.{
  append_environment, append_arguments, valid_environment_name, is_name_start, TransportCommand,
  RemoteLoginEnvironment, login_values, launcher_start, build_remote_launcher, invalid_utf8,
  invalid_configuration,
}
use agent_runtime_sdk.Shell.Launcher.{IsVariable, assignment, build_remote_launcher-words}

-- A name of the shell: a letter or underscore, and then letters, digits and underscores.
abbrev IsLetter : ℕ → Type 0
IsLetter c = (c ≡ 95) ⊎ (((65 ≤ c) × (c ≤ 90)) ⊎ ((97 ≤ c) × (c ≤ 122)))

abbrev pub IsName : Text → Type 0
IsName [] = ⊥
IsName (c ∷ name) = IsLetter c × All (λ d. IsLetter d ⊎ ((48 ≤ d) × (d ≤ 57))) name

is_name_start_lem : (c : ℕ) → is_name_start c ≡ true → IsLetter c
is_name_start_lem c h = ground arith

all_names :
    (name : Text)
    → all (λ d. is_name_start d || (leb 48 d && leb d 57)) name ≡ true
    → All (λ d. IsLetter d ⊎ ((48 ≤ d) × (d ≤ 57))) name
all_names [] h = tt
all_names (d ∷ name) h = elim (Bool-cases (is_name_start d)) [
  | inl letter ↦ (inl (is_name_start_lem d letter), all_names name (ground arith))
  | inr other ↦ (inr (ground arith, ground arith), all_names name (ground arith))
]

valid_environment_name-IsName : (name : Text) → valid_environment_name name ≡ true → IsName name
unfolding valid_environment_name
valid_environment_name-IsName [] h = absurd cc
valid_environment_name-IsName (c ∷ name) h =
    (is_name_start_lem c (ground arith), all_names name (ground arith))

module _ (is_utf8 : Text → Bool) where
  append_environment-names :
      (environment : List (Text × Text)) (text : Text)
      → append_environment is_utf8 environment ≡ ok text
      → All (IsVariable is_utf8) environment
  unfolding append_environment
  append_environment-names [] text h = tt
  append_environment-names ((name, value) ∷ environment) text h =
      let (named, first, after_first) =
        bind_ok (reject_if (not (is_utf8 name)) invalid_utf8) _ text h in
      let (spelled, second, after_second) =
        bind_ok (reject_if (not (valid_environment_name name)) (invalid_configuration name)) _ text
          after_first in
      let (read, third, after_third) =
        bind_ok (reject_if (not (is_utf8 value)) invalid_utf8) _ text after_second in
      let (rest, built, last) =
        bind_ok (append_environment is_utf8 environment) _ text after_third in
      ((ground arith, ground arith, ground arith), append_environment-names environment rest built)

  append_arguments-utf8 :
      (arguments : List Text) (text : Text)
      → append_arguments is_utf8 arguments ≡ ok text
      → All (λ argument. is_utf8 argument ≡ true) arguments
  unfolding append_arguments
  append_arguments-utf8 [] text h = tt
  append_arguments-utf8 (argument ∷ arguments) text h =
      let (read, first, after_first) =
        bind_ok (reject_if (not (is_utf8 argument)) invalid_utf8) _ text h in
      let (rest, built, last) = bind_ok (append_arguments is_utf8 arguments) _ text after_first in
      (ground arith, append_arguments-utf8 arguments rest built)

  build_remote_launcher-accepts :
      (command : TransportCommand) (e : RemoteLoginEnvironment) (text : Text)
      → build_remote_launcher is_utf8 command e ≡ ok text
      → All (IsVariable is_utf8) command.environment
        × All (λ argument. is_utf8 argument ≡ true) (command.program ∷ command.args)
  unfolding build_remote_launcher
  build_remote_launcher-accepts command e text h =
      let (program, first, after_first) =
        bind_ok (reject_if (not (is_utf8 command.program)) invalid_utf8) _ text h in
      let (environment, second, after_second) =
        bind_ok (append_environment is_utf8 command.environment) _ text after_first in
      let (arguments, third, last) =
        bind_ok (append_arguments is_utf8 command.args) _ text after_second in
      (
        append_environment-names command.environment environment second,
        (ground arith, append_arguments-utf8 command.args arguments third),
      )

  variables-named :
      (environment : List (Text × Text))
      → All (IsVariable is_utf8) environment
      → All (λ (name, value). IsName name) environment
  variables-named [] valid = tt
  variables-named ((name, value) ∷ environment) ((named, spelled, read), others) =
      (valid_environment_name-IsName name spelled, variables-named environment others)

  -- Every launcher that is built and does not clear the environment is its first line, one command and a newline; a shell reads
  -- the command as `exec env`, the login environment, one `NAME=value` for each variable of the request,
  -- the program and its arguments, unless there is a NUL in one of them; and each of those names is
  -- a letter or underscore with letters, digits and underscores after it.
  pub build_remote_launcher-names :
      (command : TransportCommand) (e : RemoteLoginEnvironment) (text : Text)
      → build_remote_launcher is_utf8 command e ≡ ok text
      → command.clear_environment ≡ false
      → All (λ (name, value). IsName name) command.environment
        × ((body : Text) × (text ≡ launcher_start ++ (body ++ 10 ∷ []))
            × (shell_words body
                ≡ read_back (
                    (101 ∷ 120 ∷ 101 ∷ 99 ∷ [])
                    ∷ (101 ∷ 110 ∷ 118 ∷ [])
                    ∷ (login_values e
                        ++ (map assignment command.environment
                            ++ command.program ∷ command.args)))))
  build_remote_launcher-names command e text h kept =
      let (variables, texts) = build_remote_launcher-accepts command e text h in
      let (body, built, words) =
        build_remote_launcher-words is_utf8 command e variables texts kept in
      (variables-named command.environment variables, (body, cc, words))
