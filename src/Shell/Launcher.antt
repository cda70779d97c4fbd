-- ===== src/Shell/Launcher.antt =====
-- src/remote_shell.rs: what a shell reads in `build_remote_launcher`.
use agent_runtime_sdk.Prelude.{
  ◌≡◌, refl, sym, ap, Text, List, [], ◌∷◌, ◌++◌, map, All, Bool, true, false, arith, text_eq,
}
use agent_runtime_sdk.Prelude.Result.{ok}
use mathlib.Core.List.{append_assoc, append-nil}
use agent_runtime_sdk.Shell.Words.{read_char, read_text, split_words, shell_words, read_back}
use agent_runtime_sdk.Shell.Commands.{
  quote_posix, quoted_arguments, append_environment, append_arguments, valid_environment_name,
  TransportCommand, RemoteLoginEnvironment, login_values, launcher_start, exec_env,
  build_remote_launcher,
}
use agent_runtime_sdk.Shell.Quoting.{finish_continued, quoted_arguments-read}
use agent_runtime_sdk.Shell.Nul.{quoted_arguments-has_nul, split_words-read}

-- `NAME=value`
abbrev pub assignment : Text × Text → Text
assignment (name, value) = name ++ (61 ∷ value)

quoted_arguments-append :
    (xs ys : List Text) → quoted_arguments (xs ++ ys) ≡ quoted_arguments xs ++ quoted_arguments ys
unfolding quoted_arguments
quoted_arguments-append [] ys = refl
quoted_arguments-append (x ∷ xs) ys =
    rw (quoted_arguments-append xs ys)
      (ap (◌∷◌ 32) (sym (append_assoc (quote_posix x) (quoted_arguments xs) (quoted_arguments ys))))

arguments_joined :
    (login environment : List Text) (program : Text) (arguments : List Text) (rest : Text)
    → quoted_arguments login
        ++ (quoted_arguments environment
            ++ (32 ∷ (quote_posix program ++ (quoted_arguments arguments ++ rest))))
      ≡ quoted_arguments (login ++ (environment ++ program ∷ arguments)) ++ rest
unfolding quoted_arguments
arguments_joined login environment program arguments rest =
    let words = program ∷ arguments in
    let inner = quoted_arguments environment ++ quoted_arguments words in
    rw
      (
        quoted_arguments-append login (environment ++ words),
        quoted_arguments-append environment words,
        append_assoc (quoted_arguments login) inner rest,
        append_assoc (quoted_arguments environment) (quoted_arguments words) rest,
        append_assoc (quote_posix program) (quoted_arguments arguments) rest,
      )
      refl

exec_env-words :
    (values : List Text)
    → shell_words (exec_env ++ quoted_arguments values)
      ≡ read_back ((101 ∷ 120 ∷ 101 ∷ 99 ∷ []) ∷ (101 ∷ 110 ∷ 118 ∷ []) ∷ values)
unfolding split_words read_text read_char
exec_env-words values =
    let started : List Text = (101 ∷ 120 ∷ 101 ∷ 99 ∷ []) ∷ [] in
    let whole =
      rw (append-nil (quoted_arguments values)) at
        (quoted_arguments-read values [] (101 ∷ 110 ∷ 118 ∷ []) started) in
    let kept = rw (append-nil (quoted_arguments values)) at (quoted_arguments-has_nul values []) in
    split_words-read (exec_env ++ quoted_arguments values)
      ((101 ∷ 120 ∷ 101 ∷ 99 ∷ []) ∷ (101 ∷ 110 ∷ 118 ∷ []) ∷ values)
      (rw (whole, split_words) (finish_continued values (101 ∷ 110 ∷ 118 ∷ []) started))
      (ground (arith, kept))

module _ (is_utf8 : Text → Bool) where
  -- A variable that the launcher accepts.
  abbrev pub IsVariable : Text × Text → Type 0
  IsVariable (name, value) =
      (is_utf8 name ≡ true) × (valid_environment_name name ≡ true) × (is_utf8 value ≡ true)

  append_environment-ok :
      (environment : List (Text × Text))
      → All IsVariable environment
      → append_environment is_utf8 environment ≡ ok (quoted_arguments (map assignment environment))
  unfolding append_environment quoted_arguments
  append_environment-ok [] valid = refl
  append_environment-ok ((name, value) ∷ environment) ((named, spelled, read), others) =
      let rest = append_environment-ok environment others in rw (named, spelled, read, rest) refl

  append_arguments-ok :
      (arguments : List Text)
      → All (λ argument. is_utf8 argument ≡ true) arguments
      → append_arguments is_utf8 arguments ≡ ok (quoted_arguments arguments)
  unfolding append_arguments quoted_arguments
  append_arguments-ok [] valid = refl
  append_arguments-ok (argument ∷ arguments) (here, others) =
      let rest = append_arguments-ok arguments others in rw (here, rest) refl

  -- What the launcher runs when it does not clear the environment: after its first line comes one command and
  -- a newline, and a shell reads the command as `exec env`, the three variables of the login environment,
  -- the variables of the request, the program and its arguments, each as it was and with nothing expanded; with a NUL in one
  -- of them the command has no reading. The names of the variables must be names of the shell, and
  -- all texts UTF-8.
  pub build_remote_launcher-words :
      (command : TransportCommand) (e : RemoteLoginEnvironment)
      → All IsVariable command.environment
      → All (λ argument. is_utf8 argument ≡ true) (command.program ∷ command.args)
      → command.clear_environment ≡ false
      → (body : Text) × (build_remote_launcher is_utf8 command e
          ≡ ok (launcher_start ++ (body ++ 10 ∷ [])))
        × (shell_words body
            ≡ read_back (
                (101 ∷ 120 ∷ 101 ∷ 99 ∷ [])
                ∷ (101 ∷ 110 ∷ 118 ∷ [])
                ∷ (login_values e
                    ++ (map assignment command.environment ++ command.program ∷ command.args))))
  unfolding build_remote_launcher
  build_remote_launcher-words command e variables (program, arguments) kept =
      let values =
        login_values e ++ (map assignment command.environment ++ command.program ∷ command.args) in
      let environment_built = append_environment-ok command.environment variables in
      let arguments_built = append_arguments-ok command.args arguments in
      (
        exec_env ++ quoted_arguments values,
        rw (program, kept, environment_built, arguments_built, build_remote_launcher)
            (ap (λ t. ok (launcher_start ++ (exec_env ++ t)))
              (arguments_joined (login_values e) (map assignment command.environment)
                command.program command.args (10 ∷ []))),
        exec_env-words values,
      )
