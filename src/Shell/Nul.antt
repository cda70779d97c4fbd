-- ===== src/Shell/Nul.antt =====
-- src/remote_shell.rs: a NUL in a command that is built from quoted values.
use mathlib.Core.List.{append_assoc, append-nil}
use agent_runtime_sdk.Prelude.{
  Text, text_eq, ◌≡◌, refl, Bool, ◌||◌, List, [], ◌∷◌, ◌++◌, any, eqb, some, arith,
}
use agent_runtime_sdk.Shell.Words.{has_nul, split_words, shell_words, read_back}
use agent_runtime_sdk.Shell.Commands.{
  escape_quotes, quote_posix, quoted_arguments, build_version_command,
  build_executable_resolution_command, probe_command, RemoteLoginEnvironment, login_values,
  version_flag,
}

-- `/bin/sh`, `-c`, `command -v "$1"` and `runtime-probe`
abbrev pub probe_words : List Text
probe_words =
    (47 ∷ 98 ∷ 105 ∷ 110 ∷ 47 ∷ 115 ∷ 104 ∷ [])
    ∷ (45 ∷ 99 ∷ [])
    ∷ (99 ∷ 111 ∷ 109 ∷ 109 ∷ 97 ∷ 110 ∷ 100 ∷ 32 ∷ 45 ∷ 118 ∷ 32 ∷ 34 ∷ 36 ∷ 49 ∷ 34 ∷ [])
    ∷ (114 ∷ 117 ∷ 110 ∷ 116 ∷ 105 ∷ 109 ∷ 101 ∷ 45 ∷ 112 ∷ 114 ∷ 111 ∷ 98 ∷ 101 ∷ [])
    ∷ []

any-append :
    {A : Type 0} (p : A → Bool) (xs ys : List A) → any p (xs ++ ys) ≡ (any p xs || any p ys)
any-append p [] ys = refl
any-append p (x ∷ xs) ys = ground (arith, any-append p xs ys)

escape_quotes-has_nul : (value : Text) → has_nul (escape_quotes value) ≡ has_nul value
unfolding escape_quotes
escape_quotes-has_nul [] = refl
escape_quotes-has_nul (c ∷ value) = ground (arith, escape_quotes-has_nul value)

quoted-has_nul :
    (value rest : Text) → has_nul (quote_posix value ++ rest) ≡ (has_nul value || has_nul rest)
unfolding quote_posix
quoted-has_nul value rest =
    let inner = any-append (λ c. eqb c 0) (escape_quotes value) (39 ∷ rest) in
    rw (append_assoc (escape_quotes value) (39 ∷ []) rest)
      (rw (inner, escape_quotes-has_nul value) refl)

-- Quoting brings no NUL into a command, and keeps those of the values.
pub quoted_arguments-has_nul :
    (values : List Text) (rest : Text)
    → has_nul (quoted_arguments values ++ rest) ≡ (any has_nul values || has_nul rest)
unfolding quoted_arguments
quoted_arguments-has_nul [] rest = refl
quoted_arguments-has_nul (value ∷ values) rest =
    let first = quoted-has_nul value (quoted_arguments values ++ rest) in
    let others = quoted_arguments-has_nul values rest in
    rw (append_assoc (quote_posix value) (quoted_arguments values) rest)
      (ground (arith, first, others))

pub quote_posix-has_nul :
    (value : Text) (values : List Text)
    → has_nul (quote_posix value ++ quoted_arguments values) ≡ any has_nul (value ∷ values)
quote_posix-has_nul value values =
    let others =
      rw (append-nil (quoted_arguments values)) at (quoted_arguments-has_nul values []) in
    ground (arith, quoted-has_nul value (quoted_arguments values), others)

pub version-has_nul :
    (executable : Text) (e : RemoteLoginEnvironment)
    → has_nul (build_version_command executable e)
      ≡ any has_nul (
          (101 ∷ 110 ∷ 118 ∷ [])
          ∷ (45 ∷ 105 ∷ [])
          ∷ (login_values e ++ executable ∷ version_flag ∷ []))
unfolding build_version_command
version-has_nul executable e =
    let whole = quoted_arguments-has_nul (login_values e ++ executable ∷ []) (32 ∷ version_flag) in
    ground (arith, whole)

pub resolution-has_nul :
    (program : Text) (e : RemoteLoginEnvironment)
    → has_nul (build_executable_resolution_command program e)
      ≡ any has_nul (
          (101 ∷ 110 ∷ 118 ∷ [])
          ∷ (45 ∷ 105 ∷ [])
          ∷ (login_values e ++ (probe_words ++ program ∷ [])))
unfolding build_executable_resolution_command
resolution-has_nul program e =
    let rest = probe_command ++ quoted_arguments (program ∷ []) in
    let whole = quoted_arguments-has_nul (login_values e) rest in
    let last =
      rw (append-nil (quoted_arguments (program ∷ []))) at
        (quoted_arguments-has_nul (program ∷ []) []) in
    ground (arith, whole, last)

-- A command is read as its words are, once it holds a NUL exactly when they do.
pub split_words-read :
    (text : Text) (words : List Text)
    → split_words text ≡ some words
    → has_nul text ≡ any has_nul words
    → shell_words text ≡ read_back words
unfolding shell_words
split_words-read text words split same = rw (same, split) refl
