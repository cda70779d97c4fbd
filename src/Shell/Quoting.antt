-- ===== src/Shell/Quoting.antt =====
-- src/remote_shell.rs: what a shell reads in quoted values.
use agent_runtime_sdk.Prelude.{
  take, Text, text_eq, ◌≡◌, true, List, [], ◌∷◌, ◌++◌, eqb, Bool-cases, refl, ◌∙◌, inl, inr, Bool,
  arith, ap, subst, false, some,
}
use mathlib.Core.List.{append_assoc, append-nil}
use agent_runtime_sdk.Shell.Words.{
  Quote, bare, single, Reading, read_char, read_text, finish_reading, outside, split_words,
  shell_words, read_back,
}
use agent_runtime_sdk.Shell.Commands.{
  escape_quotes, quote_posix, quoted_arguments, build_version_command,
  build_executable_resolution_command, probe_command, RemoteLoginEnvironment, login_values,
  version_flag,
}
use agent_runtime_sdk.Shell.Nul.{
  probe_words, quote_posix-has_nul, split_words-read, resolution-has_nul, version-has_nul,
}

-- A word that has begun, within these quotes.
abbrev pub inside : Quote → Text → List Text → Reading
inside q word words = record { quote = q; begun = true; word = word; words = words }

pub escape_quotes-read :
    (value rest word : Text) (words : List Text)
    → read_text (escape_quotes value ++ 39 ∷ rest) (inside single word words)
      ≡ read_text rest (inside bare (word ++ value) words)
unfolding escape_quotes read_text read_char
escape_quotes-read [] rest word words = rw (append-nil word) refl
escape_quotes-read (c ∷ value) rest word words =
    let next = escape_quotes-read value rest (word ++ c ∷ []) words in
    let longer : (word ++ c ∷ []) ++ value ≡ word ++ (c ∷ value) =
      append_assoc word (c ∷ []) value in
    let whole : read_text (escape_quotes value ++ 39 ∷ rest) (inside single (word ++ c ∷ []) words)
        ≡ read_text rest (inside bare (word ++ c ∷ value) words) =
      next ∙ ap (λ w. read_text rest (inside bare w words)) longer in
    elim (Bool-cases (eqb c 39)) [
      | inl quote ↦
          let same : c ≡ 39 = ground arith in
          rw quote (
            subst
              (λ d.
                read_text (escape_quotes value ++ 39 ∷ rest) (inside single (word ++ d ∷ []) words)
                ≡ read_text rest (inside bare (word ++ c ∷ value) words))
              same whole)
      | inr plain ↦ rw plain (rw plain whole)
    ]

-- A quoted value is read as itself, joined to the word before it.
pub quote_posix-read :
    (value rest word : Text) (words : List Text) (begun : Bool)
    → read_text
        (quote_posix value ++ rest)
        (record { quote = bare; begun = begun; word = word; words = words })
      ≡ read_text rest (inside bare (word ++ value) words)
unfolding quote_posix read_text read_char
quote_posix-read value rest word words begun =
    rw (append_assoc (escape_quotes value) (39 ∷ []) rest)
      (escape_quotes-read value rest word words)

-- The reading once these words follow the one that has begun.
abbrev pub continued : List Text → Text → List Text → Reading
continued [] word words = inside bare word words
continued (value ∷ values) word words = continued values value (words ++ word ∷ [])

pub quoted_arguments-read :
    (values : List Text) (rest word : Text) (words : List Text)
    → read_text (quoted_arguments values ++ rest) (inside bare word words)
      ≡ read_text rest (continued values word words)
unfolding quoted_arguments read_text read_char
quoted_arguments-read [] rest word words = refl
quoted_arguments-read (value ∷ values) rest word words =
    rw (append_assoc (quote_posix value) (quoted_arguments values) rest) (
      quote_posix-read value (quoted_arguments values ++ rest) [] (words ++ word ∷ []) false
      ∙ quoted_arguments-read values rest value (words ++ word ∷ []))

pub finish_continued :
    (values : List Text) (word : Text) (words : List Text)
    → finish_reading (continued values word words) ≡ some (words ++ word ∷ values)
finish_continued [] word words = refl
finish_continued (value ∷ values) word words =
    finish_continued values value (words ++ word ∷ [])
    ∙ ap some (append_assoc words (word ∷ []) (value ∷ values))

-- A shell that reads quoted values reads back those values as its words, each as it was and with nothing expanded, whatever
-- bytes they hold but NUL; with a NUL in one of them the command has no reading.
pub quote_posix-words :
    (value : Text) (values : List Text)
    → shell_words (quote_posix value ++ quoted_arguments values) ≡ read_back (value ∷ values)
unfolding split_words read_text
quote_posix-words value values =
    let first = quote_posix-read value (quoted_arguments values) [] [] false in
    let others =
      rw (append-nil (quoted_arguments values)) at (quoted_arguments-read values [] value []) in
    let whole : read_text (quote_posix value ++ quoted_arguments values) (outside [])
        ≡ some (continued values value []) =
      first ∙ others in
    let split : split_words (quote_posix value ++ quoted_arguments values) ≡ some (value ∷ values) =
      rw (whole, split_words) (finish_continued values value []) in
    split_words-read _ (value ∷ values) split (quote_posix-has_nul value values)

version_words :
    (executable : Text) (e : RemoteLoginEnvironment)
    → split_words (build_version_command executable e)
      ≡ some (
          (101 ∷ 110 ∷ 118 ∷ [])
          ∷ (45 ∷ 105 ∷ [])
          ∷ (login_values e ++ executable ∷ version_flag ∷ []))
unfolding split_words build_version_command read_text read_char
version_words executable e =
    let values = login_values e ++ executable ∷ [] in
    let arguments =
      quoted_arguments-read values (32 ∷ version_flag) (45 ∷ 105 ∷ [])
        ((101 ∷ 110 ∷ 118 ∷ []) ∷ []) in
    rw (arguments, split_words) refl

resolution_words :
    (program : Text) (e : RemoteLoginEnvironment)
    → split_words (build_executable_resolution_command program e)
      ≡ some (
          (101 ∷ 110 ∷ 118 ∷ [])
          ∷ (45 ∷ 105 ∷ [])
          ∷ (login_values e ++ (probe_words ++ program ∷ [])))
unfolding split_words build_executable_resolution_command read_text read_char
resolution_words program e =
    let values = login_values e in
    let rest = probe_command ++ quoted_arguments (program ∷ []) in
    let arguments =
      quoted_arguments-read values rest (45 ∷ 105 ∷ []) ((101 ∷ 110 ∷ 118 ∷ []) ∷ []) in
    let before : List Text =
      (101 ∷ 110 ∷ 118 ∷ []) ∷ (45 ∷ 105 ∷ []) ∷ (values ++ take 3 probe_words) in
    let last = rw (append-nil (quoted_arguments (program ∷ []))) at (
      quoted_arguments-read (program ∷ []) []
        (114 ∷ 117 ∷ 110 ∷ 116 ∷ 105 ∷ 109 ∷ 101 ∷ 45 ∷ 112 ∷ 114 ∷ 111 ∷ 98 ∷ 101 ∷ []) before) in
    rw (arguments, split_words) (rw last refl)

-- The words of the two probes of a program, whatever the program and the login environment hold, so that no part of a value is
-- run (with a NUL in a value the command has no reading): both are `env -i` with the three variables of the login environment; the one resolves the program by
-- `/bin/sh -c` with a fixed script and the program as its argument, the other runs the program with `--version`.
pub probe_commands-words :
    (program : Text) (e : RemoteLoginEnvironment)
    → (shell_words (build_executable_resolution_command program e)
        ≡ read_back (
            (101 ∷ 110 ∷ 118 ∷ [])
            ∷ (45 ∷ 105 ∷ [])
            ∷ (login_values e ++ (probe_words ++ program ∷ []))))
      × (shell_words (build_version_command program e)
          ≡ read_back (
              (101 ∷ 110 ∷ 118 ∷ [])
              ∷ (45 ∷ 105 ∷ [])
              ∷ (login_values e ++ program ∷ version_flag ∷ [])))
probe_commands-words program e = (
  split_words-read _ _ (resolution_words program e) (resolution-has_nul program e),
  split_words-read _ _ (version_words program e) (version-has_nul program e),
)
