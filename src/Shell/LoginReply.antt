-- ===== src/Shell/LoginReply.antt =====
-- src/remote_shell.rs: `parse_login_environment` on what the probe prints.
use agent_runtime_sdk.Prelude.{
  ◌≤◌, ◌≡◌, ◌≢◌, refl, Text, text_eq, Bool, true, false, ◌||◌, ◌==◌, Option, none, some, List, [],
  ◌∷◌, ◌++◌, All, length, arith,
}
use agent_runtime_sdk.Prelude.Result.{ok}
use agent_runtime_sdk.Shell.Commands.{RemoteLoginEnvironment}
use agent_runtime_sdk.Shell.Replies.{
  login_environment_marker, after_last, split, is_empty, parse_login_environment_field,
  parse_login_environment,
}

-- Each value, and a NUL.
abbrev pub terminated : List Text → Text
terminated [] = []
terminated (value ∷ values) = value ++ (0 ∷ terminated values)

-- No NUL.
abbrev pub IsPlain : Text → Type 0
IsPlain = All (λ c. c ≢ 0)

split-terminated :
    (value rest : Text) → IsPlain value → split 0 (value ++ (0 ∷ rest)) ≡ value ∷ split 0 rest
unfolding split
split-terminated [] rest plain = refl
split-terminated (c ∷ value) rest plain =
    ground (arith, split-terminated value rest plain.1, plain.0)

after_last-noise :
    (marker noise text payload : Text)
    → after_last marker text ≡ some payload
    → after_last marker (noise ++ text) ≡ some payload
unfolding after_last
after_last-noise marker [] text payload h = h
after_last-noise marker (c ∷ noise) text payload h =
    rw (after_last-noise marker noise text payload h) refl

-- The marker is found where it is printed, unless what follows its NUL is one more.
after_last-marker :
    (payload : Text)
    → after_last login_environment_marker (0 ∷ payload) ≡ none
    → after_last login_environment_marker (login_environment_marker ++ payload) ≡ some payload
unfolding after_last
after_last-marker payload h = rw h refl

module _ (is_utf8 : Text → Bool) where
  -- A value that the probe prints and the parser takes.
  abbrev pub IsField : Text → Type 0
  IsField value =
      IsPlain value × (is_empty value ≡ false) × (length value ≤ 65536) × (is_utf8 value ≡ true)

  field-ok :
      (value : Text) → IsField value → parse_login_environment_field is_utf8 (some value) ≡ ok value
  unfolding parse_login_environment_field
  field-ok value (plain, full, short, read) = ground arith

  -- What the probe prints after the marker is parsed as what was printed, whatever the login shell prints before the
  -- marker: for a home, a path and a shell that are not empty, hold no NUL, are UTF-8 and at most 65,536 bytes long, where
  -- the shell's file name is bash or zsh and the marker does not stand in the values themselves.
  pub parse_login_environment-terminated :
      (file_name : Text → Option Text) (noise name : Text) (e : RemoteLoginEnvironment)
      → IsField e.home
      → IsField e.path
      → IsField e.shell
      → file_name e.shell ≡ some name
      → (name == (98 ∷ 97 ∷ 115 ∷ 104 ∷ []) || name == (122 ∷ 115 ∷ 104 ∷ [])) ≡ true
      → after_last login_environment_marker (0 ∷ terminated (e.home ∷ e.path ∷ e.shell ∷ [])) ≡ none
      → parse_login_environment is_utf8 file_name
          (noise ++ (login_environment_marker ++ terminated (e.home ∷ e.path ∷ e.shell ∷ [])))
        ≡ ok e
  unfolding parse_login_environment
  parse_login_environment-terminated file_name noise name e home path shell named known once =
      let payload = terminated (e.home ∷ e.path ∷ e.shell ∷ []) in
      let found =
        after_last-noise login_environment_marker noise (login_environment_marker ++ payload)
          payload (after_last-marker payload once) in
      let first = split-terminated e.home (terminated (e.path ∷ e.shell ∷ [])) home.0 in
      let second = split-terminated e.path (terminated (e.shell ∷ [])) path.0 in
      let third = split-terminated e.shell [] shell.0 in
      let home_read = field-ok e.home home in
      let path_read = field-ok e.path path in
      let shell_read = field-ok e.shell shell in
      rw
        (
          found, first, second, third, home_read, path_read, shell_read, named, known,
          parse_login_environment,
        )
        refl
