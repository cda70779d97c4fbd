-- ===== src/Shell/Commands.antt =====
-- src/remote_shell.rs: `quote_posix`, the commands and the launcher built from it.
-- Texts are their bytes; whether the bytes of an operating-system string are UTF-8 is a parameter.
use agent_runtime_sdk.Prelude.{
  ℕ, Text, Bool, false, not, List, [], ◌∷◌, ◌++◌, ◌&&◌, ◌||◌, if◌then◌else◌, eqb, leb, all, text_eq,
}
use agent_runtime_sdk.Prelude.Result.{Result, ok, ◌>>=◌, ◌>>◌, reject_if}

-- `value.replace('\'', "'\"'\"'")`.
unfoldable pub escape_quotes : Text → Text
escape_quotes [] = []
escape_quotes (c ∷ text) =
    let rest = escape_quotes text in if eqb c 39 then 39 ∷ 34 ∷ 39 ∷ 34 ∷ 39 ∷ rest else c ∷ rest

unfoldable pub quote_posix : Text → Text
quote_posix value = 39 ∷ (escape_quotes value ++ 39 ∷ [])

abbrev pub is_name_start : ℕ → Bool
is_name_start c = eqb c 95 || (leb 97 c && leb c 122) || (leb 65 c && leb c 90)

unfoldable pub valid_environment_name : Text → Bool
valid_environment_name [] = false
valid_environment_name (c ∷ name) =
    is_name_start c && all (λ d. is_name_start d || (leb 48 d && leb d 57)) name

pub record RemoteLoginEnvironment : Type 0 where
  pub home : Text
  pub path : Text
  pub shell : Text

pub data TransportError : Type 0 where
  invalid_configuration : Text → TransportError
  invalid_utf8 : TransportError

-- `NAME=`
abbrev pub home_is : Text
home_is = 72 ∷ 79 ∷ 77 ∷ 69 ∷ 61 ∷ []

abbrev pub path_is : Text
path_is = 80 ∷ 65 ∷ 84 ∷ 72 ∷ 61 ∷ []

abbrev pub shell_is : Text
shell_is = 83 ∷ 72 ∷ 69 ∷ 76 ∷ 76 ∷ 61 ∷ []

-- `env -i`
abbrev pub env_i : Text
env_i = 101 ∷ 110 ∷ 118 ∷ 32 ∷ 45 ∷ 105 ∷ []

-- `--version`
abbrev pub version_flag : Text
version_flag = 45 ∷ 45 ∷ 118 ∷ 101 ∷ 114 ∷ 115 ∷ 105 ∷ 111 ∷ 110 ∷ []

-- Each value quoted, after a space.
unfoldable pub quoted_arguments : List Text → Text
quoted_arguments [] = []
quoted_arguments (value ∷ values) = 32 ∷ (quote_posix value ++ quoted_arguments values)

abbrev pub login_values : RemoteLoginEnvironment → List Text
login_values e = (home_is ++ e.home) ∷ (path_is ++ e.path) ∷ (shell_is ++ e.shell) ∷ []

unfoldable pub build_version_command : Text → RemoteLoginEnvironment → Text
build_version_command executable e =
    env_i ++ (quoted_arguments (login_values e ++ executable ∷ []) ++ (32 ∷ version_flag))

-- A space and `/bin/sh -c 'command -v "$1"' runtime-probe`
abbrev pub probe_command : Text
probe_command =
    32 ∷ 47 ∷ 98 ∷ 105 ∷ 110 ∷ 47 ∷ 115 ∷ 104 ∷ 32 ∷ 45 ∷ 99 ∷ 32 ∷ 39 ∷ 99 ∷ 111 ∷ 109 ∷ 109 ∷ 97
    ∷ 110 ∷ 100 ∷ 32 ∷ 45 ∷ 118 ∷ 32 ∷ 34 ∷ 36 ∷ 49 ∷ 34 ∷ 39 ∷ 32 ∷ 114 ∷ 117 ∷ 110 ∷ 116 ∷ 105
    ∷ 109 ∷ 101 ∷ 45 ∷ 112 ∷ 114 ∷ 111 ∷ 98 ∷ 101 ∷ []

unfoldable pub build_executable_resolution_command : Text → RemoteLoginEnvironment → Text
build_executable_resolution_command program e =
    env_i
    ++ (quoted_arguments (login_values e) ++ (probe_command ++ quoted_arguments (program ∷ [])))

-- `#!/bin/sh`, a newline, and `exec env`
abbrev pub launcher_start : Text
launcher_start = 35 ∷ 33 ∷ 47 ∷ 98 ∷ 105 ∷ 110 ∷ 47 ∷ 115 ∷ 104 ∷ 10 ∷ []

abbrev pub exec_env : Text
exec_env = 101 ∷ 120 ∷ 101 ∷ 99 ∷ 32 ∷ 101 ∷ 110 ∷ 118 ∷ []

-- USER LOGNAME LANG LC_ALL LC_CTYPE TERM NO_COLOR TMPDIR
-- CLAUDE_HOME CODEX_HOME PI_CODING_AGENT_DIR PI_CODING_AGENT_SESSION_DIR SSL_CERT_FILE SSL_CERT_DIR
abbrev pub safe_remote_environment : List Text
safe_remote_environment =
    (85 ∷ 83 ∷ 69 ∷ 82 ∷ [])
    ∷ (76 ∷ 79 ∷ 71 ∷ 78 ∷ 65 ∷ 77 ∷ 69 ∷ [])
    ∷ (76 ∷ 65 ∷ 78 ∷ 71 ∷ [])
    ∷ (76 ∷ 67 ∷ 95 ∷ 65 ∷ 76 ∷ 76 ∷ [])
    ∷ (76 ∷ 67 ∷ 95 ∷ 67 ∷ 84 ∷ 89 ∷ 80 ∷ 69 ∷ [])
    ∷ (84 ∷ 69 ∷ 82 ∷ 77 ∷ [])
    ∷ (78 ∷ 79 ∷ 95 ∷ 67 ∷ 79 ∷ 76 ∷ 79 ∷ 82 ∷ [])
    ∷ (84 ∷ 77 ∷ 80 ∷ 68 ∷ 73 ∷ 82 ∷ [])
    ∷ (67 ∷ 76 ∷ 65 ∷ 85 ∷ 68 ∷ 69 ∷ 95 ∷ 72 ∷ 79 ∷ 77 ∷ 69 ∷ [])
    ∷ (67 ∷ 79 ∷ 68 ∷ 69 ∷ 88 ∷ 95 ∷ 72 ∷ 79 ∷ 77 ∷ 69 ∷ [])
    ∷ (80 ∷ 73 ∷ 95 ∷ 67 ∷ 79 ∷ 68 ∷ 73 ∷ 78 ∷ 71 ∷ 95 ∷ 65 ∷ 71 ∷ 69 ∷ 78 ∷ 84 ∷ 95 ∷ 68 ∷ 73 ∷ 82
        ∷ [])
    ∷ (80 ∷ 73 ∷ 95 ∷ 67 ∷ 79 ∷ 68 ∷ 73 ∷ 78 ∷ 71 ∷ 95 ∷ 65 ∷ 71 ∷ 69 ∷ 78 ∷ 84 ∷ 95 ∷ 83 ∷ 69 ∷ 83
        ∷ 83 ∷ 73 ∷ 79 ∷ 78 ∷ 95 ∷ 68 ∷ 73 ∷ 82 ∷ [])
    ∷ (83 ∷ 83 ∷ 76 ∷ 95 ∷ 67 ∷ 69 ∷ 82 ∷ 84 ∷ 95 ∷ 70 ∷ 73 ∷ 76 ∷ 69 ∷ [])
    ∷ (83 ∷ 83 ∷ 76 ∷ 95 ∷ 67 ∷ 69 ∷ 82 ∷ 84 ∷ 95 ∷ 68 ∷ 73 ∷ 82 ∷ [])
    ∷ []

pub record TransportCommand : Type 0 where
  pub program : Text
  pub args : List Text
  pub clear_environment : Bool
  -- In the order of the names
  pub environment : List (Text × Text)

-- ` ${NAME+NAME="$NAME"}` for each name.
unfoldable pub inherited : List Text → Text
inherited [] = []
inherited (name ∷ names) =
    32
    ∷ 36
    ∷ 123
    ∷ (name ++ (43 ∷ (name ++ (61 ∷ 34 ∷ 36 ∷ (name ++ (34 ∷ 125 ∷ inherited names))))))

module _ (is_utf8 : Text → Bool) where
  unfoldable pub append_environment : List (Text × Text) → Result TransportError Text
  append_environment [] = ok []
  append_environment ((name, value) ∷ environment) = do
    reject_if (not (is_utf8 name)) invalid_utf8
    reject_if (not (valid_environment_name name)) (invalid_configuration name)
    reject_if (not (is_utf8 value)) invalid_utf8
    rest ← append_environment environment
    ok (32 ∷ (quote_posix (name ++ (61 ∷ value)) ++ rest))

  unfoldable pub append_arguments : List Text → Result TransportError Text
  append_arguments [] = ok []
  append_arguments (argument ∷ arguments) = do
    reject_if (not (is_utf8 argument)) invalid_utf8
    rest ← append_arguments arguments
    ok (32 ∷ (quote_posix argument ++ rest))

  unfoldable pub build_remote_launcher :
      TransportCommand → RemoteLoginEnvironment → Result TransportError Text
  build_remote_launcher command e = do
    reject_if (not (is_utf8 command.program)) invalid_utf8
    let cleared : Text = if command.clear_environment then 32 ∷ 45 ∷ 105 ∷ [] else []
    let kept : Text = if command.clear_environment then inherited safe_remote_environment else []
    environment ← append_environment command.environment
    arguments ← append_arguments command.args
    ok (
        launcher_start
        ++ (exec_env
            ++ (cleared
                ++ (quoted_arguments (login_values e)
                    ++ (kept
                        ++ (environment
                            ++ (32 ∷ (quote_posix command.program ++ (arguments ++ 10 ∷ [])))))))))
