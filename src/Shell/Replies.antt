-- ===== src/Shell/Replies.antt =====
-- src/remote_shell.rs: what the remote shell's replies are read as.
-- Texts are their bytes; whether bytes are UTF-8, and the last component of a path, are parameters.
use agent_runtime_sdk.Prelude.{
  ℕ, Text, text_eq, Bool, true, false, not, Option, none, some, List, [], ◌∷◌, ◌&&◌, ◌||◌, ◌==◌,
  if◌then◌else◌, eqb, leb, ltb, all, any, select, take, drop, length,
}
use agent_runtime_sdk.Prelude.Result.{Result, ok, err, ◌>>=◌, ◌>>◌, reject_if, ok_or}
use agent_runtime_sdk.Shell.Commands.{RemoteLoginEnvironment}

-- `LOGIN_ENVIRONMENT_MARKER`, `DIRECTORY_CANDIDATES_MARKER` and `CONTROL_DIRECTORY_MARKER`.
abbrev pub login_environment_marker : Text
login_environment_marker =
    0 ∷ 84 ∷ 69 ∷ 77 ∷ 80 ∷ 83 ∷ 95 ∷ 65 ∷ 71 ∷ 69 ∷ 78 ∷ 84 ∷ 95 ∷ 82 ∷ 85 ∷ 78 ∷ 84 ∷ 73 ∷ 77 ∷ 69
    ∷ 95 ∷ 76 ∷ 79 ∷ 71 ∷ 73 ∷ 78 ∷ 95 ∷ 69 ∷ 78 ∷ 86 ∷ 0 ∷ []

abbrev pub directory_candidates_marker : Text
directory_candidates_marker =
    0 ∷ 84 ∷ 69 ∷ 77 ∷ 80 ∷ 83 ∷ 95 ∷ 65 ∷ 71 ∷ 69 ∷ 78 ∷ 84 ∷ 95 ∷ 82 ∷ 85 ∷ 78 ∷ 84 ∷ 73 ∷ 77 ∷ 69
    ∷ 95 ∷ 68 ∷ 73 ∷ 82 ∷ 69 ∷ 67 ∷ 84 ∷ 79 ∷ 82 ∷ 73 ∷ 69 ∷ 83 ∷ 0 ∷ []

abbrev pub control_directory_marker : Text
control_directory_marker =
    0 ∷ 84 ∷ 69 ∷ 77 ∷ 80 ∷ 83 ∷ 95 ∷ 65 ∷ 71 ∷ 69 ∷ 78 ∷ 84 ∷ 95 ∷ 82 ∷ 85 ∷ 78 ∷ 84 ∷ 73 ∷ 77 ∷ 69
    ∷ 95 ∷ 67 ∷ 79 ∷ 78 ∷ 84 ∷ 82 ∷ 79 ∷ 76 ∷ 95 ∷ 68 ∷ 73 ∷ 82 ∷ 69 ∷ 67 ∷ 84 ∷ 79 ∷ 82 ∷ 89 ∷ 0
    ∷ []

-- `TransportErrorKind::Protocol`.
pub data ProtocolError : Type 0 where
  protocol : ProtocolError

abbrev pub starts_with : Text → Text → Bool
starts_with [] text = true
starts_with (c ∷ start) [] = false
starts_with (c ∷ start) (d ∷ text) = eqb c d && starts_with start text

-- What follows the last occurrence of a marker.
unfoldable pub after_last : Text → Text → Option Text
after_last marker [] = none
after_last marker (c ∷ text) = elim (after_last marker text) [
  | some payload ↦ some payload
  | none ↦ if starts_with marker (c ∷ text) then some (drop (length marker) (c ∷ text)) else none
]

abbrev pub with_head : ℕ → List Text → List Text
with_head c [] = (c ∷ []) ∷ []
with_head c (field ∷ fields) = (c ∷ field) ∷ fields

-- `split` at a separator: at least one field.
unfoldable pub split : ℕ → Text → List Text
split separator [] = [] ∷ []
split separator (c ∷ text) =
    let fields = split separator text in if eqb c separator then [] ∷ fields else with_head c fields

abbrev pub first_field : List Text → Option Text
first_field [] = none
first_field (field ∷ fields) = some field

abbrev pub is_empty : Text → Bool
is_empty [] = true
is_empty (c ∷ text) = false

abbrev pub is_alphanumeric : ℕ → Bool
is_alphanumeric c = (leb 48 c && leb c 57) || (leb 65 c && leb c 90) || (leb 97 c && leb c 122)

abbrev pub last_component : List Text → Text
last_component [] = []
last_component (component ∷ []) = component
last_component (component ∷ next ∷ components) = last_component (next ∷ components)

-- `temps-agent-runtime.`
abbrev pub launcher_prefix : Text
launcher_prefix =
    116 ∷ 101 ∷ 109 ∷ 112 ∷ 115 ∷ 45 ∷ 97 ∷ 103 ∷ 101 ∷ 110 ∷ 116 ∷ 45 ∷ 114 ∷ 117 ∷ 110 ∷ 116 ∷ 105
    ∷ 109 ∷ 101 ∷ 46 ∷ []

-- The name that `mktemp` gives the directory.
unfoldable pub is_launcher_name : Text → Bool
is_launcher_name name =
    let suffix = drop (length launcher_prefix) name in
    starts_with launcher_prefix name && eqb (length suffix) 10 && all is_alphanumeric suffix

unfoldable pub control_directory_invalid : Text → Bool
control_directory_invalid directory =
    let components = split 47 directory in
    not (starts_with (47 ∷ []) directory)
    || any (λ c. c == (46 ∷ []) || c == (46 ∷ 46 ∷ [])) components
    || any (λ c. eqb c 92 || eqb c 13 || eqb c 10) directory
    || not (is_launcher_name (last_component components))

module _ (is_utf8 : Text → Bool) where
  unfoldable pub parse_login_environment_field : Option Text → Result ProtocolError Text
  parse_login_environment_field field = do
    value ← ok_or field protocol
    reject_if (is_empty value) protocol
    reject_if (ltb 65536 (length value)) protocol
    reject_if (not (is_utf8 value)) protocol
    ok value

  -- `file_name` is `Path::file_name`.
  unfoldable pub parse_login_environment :
      (Text → Option Text) → Text → Result ProtocolError RemoteLoginEnvironment
  parse_login_environment file_name stdout = do
    payload ← ok_or (after_last login_environment_marker stdout) protocol
    let fields = split 0 payload
    home ← parse_login_environment_field (first_field fields)
    path ← parse_login_environment_field (first_field (drop 1 fields))
    shell ← parse_login_environment_field (first_field (drop 2 fields))
    name ← ok_or (file_name shell) protocol
    reject_if (not (name == (98 ∷ 97 ∷ 115 ∷ 104 ∷ []) || name == (122 ∷ 115 ∷ 104 ∷ []))) protocol
    ok (record { home = home; path = path; shell = shell })

  unfoldable pub parse_control_directory : Text → Result ProtocolError Text
  parse_control_directory stdout = do
    payload ← ok_or (after_last control_directory_marker stdout) protocol
    reject_if (all (λ c. not (eqb c 0)) payload) protocol
    directory ← ok_or (first_field (split 0 payload)) protocol
    reject_if (not (is_utf8 directory)) protocol
    reject_if (control_directory_invalid directory) protocol
    ok directory

pub record WorkingDirectoryCandidates : Type 0 where
  pub home : Text
  pub directories : List Text
  pub exact_match : Bool

module _ (is_utf8 : Text → Bool) where
  unfoldable pub parse_directory_field : Option Text → Result ProtocolError Text
  parse_directory_field field = do
    value ← ok_or field protocol
    reject_if (is_empty value) protocol
    reject_if (ltb 4096 (length value)) protocol
    reject_if (not (is_utf8 value)) protocol
    ok value

  unfoldable pub parse_directories : List Text → Result ProtocolError (List Text)
  parse_directories [] = ok []
  parse_directories (field ∷ fields) = do
    directory ← parse_directory_field (some field)
    rest ← parse_directories fields
    ok (directory ∷ rest)

  -- The flag that the directory itself exists.
  unfoldable pub parse_flag : Option Text → Result ProtocolError Bool
  parse_flag field = do
    value ← ok_or field protocol
    if value == (49 ∷ []) then ok true else if value == (48 ∷ []) then ok false else err protocol

  unfoldable pub parse_directory_candidates :
      ℕ → Text → Result ProtocolError WorkingDirectoryCandidates
  parse_directory_candidates limit stdout = do
    payload ← ok_or (after_last directory_candidates_marker stdout) protocol
    let fields = split 0 payload
    home ← parse_directory_field (first_field fields)
    exact_match ← parse_flag (first_field (drop 1 fields))
    directories ←
        parse_directories (take limit (select (λ field. not (is_empty field)) (drop 2 fields)))
    ok (record { home = home; directories = directories; exact_match = exact_match })
