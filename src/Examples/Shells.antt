-- ===== src/Examples/Shells.antt =====
-- Values with quotes, spaces and expansions in them.
use agent_runtime_sdk.Prelude.{
  ◌≡◌, refl, Text, [], ◌∷◌, ◌++◌, map, All, Bool, true, false, some, ltb, all, arith, text_eq,
}
use agent_runtime_sdk.Prelude.Result.{ok}
use agent_runtime_sdk.Shell.Words.{shell_words, read_back}
use agent_runtime_sdk.Shell.Commands.{
  quote_posix, quoted_arguments, build_version_command, build_executable_resolution_command,
  RemoteLoginEnvironment, login_values, version_flag, TransportCommand, build_remote_launcher,
  valid_environment_name, launcher_start,
}
use agent_runtime_sdk.Shell.Quoting.{quote_posix-words, probe_commands-words}
use agent_runtime_sdk.Shell.Nul.{probe_words}
use agent_runtime_sdk.Prelude.{Option, none, drop, list_beq, ◌==◌, ◌||◌, text_eq}
use agent_runtime_sdk.Shell.Replies.{after_last, login_environment_marker, parse_login_environment}
use agent_runtime_sdk.Shell.LoginReply.{terminated, IsField, parse_login_environment-terminated}
use agent_runtime_sdk.Shell.Launcher.{assignment, build_remote_launcher-words}
use agent_runtime_sdk.Shell.Names.{IsName, build_remote_launcher-names}

-- `it's $(x)`
abbrev hostile : Text
hostile = 105 ∷ 116 ∷ 39 ∷ 115 ∷ 32 ∷ 36 ∷ 40 ∷ 120 ∷ 41 ∷ []

abbrev login : RemoteLoginEnvironment
login = record { home = 47 ∷ []; path = hostile; shell = 47 ∷ 98 ∷ [] }

abbrev is_ascii : Text → Bool
is_ascii = all (λ c. ltb c 128)

-- `A`, set to the hostile text.
abbrev command : TransportCommand
command = record {
  program = hostile;
  args = hostile ∷ [] ∷ [];
  clear_environment = false;
  environment = (65 ∷ [], hostile) ∷ [];
}

quote_posix-words_example :
    shell_words (quote_posix hostile ++ quoted_arguments (hostile ∷ [] ∷ []))
    ≡ read_back (hostile ∷ hostile ∷ [] ∷ [])
quote_posix-words_example = quote_posix-words hostile (hostile ∷ [] ∷ [])

probe_commands-words_example :
    (shell_words (build_executable_resolution_command hostile login)
      ≡ read_back (
          (101 ∷ 110 ∷ 118 ∷ [])
          ∷ (45 ∷ 105 ∷ [])
          ∷ (login_values login ++ (probe_words ++ hostile ∷ []))))
    × (shell_words (build_version_command hostile login)
        ≡ read_back (
            (101 ∷ 110 ∷ 118 ∷ [])
            ∷ (45 ∷ 105 ∷ [])
            ∷ (login_values login ++ hostile ∷ version_flag ∷ [])))
probe_commands-words_example = probe_commands-words hostile login

variable-named : valid_environment_name (65 ∷ []) ≡ true
unfolding valid_environment_name
variable-named = refl

build_remote_launcher-words_example :
    (body : Text) × (build_remote_launcher is_ascii command login
      ≡ ok (launcher_start ++ (body ++ 10 ∷ [])))
    × (shell_words body
        ≡ read_back (
            (101 ∷ 120 ∷ 101 ∷ 99 ∷ [])
            ∷ (101 ∷ 110 ∷ 118 ∷ [])
            ∷ (login_values login
                ++ (map assignment command.environment ++ command.program ∷ command.args))))
build_remote_launcher-words_example =
    build_remote_launcher-words is_ascii command login ((refl, variable-named, refl), tt)
      (refl, (refl, (refl, tt))) refl

command-launcher : (text : Text) × (build_remote_launcher is_ascii command login ≡ ok text)
command-launcher =
    let (body, built, words) =
      build_remote_launcher-words is_ascii command login ((refl, variable-named, refl), tt)
        (refl, (refl, (refl, tt))) refl in
    (launcher_start ++ (body ++ 10 ∷ []), built)

build_remote_launcher-names_example :
    All (λ (name, value). IsName name) command.environment
    × ((body : Text) × (command-launcher.0 ≡ launcher_start ++ (body ++ 10 ∷ []))
        × (shell_words body
            ≡ read_back (
                (101 ∷ 120 ∷ 101 ∷ 99 ∷ [])
                ∷ (101 ∷ 110 ∷ 118 ∷ [])
                ∷ (login_values login
                    ++ (map assignment command.environment ++ command.program ∷ command.args)))))
build_remote_launcher-names_example =
    build_remote_launcher-names is_ascii command login command-launcher.0 command-launcher.1 refl

-- `/` and `/bash`
abbrev root : Text
root = 47 ∷ []

abbrev bash : Text
bash = 47 ∷ 98 ∷ 97 ∷ 115 ∷ 104 ∷ []

abbrev bash_name : Text
bash_name = 98 ∷ 97 ∷ 115 ∷ 104 ∷ []

abbrev file_name : Text → Option Text
file_name path = some (drop 1 path)

abbrev reported : RemoteLoginEnvironment
reported = record { home = root; path = root; shell = bash }

-- The login shell's greeting.
abbrev greeting : Text
greeting = 104 ∷ 0 ∷ 105 ∷ 10 ∷ []

marker-absent :
    after_last login_environment_marker (0 ∷ terminated (root ∷ root ∷ bash ∷ [])) ≡ none
unfolding after_last
marker-absent = refl

bash-known : (bash_name == bash_name || bash_name == (122 ∷ 115 ∷ 104 ∷ [])) ≡ true
unfolding list_beq
bash-known = refl

root-IsField : IsField is_ascii root
root-IsField = (omega arith, refl, omega arith, refl)

bash-IsField : IsField is_ascii bash
bash-IsField = (omega arith, refl, omega arith, refl)

parse_login_environment-terminated_example :
    parse_login_environment is_ascii file_name
      (greeting ++ (login_environment_marker ++ terminated (root ∷ root ∷ bash ∷ [])))
    ≡ ok reported
parse_login_environment-terminated_example =
    parse_login_environment-terminated is_ascii file_name greeting bash_name reported root-IsField
      root-IsField bash-IsField refl bash-known marker-absent
