-- ===== src/Cli/Session.antt =====
-- The start of a session: `main`, `cmd_smoke`, `find_pi`, `_prepend_storageops_bin_to_path`,
-- `_should_hint_no_key`. The programs that are started are parameters.
pub mod Launch
pub mod Configured
use storageops.Base.{
  ℕ, ◌+◌, ◌*◌, ltb, ◌==◌, if◌then◌else◌, Bool, true, false, not, ◌&&◌, ◌||◌, Option, none, some,
  List, [], ◌∷◌, ◌++◌, member, Text, txt, ◌===◌, strip, is_digit, add_digit,
}
use storageops.Base.Dict.{Dict, lookup, insert}
use storageops.Cli.World.{Agent, Home, Env, is_given, is_installed}
use storageops.Cli.Keys.{Source, inject_auth_env, configured_key_source}
use storageops.Cli.Configure.{option_value, has_flag, cmd_configure}
use storageops.Cli.Install.{Target, own_agent, pi_agent, agent_at, Setting, cmd_install}
use storageops.Cli.Evaluation.{Corpus, cmd_eval}
use storageops.Cli.Doctor.{Machine, active_agent, cmd_doctor, found}

-- How a program ends that is to be started.
pub data Run : Type 0 where
  timed_out not_started : Run
  returned : ℕ → Run

-- What the machine has besides: pi on the PATH, files, ~/.storageops/bin, ~/.pi/bin/pi, and the
-- program that a command, an environment and a timeout start.
pub record Programs : Type 0 where
  pub which_pi : Option Text
  pub is_file : Text → Bool
  pub bin_dir : Text
  pub pi_bin : Text
  pub run : List Text → Env → ℕ → Run

abbrev first_file : (Text → Bool) → List Text → Text
first_file is_file [] = txt "pi"
first_file is_file (c ∷ cs) = if is_file c then c else first_file is_file cs

unfoldable pub find_pi : Programs → Text
unfolding txt
find_pi programs = elim programs.which_pi [
  | some path ↦ path
  | none ↦
      first_file programs.is_file
        ((programs.bin_dir ++ txt "/pi") ∷ programs.pi_bin ∷ txt "/usr/local/bin/pi" ∷ [])
]

abbrev add_code : ℕ → List Text → List Text
add_code c [] = (c ∷ []) ∷ []
add_code c (part ∷ parts) = (c ∷ part) ∷ parts

-- `current.split(":")`
unfoldable pub split_path : Text → List Text
split_path [] = [] ∷ []
split_path (c ∷ s) = let parts = split_path s in if c == b':' then [] ∷ parts else add_code c parts

abbrev path_with : Text → Text → Text
path_with bin [] = bin
path_with bin (c ∷ s) = if member bin (split_path (c ∷ s)) then c ∷ s else bin ++ (b':' ∷ c ∷ s)

abbrev or_empty : Option Text → Text
or_empty none = []
or_empty (some s) = s

-- `_prepend_storageops_bin_to_path`: joining the parts again gives the text that was split.
unfoldable pub prepend_bin : Text → Env → Env
unfolding lookup insert member split_path txt
prepend_bin bin env = insert env (txt "PATH") (path_with bin (or_empty (lookup env (txt "PATH"))))

unfoldable pub should_hint_no_key : List Text → Agent → Env → Bool
unfolding configured_key_source has_flag txt
should_hint_no_key args agent env =
    not (found (configured_key_source agent env)) && not (has_flag args (txt "--api-key"))

-- Digits, with single underscores between them.
unfoldable mutual
  pub int_digits : ℕ → Text → Option ℕ
  int_digits n [] = some n
  int_digits n (c ∷ s) = elim (is_digit c) [
    | true ↦ int_digits (add_digit n c) s
    | false ↦ elim (c == b'_') [ true ↦ int_first n s | false ↦ none ]
  ]

  pub int_first : ℕ → Text → Option ℕ
  int_first n [] = none
  int_first n (c ∷ s) = elim (is_digit c) [ true ↦ int_digits (add_digit n c) s | false ↦ none ]

abbrev at_least_five : Option ℕ → Option ℕ
at_least_five none = none
at_least_five (some n) = some (if ltb n 5 then 5 else n)

abbrev five_if : Option ℕ → Option ℕ
five_if none = none
five_if (some n) = some 5

-- `max(5, int(raw))`, none where `int` raises. A negative number gives 5.
abbrev timeout_of : Text → Option ℕ
timeout_of [] = none
timeout_of (c ∷ s) =
    if c == b'-'
    then five_if (int_first 0 s)
    else if c == b'+'
    then at_least_five (int_first 0 s)
    else at_least_five (int_first 0 (c ∷ s))

abbrev or_text : Option Text → Text → Text
or_text none other = other
or_text (some []) other = other
or_text (some (c ∷ s)) other = c ∷ s

abbrev with_option : Text → Option Text → List Text → List Text
with_option name none rest = rest
with_option name (some []) rest = rest
with_option name (some (c ∷ s)) rest = name ∷ (c ∷ s) ∷ rest

unfoldable pub smoke_command : Programs → List Text → List Text
unfolding find_pi option_value txt
smoke_command programs args =
    find_pi programs
    ∷ with_option (txt "--provider") (option_value args (txt "--provider")) (
        with_option (txt "--model") (option_value args (txt "--model"))
          (txt "--print" ∷ or_text (option_value args (txt "--prompt")) (txt "hello") ∷ []))

-- `result.returncode or 1` of a run that failed, 0 of one that succeeded.
abbrev run_code : Run → ℕ
run_code timed_out = 1
run_code not_started = 1
run_code (returned code) = code

abbrev smoke_run : Programs → List Text → Env → Option ℕ → ℕ
smoke_run programs args env none = 2
smoke_run programs args env (some seconds) =
    run_code (programs.run (smoke_command programs args) env seconds)

abbrev pub pi_env : Machine → Target → Env → Env
pi_env machine target env = insert env (txt "PI_CODING_AGENT_DIR") (machine.agent_path target)

-- `cmd_smoke`: the exit code.
unfoldable pub cmd_smoke : Machine → Programs → List Text → Env → Home → ℕ
unfolding member is_installed active_agent agent_at inject_auth_env configured_key_source
    option_value strip int_first prepend_bin insert txt
cmd_smoke machine programs args env home =
    let target = active_agent home in
    let env' = inject_auth_env (agent_at target home) env in
    if member (txt "--help") args || member (txt "-h") args
    then 0
    else if not (is_installed home.own || is_installed home.pi)
    then 1
    else if not (found (configured_key_source (agent_at target home) env'))
    then 1
    else smoke_run programs args (pi_env machine target (prepend_bin programs.bin_dir env'))
        (timeout_of (strip (or_text (option_value args (txt "--timeout")) (txt "60"))))

-- How the command ends: with an exit code and the files it leaves, or as Pi, with its arguments and
-- environment.
pub data Ending : Type 0 where
  exits : ℕ → Home → Ending
  becomes_pi : Text → List Text → Env → Ending

-- What `main` chooses. `--version` and `--help` only print.
pub data Command : Type 0 where
  install doctor configure smoke eval info launch : Command

unfoldable pub command_of : List Text → Command
unfolding ◌===◌ txt
command_of [] = launch
command_of (arg ∷ args) =
    if arg === txt "install"
    then install
    else if arg === txt "doctor"
    then doctor
    else if arg === txt "configure"
    then configure
    else if arg === txt "smoke"
    then smoke
    else if arg === txt "eval"
    then eval
    else if arg === txt "--version" || arg === txt "-V" || arg === txt "--help" || arg === txt "-h"
    then info
    else launch

abbrev tail_of : List Text → List Text
tail_of [] = []
tail_of (arg ∷ args) = args

-- The last part of `main`.
unfoldable pub launch_pi : Machine → Programs → List Text → Env → Home → Ending
unfolding is_installed inject_auth_env agent_at prepend_bin find_pi insert txt
launch_pi machine programs args env home =
    let target = if is_installed home.own then own_agent else pi_agent in
    if not (is_installed home.own || is_installed home.pi)
    then exits 1 home
    else becomes_pi (find_pi programs) (find_pi programs ∷ args) (
        prepend_bin programs.bin_dir
          (pi_env machine target (inject_auth_env (agent_at target home) env)))

abbrev ends : ℕ × Home → Ending
ends (code, home) = exits code home

-- `main` on the arguments behind the program's name.
unfoldable pub main :
    Machine → Programs → Setting → Corpus → Option Text → List Text → Env → Home → Ending
unfolding command_of launch_pi cmd_install cmd_doctor cmd_configure cmd_smoke cmd_eval member txt
main machine programs setting corpus typed args env home = elim (command_of args) [
  | install ↦ ends (
      cmd_install (member (txt "--force") args || member (txt "-f") args)
        (member (txt "--merge") args || member (txt "-m") args) setting home)
  | doctor ↦ exits (cmd_doctor machine env home) home
  | configure ↦ ends (cmd_configure (tail_of args) typed home)
  | smoke ↦ exits (cmd_smoke machine programs (tail_of args) env home) home
  | eval ↦ exits (cmd_eval corpus (tail_of args)) home
  | info ↦ exits 0 home
  | launch ↦ launch_pi machine programs args env home
]
