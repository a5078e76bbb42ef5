-- ===== src/Cli/Install.antt =====
-- `storageops install`: what `cmd_install` decides and what it deploys, with the install marker and
-- the final check. It begins with `_ensure_pi`, which may end the program before any file is deployed.
-- `_ensure_httpmon` behind it is left out: it writes to ~/.storageops/bin and to the PATH of the
-- process only, and a helper that cannot be had is a warning. What other programs answer, and what
-- the user answers, is a parameter.
pub mod Untouched
pub mod Ready
use storageops.Base.{
  ℕ, if◌then◌else◌, Bool, false, not, ◌&&◌, Option, none, some, Text, txt, ◌===◌, lower, strip,
}
use storageops.Json.{str, obj, Fields, end, field}
use storageops.Cli.World.{document, Agent, Home, exists, is_installed}
use storageops.Cli.Pi.{PiSetup, ensure_pi}
use storageops.Cli.Settings.{Outcome, done, raised, merge_settings, write_settings}
use storageops.Cli.Skills.{Package, copy_extension, copy_skills}

-- `~/.storageops/agent` or `~/.pi/agent`.
pub data Target : Type 0 where
  own_agent pi_agent : Target

-- What the marker records: the version of the package, paths, and the time.
pub record Facts : Type 0 where
  pub version : Text
  pub package_path : Text
  pub agent_path : Target → Text
  pub skills_path : Target → Text
  pub now : Text

-- What is asked of the outside: what the programs answer to `_ensure_pi`, the package, the facts, the
-- answer to the question for the install mode (none where the input ends), and whether Pi is ready
-- at the end.
pub record Setting : Type 0 where
  pub setup : PiSetup
  pub shipped : Package
  pub facts : Facts
  pub answer : Option Text
  pub pi_ready : Bool

unfoldable pub agent_at : Target → Home → Agent
agent_at own_agent home = home.own
agent_at pi_agent home = home.pi

unfoldable pub put_agent : Target → Agent → Home → Home
put_agent own_agent agent home = record home { own = agent }
put_agent pi_agent agent home = record home { pi = agent }

unfoldable pub detect_existing_pi : Home → Bool
detect_existing_pi home = exists home.pi.settings

pub data Plan : Type 0 where
  stop : Plan
  deploy_to : Target → Plan

abbrev says_merge : Option Text → Bool
says_merge none = false
says_merge (some line) = lower (strip line) === txt "m"

-- The first part of `cmd_install`: whether it goes on, and into which directory. A merge is a deploy
-- into ~/.pi, and no other is.
unfoldable pub plan_install : Bool → Bool → Option Text → Home → Plan
unfolding detect_existing_pi is_installed ◌===◌ lower strip txt
plan_install force merge answer home =
    if merge
    then if not (detect_existing_pi home)
      then deploy_to own_agent
      else if is_installed home.pi && not force
      then stop
      else deploy_to pi_agent
    else if not (detect_existing_pi home)
    then deploy_to own_agent
    else if is_installed home.own && not force
    then stop
    else if force
    then if is_installed home.pi then deploy_to pi_agent else deploy_to own_agent
    else if not (says_merge answer)
    then deploy_to own_agent
    else if is_installed home.pi
    then stop
    else deploy_to pi_agent

abbrev pub and_then : Outcome → (Agent → Outcome) → Outcome
and_then (done agent) next = next agent
and_then (raised agent) next = raised agent

abbrev pub settings_step : Target → Agent → Outcome
settings_step own_agent agent = done (write_settings agent)
settings_step pi_agent agent = merge_settings agent

unfoldable pub deploy : Package → Target → Agent → Outcome
unfolding merge_settings write_settings copy_extension copy_skills
deploy shipped target agent =
    and_then (and_then (settings_step target agent) (copy_extension shipped)) (copy_skills shipped)

abbrev mode_of : Target → Text
mode_of own_agent = txt "independent"
mode_of pi_agent = txt "merge"

unfoldable pub install_marker : Facts → Target → Fields
unfolding txt
install_marker facts target = field (txt "package_version") (str facts.version) (
    field (txt "package_path") (str facts.package_path) (
      field (txt "target_agent") (str (facts.agent_path target)) (
        field (txt "skills_path") (str (facts.skills_path target)) (
          field (txt "install_mode") (str (mode_of target))
            (field (txt "installed_at") (str facts.now) end)))))

-- `_final_check`, as an exit code.
unfoldable pub final_check : Bool → Agent → ℕ
unfolding is_installed
final_check pi_ready agent = if not (is_installed agent) then 1 else if not pi_ready then 1 else 0

abbrev pub after_deploy : Setting → Target → Home → Outcome → ℕ × Home
after_deploy setting target home (raised agent) = (1, put_agent target agent home)
after_deploy setting target home (done agent) = (
  final_check setting.pi_ready agent,
  record (put_agent target agent home) {
    marker = document (obj (install_marker setting.facts target));
  },
)

abbrev pub carry_out : Setting → Home → Plan → ℕ × Home
carry_out setting home stop = (0, home)
carry_out setting home (deploy_to target) =
    after_deploy setting target home (deploy setting.shipped target (agent_at target home))

-- `cmd_install`: the exit code and what is on the disk. Where `_ensure_pi` ends the program, nothing
-- has been deployed.
unfoldable pub cmd_install : Bool → Bool → Setting → Home → ℕ × Home
unfolding plan_install ensure_pi
cmd_install force merge setting home =
    if ensure_pi setting.setup
    then carry_out setting home (plan_install force merge setting.answer home)
    else (1, home)
