-- ===== src/Cli/Session/Launch.antt =====
-- What a session starts with after the doctor command found nothing to do.
use storageops.Base.{
  if◌then◌else◌, ◌≡◌, refl, ◌∙◌, true, false, ◌||◌, Option, none, some, List, [], ◌∷◌, any, member,
  keep, Text, txt, ◌===◌, arith, Bool-cases, inl, inr,
}
use storageops.Base.Dict.{insert}
use storageops.Cli.World.{Home, Env, is_installed, is_set}
use storageops.Cli.Keys.{
  required_api_keys, provider_env, key_vars, from_keys, Source, inject_auth_env,
  configured_key_source,
}
use storageops.Cli.Keys.Filled.{NoneEmpty, AnySet, is_set-insert_ne}
use storageops.Cli.Keys.Available.{NamesKey, inject_auth_env-AnySet}
use storageops.Cli.Install.{own_agent, pi_agent, agent_at}
use storageops.Cli.Doctor.{
  Machine, active_agent, runtime_status, found, live_diagnosis_available, cmd_doctor,
}
use storageops.Cli.Doctor.Readiness.{doctor_zero}
use storageops.Cli.Session.{Programs, find_pi, prepend_bin, pi_env, becomes_pi, launch_pi}

any_set-insert :
    (env : Env) (k x : Text) (vs : List Text)
    → member k vs ≡ false
    → any (is_set (insert env k x)) vs ≡ any (is_set env) vs
unfolding any member
any_set-insert env k x [] h = refl
any_set-insert env k x (v ∷ vs) h =
    ground
      (arith, is_set-insert_ne env v k x (ground arith), any_set-insert env k x vs (ground arith))

pub path_no_key : member (txt "PATH") key_vars ≡ false
unfolding member key_vars from_keys required_api_keys provider_env ◌===◌ keep txt
path_no_key = refl

dir_no_key : member (txt "PI_CODING_AGENT_DIR") key_vars ≡ false
unfolding member key_vars from_keys required_api_keys provider_env ◌===◌ keep txt
dir_no_key = refl

prepend_bin-AnySet : (bin : Text) (env : Env) → AnySet env → AnySet (prepend_bin bin env)
unfolding prepend_bin
prepend_bin-AnySet bin env h = any_set-insert env (txt "PATH") _ key_vars path_no_key ∙ h

found_source : (o : Option Source) → found o ≡ true → (s : Source) × (o ≡ some s)
found_source none h = absurd cc
found_source (some s) h = (s, refl)

same_agent :
    (home : Home)
    → (is_installed home.own || is_installed home.pi) ≡ true
    → (if is_installed home.own then own_agent else pi_agent) ≡ active_agent home
unfolding active_agent
same_agent home h = elim (Bool-cases (is_installed home.own)) [
  | inl y ↦ rw y (ground arith)
  | inr n ↦ rw n (ground (arith, n))
]

live_installed :
    (machine : Machine) (env : Env) (home : Home)
    → live_diagnosis_available machine (runtime_status machine env home) ≡ true
    → ((is_installed home.own || is_installed home.pi) ≡ true)
      × (found (configured_key_source (agent_at (active_agent home) home) env) ≡ true)
unfolding live_diagnosis_available runtime_status
live_installed machine env home h = (ground arith, ground arith)

abbrev session_env : Machine → Programs → Env → Home → Env
session_env machine programs env home =
    let target = active_agent home in
    prepend_bin programs.bin_dir
      (pi_env machine target (inject_auth_env (agent_at target home) env))

launches :
    (machine : Machine) (programs : Programs) (args : List Text) (env : Env) (home : Home)
    → (is_installed home.own || is_installed home.pi) ≡ true
    → launch_pi machine programs args env home
      ≡ becomes_pi
          (find_pi programs)
          (find_pi programs ∷ args)
          (session_env machine programs env home)
unfolding launch_pi
launches machine programs args env home h = rw (h, same_agent home h) refl

-- Where the doctor command ends with 0, no variable for a key is there empty, and the key file of the
-- directory in use names a key if there is one: a launch becomes Pi with the arguments that it was
-- given, and a variable for a key is set in its environment.
pub launch_pi-cmd_doctor :
    (machine : Machine) (programs : Programs) (args : List Text) (env : Env) (home : Home)
    → cmd_doctor machine env home ≡ 0
    → NoneEmpty env
    → NamesKey (agent_at (active_agent home) home)
    → (env' : Env) × (launch_pi machine programs args env home
        ≡ becomes_pi (find_pi programs) (find_pi programs ∷ args) env')
      × AnySet env'
launch_pi-cmd_doctor machine programs args env home h full named =
    let (there, key) = live_installed machine env home (doctor_zero machine env home h) in
    let agent = agent_at (active_agent home) home in
    let (s, source) = found_source (configured_key_source agent env) key in
    let filled = inject_auth_env-AnySet agent env s full named source in
    (
      session_env machine programs env home,
      launches machine programs args env home there,
      prepend_bin-AnySet programs.bin_dir
          (pi_env machine (active_agent home) (inject_auth_env agent env))
          (any_set-insert (inject_auth_env agent env) (txt "PI_CODING_AGENT_DIR") _ key_vars
              dir_no_key
            ∙ filled),
    )
