-- ===== src/Cli/Session/Configured.antt =====
-- The session behind `configure --provider NAME --api-key KEY`.
use storageops.Base.{
  ℕ, ◌≡◌, refl, ◌∙◌, Bool, true, false, not, ◌&&◌, ◌||◌, Option, none, some, List, [], ◌∷◌, all,
  Text, txt, ◌===◌, free_of, is_space, arith, Bool-cases, inl, inr,
}
use storageops.Base.Dict.{Dict, lookup, contains, lookup-insert_ne}
use storageops.Cli.World.{Agent, Home, Env, is_installed, is_given}
use storageops.Cli.Keys.{provider_env, inject_auth, inject_auth_env}
use storageops.Cli.Settings.{write_config_settings, write_api_key}
use storageops.Cli.Configure.{given_key, has_colon, configure_agent, cmd_configure}
use storageops.Cli.Configure.Arguments.{dashed, provider_key_args, cmd_configure_of_args}
use storageops.Cli.Configure.Launched.{provider_is_plain, inject_auth_env-configure_agent}
use storageops.Cli.Install.{own_agent}
use storageops.Cli.Doctor.{Machine}
use storageops.Cli.Session.{Programs, find_pi, prepend_bin, pi_env, becomes_pi, launch_pi}

written_is_installed :
    (agent : Agent) (provider model : Option Text)
    → is_installed agent ≡ true
    → is_installed (write_config_settings agent provider model) ≡ true
unfolding is_installed write_config_settings
written_is_installed agent provider model h = ground (arith, h)

keyed_is_installed :
    (key : Text) (agent : Agent)
    → is_installed agent ≡ true
    → is_installed (write_api_key agent key) ≡ true
unfolding is_installed write_api_key
keyed_is_installed key agent h = h

-- An install stays one.
is_installed-configure_agent :
    (provider model : Option Text) (key : Text) (agent : Agent)
    → is_installed agent ≡ true
    → is_installed (configure_agent provider model (given_key key) agent) ≡ true
unfolding configure_agent
is_installed-configure_agent provider model key agent h =
    elim (Bool-cases (is_given provider || is_given model)) [
      | inl y ↦ rw y (keyed_is_installed _ _ (written_is_installed agent provider model h))
      | inr n ↦ rw n (keyed_is_installed _ agent h)
    ]

-- No variable for a key is one of those that a launch sets.
abbrev is_free : Text → Bool
is_free v = not (txt "PATH" === v) && not (txt "PI_CODING_AGENT_DIR" === v)

vars_free : all (λ e. is_free e.1) provider_env ≡ true
unfolding all provider_env txt ◌===◌
vars_free = refl

lookup-all_value :
    (q : Text → Bool) (d : Dict Text) (k v : Text)
    → all (λ e. q e.1) d ≡ true
    → lookup d k ≡ some v
    → q v ≡ true
unfolding all lookup
lookup-all_value q [] k v h e = absurd cc
lookup-all_value q ((j, w) ∷ d) k v h e = ground (arith, lookup-all_value q d k v)

lookup_launched :
    (machine : Machine) (bin v x : Text) (env : Env)
    → is_free v ≡ true
    → lookup env v ≡ some x
    → lookup (prepend_bin bin (pi_env machine own_agent env)) v ≡ some x
unfolding prepend_bin
lookup_launched machine bin v x env free h =
    lookup-insert_ne _ v (txt "PATH") _ (ground arith)
    ∙ lookup-insert_ne env v (txt "PI_CODING_AGENT_DIR") _ (ground arith)
    ∙ h

launches_own :
    (machine : Machine) (programs : Programs) (args : List Text) (env : Env) (home : Home)
    → is_installed home.own ≡ true
    → launch_pi machine programs args env home
      ≡ becomes_pi
          (find_pi programs)
          (find_pi programs ∷ args)
          (prepend_bin programs.bin_dir (pi_env machine own_agent (inject_auth_env home.own env)))
unfolding launch_pi
launches_own machine programs args env home h = rw h refl

-- With an install in ~/.storageops/agent, `configure --provider NAME --api-key KEY` ends with exit
-- code 0, and the next launch becomes Pi with the arguments that it was given and with KEY in the
-- variable of NAME: for a NAME of the table, a KEY with no space and no colon that does not start
-- with a dash, and a variable that neither the environment nor auth.json sets.
pub launch_pi-cmd_configure :
    (machine : Machine) (programs : Programs) (args : List Text) (provider : Text) (c : ℕ)
    (key v : Text) (typed : Option Text) (home : Home) (env : Env)
    → is_installed home.own ≡ true
    → lookup provider_env provider ≡ some v
    → free_of is_space (c ∷ key) ≡ true
    → has_colon (c ∷ key) ≡ false
    → dashed (c ∷ key) ≡ false
    → contains (inject_auth home.own.auth env) v ≡ false
    → (home' : Home) × (cmd_configure (provider_key_args provider (c ∷ key)) typed home
        ≡ (0, home'))
      × (env' : Env) × (launch_pi machine programs args env home'
          ≡ becomes_pi (find_pi programs) (find_pi programs ∷ args) env')
      × (lookup env' v ≡ some (c ∷ key))
launch_pi-cmd_configure machine programs args provider c key v typed home env here there free colon
      dash absent =
    let plain = provider_is_plain provider v there in
    let agent = configure_agent (some provider) none (given_key (c ∷ key)) home.own in
    let home' : Home = record home { own = agent } in
    (
      home',
      cmd_configure_of_args provider c key typed home (ground arith) (ground arith) dash,
      prepend_bin programs.bin_dir (pi_env machine own_agent (inject_auth_env agent env)),
      launches_own machine programs args env home'
          (is_installed-configure_agent (some provider) none (c ∷ key) home.own here),
      lookup_launched machine programs.bin_dir v (c ∷ key) (inject_auth_env agent env)
          (lookup-all_value is_free provider_env provider v vars_free there)
          (inject_auth_env-configure_agent provider (c ∷ key) v none home.own env there free colon
            absent),
    )
