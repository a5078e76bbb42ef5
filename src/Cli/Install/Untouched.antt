-- ===== src/Cli/Install/Untouched.antt =====
-- What an install leaves alone.
use storageops.Base.{
  if◌then◌else◌, ◌≡◌, refl, ◌∙◌, sym, ap, ◌⊎◌, inl, inr, Bool, true, false, Option, Text, arith,
  Bool-cases,
}
use storageops.Cli.World.{Agent, Home, exists, is_installed}
use storageops.Cli.Pi.{ensure_pi}
use storageops.Cli.Settings.{Outcome, done, raised}
use storageops.Cli.Install.{
  Target, own_agent, pi_agent, Setting, agent_at, put_agent, detect_existing_pi, stop, deploy_to,
  says_merge, plan_install, deploy, final_check, after_deploy, carry_out, cmd_install,
}

plan_independent :
    (answer : Option Text) (home : Home)
    → says_merge answer ≡ false
    → (plan_install false false answer home ≡ stop)
      ⊎ (plan_install false false answer home ≡ deploy_to own_agent)
unfolding plan_install
plan_independent answer home h = elim (Bool-cases (detect_existing_pi home)) [
  | inl y ↦ elim (Bool-cases (is_installed home.own)) [
    | inl m ↦ inl (rw (y, m) refl)
    | inr n ↦ inr (rw (y, n, h) refl)
  ]
  | inr n ↦ inr (rw n refl)
]

own_deploy :
    (setting : Setting) (home : Home) (o : Outcome)
    → (after_deploy setting own_agent home o).1.pi ≡ home.pi
unfolding put_agent
own_deploy setting home (done agent) = refl
own_deploy setting home (raised agent) = refl

cmd_install_goes_on :
    (force merge : Bool) (setting : Setting) (home : Home)
    → ensure_pi setting.setup ≡ true
    → cmd_install force merge setting home
      ≡ carry_out setting home (plan_install force merge setting.answer home)
unfolding cmd_install
cmd_install_goes_on force merge setting home h = rw h refl

cmd_install_ends :
    (force merge : Bool) (setting : Setting) (home : Home)
    → ensure_pi setting.setup ≡ false
    → cmd_install force merge setting home ≡ (1, home)
unfolding cmd_install
cmd_install_ends force merge setting home h = rw h refl

carry_out_independent :
    (setting : Setting) (home : Home)
    → says_merge setting.answer ≡ false
    → (carry_out setting home (plan_install false false setting.answer home)).1.pi ≡ home.pi
carry_out_independent setting home h = elim (plan_independent setting.answer home h) [
  | inl e ↦ ap (λ p. (carry_out setting home p).1.pi) e
  | inr e ↦
      ap (λ p. (carry_out setting home p).1.pi) e
      ∙ own_deploy setting home (deploy setting.shipped own_agent (agent_at own_agent home))
]

-- Without --force, --merge and an `m` at the question, whatever happens on the way, ~/.pi/agent and
-- its skills stay as they are.
pub cmd_install_independent :
    (setting : Setting) (home : Home)
    → says_merge setting.answer ≡ false
    → (cmd_install false false setting home).1.pi ≡ home.pi
cmd_install_independent setting home h = elim (Bool-cases (ensure_pi setting.setup)) [
  | inl y ↦
      ap (λ r. r.1.pi) (cmd_install_goes_on false false setting home y)
      ∙ carry_out_independent setting home h
  | inr n ↦ ap (λ r. r.1.pi) (cmd_install_ends false false setting home n)
]

-- An exit code of 0 after a deploy says that the target is installed.
final_check_zero :
    (ready : Bool) (agent : Agent) → final_check ready agent ≡ 0 → is_installed agent ≡ true
unfolding final_check
final_check_zero ready agent h = elim (Bool-cases (is_installed agent)) [
  | inl y ↦ y
  | inr n ↦ absurd (ground (arith, n))
]

deployed_is_installed :
    (setting : Setting) (target : Target) (home : Home) (o : Outcome)
    → (after_deploy setting target home o).0 ≡ 0
    → is_installed (agent_at target (after_deploy setting target home o).1) ≡ true
unfolding agent_at put_agent
deployed_is_installed setting target home (raised agent) h = absurd (ground arith)
deployed_is_installed setting own_agent home (done agent) h =
    final_check_zero setting.pi_ready agent h
deployed_is_installed setting pi_agent home (done agent) h =
    final_check_zero setting.pi_ready agent h

installed_settings : (agent : Agent) → is_installed agent ≡ true → exists agent.settings ≡ true
unfolding is_installed
installed_settings agent h = ground arith

merge_stops :
    (answer : Option Text) (home : Home)
    → is_installed home.pi ≡ true
    → plan_install false true answer home ≡ stop
unfolding plan_install detect_existing_pi
merge_stops answer home h = rw (h, installed_settings home.pi h) refl

plan_merge :
    (answer : Option Text) (home : Home)
    → detect_existing_pi home ≡ true
    → (is_installed home.pi ≡ true) ⊎ (plan_install false true answer home ≡ deploy_to pi_agent)
unfolding plan_install
plan_merge answer home h = elim (Bool-cases (is_installed home.pi)) [
  | inl m ↦ inl m
  | inr n ↦ inr (rw (n, h) refl)
]

stops_merged :
    (setting : Setting) (home : Home)
    → is_installed home.pi ≡ true
    → cmd_install false true setting home ≡ (if ensure_pi setting.setup then 0 else 1, home)
stops_merged setting home h = elim (Bool-cases (ensure_pi setting.setup)) [
  | inl y ↦
      cmd_install_goes_on false true setting home y
      ∙ ap (carry_out setting home) (merge_stops setting.answer home h)
      ∙ rw y refl
  | inr n ↦ cmd_install_ends false true setting home n ∙ rw n refl
]

carry_out_merge :
    (setting : Setting) (home : Home)
    → detect_existing_pi home ≡ true
    → (carry_out setting home (plan_install false true setting.answer home)).0 ≡ 0
    → is_installed (carry_out setting home (plan_install false true setting.answer home)).1.pi
      ≡ true
unfolding agent_at
carry_out_merge setting home there h = elim (plan_merge setting.answer home there) [
  | inl m ↦
      ap (λ p. is_installed (carry_out setting home p).1.pi) (merge_stops setting.answer home m) ∙ m
  | inr e ↦
      ap (λ p. is_installed (carry_out setting home p).1.pi) e
      ∙ deployed_is_installed setting pi_agent home (deploy setting.shipped pi_agent home.pi)
          (sym (ap (λ p. (carry_out setting home p).0) e) ∙ h)
]

merge_installs :
    (setting : Setting) (home : Home)
    → detect_existing_pi home ≡ true
    → (cmd_install false true setting home).0 ≡ 0
    → is_installed (cmd_install false true setting home).1.pi ≡ true
merge_installs setting home there h = elim (Bool-cases (ensure_pi setting.setup)) [
  | inl y ↦
      let e = cmd_install_goes_on false true setting home y in
      ap (λ r. is_installed r.1.pi) e
      ∙ carry_out_merge setting home there (sym (ap (λ r. r.0) e) ∙ h)
  | inr n ↦
      let one = sym (ap (λ r. r.0) (cmd_install_ends false true setting home n)) ∙ h in
      absurd (omega (arith, one))
]

-- A merge install into an existing Pi that ends with exit code 0 need not be repeated: a further one,
-- with any answer, changes nothing, and ends with 0 if `_ensure_pi` goes on and with 1 if it does not.
pub cmd_install_merge_again :
    (setting setting' : Setting) (home : Home)
    → detect_existing_pi home ≡ true
    → (cmd_install false true setting home).0 ≡ 0
    → cmd_install false true setting' (cmd_install false true setting home).1
      ≡ (if ensure_pi setting'.setup then 0 else 1, (cmd_install false true setting home).1)
cmd_install_merge_again setting setting' home there h =
    stops_merged setting' (cmd_install false true setting home).1
      (merge_installs setting home there h)
