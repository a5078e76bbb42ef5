-- ===== src/Tests/CliInstallRuns.antt =====
-- Installs and launches of storageops_cli/__init__.py on concrete directories.
use storageops.Base.{
  if◌then◌else◌, ◌≡◌, refl, true, false, Option, none, some, [], ◌∷◌, Text, txt, ◌===◌, arith,
  lower, strip, lower_code, is_space, skip_while, strip_by, subst,
}
use storageops.Base.Dict.{lookup, contains}
use storageops.Json.{Json, str, obj, end, field}
use storageops.Cli.World.{absent, document, plain, folder, Listing, Agent, Home, Env, is_installed}
use storageops.Cli.Keys.{api_key_file_providers, partition, provider_env, resolve_api_key_entry}
use storageops.Cli.Keys.Filled.{NoneEmpty, AnySet}
use storageops.Cli.Keys.Available.{NamesKey}
use storageops.Cli.Pi.{PiSetup, ensure_pi}
use storageops.Cli.Settings.{done, settings_doc, default_model_label}
use storageops.Cli.Skills.{Package, is_pack, blocked, ts_files, copy_skills, unexpected_skills}
use storageops.Cli.Skills.Listings.{kept, unique}
use storageops.Cli.Skills.Copying.{NoPlainPack}
use storageops.Cli.Skills.Mirror.{mirrored, copy_skills_mirrors}
use storageops.Cli.Install.{Facts, Setting, detect_existing_pi, cmd_install}
use storageops.Cli.Install.Untouched.{cmd_install_independent, cmd_install_merge_again}
use storageops.Cli.Install.Ready.{cmd_install_first}
use storageops.Cli.Doctor.{Machine, cmd_doctor}
use storageops.Cli.Install.{agent_at}
use storageops.Cli.Session.{Programs, not_started, find_pi, becomes_pi, launch_pi}
use storageops.Cli.Session.Launch.{launch_pi-cmd_doctor}
use storageops.Cli.Session.Configured.{launch_pi-cmd_configure}
use storageops.Cli.Configure.{cmd_configure}
use storageops.Cli.Configure.Arguments.{provider_key_args}

abbrev shipped_packs : Listing
shipped_packs =
    (txt "storageops-costs", folder (txt "v2"))
    ∷ (txt "README.md", plain (txt "packs"))
    ∷ (txt "storageops-access", folder (txt "v2"))
    ∷ []

abbrev wheel : Package
wheel = record {
  ext_files = (txt "storageops.ts", txt "main") ∷ (txt "notes.md", txt "notes") ∷ [];
  packs = some shipped_packs;
}

abbrev deployed : Listing
deployed =
    (txt "storageops-costs", folder (txt "v1"))
    ∷ (txt "storageops-old", folder (txt "v1"))
    ∷ (txt "mine", folder (txt "own"))
    ∷ []

abbrev empty_agent : Agent
empty_agent = record {
  settings = absent;
  backup = absent;
  auth = absent;
  api_key = none;
  extensions = [];
  skills = none;
}

abbrev old_agent : Agent
old_agent = record empty_agent { skills = some deployed }

deployed-NoPlainPack : NoPlainPack deployed
unfolding blocked
deployed-NoPlainPack name h = ground arith

copy_skills_mirrors_example :
    (entries : Listing) × (copy_skills wheel old_agent
      ≡ done (record old_agent { skills = some entries }))
    × ((k : Text)
        → lookup entries k
          ≡ mirrored (kept is_pack k (lookup shipped_packs k)) k (lookup deployed k))
    × (unexpected_skills wheel (some entries) ≡ [])
unfolding unique contains ◌===◌ txt
copy_skills_mirrors_example =
    copy_skills_mirrors wheel shipped_packs old_agent refl refl refl deployed-NoPlainPack

abbrev home_facts : Facts
home_facts = record {
  version = txt "1.0";
  package_path = txt "/lib/storageops_cli";
  agent_path = λ t. txt "agent";
  skills_path = λ t. txt "skills";
  now = txt "2026-01-01T00:00:00Z";
}

abbrev pi_there : PiSetup
pi_there = record {
  pi_output = some (txt "0.80.0");
  npm_found = false;
  node_triple = some (24, 1, 0);
  npm_installs = false;
}

abbrev pressed_enter : Setting
pressed_enter = record {
  setup = pi_there;
  shipped = wheel;
  facts = home_facts;
  answer = some [];
  pi_ready = true;
}

abbrev new_home : Home
new_home = record { own = old_agent; pi = empty_agent; marker = absent }

abbrev pi_home : Home
pi_home = record {
  own = empty_agent;
  pi = record empty_agent {
    settings = document (obj (field (txt "theme") (str (txt "dark")) end));
  };
  marker = absent;
}

cmd_install_independent_example : (cmd_install false false pressed_enter pi_home).1.pi ≡ pi_home.pi
unfolding ◌===◌ lower strip txt
cmd_install_independent_example = cmd_install_independent pressed_enter pi_home refl

cmd_install_merge_again_example :
    cmd_install false true pressed_enter (cmd_install false true pressed_enter pi_home).1
    ≡ (if ensure_pi pi_there then 0 else 1, (cmd_install false true pressed_enter pi_home).1)
unfolding detect_existing_pi cmd_install ensure_pi storageops.Cli.Install.deploy
    storageops.Cli.Settings.existing_settings agent_at storageops.Cli.Install.final_check
    storageops.Cli.Versions.parse_version_triple storageops.Cli.Versions.match_triple
    storageops.Cli.Versions.min_pi_version
cmd_install_merge_again_example =
    cmd_install_merge_again pressed_enter pressed_enter pi_home refl refl

-- Where Pi is too old, nothing is deployed.
abbrev old_pi_there : Setting
old_pi_there = record pressed_enter { setup = record pi_there { pi_output = some (txt "0.77.9") } }

old_pi_run : cmd_install true true old_pi_there new_home ≡ (1, new_home)
unfolding cmd_install ensure_pi storageops.Cli.Versions.parse_version_triple
    storageops.Cli.Versions.match_triple storageops.Cli.Versions.min_pi_version
old_pi_run = refl

cmd_install_first_example :
    (home' : Home) × (cmd_install false false pressed_enter new_home
      ≡ (if ensure_pi pi_there then (0, home') else (1, new_home)))
    × (is_installed home'.own ≡ true)
    × (home'.own.settings ≡ document (obj settings_doc))
    × (unexpected_skills wheel home'.own.skills ≡ [])
    × (home'.pi ≡ new_home.pi)
unfolding detect_existing_pi contains ts_files unique
cmd_install_first_example =
    cmd_install_first false false pressed_enter new_home shipped_packs refl refl refl refl refl
      deployed-NoPlainPack

-- Installed, without ~/.pi, and with a model chosen.
abbrev chosen : Home
chosen = record {
  own = record old_agent {
    settings = document (obj (field (txt "defaultModel") (str (txt "deepseek-v4-pro")) end));
    extensions = (txt "storageops.ts", txt "main") ∷ [];
    api_key = some (txt "deepseek:sk-1\n");
  };
  pi = empty_agent;
  marker = absent;
}

-- A repeated install writes the settings anew, and the chosen model is gone.
model_lost :
    (is_installed chosen.own ≡ true)
    × (default_model_label chosen.own ≡ txt "not set/deepseek-v4-pro")
    × (default_model_label (cmd_install false false pressed_enter chosen).1.own
        ≡ txt "not set/not set")
unfolding is_installed ◌===◌ default_model_label storageops.Json.truthy
    storageops.Cli.World.read_json_file storageops.Json.py_str cmd_install
    storageops.Cli.Install.deploy agent_at storageops.Cli.Install.put_agent settings_doc
    storageops.Cli.Versions.parse_version_triple storageops.Cli.Versions.match_triple
    storageops.Cli.Versions.min_pi_version
model_lost = (refl, refl, refl)

abbrev laptop : Machine
laptop = record {
  version = txt "1.0";
  latest = none;
  node_triple = some (24, 1, 0);
  node_names = [];
  node_path = λ name. name;
  pi_path = txt "/usr/bin/pi";
  pi_ok = true;
  pi_ver = txt "0.80.0";
  pi_latest = none;
  httpmon = none;
  shipped = wheel;
  agent_path = λ t. txt "agent";
  skills_path = λ t. txt "skills";
}

abbrev programs : Programs
programs = record {
  which_pi = some (txt "/usr/bin/pi");
  is_file = λ path. false;
  bin_dir = txt "/home/u/.storageops/bin";
  pi_bin = txt "/home/u/.pi/bin/pi";
  run = λ command env seconds. not_started;
}

empty-NoneEmpty : NoneEmpty []
unfolding contains
empty-NoneEmpty v m c = absurd (ground arith)

abbrev or_blank : Option Text → Text
or_blank none = []
or_blank (some content) = content

chosen_resolved : ((resolve_api_key_entry (strip (txt "deepseek:sk-1\n"))).1 === []) ≡ false
unfolding ◌===◌ api_key_file_providers is_space lookup lower lower_code partition provider_env
    resolve_api_key_entry skip_while strip strip_by txt
chosen_resolved = refl

chosen-NamesKey : NamesKey chosen.own
chosen-NamesKey content e =
    subst (λ o. ((resolve_api_key_entry (strip (or_blank o))).1 === []) ≡ false) e chosen_resolved

launch_pi-cmd_doctor_example :
    (env' : Env) × (launch_pi laptop programs (txt "hello" ∷ []) [] chosen
      ≡ becomes_pi (find_pi programs) (find_pi programs ∷ txt "hello" ∷ []) env')
    × AnySet env'
unfolding cmd_doctor ◌===◌ storageops.Cli.Keys.first_set storageops.Cli.Keys.key_vars
    storageops.Cli.Keys.from_keys storageops.Cli.Keys.required_api_keys storageops.Cli.World.is_set
    provider_env storageops.Cli.Keys.has_key_file strip
launch_pi-cmd_doctor_example =
    launch_pi-cmd_doctor laptop programs (txt "hello" ∷ []) [] chosen refl empty-NoneEmpty
      chosen-NamesKey

launch_pi-cmd_configure_example :
    (home' : Home) × (cmd_configure (provider_key_args (txt "openai") (txt "sk-2")) none chosen
      ≡ (0, home'))
    × (env' : Env) × (launch_pi laptop programs (txt "hello" ∷ []) [] home'
        ≡ becomes_pi (find_pi programs) (find_pi programs ∷ txt "hello" ∷ []) env')
    × (lookup env' (txt "OPENAI_API_KEY") ≡ some (txt "sk-2"))
unfolding is_installed lookup provider_env ◌===◌ storageops.Base.free_of is_space
    storageops.Cli.Configure.has_colon storageops.Cli.Configure.Arguments.dashed contains
    storageops.Cli.Keys.inject_auth
launch_pi-cmd_configure_example =
    launch_pi-cmd_configure laptop programs (txt "hello" ∷ []) (txt "openai") b's' (txt "k-2")
      (txt "OPENAI_API_KEY") none chosen [] refl refl refl refl refl refl
