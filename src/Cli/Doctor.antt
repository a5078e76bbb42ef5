-- ===== src/Cli/Doctor.antt =====
-- `storageops doctor`: `_runtime_status`, the readiness decision, the report and the rows, and the
-- labels that they print. What other programs and the network answer is a parameter.
pub mod Readiness
pub mod Report
use storageops.Base.{
  ℕ, leb, if◌then◌else◌, Bool, true, false, not, ◌&&◌, ◌||◌, Option, none, some, List, [], ◌∷◌,
  ◌++◌, length, Text, txt, ◌===◌, decimal,
}
use storageops.Json.{
  Json, null, bool, num, str, arr, obj, Items, nil, cons, Fields, end, field, get_or, get, truthy,
  py_str,
}
use storageops.Cli.World.{Agent, Home, Env, is_given, is_installed, read_json_file}
use storageops.Cli.Versions.{Triple, min_node_version, node_ok, suggest_node_path, is_newer_version}
use storageops.Cli.Keys.{Source, from_env, key_file, from_auth, configured_key_source, key_conflict}
use storageops.Cli.Settings.{default_model_label, texts}
use storageops.Cli.Skills.{
  Package, count_storageops_skills, expected_skill_count, unexpected_skills,
}
use storageops.Cli.Install.{Target, own_agent, pi_agent, agent_at}

-- What the machine answers: versions and places of node, pi and httpmon, the names under
-- ~/.nvm/versions/node that hold a node, and the paths that are printed.
pub record Machine : Type 0 where
  pub version : Text
  pub latest : Option Text
  pub node_triple : Option Triple
  pub node_names : List Text
  pub node_path : Text → Text
  pub pi_path : Text
  pub pi_ok : Bool
  pub pi_ver : Text
  pub pi_latest : Option Text
  pub httpmon : Option Text
  pub shipped : Package
  pub agent_path : Target → Text
  pub skills_path : Target → Text

-- `_active_agent_dir`
unfoldable pub active_agent : Home → Target
unfolding is_installed
active_agent home =
    if is_installed home.pi && not (is_installed home.own) then pi_agent else own_agent

pub record Status : Type 0 where
  pub independent : Bool
  pub merged : Bool
  pub active : Target
  pub skill_count : ℕ
  pub expected_skills : ℕ
  pub unexpected : List Text
  pub key_source : Option Source
  pub conflict : Option (List Text)
  pub default_model : Text
  pub marker : Fields

-- The part of `_runtime_status` that it reads from files and the environment.
unfoldable pub runtime_status : Machine → Env → Home → Status
unfolding active_agent agent_at is_installed count_storageops_skills expected_skill_count
    unexpected_skills configured_key_source key_conflict default_model_label read_json_file
runtime_status machine env home =
    let active = active_agent home in
    let agent = agent_at active home in
    record {
      independent = is_installed home.own;
      merged = is_installed home.pi;
      active = active;
      skill_count = count_storageops_skills agent.skills;
      expected_skills = expected_skill_count machine.shipped;
      unexpected = unexpected_skills machine.shipped agent.skills;
      key_source = configured_key_source agent env;
      conflict = key_conflict agent env;
      default_model = default_model_label agent;
      marker = read_json_file home.marker;
    }

unfoldable pub dotted_triple : Triple → Text
unfolding decimal txt
dotted_triple (a, b, c) = decimal a ++ (txt "." ++ (decimal b ++ (txt "." ++ decimal c)))

unfoldable pub node_label : Option Triple → Text
unfolding txt dotted_triple
node_label none = txt "not found"
node_label (some v) = dotted_triple v

abbrev hint_of : Machine → Option Text → Option Text
hint_of machine none = none
hint_of machine (some name) = some (machine.node_path name)

-- `_suggest_node_path`, as a path.
unfoldable pub node_path_hint : Machine → Option Text
unfolding suggest_node_path
node_path_hint machine = hint_of machine (suggest_node_path machine.node_names)

abbrev try_hint : Option Text → Text
try_hint none = []
try_hint (some path) = txt "; try: export PATH=\"" ++ (path ++ txt ":$PATH\"")

unfoldable pub node_doctor_detail : Machine → Text
unfolding node_label node_ok dotted_triple min_node_version node_path_hint txt
node_doctor_detail machine =
    if node_ok machine.node_triple
    then node_label machine.node_triple
    else node_label machine.node_triple
      ++ (txt "  -- need >= "
          ++ (dotted_triple min_node_version ++ try_hint (node_path_hint machine)))

abbrev upgrade_action : Option Text → Text
upgrade_action none =
    txt "upgrade Node to >= "
    ++ (dotted_triple min_node_version ++ txt ", then run storageops install --force")
upgrade_action (some path) =
    txt "export PATH=\"" ++ (path ++ txt ":$PATH\" && storageops install --force")

unfoldable pub node_readiness_action : Machine → Text
unfolding node_ok dotted_triple min_node_version node_path_hint txt
node_readiness_action machine =
    if not (node_ok machine.node_triple)
    then upgrade_action (node_path_hint machine)
    else txt "fix Node/Pi, then run storageops install --force"

abbrev pub found : Option Source → Bool
found none = false
found (some source) = true

-- `_doctor_readiness`: whether a diagnosis can start, and the next command.
unfoldable pub doctor_readiness : Machine → Status → Bool × Text
unfolding node_ok node_readiness_action txt
doctor_readiness machine s =
    if not (s.independent || s.merged)
    then (false, txt "storageops install")
    else if not (found s.key_source)
    then (false, txt "storageops configure --provider deepseek --model deepseek-v4-pro --api-key")
    else if not machine.pi_ok || not (node_ok machine.node_triple)
    then (false, node_readiness_action machine)
    else (true, txt "storageops --print 'hello'")

unfoldable pub live_diagnosis_available : Machine → Status → Bool
unfolding node_ok
live_diagnosis_available machine s =
    (s.independent || s.merged)
    && machine.pi_ok
    && node_ok machine.node_triple
    && found s.key_source

-- The exit code of `cmd_doctor`.
unfoldable pub cmd_doctor : Machine → Env → Home → ℕ
unfolding runtime_status doctor_readiness
cmd_doctor machine env home =
    if (doctor_readiness machine (runtime_status machine env home)).0 then 0 else 1
