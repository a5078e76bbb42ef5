-- ===== src/Cli/Settings.antt =====
-- What the command writes into settings.json and api-key: `_merge_settings`, `_merge_skill_paths`,
-- `_write_settings`, `_write_config_settings`, `_write_api_key`, `_default_model_label`.
pub mod Paths
pub mod Merging
use storageops.Base.{
  if◌then◌else◌, Bool, true, false, Option, none, some, List, [], ◌∷◌, ◌++◌, member, Text, txt,
  ◌===◌, strip,
}
use storageops.Json.{
  Json, bool, str, arr, obj, Items, nil, cons, Fields, end, field, get, has, is_empty, py_str,
  truthy,
}
use storageops.Cli.World.{File, absent, invalid, document, Agent, exists, is_given, read_json_file}

-- `d[k] = v`
unfoldable pub put : Fields → Text → Json → Fields
put end k v = field k v end
put (field j w d) k v = if j === k then field j v d else field j w (put d k v)

unfoldable pub texts : List Text → Items
texts [] = nil
texts (t ∷ ts) = cons (str t) (texts ts)

-- `SETTINGS`
unfoldable pub settings_doc : Fields
unfolding txt
settings_doc =
    field (txt "skills") (arr (cons (str (txt "../skills")) nil))
      (field (txt "enableSkillCommands") (bool true) end)

abbrev add_path : List Text → Json → List Text
add_path merged (str s) = if member s merged then merged else merged ++ (s ∷ [])
add_path merged _ = merged

unfoldable pub add_paths : List Text → Items → List Text
unfolding member
add_paths merged nil = merged
add_paths merged (cons item items) = add_paths (add_path merged item) items

-- One of the two lists; what is no list is passed over.
unfoldable pub add_list : List Text → Json → List Text
add_list merged (arr items) = add_paths merged items
add_list merged _ = merged

unfoldable pub merge_skill_paths : Json → Json → List Text
merge_skill_paths existing required = add_list (add_list [] existing) required

-- The keys of STORAGEOPS_KEYS, written in one of the two orders that its set can have.
unfoldable pub merged_settings : Fields → Fields
unfolding get settings_doc txt put texts
merged_settings existing =
    put
      (put existing (txt "skills") (
        arr (
          texts
            (merge_skill_paths (get existing (txt "skills")) (get settings_doc (txt "skills"))))))
      (txt "enableSkillCommands") (get settings_doc (txt "enableSkillCommands"))

-- What a step leaves behind, and whether it raised.
pub data Outcome : Type 0 where
  done raised : Agent → Outcome

-- `existing`, where `{**existing}` does not raise.
unfoldable pub existing_settings : File → Option Fields
existing_settings absent = some end
existing_settings invalid = some end
existing_settings (document (obj d)) = some d
existing_settings (document j) = none

abbrev pub back_up : Agent → Agent
back_up agent = if exists agent.settings then record agent { backup = agent.settings } else agent

abbrev pub merge_into : Agent → Option Fields → Outcome
merge_into agent none = raised agent
merge_into agent (some existing) =
    done (record agent { settings = document (obj (merged_settings existing)) })

unfoldable pub merge_settings : Agent → Outcome
merge_settings agent = merge_into (back_up agent) (existing_settings agent.settings)

unfoldable pub write_settings : Agent → Agent
write_settings agent = record agent { settings = document (obj settings_doc) }

-- `settings.setdefault(key, value)`
unfoldable pub set_default : Fields → Text → Json → Fields
unfolding has put
set_default d k v = if has d k then d else put d k v

-- An option that is given and not empty is written.
unfoldable pub put_given : Fields → Text → Option Text → Fields
unfolding put
put_given d k none = d
put_given d k (some []) = d
put_given d k (some (c ∷ s)) = put d k (str (c ∷ s))

unfoldable pub config_settings : Fields → Option Text → Option Text → Fields
unfolding get settings_doc txt set_default is_empty
config_settings found provider model =
    let start = if is_empty found then settings_doc else found in
    let with_skills = set_default start (txt "skills") (get settings_doc (txt "skills")) in
    let with_commands =
      set_default with_skills (txt "enableSkillCommands")
        (get settings_doc (txt "enableSkillCommands")) in
    put_given (put_given with_commands (txt "defaultProvider") provider) (txt "defaultModel") model

unfoldable pub write_config_settings : Agent → Option Text → Option Text → Agent
write_config_settings agent provider model = record agent {
  settings = document (obj (config_settings (read_json_file agent.settings) provider model));
}

abbrev or_not_set : Json → Text
or_not_set v = if truthy v then py_str v else txt "not set"

unfoldable pub default_model_label : Agent → Text
unfolding get txt
default_model_label agent =
    let settings = read_json_file agent.settings in
    or_not_set (get settings (txt "defaultProvider"))
    ++ (txt "/" ++ or_not_set (get settings (txt "defaultModel")))

unfoldable pub write_api_key : Agent → Text → Agent
write_api_key agent key_value = record agent { api_key = some (strip key_value ++ (b'\n' ∷ [])) }
