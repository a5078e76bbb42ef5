-- ===== src/Tests/CliKeyRuns.antt =====
-- Keys and settings of storageops_cli/__init__.py on concrete files.
use storageops.Base.{
  ◌≡◌, refl, false, ◌||◌, Option, none, some, [], ◌∷◌, Text, txt, ◌===◌, lower, strip, is_space,
  any, keep, member, starts_with, lower_code, skip_while, strip_by, ===_iff, ap, subst, arith,
}
use storageops.Base.Dict.{lookup, contains, insert}
use storageops.Json.{str, arr, obj, nil, cons, Fields, end, field, get, has, is_empty, truthy}
use storageops.Cli.World.{absent, document, Agent, Home, Env, is_given, is_set, read_json_file}
use storageops.Cli.Keys.{
  fallback_vars, first_set, from_keys, api_key_file_providers, auth_file_source, auth_source,
  inject_entry, inject_key_file, inject_provider, inject_providers, key_in, key_vars, partition,
  required_api_keys, set_first, usable_key, from_env, key_file, provider_env, inject_auth,
  inject_auth_env, configured_key_source, key_conflict, resolve_api_key_entry, has_key_file,
}
use storageops.Cli.Session.Launch.{path_no_key}
use storageops.Cli.Keys.Filled.{NoneEmpty}
use storageops.Cli.Keys.Available.{NamesKey, configured_key_source-inject_auth_env}
use storageops.Cli.Settings.{
  config_settings, put, put_given, set_default, settings_doc, write_api_key, write_config_settings,
  done, merge_settings, merged_settings,
}
use storageops.Cli.Settings.Paths.{listed}
use storageops.Cli.Settings.Merging.{own_path, merge_settings_keeps, merge_settings_twice}
use storageops.Cli.Configure.{
  configure_agent, configure_options, has_flag, key_arg, option_value, with_provider,
  without_prefix, has_colon, cmd_configure,
}
use storageops.Cli.Configure.Arguments.{provider_key_args}

abbrev blank : Agent
blank = record {
  settings = absent;
  backup = absent;
  auth = absent;
  api_key = none;
  extensions = [];
  skills = none;
}

abbrev blank_home : Home
blank_home = record { own = blank; pi = blank; marker = absent }

-- A key of Groq in auth.json, and one of OpenAI in the key file.
abbrev two_keys : Agent
two_keys = record blank {
  auth = document (obj (field (txt "groq") (obj (field (txt "key") (str (txt "gsk-1")) end)) end));
  api_key = some (txt "openai:sk-2\n");
}

abbrev shell : Env
shell = (txt "PATH", txt "/usr/bin") ∷ []

both_injected : inject_auth_env two_keys shell ≡ (
    (txt "PATH", txt "/usr/bin")
    ∷ (txt "GROQ_API_KEY", txt "gsk-1")
    ∷ (txt "OPENAI_API_KEY", txt "sk-2")
    ∷ [])
unfolding ◌===◌ any contains fallback_vars first_set from_keys get has has_key_file
    api_key_file_providers auth_file_source auth_source configured_key_source inject_auth
    inject_auth_env inject_entry inject_key_file inject_provider inject_providers insert is_empty
    is_given is_set is_space keep key_conflict key_in key_vars lookup lower lower_code partition
    provider_env required_api_keys resolve_api_key_entry set_first skip_while strip strip_by truthy
    txt usable_key
both_injected = refl

shell-NoneEmpty : NoneEmpty shell
unfolding contains
shell-NoneEmpty v m c =
    let same : txt "PATH" ≡ v = (===_iff (txt "PATH") v).0 (ground arith) in
    absurd (ground (arith, path_no_key, ap (λ x. member x key_vars) same))

abbrev or_blank : Option Text → Text
or_blank none = []
or_blank (some content) = content

two_keys_resolved : ((resolve_api_key_entry (strip (txt "openai:sk-2\n"))).1 === []) ≡ false
unfolding ◌===◌ any contains fallback_vars first_set from_keys get has has_key_file
    api_key_file_providers auth_file_source auth_source configured_key_source inject_auth
    inject_auth_env inject_entry inject_key_file inject_provider inject_providers insert is_empty
    is_given is_set is_space keep key_conflict key_in key_vars lookup lower lower_code partition
    provider_env required_api_keys resolve_api_key_entry set_first skip_while strip strip_by truthy
    txt usable_key
two_keys_resolved = refl

two_keys-NamesKey : NamesKey two_keys
two_keys-NamesKey content e =
    subst (λ o. ((resolve_api_key_entry (strip (or_blank o))).1 === []) ≡ false) e two_keys_resolved

configured_key_source-inject_auth_env_example :
    (v : Text) × (configured_key_source two_keys (inject_auth_env two_keys shell)
      ≡ some (from_env v))
unfolding configured_key_source storageops.Cli.Keys.first_set storageops.Cli.Keys.key_vars
    storageops.Cli.Keys.from_keys storageops.Cli.Keys.required_api_keys storageops.Cli.World.is_set
    keep provider_env has_key_file strip
configured_key_source-inject_auth_env_example =
    configured_key_source-inject_auth_env two_keys shell key_file shell-NoneEmpty two_keys-NamesKey
      refl

-- A provider that the table does not know: its name becomes a part of the key, which goes to DeepSeek.
unknown_provider :
    lookup
      (inject_auth_env
        (cmd_configure (provider_key_args (txt "xai") (txt "sk-3")) none blank_home).1.own
        shell)
      (txt "DEEPSEEK_API_KEY")
    ≡ some (txt "xai:sk-3")
unfolding ◌===◌ any contains fallback_vars first_set from_keys get has has_key_file
    api_key_file_providers auth_file_source auth_source configured_key_source inject_auth
    inject_auth_env inject_entry inject_key_file inject_provider inject_providers insert is_empty
    is_given is_set is_space keep key_conflict key_in key_vars lookup lower lower_code partition
    provider_env required_api_keys resolve_api_key_entry set_first skip_while strip strip_by truthy
    txt usable_key cmd_configure configure_options config_settings has_colon has_flag key_arg member
    option_value put put_given set_default settings_doc starts_with with_provider without_prefix
    write_api_key write_config_settings read_json_file configure_agent
unknown_provider = refl

abbrev two_keys_file : Agent
two_keys_file = record blank { api_key = some (txt "openai:sk-2\n") }

abbrev plain_key_file : Agent
plain_key_file = record blank { api_key = some (txt "sk-9\n") }

abbrev groq_set : Env
groq_set = (txt "GROQ_API_KEY", txt "gsk-1") ∷ []

-- A variable that is there but empty: the key file is reported, and it is not injected.
abbrev empty_variable : Env
empty_variable = (txt "OPENAI_API_KEY", []) ∷ []

reported_not_injected :
    (configured_key_source two_keys_file empty_variable ≡ some key_file)
    × (inject_auth_env two_keys_file empty_variable ≡ empty_variable)
unfolding ◌===◌ any contains fallback_vars first_set from_keys get has has_key_file
    api_key_file_providers auth_file_source auth_source configured_key_source inject_auth
    inject_auth_env inject_entry inject_key_file inject_provider inject_providers insert is_empty
    is_given is_set is_space keep key_conflict key_in key_vars lookup lower lower_code partition
    provider_env required_api_keys resolve_api_key_entry set_first skip_while strip strip_by truthy
    txt usable_key
reported_not_injected = (refl, refl)

-- A key of another provider in the environment is said to override the file, whose key is still
-- injected for DeepSeek.
said_to_override :
    (key_conflict plain_key_file groq_set ≡ some (txt "GROQ_API_KEY" ∷ []))
    × (lookup (inject_auth_env plain_key_file groq_set) (txt "DEEPSEEK_API_KEY")
        ≡ some (txt "sk-9"))
unfolding ◌===◌ any contains fallback_vars first_set from_keys get has has_key_file
    api_key_file_providers auth_file_source auth_source configured_key_source inject_auth
    inject_auth_env inject_entry inject_key_file inject_provider inject_providers insert is_empty
    is_given is_set is_space keep key_conflict key_in key_vars lookup lower lower_code partition
    provider_env required_api_keys resolve_api_key_entry set_first skip_while strip strip_by truthy
    txt usable_key
said_to_override = (refl, refl)

-- Settings with a skill path and a theme.
abbrev themed : Fields
themed =
    field (txt "theme") (str (txt "dark"))
      (field (txt "skills") (arr (cons (str (txt "mine")) nil)) end)

abbrev themed_agent : Agent
themed_agent = record blank { settings = document (obj themed) }

merge_settings_keeps_example :
    (d' : Fields) × (merge_settings themed_agent
      ≡ done (record themed_agent { settings = document (obj d'); backup = document (obj themed) }))
    × ((k : Text)
        → (txt "skills" === k) ≡ false
        → (txt "enableSkillCommands" === k) ≡ false
        → get d' k ≡ get themed k)
    × ((t : Text)
        → listed t (get d' (txt "skills"))
          ≡ (listed t (get themed (txt "skills")) || listed t own_path))
merge_settings_keeps_example = merge_settings_keeps themed_agent themed refl

abbrev merged_once : Agent
merged_once = record themed_agent {
  settings = document (obj (merged_settings themed));
  backup = document (obj themed);
}

merge_settings_twice_example :
    merge_settings merged_once ≡ done (record merged_once { backup = merged_once.settings })
unfolding merge_settings storageops.Cli.Settings.existing_settings
merge_settings_twice_example = merge_settings_twice themed_agent merged_once refl
