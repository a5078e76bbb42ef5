-- ===== src/Cli/Keys.antt =====
-- Where a model key is found: `_resolve_api_key_entry`, `_inject_auth_env`, `_configured_key_source`,
-- `_key_conflict` and `detect_api_keys`.
pub mod Injection
pub mod Filled
pub mod Tables
pub mod Available
pub mod Missing
use storageops.Base.{
  ℕ, if◌then◌else◌, Bool, true, false, not, ◌&&◌, ◌||◌, Option, none, some, List, [], ◌∷◌, ◌++◌,
  map, keep, member, Text, txt, ◌===◌, lower, strip, ◌==◌,
}
use storageops.Base.Dict.{Dict, lookup, contains, insert}
use storageops.Json.{Json, str, obj, Fields, get, has, truthy}
use storageops.Cli.World.{File, document, Agent, Env, is_set}

unfoldable pub required_api_keys : List Text
unfolding txt
required_api_keys = txt "ANTHROPIC_API_KEY" ∷ txt "DEEPSEEK_API_KEY" ∷ txt "OPENAI_API_KEY" ∷ []

unfoldable pub provider_env : List (Text × Text)
unfolding txt
provider_env =
    (txt "anthropic", txt "ANTHROPIC_API_KEY")
    ∷ (txt "deepseek", txt "DEEPSEEK_API_KEY")
    ∷ (txt "openai", txt "OPENAI_API_KEY")
    ∷ (txt "google", txt "GEMINI_API_KEY")
    ∷ (txt "mistral", txt "MISTRAL_API_KEY")
    ∷ (txt "groq", txt "GROQ_API_KEY")
    ∷ (txt "cerebras", txt "CEREBRAS_API_KEY")
    ∷ []

unfoldable pub api_key_file_providers : Dict Text
unfolding txt
api_key_file_providers =
    provider_env
    ++ ((txt "gemini", txt "GEMINI_API_KEY") ∷ (txt "claude", txt "ANTHROPIC_API_KEY") ∷ [])

-- `raw.partition(sep)`: the text before the first separator, and the text behind it if there is one.
unfoldable pub partition : ℕ → Text → Text × Option Text
partition sep [] = ([], none)
partition sep (c ∷ s) =
    let (prefix, rest) = partition sep s in if c == sep then ([], some s) else (c ∷ prefix, rest)

abbrev pub known_key : Option Text → Text → Text → Option Text × Text
known_key none rest raw = (none, raw)
known_key (some env_var) rest raw = (some env_var, strip rest)

abbrev pub entry_of : Text × Option Text → Text → Option Text × Text
entry_of (prefix, none) raw = (none, raw)
entry_of (prefix, some rest) raw =
    known_key (lookup api_key_file_providers (lower (strip prefix))) rest raw

unfoldable pub resolve_api_key_entry : Text → Option Text × Text
resolve_api_key_entry raw = entry_of (partition b':' raw) raw

-- `val.get("apiKey") or val.get("key")`, or the value itself where it is no mapping.
unfoldable pub key_in : Json → Json
unfolding get txt
key_in (obj d) = if truthy (get d (txt "apiKey")) then get d (txt "apiKey") else get d (txt "key")
key_in v = v

-- A text that is not empty.
unfoldable pub usable_key : Json → Option Text
usable_key (str []) = none
usable_key (str (c ∷ s)) = some (c ∷ s)
usable_key _ = none

abbrev set_found : Env → Text → Option Text → Env
set_found env name none = env
set_found env name (some key) = insert env name key

unfoldable pub inject_provider : Fields → Text × Text → Env → Env
inject_provider auth (provider, env_var) env =
    if has auth provider && not (contains env env_var)
    then set_found env env_var (usable_key (key_in (get auth provider)))
    else env

unfoldable pub inject_providers : Fields → List (Text × Text) → Env → Env
inject_providers auth [] env = env
inject_providers auth (p ∷ ps) env = inject_providers auth ps (inject_provider auth p env)

-- The part on auth.json. A document that is no object raises before it sets anything, and what it
-- raises is caught.
unfoldable pub inject_auth : File → Env → Env
inject_auth (document (obj d)) env = inject_providers d provider_env env
inject_auth _ env = env

unfoldable pub fallback_vars : List Text
unfolding txt
fallback_vars = txt "DEEPSEEK_API_KEY" ∷ txt "ANTHROPIC_API_KEY" ∷ txt "OPENAI_API_KEY" ∷ []

-- The first of the variables that is not there gets the key.
unfoldable pub set_first : List Text → Text → Env → Env
set_first [] key env = env
set_first (v ∷ vs) key env =
    let rest = set_first vs key env in if contains env v then rest else insert env v key

unfoldable pub inject_entry : Option Text × Text → Env → Env
inject_entry (some env_var, key) env = if contains env env_var then env else insert env env_var key
inject_entry (none, key) env = set_first fallback_vars key env

-- The part on the api-key file, of the text that it holds.
unfoldable pub inject_key_file : Option Text → Env → Env
inject_key_file none env = env
inject_key_file (some content) env =
    let raw = strip content in
    if raw === [] then env else inject_entry (resolve_api_key_entry raw) env

unfoldable pub inject_auth_env : Agent → Env → Env
inject_auth_env agent env = inject_key_file agent.api_key (inject_auth agent.auth env)

-- `dict.fromkeys(names)`: each name once, in the order of its first place.
unfoldable pub from_keys : List Text → List Text
from_keys [] = []
from_keys (t ∷ ts) = t ∷ keep (λ s. not (s === t)) (from_keys ts)

unfoldable pub key_vars : List Text
key_vars = from_keys (required_api_keys ++ map (λ p. p.1) provider_env)

-- What `_configured_key_source` says: an environment variable, the file, or a provider of auth.json.
pub data Source : Type 0 where
  from_env : Text → Source
  key_file : Source
  from_auth : Text → Source

unfoldable pub first_set : Env → List Text → Option Source
first_set env [] = none
first_set env (v ∷ vs) = if is_set env v then some (from_env v) else first_set env vs

unfoldable pub has_key_file : Agent → Bool
has_key_file agent = elim agent.api_key [ none ↦ false | some content ↦ not (strip content === []) ]

unfoldable pub auth_source : Fields → List (Text × Text) → Option Source
auth_source auth [] = none
auth_source auth ((provider, env_var) ∷ ps) = elim (usable_key (key_in (get auth provider))) [
  | some key ↦ some (from_auth provider)
  | none ↦ auth_source auth ps
]

-- A document that is no object raises, and what it raises is caught.
unfoldable pub auth_file_source : File → Option Source
auth_file_source (document (obj d)) = auth_source d provider_env
auth_file_source _ = none

abbrev pub or_next : Option Source → Option Source → Option Source
or_next (some s) other = some s
or_next none other = other

unfoldable pub configured_key_source : Agent → Env → Option Source
configured_key_source agent env =
    or_next (first_set env key_vars)
      (if has_key_file agent then some key_file else auth_file_source agent.auth)

-- `env_keys[:3]`
abbrev first_three : List Text → List Text
first_three (a ∷ b ∷ c ∷ more) = a ∷ b ∷ c ∷ []
first_three ts = ts

abbrev conflict_of : List Text → Bool → Option (List Text)
conflict_of [] has_file = none
conflict_of (v ∷ vs) has_file = if has_file then some (first_three (v ∷ vs)) else none

-- The variables that are said to override the file.
unfoldable pub key_conflict : Agent → Env → Option (List Text)
key_conflict agent env = conflict_of (keep (is_set env) key_vars) (has_key_file agent)

unfoldable pub detect_api_keys : Env → List Text
detect_api_keys env = keep (is_set env) required_api_keys
