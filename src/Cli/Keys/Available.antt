-- ===== src/Cli/Keys/Available.antt =====
-- A key that is reported as configured is one that the session gets.
use storageops.Base.{
  ◌≡◌, refl, true, false, not, Option, none, some, List, [], ◌∷◌, any, all, member, keep, Text, txt,
  ◌===◌, strip, arith, Bool-cases, Option-cases, inl, inr,
}
use storageops.Base.Dict.{contains, insert}
use storageops.Json.{null, bool, num, str, arr, obj, Fields, get}
use storageops.Cli.World.{File, absent, invalid, document, Agent, Env, is_set}
use storageops.Cli.Keys.{
  required_api_keys, provider_env, resolve_api_key_entry, key_in, usable_key, inject_provider,
  inject_providers, inject_auth, fallback_vars, set_first, inject_entry, inject_key_file,
  inject_auth_env, key_vars, from_keys, Source, from_env, first_set, has_key_file, auth_source,
  auth_file_source, configured_key_source,
}
use storageops.Cli.Keys.Injection.{
  inject_providers-Extends, inject_auth_env-Extends, inject_key_file-Extends, set_first-Extends,
  any_set-Extends, first_set-any, first_set-none,
}
use storageops.Cli.Keys.Filled.{
  NoneEmpty, AnySet, any-member, is_set-insert, inject_provider-set, inject_provider-NoneEmpty,
  inject_providers-NoneEmpty, usable-has,
}
use storageops.Cli.Keys.Tables.{resolve_api_key_entry-InKeyVars, InKeyVars, provider_env-InKeyVars}

inject_providers-AnySet :
    (auth : Fields) (ps : List (Text × Text)) (env : Env) (s : Source)
    → NoneEmpty env
    → InKeyVars ps
    → auth_source auth ps ≡ some s
    → AnySet (inject_providers auth ps env)
unfolding auth_source inject_providers all
inject_providers-AnySet auth [] env s full inside h = absurd cc
inject_providers-AnySet auth ((provider, env_var) ∷ ps) env s full inside h =
    let env' = inject_provider auth (provider, env_var) env in
    let m : member env_var key_vars ≡ true = ground arith in
    elim (Option-cases (usable_key (key_in (get auth provider)))) [
      | inl n ↦
          inject_providers-AnySet auth ps env' s
            (inject_provider-NoneEmpty auth (provider, env_var) env full) (ground arith)
            (ground (arith, n))
      | inr (key, found) ↦
          any_set-Extends env' (inject_providers auth ps env') key_vars
            (inject_providers-Extends auth ps env')
            (any-member (is_set env') env_var key_vars m (
              inject_provider-set auth provider env_var env key full m
                (usable-has auth provider key found) found))
    ]

set_first-AnySet :
    (v : Text) (vs : List Text) (key : Text) (env : Env)
    → NoneEmpty env
    → member v key_vars ≡ true
    → (key === []) ≡ false
    → AnySet (set_first (v ∷ vs) key env)
unfolding set_first
set_first-AnySet v vs key env full m h = elim (Bool-cases (contains env v)) [
  | inl y ↦ rw y (
      any_set-Extends env (set_first vs key env) key_vars (set_first-Extends vs key env)
        (any-member (is_set env) v key_vars m (full v m y)))
  | inr n ↦ rw n (any-member (is_set (insert env v key)) v key_vars m (is_set-insert env v key h))
]

first_fallback : member (txt "DEEPSEEK_API_KEY") key_vars ≡ true
unfolding member key_vars from_keys required_api_keys ◌===◌ keep
first_fallback = refl

inject_entry-AnySet :
    (e : Option Text × Text) (env : Env)
    → NoneEmpty env
    → (e.1 === []) ≡ false
    → ((v : Text) → e.0 ≡ some v → member v key_vars ≡ true)
    → AnySet (inject_entry e env)
unfolding inject_entry fallback_vars
inject_entry-AnySet (none, key) env full h m =
    set_first-AnySet (txt "DEEPSEEK_API_KEY") _ key env full first_fallback h
inject_entry-AnySet (some v, key) env full h m = elim (Bool-cases (contains env v)) [
  | inl y ↦ rw y (any-member (is_set env) v key_vars (m v refl) (full v (m v refl) y))
  | inr n ↦
      rw n
        (any-member (is_set (insert env v key)) v key_vars (m v refl) (is_set-insert env v key h))
]

-- The api-key file, where there is one, names a key: `deepseek:` with nothing behind it does not.
abbrev pub NamesKey : Agent → Type 0
NamesKey agent =
    (content : Text)
    → agent.api_key ≡ some content
    → ((resolve_api_key_entry (strip content)).1 === []) ≡ false

inject_auth-AnySet :
    (file : File) (env : Env) (s : Source)
    → NoneEmpty env
    → auth_file_source file ≡ some s
    → AnySet (inject_auth file env)
unfolding auth_file_source inject_auth
inject_auth-AnySet absent env s full h = absurd cc
inject_auth-AnySet invalid env s full h = absurd cc
inject_auth-AnySet (document (obj d)) env s full h =
    inject_providers-AnySet d provider_env env s full provider_env-InKeyVars h
inject_auth-AnySet (document null) env s full h = absurd cc
inject_auth-AnySet (document (bool b)) env s full h = absurd cc
inject_auth-AnySet (document (num t)) env s full h = absurd cc
inject_auth-AnySet (document (str t)) env s full h = absurd cc
inject_auth-AnySet (document (arr xs)) env s full h = absurd cc

inject_auth-NoneEmpty : (file : File) (env : Env) → NoneEmpty env → NoneEmpty (inject_auth file env)
unfolding inject_auth
inject_auth-NoneEmpty absent env full = full
inject_auth-NoneEmpty invalid env full = full
inject_auth-NoneEmpty (document (obj d)) env full =
    inject_providers-NoneEmpty d provider_env env full
inject_auth-NoneEmpty (document null) env full = full
inject_auth-NoneEmpty (document (bool b)) env full = full
inject_auth-NoneEmpty (document (num t)) env full = full
inject_auth-NoneEmpty (document (str t)) env full = full
inject_auth-NoneEmpty (document (arr xs)) env full = full

inject_key_file-AnySet :
    (content : Text) (env : Env)
    → NoneEmpty env
    → (strip content === []) ≡ false
    → ((resolve_api_key_entry (strip content)).1 === []) ≡ false
    → AnySet (inject_key_file (some content) env)
unfolding inject_key_file
inject_key_file-AnySet content env full h named = rw h (
    inject_entry-AnySet (resolve_api_key_entry (strip content)) env full named
      (resolve_api_key_entry-InKeyVars (strip content)))

key_file-AnySet :
    (o : Option Text) (env : Env)
    → NoneEmpty env
    → (elim o [ none ↦ false | some content ↦ not (strip content === []) ]) ≡ true
    → ((content : Text)
        → o ≡ some content
        → ((resolve_api_key_entry (strip content)).1 === []) ≡ false)
    → AnySet (inject_key_file o env)
key_file-AnySet none env full h named = absurd cc
key_file-AnySet (some content) env full h named =
    inject_key_file-AnySet content env full (ground arith) (named content refl)

pub inject_auth_env-AnySet :
    (agent : Agent) (env : Env) (s : Source)
    → NoneEmpty env
    → NamesKey agent
    → configured_key_source agent env ≡ some s
    → AnySet (inject_auth_env agent env)
unfolding inject_auth_env configured_key_source has_key_file
inject_auth_env-AnySet agent env s full named h =
    let env' = inject_auth agent.auth env in
    elim (Bool-cases (any (is_set env) key_vars)) [
      | inl y ↦
          any_set-Extends env (inject_auth_env agent env) key_vars
            (inject_auth_env-Extends agent env) y
      | inr n ↦ elim (Bool-cases (has_key_file agent)) [
        | inl f ↦
            key_file-AnySet agent.api_key env' (inject_auth-NoneEmpty agent.auth env full) f named
        | inr g ↦
            any_set-Extends env' (inject_key_file agent.api_key env') key_vars
              (inject_key_file-Extends agent.api_key env')
              (inject_auth-AnySet agent.auth env s full
                (rw (first_set-none env key_vars n, g) at h))
      ]
    ]

source_of_first :
    (agent : Agent) (env : Env) (v : Text)
    → first_set env key_vars ≡ some (from_env v)
    → configured_key_source agent env ≡ some (from_env v)
unfolding configured_key_source
source_of_first agent env v e = rw e refl

-- Where no variable for a key is there empty, and a key file, if any, names a key: a source that is
-- reported as configured is one from which the session gets its variable, so that a report made
-- after the injection names a variable of the environment.
pub configured_key_source-inject_auth_env :
    (agent : Agent) (env : Env) (s : Source)
    → NoneEmpty env
    → NamesKey agent
    → configured_key_source agent env ≡ some s
    → (v : Text) × (configured_key_source agent (inject_auth_env agent env) ≡ some (from_env v))
configured_key_source-inject_auth_env agent env s full named h =
    let (v, e) =
      first_set-any (inject_auth_env agent env) key_vars
        (inject_auth_env-AnySet agent env s full named h) in
    (v, source_of_first agent (inject_auth_env agent env) v e)
