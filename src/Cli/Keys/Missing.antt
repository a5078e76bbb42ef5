-- ===== src/Cli/Keys/Missing.antt =====
-- What the injection does where no key is configured.
use storageops.Base.{
  ◌≡◌, refl, true, false, not, ◌&&◌, Option, none, some, List, [], ◌∷◌, Text, ◌===◌, strip, arith,
  Bool-cases, Option-cases, inl, inr,
}
use storageops.Base.Dict.{contains}
use storageops.Json.{null, bool, num, str, arr, obj, Fields, get, has}
use storageops.Cli.World.{File, absent, invalid, document, Agent, Env}
use storageops.Cli.Keys.{
  provider_env, key_in, usable_key, inject_provider, inject_providers, inject_auth, inject_key_file,
  inject_auth_env, key_vars, Source, first_set, has_key_file, auth_source, auth_file_source,
  configured_key_source, or_next,
}

inject_provider-unusable :
    (auth : Fields) (provider env_var : Text) (env : Env)
    → usable_key (key_in (get auth provider)) ≡ none
    → inject_provider auth (provider, env_var) env ≡ env
unfolding inject_provider
inject_provider-unusable auth provider env_var env h =
    elim (Bool-cases (has auth provider && not (contains env env_var))) [
      | inl y ↦ rw (y, h) refl
      | inr n ↦ rw n refl
    ]

inject_providers-unusable :
    (auth : Fields) (ps : List (Text × Text)) (env : Env)
    → auth_source auth ps ≡ none
    → inject_providers auth ps env ≡ env
unfolding auth_source inject_providers
inject_providers-unusable auth [] env h = refl
inject_providers-unusable auth ((provider, env_var) ∷ ps) env h =
    elim (Option-cases (usable_key (key_in (get auth provider)))) [
      | inl n ↦
          rw (inject_provider-unusable auth provider env_var env n)
            (inject_providers-unusable auth ps env (ground (arith, n)))
      | inr (key, found) ↦ absurd (ground (arith, found))
    ]

inject_auth-unusable :
    (file : File) (env : Env) → auth_file_source file ≡ none → inject_auth file env ≡ env
unfolding auth_file_source inject_auth
inject_auth-unusable absent env h = refl
inject_auth-unusable invalid env h = refl
inject_auth-unusable (document (obj d)) env h = inject_providers-unusable d provider_env env h
inject_auth-unusable (document null) env h = refl
inject_auth-unusable (document (bool b)) env h = refl
inject_auth-unusable (document (num t)) env h = refl
inject_auth-unusable (document (str t)) env h = refl
inject_auth-unusable (document (arr xs)) env h = refl

inject_key_file-blank :
    (o : Option Text) (env : Env)
    → (elim o [ none ↦ false | some content ↦ not (strip content === []) ]) ≡ false
    → inject_key_file o env ≡ env
unfolding inject_key_file
inject_key_file-blank none env h = refl
inject_key_file-blank (some content) env h =
    let blank : (strip content === []) ≡ true = ground arith in rw blank refl

no_other_source : (o other : Option Source) → or_next o other ≡ none → other ≡ none
no_other_source none other h = h
no_other_source (some s) other h = absurd cc

-- Where no source of a key is reported as configured, the injection leaves the environment as it is.
inject_auth_env-unconfigured :
    (agent : Agent) (env : Env)
    → configured_key_source agent env ≡ none
    → inject_auth_env agent env ≡ env
unfolding configured_key_source inject_auth_env has_key_file
inject_auth_env-unconfigured agent env h =
    let files = no_other_source (first_set env key_vars) _ h in
    elim (Bool-cases (has_key_file agent)) [
      | inl y ↦ absurd (ground (arith, y))
      | inr n ↦
          rw (inject_auth-unusable agent.auth env (rw n at files))
            (inject_key_file-blank agent.api_key env n)
    ]
