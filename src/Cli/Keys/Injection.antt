-- ===== src/Cli/Keys/Injection.antt =====
-- What the injection of keys does to the environment.
use storageops.Base.{
  ◌≡◌, refl, true, false, not, ◌&&◌, Option, none, some, List, [], ◌∷◌, any, Text, ◌===◌, strip,
  arith, Bool-cases, Option-cases, inl, inr,
}
use storageops.Base.Dict.{lookup, contains, insert, lookup-insert_new}
use storageops.Json.{null, bool, num, str, arr, obj, Fields, get, has}
use storageops.Cli.World.{File, absent, invalid, document, Agent, Env, is_given, is_set}
use storageops.Cli.Keys.{
  provider_env, resolve_api_key_entry, key_in, usable_key, set_found, inject_provider,
  inject_providers, inject_auth, fallback_vars, set_first, inject_entry, inject_key_file,
  inject_auth_env, from_env, first_set,
}

-- One environment holds all that another does.
abbrev pub Extends : Env → Env → Type 0
Extends env env' = (k v : Text) → lookup env k ≡ some v → lookup env' k ≡ some v

pub insert-Extends :
    (env : Env) (k v : Text) → contains env k ≡ false → Extends env (insert env k v)
insert-Extends env k v fresh j w h = lookup-insert_new env j k v w fresh h

set_found-Extends :
    (env : Env) (k : Text) (o : Option Text)
    → contains env k ≡ false
    → Extends env (set_found env k o)
set_found-Extends env k none fresh j w h = h
set_found-Extends env k (some v) fresh j w h = insert-Extends env k v fresh j w h

inject_provider-Extends :
    (auth : Fields) (p : Text × Text) (env : Env) → Extends env (inject_provider auth p env)
unfolding inject_provider
inject_provider-Extends auth (provider, env_var) env j w h =
    elim (Bool-cases (has auth provider && not (contains env env_var))) [
      | inl y ↦ rw y (
          set_found-Extends env env_var (usable_key (key_in (get auth provider))) (ground arith) j w
            h)
      | inr n ↦ rw n h
    ]

pub inject_providers-Extends :
    (auth : Fields) (ps : List (Text × Text)) (env : Env)
    → Extends env (inject_providers auth ps env)
unfolding inject_providers
inject_providers-Extends auth [] env j w h = h
inject_providers-Extends auth (p ∷ ps) env j w h =
    inject_providers-Extends auth ps (inject_provider auth p env) j w
      (inject_provider-Extends auth p env j w h)

inject_auth-Extends : (file : File) (env : Env) → Extends env (inject_auth file env)
unfolding inject_auth
inject_auth-Extends (document (obj d)) env j w h = inject_providers-Extends d provider_env env j w h
inject_auth-Extends (document null) env j w h = h
inject_auth-Extends (document (bool b)) env j w h = h
inject_auth-Extends (document (num t)) env j w h = h
inject_auth-Extends (document (str t)) env j w h = h
inject_auth-Extends (document (arr xs)) env j w h = h
inject_auth-Extends absent env j w h = h
inject_auth-Extends invalid env j w h = h

pub set_first-Extends :
    (vs : List Text) (key : Text) (env : Env) → Extends env (set_first vs key env)
unfolding set_first
set_first-Extends [] key env j w h = h
set_first-Extends (v ∷ vs) key env j w h = elim (Bool-cases (contains env v)) [
  | inl y ↦ rw y (set_first-Extends vs key env j w h)
  | inr n ↦ rw n (insert-Extends env v key n j w h)
]

pub inject_entry-Extends : (e : Option Text × Text) (env : Env) → Extends env (inject_entry e env)
unfolding inject_entry
inject_entry-Extends (none, key) env j w h = set_first-Extends fallback_vars key env j w h
inject_entry-Extends (some v, key) env j w h = elim (Bool-cases (contains env v)) [
  | inl y ↦ rw y h
  | inr n ↦ rw n (insert-Extends env v key n j w h)
]

pub inject_key_file-Extends : (o : Option Text) (env : Env) → Extends env (inject_key_file o env)
unfolding inject_key_file
inject_key_file-Extends none env j w h = h
inject_key_file-Extends (some content) env j w h = elim (Bool-cases (strip content === [])) [
  | inl y ↦ rw y h
  | inr n ↦ rw n (inject_entry-Extends (resolve_api_key_entry (strip content)) env j w h)
]

-- A variable that is in the environment, empty or not, keeps its value.
pub inject_auth_env-Extends : (agent : Agent) (env : Env) → Extends env (inject_auth_env agent env)
unfolding inject_auth_env
inject_auth_env-Extends agent env j w h =
    inject_key_file-Extends agent.api_key (inject_auth agent.auth env) j w
      (inject_auth-Extends agent.auth env j w h)

is_set-Extends :
    (env env' : Env) (v : Text) → Extends env env' → is_set env v ≡ true → is_set env' v ≡ true
unfolding is_set is_given
is_set-Extends env env' v e h = elim (Option-cases (lookup env v)) [
  | inl n ↦ absurd (ground (arith, n))
  | inr (w, s) ↦ rw (e v w s) (rw s at h)
]

pub any_set-Extends :
    (env env' : Env) (vs : List Text)
    → Extends env env'
    → any (is_set env) vs ≡ true
    → any (is_set env') vs ≡ true
unfolding any
any_set-Extends env env' [] e h = h
any_set-Extends env env' (v ∷ vs) e h = elim (Bool-cases (is_set env v)) [
  | inl y ↦ ground (arith, is_set-Extends env env' v e y)
  | inr n ↦ ground (arith, any_set-Extends env env' vs e (ground arith))
]

pub first_set-any :
    (env : Env) (vs : List Text)
    → any (is_set env) vs ≡ true
    → (v : Text) × (first_set env vs ≡ some (from_env v))
unfolding any first_set
first_set-any env [] h = absurd (ground arith)
first_set-any env (v ∷ vs) h = elim (Bool-cases (is_set env v)) [
  | inl y ↦ (v, rw y refl)
  | inr n ↦ let (w, e) = first_set-any env vs (ground arith) in (w, rw n e)
]

pub first_set-none :
    (env : Env) (vs : List Text) → any (is_set env) vs ≡ false → first_set env vs ≡ none
unfolding any first_set
first_set-none env [] h = refl
first_set-none env (v ∷ vs) h = ground (arith, first_set-none env vs)
