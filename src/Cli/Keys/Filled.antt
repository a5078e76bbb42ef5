-- ===== src/Cli/Keys/Filled.antt =====
-- Variables for keys that are not there with an empty value, and what fills them.
use storageops.Base.{
  ◌≡◌, refl, ◌∙◌, sym, ap, subst, Bool, true, false, not, ◌&&◌, none, some, List, [], ◌∷◌, any,
  member, Text, ◌===◌, ===_iff, arith, Bool-cases, Option-cases, inl, inr,
}
use storageops.Base.Dict.{contains, insert, lookup-insert_self, lookup-insert_ne}
use storageops.Json.{Json, null, bool, num, str, arr, obj, Fields, get, has}
use storageops.Cli.World.{Env, is_given, is_set}
use storageops.Cli.Keys.{key_in, usable_key, set_found, inject_provider, inject_providers, key_vars}

-- No variable for a key is there with an empty value.
abbrev pub NoneEmpty : Env → Type 0
NoneEmpty env = (v : Text) → member v key_vars ≡ true → contains env v ≡ true → is_set env v ≡ true

abbrev pub AnySet : Env → Type 0
AnySet env = any (is_set env) key_vars ≡ true

pub any-member :
    (p : Text → Bool) (v : Text) (vs : List Text)
    → member v vs ≡ true
    → p v ≡ true
    → any p vs ≡ true
unfolding any member
any-member p v [] m h = m
any-member p v (w ∷ vs) m h = elim (Bool-cases (v === w)) [
  | inl y ↦ ground (arith, ap p ((===_iff v w).0 y))
  | inr n ↦ ground (arith, any-member p v vs (ground arith) h)
]

pub is_set-insert :
    (env : Env) (v key : Text) → (key === []) ≡ false → is_set (insert env v key) v ≡ true
unfolding is_set is_given
is_set-insert env v key h = rw (lookup-insert_self env v key) (ground (arith, h))

usable_key-full : (j : Json) (key : Text) → usable_key j ≡ some key → (key === []) ≡ false
unfolding usable_key ◌===◌
usable_key-full (str []) key h = absurd cc
usable_key-full (str (c ∷ s)) [] h = absurd cc
usable_key-full (str (c ∷ s)) (d ∷ t) h = refl
usable_key-full null key h = absurd cc
usable_key-full (bool b) key h = absurd cc
usable_key-full (num t) key h = absurd cc
usable_key-full (arr xs) key h = absurd cc
usable_key-full (obj d) key h = absurd cc

-- A provider whose key auth.json holds ends with its variable set.
pub inject_provider-set :
    (auth : Fields) (provider env_var : Text) (env : Env) (key : Text)
    → NoneEmpty env
    → member env_var key_vars ≡ true
    → has auth provider ≡ true
    → usable_key (key_in (get auth provider)) ≡ some key
    → is_set (inject_provider auth (provider, env_var) env) env_var ≡ true
unfolding inject_provider
inject_provider-set auth provider env_var env key full m there found =
    elim (Bool-cases (contains env env_var)) [
      | inl y ↦ rw (y, there) (full env_var m y)
      | inr n ↦
          rw (n, there, found)
            (is_set-insert env env_var key (usable_key-full (key_in (get auth provider)) key found))
    ]

pub is_set-insert_ne :
    (env : Env) (v w key : Text) → (w === v) ≡ false → is_set (insert env w key) v ≡ is_set env v
unfolding is_set
is_set-insert_ne env v w key h = rw (lookup-insert_ne env v w key h) refl

contains-insert_ne :
    (env : Env) (v w key : Text)
    → (w === v) ≡ false
    → contains (insert env w key) v ≡ contains env v
unfolding contains insert
contains-insert_ne [] v w key h = ground arith
contains-insert_ne ((i, x) ∷ env) v w key h = elim (Bool-cases (i === w)) [
  | inl y ↦ rw y refl
  | inr n ↦ ground (arith, contains-insert_ne env v w key h)
]

insert-NoneEmpty :
    (env : Env) (w key : Text) → (key === []) ≡ false → NoneEmpty env → NoneEmpty (insert env w key)
insert-NoneEmpty env w key h full v m c = elim (Bool-cases (w === v)) [
  | inl y ↦
      subst (λ x. is_set (insert env w key) x ≡ true) ((===_iff w v).0 y)
        (is_set-insert env w key h)
  | inr n ↦ is_set-insert_ne env v w key n ∙ full v m (sym (contains-insert_ne env v w key n) ∙ c)
]

set_found-NoneEmpty :
    (env : Env) (w : Text) (j : Json) → NoneEmpty env → NoneEmpty (set_found env w (usable_key j))
set_found-NoneEmpty env w j full = elim (Option-cases (usable_key j)) [
  | inl e ↦ rw e full
  | inr (key, e) ↦ rw e (insert-NoneEmpty env w key (usable_key-full j key e) full)
]

pub inject_provider-NoneEmpty :
    (auth : Fields) (p : Text × Text) (env : Env)
    → NoneEmpty env
    → NoneEmpty (inject_provider auth p env)
unfolding inject_provider
inject_provider-NoneEmpty auth (provider, env_var) env full =
    elim (Bool-cases (has auth provider && not (contains env env_var))) [
      | inl y ↦ rw y (set_found-NoneEmpty env env_var (key_in (get auth provider)) full)
      | inr n ↦ rw n full
    ]

pub inject_providers-NoneEmpty :
    (auth : Fields) (ps : List (Text × Text)) (env : Env)
    → NoneEmpty env
    → NoneEmpty (inject_providers auth ps env)
unfolding inject_providers
inject_providers-NoneEmpty auth [] env full = full
inject_providers-NoneEmpty auth (p ∷ ps) env full =
    inject_providers-NoneEmpty auth ps (inject_provider auth p env)
      (inject_provider-NoneEmpty auth p env full)

get-missing : (d : Fields) (k : Text) → has d k ≡ false → get d k ≡ null
unfolding get has
get-missing Fields.end k h = refl
get-missing (Fields.field j v d) k h = ground (arith, get-missing d k)

usable_key-null : usable_key (key_in null) ≡ none
unfolding usable_key key_in
usable_key-null = refl

pub usable-has :
    (d : Fields) (k key : Text) → usable_key (key_in (get d k)) ≡ some key → has d k ≡ true
usable-has d k key h = elim (Bool-cases (has d k)) [
  | inl y ↦ y
  | inr n ↦ absurd (
      ground (
        arith,
        sym usable_key-null ∙ ap (λ j. usable_key (key_in j)) (sym (get-missing d k n)) ∙ h,
      ))
]
