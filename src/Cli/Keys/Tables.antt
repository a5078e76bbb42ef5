-- ===== src/Cli/Keys/Tables.antt =====
-- The variables that the tables of providers name.
use storageops.Base.{
  Option, none, some, lower, strip, ◌≡◌, refl, ap, true, List, [], ◌∷◌, all, member, keep, Text,
  ◌===◌, arith, Bool-cases, inl, inr,
}
use storageops.Base.Dict.{lookup}
use storageops.Cli.Keys.{
  partition, entry_of, known_key, resolve_api_key_entry, required_api_keys, provider_env,
  api_key_file_providers, key_vars, from_keys,
}

-- The variables of a table are among those that are looked at.
abbrev pub InKeyVars : List (Text × Text) → Type 0
InKeyVars ps = all (λ p. member p.1 key_vars) ps ≡ true

pub provider_env-InKeyVars : InKeyVars provider_env
unfolding all provider_env member key_vars from_keys required_api_keys ◌===◌ keep
provider_env-InKeyVars = refl

pub api_key_file_providers-InKeyVars : InKeyVars api_key_file_providers
unfolding all api_key_file_providers provider_env member key_vars from_keys required_api_keys ◌===◌
    keep
api_key_file_providers-InKeyVars = refl

pub lookup-InKeyVars :
    (ps : List (Text × Text)) (k v : Text)
    → InKeyVars ps
    → lookup ps k ≡ some v
    → member v key_vars ≡ true
unfolding all lookup
lookup-InKeyVars [] k v h e = absurd (ground arith)
lookup-InKeyVars ((j, w) ∷ ps) k v h e = elim (Bool-cases (j === k)) [
  | inl y ↦ let same : w ≡ v = ground arith in ground (arith, ap (λ x. member x key_vars) same)
  | inr n ↦ lookup-InKeyVars ps k v (ground arith) (ground arith)
]

known_key-InKeyVars :
    (o : Option Text) (rest raw v : Text)
    → ((w : Text) → o ≡ some w → member w key_vars ≡ true)
    → (known_key o rest raw).0 ≡ some v
    → member v key_vars ≡ true
known_key-InKeyVars none rest raw v m h = absurd cc
known_key-InKeyVars (some w) rest raw v m h = m v h

entry_of-InKeyVars :
    (parts : Text × Option Text) (raw v : Text)
    → (entry_of parts raw).0 ≡ some v
    → member v key_vars ≡ true
entry_of-InKeyVars (prefix, none) raw v h = absurd cc
entry_of-InKeyVars (prefix, some rest) raw v h =
    known_key-InKeyVars (lookup api_key_file_providers (lower (strip prefix))) rest raw v
      (λ w. lookup-InKeyVars api_key_file_providers _ w api_key_file_providers-InKeyVars) h

pub resolve_api_key_entry-InKeyVars :
    (raw v : Text) → (resolve_api_key_entry raw).0 ≡ some v → member v key_vars ≡ true
unfolding resolve_api_key_entry
resolve_api_key_entry-InKeyVars raw v h = entry_of-InKeyVars (partition b':' raw) raw v h
