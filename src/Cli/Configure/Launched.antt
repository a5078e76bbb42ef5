-- ===== src/Cli/Configure/Launched.antt =====
-- A key that is configured for a provider is the one that is injected from the same directory.
use storageops.Base.{
  ℕ, ◌==◌, ◌≡◌, refl, ◌∙◌, ap, Bool, true, false, not, ◌&&◌, Option, some, [], ◌∷◌, ◌++◌, any, all,
  Text, txt, ◌===◌, ===_iff, strip, lower, lower_code, free_of, free_of-append, is_space, strip_by,
  strip_by_free, strip_by_last, arith, Bool-cases, inl, inr,
}
use storageops.Base.Dict.{Dict, lookup, contains, lookup-insert_self}
use storageops.Cli.World.{Agent, Env, is_given}
use storageops.Cli.Keys.{
  provider_env, api_key_file_providers, partition, known_key, entry_of, resolve_api_key_entry,
  inject_auth, inject_entry, inject_key_file, inject_auth_env,
}
use storageops.Cli.Settings.{write_config_settings, write_api_key}
use storageops.Cli.Configure.Arguments.{dashed}
use storageops.Cli.Configure.{given_key, has_colon, with_provider, configure_agent}

-- The name of a provider, as the table has them.
abbrev plain_name : Text → Bool
plain_name p =
    free_of is_space p && not (has_colon p) && lower p === p && not (dashed p) && not (p === [])

providers_plain : all (λ e. plain_name e.0) provider_env ≡ true
unfolding all provider_env txt free_of is_space has_colon any lower lower_code dashed ◌===◌
providers_plain = refl

lookup-all :
    (q : Text → Bool) (d : Dict Text) (k v : Text)
    → all (λ e. q e.0) d ≡ true
    → lookup d k ≡ some v
    → q k ≡ true
unfolding all lookup
lookup-all q [] k v h e = absurd cc
lookup-all q ((j, w) ∷ d) k v h e = elim (Bool-cases (j === k)) [
  | inl y ↦ ground (arith, ap q ((===_iff j k).0 y))
  | inr n ↦ lookup-all q d k v (ground arith) (ground (arith, n))
]

lookup-append : (d e : Dict Text) (k v : Text) → lookup d k ≡ some v → lookup (d ++ e) k ≡ some v
unfolding lookup
lookup-append [] e k v h = absurd cc
lookup-append ((j, w) ∷ d) e k v h = ground (arith, lookup-append d e k v)

partition_at :
    (sep : ℕ) (p rest : Text)
    → any (λ c. c == sep) p ≡ false
    → partition sep (p ++ (sep ∷ rest)) ≡ (p, some rest)
unfolding any partition
partition_at sep [] rest h = ground arith
partition_at sep (c ∷ p) rest h = rw (partition_at sep p rest (ground arith)) (ground arith)

-- A text without spaces, written as a line and read back.
line : Text → Text
line s = strip s ++ (b'\n' ∷ [])

strip-line : (c : ℕ) (s : Text) → free_of is_space (c ∷ s) ≡ true → strip (line (c ∷ s)) ≡ (c ∷ s)
unfolding strip line is_space
strip-line c s h =
    ap (λ t. strip (t ++ (b'\n' ∷ []))) (strip_by_free is_space (c ∷ s) h)
    ∙ strip_by_last is_space c b'\n' s refl h

lookup_of_known :
    (o : Option Text) (rest raw v : Text) → o ≡ some v → known_key o rest raw ≡ (some v, strip rest)
lookup_of_known o rest raw v h = rw h refl

-- `provider:key`, taken apart.
resolve_plain :
    (p key v : Text)
    → plain_name p ≡ true
    → lookup provider_env p ≡ some v
    → free_of is_space key ≡ true
    → resolve_api_key_entry (p ++ (b':' ∷ key)) ≡ (some v, key)
unfolding resolve_api_key_entry api_key_file_providers has_colon strip strip_by
resolve_plain p key v plain there free =
    let raw = p ++ (b':' ∷ key) in
    let name : lower (strip p) ≡ p =
      ap lower (strip_by_free is_space p (ground arith)) ∙ (===_iff (lower p) p).0 (ground arith) in
    ap (λ parts. entry_of parts raw) (partition_at b':' p key (ground arith))
    ∙ lookup_of_known (lookup api_key_file_providers (lower (strip p))) key raw v
        (ap (lookup api_key_file_providers) name ∙ lookup-append provider_env _ p v there)
    ∙ ap (λ t. (some v, t)) (strip_by_free is_space key free)

colon_no_space : is_space b':' ≡ false
unfolding is_space
colon_no_space = refl

inject_line :
    (content : Text) (c : ℕ) (raw : Text) (env : Env)
    → strip content ≡ (c ∷ raw)
    → inject_key_file (some content) env ≡ inject_entry (resolve_api_key_entry (c ∷ raw)) env
unfolding inject_key_file ◌===◌
inject_line content c raw env h = rw h refl

inject_fresh :
    (v key : Text) (env : Env)
    → contains env v ≡ false
    → lookup (inject_entry (some v, key) env) v ≡ some key
unfolding inject_entry
inject_fresh v key env h = rw h (lookup-insert_self env v key)

plain_not_empty : (p : Text) → plain_name p ≡ true → (p === []) ≡ false
plain_not_empty p h = ground arith

stored_key :
    (provider key v : Text) (agent : Agent) (env : Env)
    → agent.api_key ≡ some (line (provider ++ (b':' ∷ key)))
    → plain_name provider ≡ true
    → lookup provider_env provider ≡ some v
    → free_of is_space key ≡ true
    → contains (inject_auth agent.auth env) v ≡ false
    → lookup (inject_auth_env agent env) v ≡ some key
unfolding inject_auth_env free_of ◌===◌
stored_key [] key v agent env stored plain there free absent =
    absurd (ground (arith, plain_not_empty [] plain))
stored_key (c ∷ s) key v agent env stored plain there free absent =
    let env' = inject_auth agent.auth env in
    let one_line : strip (line (c ∷ (s ++ (b':' ∷ key)))) ≡ c ∷ (s ++ (b':' ∷ key)) =
      strip-line c (s ++ (b':' ∷ key))
        (ground (arith, colon_no_space, free_of-append is_space s (b':' ∷ key))) in
    ap (λ o. lookup (inject_key_file o env') v) stored
    ∙ ap (λ x. lookup x v) (inject_line _ c (s ++ (b':' ∷ key)) env' one_line)
    ∙ ap (λ e. lookup (inject_entry e env') v) (resolve_plain (c ∷ s) key v plain there free)
    ∙ inject_fresh v key env' absent

pub provider_is_plain : (p v : Text) → lookup provider_env p ≡ some v → plain_name p ≡ true
provider_is_plain p v h = lookup-all plain_name provider_env p v providers_plain h

-- Injecting the variables from a directory that is so configured gives the key.
pub inject_auth_env-configure_agent :
    (provider key v : Text) (model : Option Text) (agent : Agent) (env : Env)
    → lookup provider_env provider ≡ some v
    → free_of is_space key ≡ true
    → has_colon key ≡ false
    → contains (inject_auth agent.auth env) v ≡ false
    → lookup (inject_auth_env (configure_agent (some provider) model (given_key key) agent) env) v
      ≡ some key
unfolding configure_agent is_given ◌===◌ with_provider write_api_key line write_config_settings
inject_auth_env-configure_agent [] key v model agent env there free colon absent =
    absurd (ground (arith, plain_not_empty [] (provider_is_plain [] v there)))
inject_auth_env-configure_agent (c ∷ s) key v model agent env there free colon absent =
    stored_key (c ∷ s) key v _ env (rw colon refl) (provider_is_plain (c ∷ s) v there) there free
      absent
