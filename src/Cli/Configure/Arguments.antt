-- ===== src/Cli/Configure/Arguments.antt =====
-- The arguments `--provider NAME --api-key KEY`.
use storageops.Base.{
  ℕ, ◌==◌, ◌≡◌, refl, ◌∙◌, ap, Bool, false, ◌||◌, Option, none, some, List, [], ◌∷◌, any, member,
  Text, txt, ◌===◌, starts_with, arith,
}
use storageops.Cli.World.{Agent, Home}
use storageops.Cli.Configure.{
  option_value, has_flag, given_key, key_arg, configure_agent, configure_parsed, configure_options,
  cmd_configure,
}

unfoldable pub dashed : Text → Bool
dashed [] = false
dashed (c ∷ s) = c == b'-'

not_dashed : (name t : Text) → dashed t ≡ false → (t === (b'-' ∷ name)) ≡ false
unfolding dashed ◌===◌
not_dashed name [] h = refl
not_dashed name (c ∷ s) h = ground arith

no_dashes : (name t : Text) → dashed t ≡ false → starts_with (b'-' ∷ name) t ≡ false
unfolding dashed starts_with
no_dashes name [] h = refl
no_dashes name (c ∷ s) h = ground arith

abbrev pub provider_key_args : Text → Text → List Text
provider_key_args provider key = txt "--provider" ∷ provider ∷ txt "--api-key" ∷ key ∷ []

option_provider :
    (provider key : Text)
    → dashed provider ≡ false
    → option_value (provider_key_args provider key) (txt "--provider") ≡ some provider
unfolding option_value txt ◌===◌
option_provider provider key h = rw (no_dashes (b'-' ∷ []) provider h) refl

option_model :
    (provider key : Text)
    → dashed provider ≡ false
    → dashed key ≡ false
    → option_value (provider_key_args provider key) (txt "--model") ≡ none
unfolding option_value txt ◌===◌ starts_with
option_model provider key h n =
    rw (not_dashed _ provider h)
      (rw (no_dashes _ provider h) (rw (not_dashed _ key n) (rw (no_dashes _ key n) refl)))

is_not_dashed : (name t : Text) → dashed t ≡ false → ((b'-' ∷ name) === t) ≡ false
unfolding dashed ◌===◌
is_not_dashed name [] h = refl
is_not_dashed name (c ∷ s) h = ground arith

pub key_of_args :
    (provider : Text) (c : ℕ) (key : Text) (typed : Option Text)
    → dashed provider ≡ false
    → dashed (c ∷ key) ≡ false
    → key_arg (provider_key_args provider (c ∷ key)) typed ≡ given_key (c ∷ key)
unfolding key_arg has_flag option_value txt ◌===◌ starts_with member
key_of_args provider c key typed h n =
    rw (is_not_dashed _ provider h) (
      rw (not_dashed _ provider h)
        (rw (no_dashes _ provider h) (rw (no_dashes _ (c ∷ key) n) refl)))

no_switch :
    (name provider key : Text)
    → dashed provider ≡ false
    → dashed key ≡ false
    → member (b'-' ∷ name) (provider_key_args provider key)
      ≡ (((b'-' ∷ name) === txt "--provider") || ((b'-' ∷ name) === txt "--api-key"))
unfolding member
no_switch name provider key h n =
    ground (arith, is_not_dashed name provider h, is_not_dashed name key n)

no_show :
    (provider key : Text)
    → dashed provider ≡ false
    → dashed key ≡ false
    → has_flag (provider_key_args provider key) (txt "--show") ≡ false
unfolding has_flag txt ◌===◌ starts_with any
no_show provider key h n = ground (
  arith,
  no_switch (txt "-show") provider key h n,
  no_dashes (txt "-show=") provider h,
  no_dashes (txt "-show=") key n,
)

parsed_key :
    (provider : Text) (c : ℕ) (key : Text) (agent : Agent)
    → (provider === []) ≡ false
    → configure_parsed (some provider) none (given_key (c ∷ key)) agent
      ≡ (0, configure_agent (some provider) none (given_key (c ∷ key)) agent)
parsed_key provider c key agent full = rw full refl

configure_of_args :
    (provider : Text) (c : ℕ) (key : Text) (typed : Option Text) (agent : Agent)
    → dashed provider ≡ false
    → (provider === []) ≡ false
    → dashed (c ∷ key) ≡ false
    → configure_options (provider_key_args provider (c ∷ key)) typed agent
      ≡ (0, configure_agent (some provider) none (given_key (c ∷ key)) agent)
unfolding configure_options
configure_of_args provider c key typed agent h full n =
    let args = provider_key_args provider (c ∷ key) in
    let model = option_value args (txt "--model") in
    ap (λ o. configure_parsed o model (key_arg args typed) agent)
      (option_provider provider (c ∷ key) h)
    ∙ ap (λ o. configure_parsed (some provider) o (key_arg args typed) agent)
        (option_model provider (c ∷ key) h n)
    ∙ ap (λ k. configure_parsed (some provider) none k agent) (key_of_args provider c key typed h n)
    ∙ parsed_key provider c key agent full

pub cmd_configure_of_args :
    (provider : Text) (c : ℕ) (key : Text) (typed : Option Text) (home : Home)
    → dashed provider ≡ false
    → (provider === []) ≡ false
    → dashed (c ∷ key) ≡ false
    → cmd_configure (provider_key_args provider (c ∷ key)) typed home ≡ (
      0,
      record home { own = configure_agent (some provider) none (given_key (c ∷ key)) home.own },
    )
unfolding cmd_configure txt ◌===◌
cmd_configure_of_args provider c key typed home h full n =
    rw
      (
        no_switch (txt "-merge") provider (c ∷ key) h n,
        no_switch (txt "m") provider (c ∷ key) h n,
        no_switch (txt "-help") provider (c ∷ key) h n,
        no_switch (txt "h") provider (c ∷ key) h n,
        no_show provider (c ∷ key) h n,
        configure_of_args provider c key typed home.own h full n,
      )
      refl
