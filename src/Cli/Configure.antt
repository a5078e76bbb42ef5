-- ===== src/Cli/Configure.antt =====
-- `storageops configure`: `_option_value`, `_has_flag` and `cmd_configure`. What the command prints
-- is left out.
pub mod Arguments
pub mod Launched
use storageops.Base.{
  ℕ, if◌then◌else◌, Bool, true, false, not, ◌&&◌, ◌||◌, Option, none, some, List, [], ◌∷◌, ◌++◌,
  any, member, Text, txt, ◌===◌, ◌==◌, starts_with, strip,
}
use storageops.Cli.World.{Agent, Home, is_given}
use storageops.Cli.Settings.{write_config_settings, write_api_key}

-- `arg[len(prefix):]`, for a text with this prefix.
unfoldable pub without_prefix : Text → Text → Text
without_prefix [] arg = arg
without_prefix (c ∷ prefix) [] = []
without_prefix (c ∷ prefix) (d ∷ arg) = without_prefix prefix arg

abbrev next_value : List Text → Text
next_value [] = []
next_value (arg ∷ args) = if starts_with (txt "--") arg then [] else arg

unfoldable pub option_value : List Text → Text → Option Text
unfolding starts_with txt without_prefix ◌===◌
option_value [] name = none
option_value (arg ∷ args) name =
    let later = option_value args name in
    if arg === name
    then some (next_value args)
    else if starts_with (name ++ txt "=") arg
    then some (without_prefix (name ++ txt "=") arg)
    else later

unfoldable pub has_flag : List Text → Text → Bool
unfolding member any starts_with txt
has_flag args name = member name args || any (λ arg. starts_with (name ++ txt "=") arg) args

-- What `--api-key` gives: nothing, a key, or an error.
pub data KeyArg : Type 0 where
  no_key refused : KeyArg
  given_key : Text → KeyArg

abbrev checked_key : Text → KeyArg
checked_key value = if value === [] then refused else given_key value

-- `getpass`, with the text that is typed, or none where the input ends or is interrupted.
abbrev typed_key : Option Text → KeyArg
typed_key none = refused
typed_key (some line) = checked_key (strip line)

abbrev key_or_typed : Option Text → Option Text → KeyArg
key_or_typed none typed = typed_key typed
key_or_typed (some []) typed = typed_key typed
key_or_typed (some (c ∷ s)) typed = given_key (c ∷ s)

unfoldable pub key_arg : List Text → Option Text → KeyArg
unfolding txt option_value has_flag
key_arg args typed =
    if has_flag args (txt "--api-key")
    then key_or_typed (option_value args (txt "--api-key")) typed
    else no_key

unfoldable pub has_colon : Text → Bool
unfolding any
has_colon = any (λ c. c == b':')

-- `if provider and ":" not in key_value`
unfoldable pub with_provider : Option Text → Text → Text
unfolding has_colon
with_provider none key = key
with_provider (some []) key = key
with_provider (some (c ∷ s)) key = if has_colon key then key else (c ∷ s) ++ (b':' ∷ key)

abbrev is_blank : Option Text → Bool
is_blank none = false
is_blank (some s) = s === []

-- Writing the settings and the key.
unfoldable pub configure_agent : Option Text → Option Text → KeyArg → Agent → Agent
configure_agent provider model key agent =
    let agent' =
      if is_given provider || is_given model
      then write_config_settings agent provider model
      else agent in
    elim key [
      | no_key ↦ agent'
      | refused ↦ agent'
      | given_key value ↦ write_api_key agent' (with_provider provider value)
    ]

-- The part behind the checks of `--provider` and `--model`, with the exit code.
abbrev configure_with : Option Text → Option Text → KeyArg → Agent → ℕ × Agent
configure_with provider model refused agent = (2, agent)
configure_with provider model key agent = (0, configure_agent provider model key agent)

abbrev pub configure_parsed : Option Text → Option Text → KeyArg → Agent → ℕ × Agent
configure_parsed provider model key agent =
    if is_blank provider || is_blank model
    then (2, agent)
    else configure_with provider model key agent

unfoldable pub configure_options : List Text → Option Text → Agent → ℕ × Agent
unfolding option_value key_arg txt
configure_options args typed agent =
    configure_parsed (option_value args (txt "--provider")) (option_value args (txt "--model"))
      (key_arg args typed) agent

-- `cmd_configure`, with what is typed where the key is asked for: the exit code and what is left.
unfoldable pub cmd_configure : List Text → Option Text → Home → ℕ × Home
unfolding has_flag member configure_options txt
cmd_configure args typed home =
    let agent =
      if member (txt "--merge") args || member (txt "-m") args then home.pi else home.own in
    let (code, agent') = configure_options args typed agent in
    if member (txt "--help") args || member (txt "-h") args || has_flag args (txt "--show")
    then (0, home)
    else if member (txt "--merge") args || member (txt "-m") args
    then (code, record home { pi = agent' })
    else (code, record home { own = agent' })
