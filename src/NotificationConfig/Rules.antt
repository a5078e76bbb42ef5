-- ===== src/NotificationConfig/Rules.antt =====
-- `_normalize_event`, `_event_matches`, `_filter_excludes` and `_rules`.
use storageops.Base.{
  if◌then◌else◌, Bool, true, false, not, ◌&&◌, ◌||◌, Option, none, some, List, [], ◌∷◌, ◌++◌, Text,
  txt, ◌===◌, lower, strip, starts_with, ends_with, drop_last,
}
use storageops.Base.Try.{Try, returns, raises, ◌>>=◌}
use storageops.Json.{
  Json, str, arr, obj, nil, Fields, get, get_or, py_str, truthy, as_dict, iterate, iterate_or_empty,
  dict_or_empty,
}

pub data TargetType : Type 0 where
  lambda sqs sns : TargetType

-- The keys of `CONFIG_KEYS` and the names of their ARNs.
unfoldable pub config_key : TargetType → Text
unfolding txt
config_key lambda = txt "LambdaFunctionConfigurations"
config_key sqs = txt "QueueConfigurations"
config_key sns = txt "TopicConfigurations"

unfoldable pub arn_field : TargetType → Text
unfolding txt
arn_field lambda = txt "LambdaFunctionArn"
arn_field sqs = txt "QueueArn"
arn_field sns = txt "TopicArn"

unfoldable pub normalize_event : Text → Text
unfolding strip starts_with txt
normalize_event event =
    let e = strip event in
    if not (e === []) && not (starts_with (txt "s3:") e) then txt "s3:" ++ e else e

-- One event of a rule: the same text, or a wildcard at its end.
unfoldable pub event_named : Text → Text → Bool
unfolding ends_with starts_with drop_last txt
event_named event name =
    name === event || (ends_with (txt ":*") name && starts_with (drop_last name) event)

-- The loop over `rule_events`. What is no text has no `endswith`.
unfoldable pub event_loop : List Json → Text → Try Bool
unfolding event_named
event_loop [] event = returns false
event_loop (str name ∷ names) event =
    let rest = event_loop names event in if event_named event name then returns true else rest
event_loop (v ∷ names) event = raises

unfoldable pub event_matches : Json → Text → Try Bool
event_matches rule_events [] = returns true
event_matches rule_events (c ∷ s) = do names ← iterate rule_events; event_loop names (c ∷ s)

-- `v and not key.startswith(v)`, with the test as an argument.
unfoldable pub rejects : (Text → Text → Bool) → Json → Text → Try Bool
rejects test (str s) key = returns (not (s === []) && not (test s key))
rejects test v key = if truthy v then raises else returns false

pub data Exclusion : Type 0 where
  by_prefix by_suffix : Json → Text → Exclusion

abbrev pub exclusion_if : Bool → Exclusion → Option Exclusion
exclusion_if b e = if b then some e else none

unfoldable pub filter_excludes : Json → Json → Option Text → Try (Option Exclusion)
unfolding rejects
filter_excludes prefix suffix none = returns none
filter_excludes prefix suffix (some key) =
    let at_suffix = (do
      s ← rejects ends_with suffix key
      returns (exclusion_if s (by_suffix suffix key))) in
    let at_prefix = returns (some (by_prefix prefix key)) in
    do p ← rejects starts_with prefix key; if p then at_prefix else at_suffix

pub record Rule : Type 0 where
  pub id : Json
  pub target_type : TargetType
  pub target : Json
  pub events : Json
  pub prefix : Json
  pub suffix : Json

-- The loop over the filter rules, which carries the prefix and the suffix.
unfoldable pub read_filters : List Json → Json × Json → Try (Json × Json)
unfolding get_or py_str lower txt
read_filters [] found = returns found
read_filters (obj f ∷ fs) (prefix, suffix) =
    let name = lower (py_str (get_or f (txt "Name") (str []))) in
    let value = get_or f (txt "Value") (str []) in
    let at_prefix = read_filters fs (value, suffix) in
    let at_suffix = read_filters fs (prefix, value) in
    let other = read_filters fs (prefix, suffix) in
    if name === txt "prefix" then at_prefix else if name === txt "suffix" then at_suffix else other
read_filters (v ∷ fs) found = raises

-- `v or []`
unfoldable pub or_empty_list : Json → Json
or_empty_list v = if truthy v then v else arr nil

unfoldable pub rule_of : TargetType → Json → Try Rule
unfolding dict_or_empty iterate_or_empty as_dict get get_or read_filters or_empty_list arn_field txt
rule_of target_type v = do
  r ← as_dict v
  filter ← dict_or_empty (get r (txt "Filter"))
  key ← dict_or_empty (get filter (txt "Key"))
  fr ← iterate_or_empty (get key (txt "FilterRules"))
  found ← read_filters fr (str [], str [])
  returns (record {
    id = get_or r (txt "Id") (str []);
    target_type = target_type;
    target = get_or r (arn_field target_type) (str []);
    events = or_empty_list (get r (txt "Events"));
    prefix = found.0;
    suffix = found.1;
  })

unfoldable pub rules_of_list : TargetType → List Json → Try (List Rule)
rules_of_list target_type [] = returns []
rules_of_list target_type (v ∷ vs) = do
  r ← rule_of target_type v
  rs ← rules_of_list target_type vs
  returns (r ∷ rs)

-- The rules of one key of the configuration.
unfoldable pub rules_of_type : Fields → TargetType → Try (List Rule)
unfolding iterate_or_empty get config_key
rules_of_type config target_type = do
  vs ← iterate_or_empty (get config (config_key target_type))
  rules_of_list target_type vs

unfoldable pub rules : Fields → Try (List Rule)
rules config = do
  ls ← rules_of_type config lambda
  qs ← rules_of_type config sqs
  ts ← rules_of_type config sns
  returns (ls ++ (qs ++ ts))
