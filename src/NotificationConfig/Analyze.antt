-- ===== src/NotificationConfig/Analyze.antt =====
-- `analyze`. The causes and recommendations of a report are constructors that hold the values put into
-- their texts.
pub mod Documented
pub mod Firing
pub mod Verdicts
use storageops.Base.{
  ℕ, suc, ltb, if◌then◌else◌, Bool, true, false, not, ◌&&◌, ◌||◌, Option, none, some, List, [], ◌∷◌,
  ◌++◌, map, any, keep, length, member, sort_by, Text, txt, ◌===◌,
}
use storageops.Base.Try.{Try, returns, raises, ◌>>=◌}
use storageops.Json.{Json, str, Fields, truthy, iterate}
use storageops.NotificationConfig.Rules.{
  Rule, TargetType, lambda, sqs, sns, Exclusion, normalize_event, event_matches, filter_excludes,
  rules,
}

pub data Verdict : Type 0 where
  no_notification_config event_type_mismatch filter_mismatch would_fire : Verdict

-- Texts in the order of their code points.
unfoldable pub text_le : Text → Text → Bool
text_le [] t = true
text_le (c ∷ s) [] = false
text_le (c ∷ s) (d ∷ t) =
    let rest = text_le s t in if ltb c d then true else if ltb d c then false else rest

unfoldable pub distinct : List Text → List Text
unfolding member
distinct [] = []
distinct (t ∷ ts) = let rest = distinct ts in if member t rest then rest else t ∷ rest

unfoldable pub texts_of : List Json → List Text
texts_of [] = []
texts_of (str s ∷ vs) = s ∷ texts_of vs
texts_of (v ∷ vs) = texts_of vs

abbrev event_names : Try (List Json) → List Text
event_names (returns vs) = texts_of vs
event_names raises = []

unfoldable pub all_events : List Rule → List Text
all_events [] = []
all_events (r ∷ rs) = event_names (iterate r.events) ++ all_events rs

-- `sorted({e for r in rules for e in r["events"]})`, where the events were all found to be texts.
unfoldable pub configured : List Rule → List Text
unfolding sort_by text_le distinct
configured rs = sort_by text_le (distinct (all_events rs))

-- `r[first] or r[second]`
unfoldable pub or_else : Json → Json → Json
or_else v w = if truthy v then v else w

pub data Cause : Type 0 where
  no_configuration : Cause
  no_rule_matches : Text → List Text → Cause
  filter_excludes_object : List (Json × Exclusion) → Cause
  rules_fire : ℕ → List (TargetType × Json) → Cause

pub data Recommendation : Type 0 where
  configure_rule add_event fix_filter : Recommendation
  check_targets : List TargetType → Recommendation

unfoldable pub is_type : TargetType → Rule → Bool
is_type lambda r = elim r.target_type [ lambda ↦ true | _ ↦ false ]
is_type sqs r = elim r.target_type [ sqs ↦ true | _ ↦ false ]
is_type sns r = elim r.target_type [ sns ↦ true | _ ↦ false ]

-- The hints, one for each target type of the rules, in the order of their texts.
unfoldable pub hints : List Rule → List TargetType
hints rs = keep (λ t. any (is_type t) rs) (lambda ∷ sns ∷ sqs ∷ [])

unfoldable pub target_of : Rule → TargetType × Json
unfolding txt
target_of r = (r.target_type, or_else r.target (str (txt "(arn)")))

-- `[r for r in rules if _event_matches(r["events"], event)]`
unfoldable pub match_events : Text → List Rule → Try (List Rule)
match_events event [] = returns []
match_events event (r ∷ rs) = do
  m ← event_matches r.events event
  rest ← match_events event rs
  returns (if m then r ∷ rest else rest)

abbrev pub sort_reason :
    Rule
    → Option Exclusion
    → List Rule × List (Json × Exclusion)
    → List Rule × List (Json × Exclusion)
sort_reason r none (matching, reasons) = (r ∷ matching, reasons)
sort_reason r (some e) (matching, reasons) = (matching, (or_else r.id r.target, e) ∷ reasons)

-- `matching` and `filter_reasons`.
unfoldable pub match_filters : Option Text → List Rule → Try (List Rule × List (Json × Exclusion))
match_filters key [] = returns ([], [])
match_filters key (r ∷ rs) = do
  reason ← filter_excludes r.prefix r.suffix key
  rest ← match_filters key rs
  returns (sort_reason r reason rest)

pub record Report : Type 0 where
  pub rule_count : ℕ
  pub verdict : Verdict
  pub likely_cause : Cause
  pub recommendation : Recommendation
  pub matching_rules : List Rule

abbrev pub is_nil : List Rule → Bool
is_nil [] = true
is_nil (r ∷ rs) = false

-- The three branches for rules that are there.
unfoldable pub judge :
    Text
    → List Rule
    → List Rule
    → List Rule × List (Json × Exclusion)
    → Verdict × Cause × Recommendation
judge event rs event_matched (matching, reasons) =
    if is_nil event_matched
    then (event_type_mismatch, no_rule_matches event (configured rs), add_event)
    else if is_nil matching
    then (filter_mismatch, filter_excludes_object reasons, fix_filter)
    else (
      would_fire,
      rules_fire (length matching) (map target_of matching),
      check_targets (hints matching),
    )

unfoldable pub report_of :
    Text → List Rule → List Rule → List Rule × List (Json × Exclusion) → Report
report_of event rs event_matched found = record {
  rule_count = length rs;
  verdict = (judge event rs event_matched found).0;
  likely_cause = (judge event rs event_matched found).1;
  recommendation = (judge event rs event_matched found).2;
  matching_rules = found.0;
}

abbrev pub no_rules : Report
no_rules = record {
  rule_count = 0;
  verdict = no_notification_config;
  likely_cause = no_configuration;
  recommendation = configure_rule;
  matching_rules = [];
}

unfoldable pub analyze_rules : Text → Option Text → List Rule → Try Report
analyze_rules event key [] = returns no_rules
analyze_rules event key (r ∷ rs) = do
  event_matched ← match_events event (r ∷ rs)
  found ← match_filters key event_matched
  returns (report_of event (r ∷ rs) event_matched found)

unfoldable pub analyze : Fields → Option Text → Text → Try Report
analyze config key event = do rs ← rules config; analyze_rules (normalize_event event) key rs
