-- ===== src/Tests/NotificationConfigRuns.antt =====
-- notification_config_analyzer.py on a concrete configuration.
use storageops.Base.{
  ◌≡◌, refl, true, Option, none, some, [], ◌∷◌, Text, txt, lower, strip, ends_with, starts_with,
  drop_last,
}
use storageops.Base.Try.{Try, returns, raises}
use storageops.Json.{
  num, arr, obj, nil, cons, Fields, end, field, truthy, iterate, iterate_or_empty, dict_or_empty,
  as_dict, list_of, is_empty, get, get_or, has, py_str,
}
use storageops.NotificationConfig.Rules.{
  normalize_event, rules, rules_of_type, rules_of_list, rule_of, read_filters, or_empty_list,
  event_matches, event_loop, event_named, filter_excludes, rejects,
}
use storageops.NotificationConfig.Analyze.{
  Report, Verdict, would_fire, event_type_mismatch, filter_mismatch, analyze, analyze_rules,
  match_events, match_filters, report_of, judge,
}
use storageops.NotificationConfig.Analyze.Documented.{
  on_prefix, on_suffix, Selector, config_of, entries, encode_all, encode_rule, encode_entries,
  spell,
}
use storageops.NotificationConfig.Analyze.Verdicts.{IsVerdict, analyze-IsVerdict}

abbrev thumbnails : Selector
thumbnails = record {
  id = some (txt "thumbnails");
  target = txt "arn:aws:lambda:us-east-1:1:function:thumb";
  events = txt "s3:ObjectCreated:*" ∷ [];
  filters = some (on_suffix [] (txt ".jpg") ∷ on_prefix (true ∷ []) (txt "in/") ∷ []);
}

abbrev deletions : Selector
deletions = record {
  id = none;
  target = txt "arn:aws:sqs:us-east-1:1:gone";
  events = txt "s3:ObjectRemoved:Delete" ∷ [];
  filters = none;
}

abbrev config : Fields
config = config_of (some (thumbnails ∷ [])) (some (deletions ∷ [])) none

abbrev verdict_of : Try Report → Option Verdict
verdict_of (returns r) = some r.verdict
verdict_of raises = none

verdict_in : Fields → Option Text → Text → Option Verdict
unfolding analyze rules rules_of_type rules_of_list rule_of read_filters or_empty_list truthy
    iterate iterate_or_empty dict_or_empty as_dict list_of is_empty get get_or has py_str lower
    analyze_rules match_events match_filters event_matches event_loop event_named normalize_event
    filter_excludes rejects report_of judge strip txt ends_with starts_with drop_last
verdict_in config key event = verdict_of (analyze config key event)

analyze-IsVerdict_example :
    (r : Report) × (analyze config (some (txt "in/a.jpg")) (txt "ObjectCreated:Put") ≡ returns r)
    × IsVerdict
        (normalize_event (txt "ObjectCreated:Put"))
        (some (txt "in/a.jpg"))
        (entries (some (thumbnails ∷ [])) (some (deletions ∷ [])) none)
        r.verdict
analyze-IsVerdict_example =
    analyze-IsVerdict (some (thumbnails ∷ [])) (some (deletions ∷ [])) none (some (txt "in/a.jpg"))
      (txt "ObjectCreated:Put")

fires_run : verdict_in config (some (txt "in/a.jpg")) (txt "ObjectCreated:Put") ≡ some would_fire
unfolding verdict_in txt config_of encode_all encode_rule encode_entries spell
fires_run = refl

filtered_run :
    verdict_in config (some (txt "in/a.png")) (txt "ObjectCreated:Put") ≡ some filter_mismatch
unfolding verdict_in txt config_of encode_all encode_rule encode_entries spell
filtered_run = refl

unnamed_run : verdict_in config none (txt "s3:ObjectRestore:Post") ≡ some event_type_mismatch
unfolding verdict_in txt config_of encode_all encode_rule encode_entries spell
unnamed_run = refl

-- A number in place of an event has no `endswith`.
raises_run :
    verdict_in
      (field
        (txt "QueueConfigurations")
        (arr (cons (obj (field (txt "Events") (arr (cons (num (txt "1")) nil)) end)) nil))
        end)
      none
      (txt "s3:ObjectCreated:Put")
    ≡ none
unfolding verdict_in txt
raises_run = refl
