-- ===== src/Tests/LifecycleRuns.antt =====
-- lifecycle_rule_simulator.py on concrete rules.
use storageops.Base.{◌≡◌, refl, ◌↔◌, true, false, none, some, [], ◌∷◌, ◌++◌, txt, any}
use storageops.Base.Int.{pos, ◌-ℤ◌, ◌+ℤ◌, int_laws}
use storageops.Base.Affixes.{Among}
use storageops.Lifecycle.Timeline.{
  Rule, Transition, transition, enabled, collect_events, timeline, min_duration_risks, walk, close,
  rule_events,
}
use storageops.Lifecycle.Timeline.Billing.{windows, total_billed, total_wasted, end_day}
use storageops.Lifecycle.Timeline.Order.{is_negative, min_duration_risks-billed}
use storageops.Lifecycle.Timeline.Contents.{IsAskedFor, InOrder, timeline-InOrder}
use storageops.Lifecycle.Analyze.{analyze, rules_warnings}
use storageops.Lifecycle.Analyze.Effective.{
  late_rule, is_never_fires, analyze-last_rule, rules_warnings-late,
}

-- To STANDARD_IA on day 30, to GLACIER on day 40, gone on day 100.
abbrev logs : Rule
logs = record {
  id = txt "logs";
  status = txt "Enabled";
  transitions =
      record { days = some (pos 30); storage_class = txt "STANDARD_IA" }
      ∷ record { days = some (pos 40); storage_class = txt "GLACIER" }
      ∷ [];
  expiration_days = some (pos 100);
  abort_multipart = true;
}

abbrev early : Transition
early = record { days = some (pos 10); storage_class = txt "STANDARD_IA" }

abbrev early_rule : Rule
early_rule = record {
  id = txt "early";
  status = txt " enabled";
  transitions = early ∷ [];
  expiration_days = none;
  abort_multipart = false;
}

timeline-InOrder_example :
    (Among (transition (pos 10) (txt "STANDARD_IA")) (timeline (logs ∷ early_rule ∷ []))
      ↔ IsAskedFor (logs ∷ early_rule ∷ []) (transition (pos 10) (txt "STANDARD_IA")))
    × InOrder (timeline (logs ∷ early_rule ∷ []))
timeline-InOrder_example =
    timeline-InOrder (logs ∷ early_rule ∷ []) (transition (pos 10) (txt "STANDARD_IA"))

no_negative_run : any is_negative (collect_events (logs ∷ [])) ≡ false
unfolding any collect_events enabled rule_events is_negative
no_negative_run = refl

min_duration_risks-billed_example :
    total_billed (windows (timeline (logs ∷ [])) (txt "STANDARD") (pos 0))
    ≡ end_day (timeline (logs ∷ [])) (pos 0)
      +ℤ total_wasted (min_duration_risks (logs ∷ []) (txt "STANDARD"))
min_duration_risks-billed_example =
    min_duration_risks-billed (logs ∷ []) (txt "STANDARD") no_negative_run

-- The reported days: 20 of STANDARD_IA and 30 of GLACIER.
wasted_run : total_wasted (min_duration_risks (logs ∷ []) (txt "STANDARD")) ≡ pos 50
unfolding total_wasted min_duration_risks walk timeline collect_events enabled rule_events close
    storageops.Lifecycle.Classes.min_duration_days ◌-ℤ◌ ◌+ℤ◌
wasted_run = refl

early_on : enabled early_rule ≡ true
unfolding enabled
early_on = refl

-- On day 50 the object is in GLACIER since day 40, but the later rule is reported.
analyze-last_rule_example :
    (analyze
      ((logs ∷ []) ++ (early_rule ∷ []))
      (some (pos 50))
      none
      none
      (txt "STANDARD")).summary.effective_class
    ≡ txt "STANDARD_IA"
analyze-last_rule_example =
    analyze-last_rule (logs ∷ []) early_rule early (pos 10) (pos 50) none none (txt "STANDARD")
      early_on refl refl (omega int_laws)

rules_warnings-late_example :
    any is_never_fires (rules_warnings (logs ∷ early_rule ∷ []))
    ≡ any late_rule (logs ∷ early_rule ∷ [])
rules_warnings-late_example = rules_warnings-late (logs ∷ early_rule ∷ [])
