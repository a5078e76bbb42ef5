-- ===== src/Lifecycle/Analyze.antt =====
-- `analyze`, `_summary` and `_recommendation` of lifecycle_rule_simulator.py. A text of the report is a
-- constructor that holds the values put into it. Object sizes and counts are natural numbers.
pub mod Effective
use storageops.Base.{
  ℕ, ltb, ◌*◌, ◌==◌, if◌then◌else◌, Bool, true, false, not, ◌&&◌, ◌||◌, Option, none, some, List,
  [], ◌∷◌, ◌++◌, any, Text, txt,
}
use storageops.Base.Int.{ℤ, pos, ltb_ℤ, leb_ℤ}
use storageops.Lifecycle.Classes.{min_billable, norm_class}
use storageops.Lifecycle.Timeline.{Transition, Rule, enabled, Risk, min_duration_risks}

pub data Warning : Type 0 where
  disabled : Text → Warning
  never_fires : Text → Text → ℤ → ℤ → Warning
  no_abort : Text → Warning
  amplified : ℕ → Text → ℕ → Warning

-- `rule.get('id') or '?'`
unfoldable pub label : Text → Text
unfolding txt
label [] = txt "?"
label (c ∷ s) = c ∷ s

-- The transitions of a rule that come on the day of its expiration or later.
unfoldable pub late_transitions : Text → Option ℤ → List Transition → List Warning
late_transitions id none ts = []
late_transitions id (some e) [] = []
late_transitions id (some e) (t ∷ ts) =
    let rest = late_transitions id (some e) ts in
    elim (Transition.days t) [
      | none ↦ rest
      | some d ↦
          if leb_ℤ e d then never_fires (label id) (Transition.storage_class t) d e ∷ rest else rest
    ]

unfoldable pub abort_warning : Rule → List Warning
abort_warning r = if r.abort_multipart then [] else no_abort (label r.id) ∷ []

unfoldable pub rule_warnings : Rule → List Warning
rule_warnings r =
    if enabled r
    then late_transitions r.id r.expiration_days r.transitions ++ abort_warning r
    else disabled (label r.id) ∷ []

unfoldable pub rules_warnings : List Rule → List Warning
rules_warnings [] = []
rules_warnings (r ∷ rs) = rule_warnings r ++ rules_warnings rs

pub data Action : Type 0 where
  transition expire : Action

pub record Applicable : Type 0 where
  pub rule_id : Text
  pub action : Action
  pub at_day : ℤ
  pub storage_class : Option Text

-- The transitions that have happened at an age, in the order of the rule, with the class that the
-- last of them leaves.
unfoldable pub apply_transitions : Text → ℤ → List Transition → Text → List Applicable × Text
apply_transitions id age [] eff_class = ([], eff_class)
apply_transitions id age (t ∷ ts) eff_class =
    let skip = apply_transitions id age ts eff_class in
    elim (Transition.days t) [
      | none ↦ skip
      | some d ↦
          let (later, class) = apply_transitions id age ts (Transition.storage_class t) in
          let here : Applicable = record {
            rule_id = id;
            action = transition;
            at_day = d;
            storage_class = some (Transition.storage_class t);
          } in
          if leb_ℤ d age then (here ∷ later, class) else skip
    ]

unfoldable pub apply_expiration : Text → ℤ → Option ℤ → List Applicable
apply_expiration id age none = []
apply_expiration id age (some d) =
    if leb_ℤ d age
    then record { rule_id = id; action = expire; at_day = d; storage_class = none } ∷ []
    else []

unfoldable pub apply_rules : ℤ → List Rule → Text → List Applicable × Text
apply_rules age [] eff_class = ([], eff_class)
apply_rules age (r ∷ rs) eff_class =
    let skip = apply_rules age rs eff_class in
    let (applied, class) = apply_transitions r.id age r.transitions eff_class in
    let (later, last) = apply_rules age rs class in
    if enabled r
    then (applied ++ (apply_expiration r.id age r.expiration_days ++ later), last)
    else skip

abbrev at_age : Option ℤ → List Rule → Text → List Applicable × Text
at_age none rs start = ([], start)
at_age (some age) rs start = apply_rules age rs start

-- `multiplier` is `round(floor / max(avg_size, 1), 2)`: kept as the two numbers of the quotient.
pub record Penalty : Type 0 where
  pub storage_class : Text
  pub min_billable_bytes : ℕ
  pub avg_object_size : ℕ
  pub multiplier : ℕ × ℕ
  pub billable : Option (ℕ × ℕ)

abbrev billable_of : ℕ → Option ℕ → Option (ℕ × ℕ)
billable_of floor none = none
billable_of floor (some n) = if n == 0 then none else some (n, floor * n)

unfoldable pub size_penalty : Text → Option ℕ → Option ℕ → Option Penalty
size_penalty class none count = none
size_penalty class (some avg) count =
    let floor = min_billable class in
    if ltb 0 floor && ltb avg floor
    then some (record {
      storage_class = class;
      min_billable_bytes = floor;
      avg_object_size = avg;
      multiplier = (floor, if avg == 0 then 1 else avg);
      billable = billable_of floor count;
    })
    else none

unfoldable pub penalty_warning : Option Penalty → List Warning
penalty_warning none = []
penalty_warning (some p) =
    amplified (Penalty.avg_object_size p) (Penalty.storage_class p) (Penalty.min_billable_bytes p)
    ∷ []

-- `max(risks, key=…)`: the first of the greatest.
unfoldable pub worst_from : Risk → List Risk → Risk
worst_from best [] = best
worst_from best (r ∷ rs) =
    worst_from (if ltb_ℤ (Risk.wasted_days best) (Risk.wasted_days r) then r else best) rs

unfoldable pub worst : List Risk → Option Risk
worst [] = none
worst (r ∷ rs) = some (worst_from r rs)

pub record Summary : Type 0 where
  pub effective_class : Text
  pub worst_risk : Option Risk
  pub penalty : Option Penalty

pub data Advice : Type 0 where
  delay_transition : Risk → Advice
  aggregate_objects : ℕ → Advice
  add_abort_rule : Advice
  no_risk : Advice

abbrev advice_risk : Option Risk → List Advice
advice_risk none = []
advice_risk (some r) = delay_transition r ∷ []

abbrev advice_size : Option Penalty → List Advice
advice_size none = []
advice_size (some p) = aggregate_objects (Penalty.min_billable_bytes p) ∷ []

unfoldable pub advice_abort : List Rule → List Advice
advice_abort [] = []
advice_abort (r ∷ rs) =
    if any (λ x. Rule.abort_multipart x) (r ∷ rs) then [] else add_abort_rule ∷ []

abbrev or_no_risk : List Advice → List Advice
or_no_risk [] = no_risk ∷ []
or_no_risk (a ∷ as') = a ∷ as'

unfoldable pub recommendation : List Risk → Option Penalty → List Rule → List Advice
recommendation risks penalty rs =
    or_no_risk (advice_risk (worst risks) ++ (advice_size penalty ++ advice_abort rs))

pub record Report : Type 0 where
  pub applicable_rules : List Applicable
  pub risks : List Risk
  pub penalty : Option Penalty
  pub warnings : List Warning
  pub summary : Summary
  pub recommendations : List Advice

-- `_norm_class(start_class) or "STANDARD"`
unfoldable pub start_class_of : Text → Text
unfolding txt
start_class_of class = elim (norm_class class) [ [] ↦ txt "STANDARD" | c ∷ s ↦ c ∷ s ]

unfoldable pub analyze : List Rule → Option ℤ → Option ℕ → Option ℕ → Text → Report
analyze rs age avg count class =
    let start = start_class_of class in
    let risks = min_duration_risks rs start in
    let (applied, effective) = at_age age rs start in
    let penalty = size_penalty effective avg count in
    record {
      applicable_rules = applied;
      risks = risks;
      penalty = penalty;
      warnings = rules_warnings rs ++ penalty_warning penalty;
      summary = record { effective_class = effective; worst_risk = worst risks; penalty = penalty };
      recommendations = recommendation risks penalty rs;
    }
