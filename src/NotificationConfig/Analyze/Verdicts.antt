-- ===== src/NotificationConfig/Analyze/Verdicts.antt =====
-- What the verdict says of a configuration of the documented shape.
use mathlib.Core.List.{append_assoc}
use storageops.Base.{
  if◌then◌else◌, ◌≡◌, ◌≢◌, refl, ◌∙◌, sym, ◌↔◌, ◌⊎◌, inl, inr, Bool, true, false, not, ◌&&◌, Option,
  none, some, List, [], ◌∷◌, ◌++◌, map, any, any-keep, keep, Text, txt, ◌===◌, ===_iff, starts_with,
  drop_last, arith, Bool-cases,
}
use storageops.Base.Try.{returns}
use storageops.Base.Affixes.{Among, any_iff, starts_with_iff, ends_with_iff, drop_last-append}
use storageops.Json.{Json}
use storageops.NotificationConfig.Rules.{TargetType, Exclusion, normalize_event, event_named, Rule}
use storageops.NotificationConfig.Analyze.{
  Report, Verdict, no_notification_config, event_type_mismatch, filter_mismatch, would_fire,
  analyze_rules, analyze, judge, report_of, is_nil, no_rules,
}
use storageops.NotificationConfig.Analyze.Documented.{
  Selector, prefix_of, suffix_of, config_of, entries, rule_from,
}
use storageops.NotificationConfig.Analyze.Documented.Reading.{rules-config_of}
use storageops.NotificationConfig.Analyze.Firing.{
  named, fits, match_events-rules, match_filters-rules,
}

-- The name of an event, or a wildcard `…:*` for it.
abbrev pub Names : Text → Text → Type 0
Names event name =
    (name ≡ event)
    ⊎ ((stem rest : Text) × (name ≡ stem ++ (b':' ∷ b'*' ∷ [])) × (event ≡ stem ++ (b':' ∷ rest)))

-- The rule lists the event, or no event was asked for.
abbrev pub IsNamed : Text → TargetType × Selector → Type 0
IsNamed event (t, s) = (event ≡ []) ⊎ ((name : Text) × Among name s.events × Names event name)

-- The key begins with the prefix and ends with the suffix, if a key was given.
abbrev pub FitsKey : Option Text → TargetType × Selector → Type 0
FitsKey none e = Unit {0}
FitsKey (some key) (t, s) =
    ((rest : Text) × (key ≡ prefix_of s ++ rest)) × ((stem : Text) × (key ≡ stem ++ suffix_of s))

wildcard_iff :
    (stem event : Text)
    → (starts_with (drop_last (stem ++ (b':' ∷ b'*' ∷ []))) event ≡ true)
      ↔ ((rest : Text) × (event ≡ stem ++ (b':' ∷ rest)))
wildcard_iff stem event =
    let (a, b) = starts_with_iff (stem ++ (b':' ∷ [])) event in
    rw (drop_last-append stem b':' b'*') (
      λ h. let (rest, e) = a h in (rest, e ∙ append_assoc stem (b':' ∷ []) rest),
      λ (rest, e). b (rest, e ∙ sym (append_assoc stem (b':' ∷ []) rest)),
    )

event_named_iff : (event name : Text) → (event_named event name ≡ true) ↔ Names event name
unfolding event_named
event_named_iff event name =
    let (i, o) = ===_iff name event in
    let (a, b) = ends_with_iff (txt ":*") name in
    (
      λ h. elim (Bool-cases (name === event)) [
        | inl y ↦ inl (i y)
        | inr n ↦
            let (stem, e) = a (ground arith) in
            let tail : starts_with (drop_last name) event ≡ true = ground arith in
            let (rest, f) = (wildcard_iff stem event).0 (rw e at tail) in inr (stem, rest, e, f)
      ],
      λ h. elim h [
        | inl e ↦ ground (arith, o e)
        | inr (stem, rest, e, f) ↦
            let tail = (wildcard_iff stem event).1 (rest, f) in
            rw e (
              ground (
                arith,
                tail,
                (ends_with_iff (b':' ∷ b'*' ∷ []) (stem ++ (b':' ∷ b'*' ∷ []))).1 (stem, refl),
              ))
      ],
    )

named_iff : (event : Text) (e : TargetType × Selector) → (named event e ≡ true) ↔ IsNamed event e
unfolding named
named_iff event (t, s) =
    let (i, o) = ===_iff event [] in
    let (ai, ao) = any_iff (event_named event) s.events in
    (
      λ h. elim (Bool-cases (event === [])) [
        | inl y ↦ inl (i y)
        | inr n ↦
            let (name, m, k) = ai (ground arith) in inr (name, m, (event_named_iff event name).0 k)
      ],
      λ h. elim h [
        | inl e ↦ ground (arith, o e)
        | inr (name, m, k) ↦ ground (arith, ao (name, m, (event_named_iff event name).1 k))
      ],
    )

fits_iff : (key : Option Text) (e : TargetType × Selector) → (fits key e ≡ true) ↔ FitsKey key e
unfolding fits
fits_iff none e = (λ h. tt, λ u. refl)
fits_iff (some key) (t, s) =
    let (a, b) = starts_with_iff (prefix_of s) key in
    let (c, d) = ends_with_iff (suffix_of s) key in
    (λ h. (a (ground arith), c (ground arith)), λ (p, q). ground (arith, b p, d q))

is_nil-keep :
    (p : TargetType × Selector → Bool) (es : List (TargetType × Selector))
    → is_nil (map rule_from (keep p es)) ≡ not (any p es)
unfolding keep any
is_nil-keep p [] = refl
is_nil-keep p (e ∷ es) = ground (arith, is_nil-keep p es)

fires : Text → Option Text → TargetType × Selector → Bool
fires event key e = named event e && fits key e

abbrev verdict_of : Bool → Bool → Verdict
verdict_of some_named some_fires =
    if not some_named
    then event_type_mismatch
    else if not some_fires
    then filter_mismatch
    else would_fire

analyze_rules-entries :
    (event : Text) (key : Option Text) (e : TargetType × Selector)
    (es : List (TargetType × Selector))
    → (r : Report) × (analyze_rules event key (map rule_from (e ∷ es)) ≡ returns r)
      × (r.verdict ≡ verdict_of (any (named event) (e ∷ es)) (any (fires event key) (e ∷ es)))
      × (r.matching_rules ≡ map rule_from (keep (fits key) (keep (named event) (e ∷ es))))
unfolding analyze_rules report_of judge fires
analyze_rules-entries event key e es =
    let all = e ∷ es in
    let (reasons, h) = match_filters-rules key (keep (named event) all) in
    let found : List Rule × List (Json × Exclusion) =
      (map rule_from (keep (fits key) (keep (named event) all)), reasons) in
    (
      report_of event (map rule_from all) (map rule_from (keep (named event) all)) found,
      rw (match_events-rules event all, h) refl,
      ground (
        arith,
        is_nil-keep (named event) all,
        is_nil-keep (fits key) (keep (named event) all),
        any-keep (fits key) (named event) all,
      ),
      refl,
    )

-- What a verdict says of an event, a key and the rules.
module _ (event : Text) (key : Option Text) (es : List (TargetType × Selector)) where
  abbrev pub SomeFires : Type 0
  SomeFires = (e : TargetType × Selector) × Among e es × IsNamed event e × FitsKey key e

  abbrev pub NoneNamed : Type 0
  NoneNamed = (e : TargetType × Selector) → Among e es → ¬ (IsNamed event e)

  any-fires : (any (fires event key) es ≡ true) ↔ SomeFires
  unfolding fires
  any-fires =
      let (a, b) = any_iff (fires event key) es in
      (
        λ h.
            let (e, m, f) = a h in
            (e, m, (named_iff event e).0 (ground arith), (fits_iff key e).0 (ground arith)),
        λ (e, m, n, f).
            let n' = (named_iff event e).1 n in
            let f' = (fits_iff key e).1 f in b (e, m, ground arith),
      )

  none_named : (any (named event) es ≡ false) ↔ NoneNamed
  none_named =
      let (a, b) = any_iff (named event) es in
      (
        λ h e m n. let t = b (e, m, (named_iff event e).1 n) in cc,
        λ w. elim (Bool-cases (any (named event) es)) [
          | inl y ↦ let (e, m, n) = a y in absurd (w e m ((named_iff event e).0 n))
          | inr n ↦ n
        ],
      )

  abbrev pub IsVerdict : Verdict → Type 0
  IsVerdict v =
      ((v ≡ would_fire) ↔ SomeFires)
      × ((v ≡ event_type_mismatch) ↔ ((es ≢ []) × NoneNamed))
      × ((v ≡ no_notification_config) ↔ (es ≡ []))

any-fires_unnamed :
    (event : Text) (key : Option Text) (es : List (TargetType × Selector))
    → any (named event) es ≡ false
    → any (fires event key) es ≡ false
unfolding any fires
any-fires_unnamed event key [] h = refl
any-fires_unnamed event key (e ∷ es) h = ground (arith, any-fires_unnamed event key es)

verdict_of-IsVerdict :
    (event : Text) (key : Option Text) (e : TargetType × Selector)
    (es : List (TargetType × Selector))
    → IsVerdict event key
        (e ∷ es)
        (verdict_of (any (named event) (e ∷ es)) (any (fires event key) (e ∷ es)))
verdict_of-IsVerdict event key e es =
    let all = e ∷ es in
    let (fa, fb) = any-fires event key all in
    let (na, nb) = none_named event key all in
    let weak = any-fires_unnamed event key all in
    (
      (λ h. fa (ground arith), λ f. let t = fb f in ground arith),
      (λ h. (λ n. cc, na (ground arith)), λ (n, w). let t = nb w in ground arith),
      (λ h. absurd (ground arith), λ h. cc),
    )

analyze_rules-IsVerdict :
    (event : Text) (key : Option Text) (es : List (TargetType × Selector))
    → (r : Report) × (analyze_rules event key (map rule_from es) ≡ returns r)
      × IsVerdict event key es r.verdict
unfolding analyze_rules
analyze_rules-IsVerdict event key [] = (
  no_rules,
  refl,
  (
    (λ h. absurd cc, λ (e, m, _, _). elim m [ ]),
    (λ h. absurd cc, λ (n, w). absurd (n refl)),
    (λ h. refl, λ h. refl),
  ),
)
analyze_rules-IsVerdict event key (e ∷ es) =
    let (r, h, v, m) = analyze_rules-entries event key e es in
    (r, h, rw v (verdict_of-IsVerdict event key e es))

-- A configuration of the documented shape (each of the three keys there or not, each rule with a
-- target and events, with or without an Id, and with no Filter or with filter rules whose names are
-- `prefix` or `suffix` in capitals or small letters) never makes the analyzer raise. The verdict is
-- that an event would fire exactly when some rule names the event and the last prefix and the last
-- suffix that it asks for fit the key; that the event type does not match exactly when there are
-- rules and none names the event; and that there is no configuration exactly when there are no
-- rules.
pub analyze-IsVerdict :
    (ls qs ts : Option (List Selector)) (key : Option Text) (event : Text)
    → (r : Report) × (analyze (config_of ls qs ts) key event ≡ returns r)
      × IsVerdict (normalize_event event) key (entries ls qs ts) r.verdict
unfolding analyze
analyze-IsVerdict ls qs ts key event =
    rw (rules-config_of ls qs ts)
      (analyze_rules-IsVerdict (normalize_event event) key (entries ls qs ts))
