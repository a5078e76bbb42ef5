-- ===== src/Lifecycle/Analyze/Effective.antt =====
-- What the report of `analyze` says of classes and warnings.
use storageops.Base.{
  ℕ, ◌≡◌, refl, Bool, true, false, ◌&&◌, Option, none, some, List, [], ◌∷◌, ◌++◌, any, any-append,
  Text, arith, ap, ◌∙◌,
}
use storageops.Base.Int.{ℤ, leb_ℤ, ◌≤ℤ◌}
use storageops.Lifecycle.Timeline.{Transition, Rule, enabled}
use storageops.Lifecycle.Analyze.{
  Warning, never_fires, late_transitions, abort_warning, rule_warnings, rules_warnings,
  apply_transitions, apply_rules, analyze, start_class_of,
}

apply_rules-append :
    (age : ℤ) (rs qs : List Rule) (class : Text)
    → (apply_rules age (rs ++ qs) class).1 ≡ (apply_rules age qs (apply_rules age rs class).1).1
unfolding apply_rules
apply_rules-append age [] qs class = refl
apply_rules-append age (r ∷ rs) qs class = ground (
  arith,
  apply_rules-append age rs qs class,
  apply_rules-append age rs qs (apply_transitions r.id age r.transitions class).1,
)

apply_rules-single :
    (r : Rule) (t : Transition) (d age : ℤ) (class : Text)
    → enabled r ≡ true
    → r.transitions ≡ t ∷ []
    → t.days ≡ some d
    → d ≤ℤ age
    → (apply_rules age (r ∷ []) class).1 ≡ t.storage_class
unfolding apply_rules apply_transitions
apply_rules-single r t d age class on only day old =
    let step = ap (λ ts. (apply_transitions r.id age ts class).1) only in
    ground (arith, step, on, day, old)

-- The class that is reported for an age is the one of the last rule with a transition on or before
-- that age, in the order of the rules: an enabled last rule with one such transition decides it,
-- whatever later days the other rules name.
pub analyze-last_rule :
    (rs : List Rule) (r : Rule) (t : Transition) (d age : ℤ) (avg count : Option ℕ) (class : Text)
    → enabled r ≡ true
    → r.transitions ≡ t ∷ []
    → t.days ≡ some d
    → d ≤ℤ age
    → (analyze (rs ++ (r ∷ [])) (some age) avg count class).summary.effective_class
      ≡ t.storage_class
unfolding analyze apply_rules apply_transitions
analyze-last_rule rs r t d age avg count class on only day old =
    apply_rules-append age rs (r ∷ []) (start_class_of class)
    ∙ apply_rules-single r t d age (apply_rules age rs (start_class_of class)).1 on only day old

abbrev pub is_never_fires : Warning → Bool
is_never_fires (never_fires a b c d) = true
is_never_fires _ = false

-- A transition of the rule on the day of its expiration or later.
abbrev is_late : Option ℤ → Transition → Bool
is_late none t = false
is_late (some e) t = elim (Transition.days t) [ none ↦ false | some d ↦ leb_ℤ e d ]

never_fires-late :
    (id : Text) (e : Option ℤ) (ts : List Transition)
    → any is_never_fires (late_transitions id e ts) ≡ any (is_late e) ts
unfolding any late_transitions
never_fires-late id none [] = refl
never_fires-late id none (t ∷ ts) = never_fires-late id none ts
never_fires-late id (some e) [] = refl
never_fires-late id (some e) (t ∷ ts) = ground (arith, never_fires-late id (some e) ts)

-- An enabled rule with such a transition.
unfoldable pub late_rule : Rule → Bool
late_rule r = enabled r && any (is_late r.expiration_days) r.transitions

rule_warnings-late : (r : Rule) → any is_never_fires (rule_warnings r) ≡ late_rule r
unfolding any rule_warnings late_rule abort_warning
rule_warnings-late r = ground (
  arith,
  any-append is_never_fires (late_transitions r.id r.expiration_days r.transitions)
      (abort_warning r),
  never_fires-late r.id r.expiration_days r.transitions,
)

-- The warnings hold one of a transition that never fires exactly when an enabled rule has a
-- transition on the day of its expiration or later.
pub rules_warnings-late :
    (rs : List Rule) → any is_never_fires (rules_warnings rs) ≡ any late_rule rs
unfolding any rules_warnings
rules_warnings-late [] = refl
rules_warnings-late (r ∷ rs) =
    any-append is_never_fires (rule_warnings r) (rules_warnings rs)
    ∙ rw (rule_warnings-late r, rules_warnings-late rs) refl
