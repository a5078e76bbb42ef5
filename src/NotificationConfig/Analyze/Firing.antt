-- ===== src/NotificationConfig/Analyze/Firing.antt =====
-- Which rules of a configuration of the documented shape fire.
use mathlib.Core.List.{append-nil}
use storageops.Base.{
  ◌≡◌, refl, sym, inl, inr, Bool, true, false, not, ◌&&◌, ◌||◌, Option, none, some, List, [], ◌∷◌,
  map, any, keep, Text, ◌===◌, starts_with, ends_with, arith, Bool-cases, Option-cases,
}
use storageops.Base.Try.{returns}
use storageops.Base.Affixes.{ends_with_iff}
use storageops.Json.{Json, str, iterate, list_of}
use storageops.NotificationConfig.Rules.{
  TargetType, event_named, event_loop, event_matches, rejects, Exclusion, by_prefix, by_suffix,
  filter_excludes,
}
use storageops.NotificationConfig.Analyze.Documented.{
  Selector, prefix_of, suffix_of, text_items, rule_from,
}
use storageops.NotificationConfig.Analyze.{match_events, match_filters, or_else}

-- The event is one of the rule's.
unfoldable pub named : Text → TargetType × Selector → Bool
named event (t, s) = event === [] || any (event_named event) s.events

unfoldable pub fits : Option Text → TargetType × Selector → Bool
fits none e = true
fits (some key) (t, s) = starts_with (prefix_of s) key && ends_with (suffix_of s) key

event_loop_lem :
    (event : Text) (ts : List Text)
    → event_loop (list_of (text_items ts)) event ≡ returns (any (event_named event) ts)
unfolding event_loop any list_of
event_loop_lem event [] = refl
event_loop_lem event (t ∷ ts) = ground (arith, event_loop_lem event ts)

event_matches-rule :
    (event : Text) (e : TargetType × Selector)
    → event_matches (rule_from e).events event ≡ returns (named event e)
unfolding event_matches named ◌===◌ iterate event_loop
event_matches-rule [] e = refl
event_matches-rule (c ∷ t) e = event_loop_lem (c ∷ t) e.1.events

abbrev is_kept : Option Exclusion → Bool
is_kept none = true
is_kept (some e) = false

prefix_rejects :
    (p key : Text) → (not (p === []) && not (starts_with p key)) ≡ not (starts_with p key)
unfolding ◌===◌ starts_with
prefix_rejects [] key = refl
prefix_rejects (c ∷ p) key = refl

suffix_rejects : (p key : Text) → (not (p === []) && not (ends_with p key)) ≡ not (ends_with p key)
unfolding ◌===◌
suffix_rejects [] key = ground (arith, (ends_with_iff [] key).1 (key, sym (append-nil key)))
suffix_rejects (c ∷ p) key = refl

filter_excludes-rule :
    (key : Option Text) (e : TargetType × Selector)
    → (x : Option Exclusion) × (filter_excludes (rule_from e).prefix (rule_from e).suffix key
        ≡ returns x)
      × (is_kept x ≡ fits key e)
unfolding filter_excludes rejects fits
filter_excludes-rule none e = (none, refl, refl)
filter_excludes-rule (some key) (t, s) =
    rw (prefix_rejects (prefix_of s) key, suffix_rejects (suffix_of s) key)
      (elim (Bool-cases (starts_with (prefix_of s) key)) [
        | inl y ↦ elim (Bool-cases (ends_with (suffix_of s) key)) [
          | inl z ↦ (none, ground arith, ground arith)
          | inr z ↦ (some (by_suffix (str (suffix_of s)) key), ground arith, ground arith)
        ]
        | inr n ↦ (some (by_prefix (str (prefix_of s)) key), ground arith, ground arith)
      ])

pub match_events-rules :
    (event : Text) (es : List (TargetType × Selector))
    → match_events event (map rule_from es) ≡ returns (map rule_from (keep (named event) es))
unfolding match_events keep
match_events-rules event [] = refl
match_events-rules event (e ∷ es) =
    rw (event_matches-rule event e, match_events-rules event es) (ground arith)

pub match_filters-rules :
    (key : Option Text) (es : List (TargetType × Selector))
    → (reasons : List (Json × Exclusion)) × (match_filters key (map rule_from es)
        ≡ returns (map rule_from (keep (fits key) es), reasons))
unfolding match_filters keep
match_filters-rules key [] = ([], refl)
match_filters-rules key (e ∷ es) =
    let (x, h, k) = filter_excludes-rule key e in
    let (reasons, ih) = match_filters-rules key es in
    elim (Option-cases x) [
      | inl n ↦
          let fit : fits key e ≡ true = rw (sym k, n) refl in
          (reasons, rw (h, ih, n) (ground (arith, fit)))
      | inr (y, n) ↦
          let unfit : fits key e ≡ false = rw (sym k, n) refl in
          (
            (or_else (rule_from e).id (rule_from e).target, y) ∷ reasons,
            rw (h, ih, n) (ground (arith, unfit)),
          )
    ]
