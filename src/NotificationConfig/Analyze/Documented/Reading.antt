-- ===== src/NotificationConfig/Analyze/Documented/Reading.antt =====
-- The rules that are read from a configuration of the documented shape.
use storageops.Base.{
  ℕ, if◌then◌else◌, ◌-◌, ◌≡◌, refl, ap, Bool, true, false, ◌&&◌, leb, Option, none, some, List, [],
  ◌∷◌, ◌++◌, map, map-append, all, Text, txt, ◌===◌, lower, lower_code, arith,
}
use storageops.Base.Try.{returns, ◌>>=◌}
use storageops.Json.{
  Json, null, str, arr, Items, nil, cons, iterate, iterate_or_empty, dict_or_empty, as_dict,
  list_of, truthy, get, get_or, has, py_str, is_empty,
}
use storageops.NotificationConfig.Rules.{
  TargetType, lambda, sqs, sns, config_key, arn_field, read_filters, or_empty_list, rule_of,
  rules_of_list, rules_of_type, rules,
}
use storageops.NotificationConfig.Analyze.Documented.{
  FilterEntry, on_prefix, on_suffix, Selector, or_none, prefixes, suffixes, last_of, spell,
  text_items, encode_entries, encode_rule, encode_all, config_of, tag, entries, rule_from,
}

is_small : Text → Bool
is_small = all (λ c. leb b'a' c && leb c b'z')

lower-capital :
    (b : Bool) (c : ℕ)
    → (leb b'a' c && leb c b'z') ≡ true
    → lower_code (if b then c - 32 else c) ≡ c
unfolding lower_code
lower-capital b c h = ground arith

lower-spell : (bs : List Bool) (word : Text) → is_small word ≡ true → lower (spell bs word) ≡ word
unfolding lower spell is_small all lower_code
lower-spell [] [] h = refl
lower-spell [] (c ∷ word) h =
    rw (lower-spell [] word (ground arith))
      (ap (λ d. d ∷ word) (lower-capital false c (ground arith)))
lower-spell (b ∷ bs) [] h = refl
lower-spell (b ∷ bs) (c ∷ word) h =
    rw (lower-spell bs word (ground arith)) (ap (λ d. d ∷ word) (lower-capital b c (ground arith)))

spelled_prefix : (bs : List Bool) → lower (spell bs (txt "prefix")) ≡ txt "prefix"
unfolding is_small all txt
spelled_prefix bs = lower-spell bs (txt "prefix") refl

spelled_suffix : (bs : List Bool) → lower (spell bs (txt "suffix")) ≡ txt "suffix"
unfolding is_small all txt
spelled_suffix bs = lower-spell bs (txt "suffix") refl

read_filters-encode :
    (es : List FilterEntry) (p s : Text)
    → read_filters (list_of (encode_entries es)) (str p, str s)
      ≡ returns (str (last_of p (prefixes es)), str (last_of s (suffixes es)))
unfolding read_filters list_of encode_entries prefixes suffixes last_of get_or get has py_str txt
    ◌===◌
read_filters-encode [] p s = refl
read_filters-encode (on_prefix capitals value ∷ es) p s =
    rw (spelled_prefix capitals) (read_filters-encode es value s)
read_filters-encode (on_suffix capitals value ∷ es) p s =
    rw (spelled_suffix capitals) (read_filters-encode es p value)

truthy_items : (xs : Items) → iterate_or_empty (arr xs) ≡ returns (list_of xs)
unfolding iterate_or_empty truthy iterate list_of
truthy_items nil = refl
truthy_items (cons x xs) = refl

or_empty_list_items : (xs : Items) → or_empty_list (arr xs) ≡ arr xs
unfolding or_empty_list truthy
or_empty_list_items nil = refl
or_empty_list_items (cons x xs) = refl

listed : (events : List Text) → or_empty_list (arr (text_items events)) ≡ arr (text_items events)
listed events = or_empty_list_items (text_items events)

some_filters :
    (t : TargetType) (id : Option Text) (target : Text) (events : List Text) (es : List FilterEntry)
    → let s : Selector = record { id = id; target = target; events = events; filters = some es } in
      rule_of t (encode_rule t s) ≡ returns (rule_from (t, s))
unfolding rule_of encode_rule arn_field txt get get_or has as_dict dict_or_empty truthy is_empty
    ◌===◌
some_filters lambda none target events es =
    rw (truthy_items (encode_entries es), read_filters-encode es [] [], listed events) refl
some_filters lambda (some i) target events es =
    rw (truthy_items (encode_entries es), read_filters-encode es [] [], listed events) refl
some_filters sqs none target events es =
    rw (truthy_items (encode_entries es), read_filters-encode es [] [], listed events) refl
some_filters sqs (some i) target events es =
    rw (truthy_items (encode_entries es), read_filters-encode es [] [], listed events) refl
some_filters sns none target events es =
    rw (truthy_items (encode_entries es), read_filters-encode es [] [], listed events) refl
some_filters sns (some i) target events es =
    rw (truthy_items (encode_entries es), read_filters-encode es [] [], listed events) refl

no_filters :
    (t : TargetType) (id : Option Text) (target : Text) (events : List Text)
    → let s : Selector = record { id = id; target = target; events = events; filters = none } in
      rule_of t (encode_rule t s) ≡ returns (rule_from (t, s))
unfolding rule_of encode_rule arn_field txt get get_or has as_dict dict_or_empty truthy is_empty
    ◌===◌ iterate_or_empty read_filters prefixes suffixes last_of
no_filters lambda none target events = rw (listed events) refl
no_filters lambda (some i) target events = rw (listed events) refl
no_filters sqs none target events = rw (listed events) refl
no_filters sqs (some i) target events = rw (listed events) refl
no_filters sns none target events = rw (listed events) refl
no_filters sns (some i) target events = rw (listed events) refl

encode_parts :
    (t : TargetType) (id : Option Text) (target : Text) (events : List Text)
    (filters : Option (List FilterEntry))
    → let s : Selector = record { id = id; target = target; events = events; filters = filters } in
      rule_of t (encode_rule t s) ≡ returns (rule_from (t, s))
encode_parts t id target events none = no_filters t id target events
encode_parts t id target events (some es) = some_filters t id target events es

rule_of-encode :
    (t : TargetType) (s : Selector) → rule_of t (encode_rule t s) ≡ returns (rule_from (t, s))
rule_of-encode t s = encode_parts t s.id s.target s.events s.filters

rules_of_list-encode :
    (t : TargetType) (ss : List Selector)
    → rules_of_list t (list_of (encode_all t ss)) ≡ returns (map rule_from (tag t ss))
unfolding rules_of_list list_of encode_all
rules_of_list-encode t [] = refl
rules_of_list-encode t (s ∷ ss) = rw (rule_of-encode t s, rules_of_list-encode t ss) refl

-- What a configuration holds at a key.
abbrev at_key : TargetType → Option (List Selector) → Json
at_key t none = null
at_key t (some ss) = arr (encode_all t ss)

rules_at_key :
    (t : TargetType) (o : Option (List Selector))
    → (iterate_or_empty (at_key t o) >>= rules_of_list t)
      ≡ returns (map rule_from (tag t (or_none o)))
unfolding iterate_or_empty truthy rules_of_list
rules_at_key t none = refl
rules_at_key t (some ss) = rw (truthy_items (encode_all t ss)) (rules_of_list-encode t ss)

module _ (ls qs ts : Option (List Selector)) where
  abbrev Holds : TargetType → Option (List Selector) → Type 0
  Holds t o = get (config_of ls qs ts) (config_key t) ≡ at_key t o

get-config_of :
    (ls qs ts : Option (List Selector))
    → Holds ls qs ts lambda ls × Holds ls qs ts sqs qs × Holds ls qs ts sns ts
unfolding config_of get config_key txt ◌===◌
get-config_of none none none = (refl, refl, refl)
get-config_of none none (some ts) = (refl, refl, refl)
get-config_of none (some qs) none = (refl, refl, refl)
get-config_of none (some qs) (some ts) = (refl, refl, refl)
get-config_of (some ls) none none = (refl, refl, refl)
get-config_of (some ls) none (some ts) = (refl, refl, refl)
get-config_of (some ls) (some qs) none = (refl, refl, refl)
get-config_of (some ls) (some qs) (some ts) = (refl, refl, refl)

pub rules-config_of :
    (ls qs ts : Option (List Selector))
    → rules (config_of ls qs ts) ≡ returns (map rule_from (entries ls qs ts))
unfolding rules rules_of_type entries
rules-config_of ls qs ts =
    let (hl, hq, ht) = get-config_of ls qs ts in
    rw (hl, hq, ht, rules_at_key lambda ls, rules_at_key sqs qs, rules_at_key sns ts)
      (rw
        (
          map-append rule_from (tag lambda (or_none ls))
              (tag sqs (or_none qs) ++ tag sns (or_none ts)),
          map-append rule_from (tag sqs (or_none qs)) (tag sns (or_none ts)),
        )
        refl)
