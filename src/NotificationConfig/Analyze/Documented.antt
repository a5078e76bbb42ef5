-- ===== src/NotificationConfig/Analyze/Documented.antt =====
-- Configurations of the documented shape.
pub mod Reading
use storageops.Base.{
  if◌then◌else◌, ◌-◌, Bool, Option, none, some, List, [], ◌∷◌, ◌++◌, map, Text, txt,
}
use storageops.Json.{Json, str, arr, obj, Items, nil, cons, Fields, end, field}
use storageops.NotificationConfig.Rules.{TargetType, lambda, sqs, sns, config_key, arn_field, Rule}

-- A filter rule, with its value. The flags say which letters of its name are written as capitals.
pub data FilterEntry : Type 0 where
  on_prefix on_suffix : List Bool → Text → FilterEntry

-- A rule as the service documents it: with or without an Id, and with no Filter or with filter
-- rules, as many as there are.
pub record Selector : Type 0 where
  pub id : Option Text
  pub target : Text
  pub events : List Text
  pub filters : Option (List FilterEntry)

abbrev pub or_none : {A : Type 0} → Option (List A) → List A
or_none none = []
or_none (some xs) = xs

abbrev or_blank : Option Text → Text
or_blank none = []
or_blank (some t) = t

unfoldable pub prefixes : List FilterEntry → List Text
prefixes [] = []
prefixes (on_prefix capitals value ∷ es) = value ∷ prefixes es
prefixes (on_suffix capitals value ∷ es) = prefixes es

unfoldable pub suffixes : List FilterEntry → List Text
suffixes [] = []
suffixes (on_prefix capitals value ∷ es) = suffixes es
suffixes (on_suffix capitals value ∷ es) = value ∷ suffixes es

unfoldable pub last_of : Text → List Text → Text
last_of t [] = t
last_of t (u ∷ us) = last_of u us

-- What a rule asks a key to begin and to end with: nothing where no filter rule says so, and else
-- what the last one says.
abbrev pub prefix_of : Selector → Text
prefix_of s = last_of [] (prefixes (or_none s.filters))

abbrev pub suffix_of : Selector → Text
suffix_of s = last_of [] (suffixes (or_none s.filters))

-- A word of small letters with some of them written as capitals.
unfoldable pub spell : List Bool → Text → Text
spell [] word = word
spell (capital ∷ capitals) [] = []
spell (capital ∷ capitals) (c ∷ word) = (if capital then c - 32 else c) ∷ spell capitals word

abbrev pub text_items : List Text → Items
text_items [] = nil
text_items (t ∷ ts) = cons (str t) (text_items ts)

abbrev filter_rule : Text → Text → Json
filter_rule name value = obj (field (txt "Name") (str name) (field (txt "Value") (str value) end))

abbrev encode_entry : FilterEntry → Json
encode_entry (on_prefix capitals value) = filter_rule (spell capitals (txt "prefix")) value
encode_entry (on_suffix capitals value) = filter_rule (spell capitals (txt "suffix")) value

unfoldable pub encode_entries : List FilterEntry → Items
unfolding spell txt
encode_entries [] = nil
encode_entries (e ∷ es) = cons (encode_entry e) (encode_entries es)

abbrev filter_field : Option (List FilterEntry) → Fields
filter_field none = end
filter_field (some es) =
    field (txt "Filter")
      (obj (field (txt "Key") (obj (field (txt "FilterRules") (arr (encode_entries es)) end)) end))
      end

abbrev id_field : Option Text → Fields → Fields
id_field none rest = rest
id_field (some t) rest = field (txt "Id") (str t) rest

unfoldable pub encode_rule : TargetType → Selector → Json
unfolding arn_field encode_entries txt
encode_rule t s = obj (
    id_field s.id (
      field (arn_field t) (str s.target)
        (field (txt "Events") (arr (text_items s.events)) (filter_field s.filters))))

unfoldable pub encode_all : TargetType → List Selector → Items
unfolding encode_rule
encode_all t [] = nil
encode_all t (s ∷ ss) = cons (encode_rule t s) (encode_all t ss)

abbrev key_field : TargetType → Option (List Selector) → Fields → Fields
key_field t none rest = rest
key_field t (some ss) rest = field (config_key t) (arr (encode_all t ss)) rest

-- A configuration with these rules for functions, queues and topics, each key there or not.
unfoldable pub config_of :
    Option (List Selector) → Option (List Selector) → Option (List Selector) → Fields
unfolding encode_all config_key
config_of ls qs ts = key_field lambda ls (key_field sqs qs (key_field sns ts end))

abbrev pub tag : TargetType → List Selector → List (TargetType × Selector)
tag t = map (λ s. (t, s))

unfoldable pub entries :
    Option (List Selector)
    → Option (List Selector)
    → Option (List Selector)
    → List (TargetType × Selector)
entries ls qs ts = tag lambda (or_none ls) ++ (tag sqs (or_none qs) ++ tag sns (or_none ts))

-- What the analyzer makes of a rule.
abbrev pub rule_from : TargetType × Selector → Rule
rule_from (t, s) = record {
  id = str (or_blank s.id);
  target_type = t;
  target = str s.target;
  events = arr (text_items s.events);
  prefix = str (prefix_of s);
  suffix = str (suffix_of s);
}
