-- ===== src/NotificationTarget/Statement.antt =====
-- What one statement of a target policy grants: `_principal_is_wildcard`, `_principal_is_s3`,
-- `_action_present`, `_source_arn_values`, `_arc_matches`, and `_detect_target_type`.
use storageops.Base.{
  if◌then◌else◌, Bool, true, false, ◌||◌, Option, none, some, List, [], ◌∷◌, ◌++◌, map, Text, txt,
  ◌===◌, any, lower, before, ends_with, starts_with, drop_last,
}
use storageops.Json.{
  Json, str, obj, Fields, get, get_or, is_str, py_str, as_list, items_of, keep_objects,
}

-- The keys of `TARGET_SPEC`.
pub data Target : Type 0 where
  lambda sqs sns : Target

unfoldable pub s3_service : Text
unfolding txt
s3_service = txt "s3.amazonaws.com"

unfoldable pub service_name : Target → Text
unfolding txt
service_name lambda = txt "lambda"
service_name sqs = txt "sqs"
service_name sns = txt "sns"

-- `TARGET_SPEC[target]["action"]`
unfoldable pub required_action : Target → Text
unfolding txt
required_action lambda = txt "lambda:InvokeFunction"
required_action sqs = txt "sqs:SendMessage"
required_action sns = txt "sns:Publish"

-- `TARGET_SPEC` as a dict: the target of a key.
unfoldable pub target_of : Text → Option Target
unfolding service_name ◌===◌
target_of name =
    if name === service_name lambda
    then some lambda
    else if name === service_name sqs
    then some sqs
    else if name === service_name sns
    then some sns
    else none

unfoldable pub statements : Fields → List Fields
unfolding as_list keep_objects get txt
statements policy = keep_objects (as_list (get policy (txt "Statement")))

unfoldable pub holds_text : Text → Json → Bool
unfolding any as_list is_str
holds_text t v = any (is_str t) (as_list v)

abbrev wildcard_principal : Json → Bool
wildcard_principal (str s) = s === txt "*"
wildcard_principal (obj d) =
    holds_text (txt "*") (get d (txt "AWS")) || holds_text (txt "*") (get d (txt "Service"))
wildcard_principal _ = false

unfoldable pub principal_is_wildcard : Fields → Bool
unfolding holds_text get txt ◌===◌
principal_is_wildcard stmt = wildcard_principal (get stmt (txt "Principal"))

abbrev s3_principal : Json → Bool
s3_principal (str s) = s === s3_service
s3_principal (obj d) = holds_text s3_service (get d (txt "Service"))
s3_principal _ = false

unfoldable pub principal_is_s3 : Fields → Bool
unfolding principal_is_wildcard holds_text s3_service get txt ◌===◌
principal_is_s3 stmt = principal_is_wildcard stmt || s3_principal (get stmt (txt "Principal"))

unfoldable pub is_action : Text → Text → Bool
unfolding ◌===◌ before txt
is_action action a = a === action || a === (before b':' action ++ txt ":*") || a === txt "*"

unfoldable pub action_present : Fields → Text → Bool
unfolding any as_list is_action get py_str txt
action_present stmt action =
    any (λ a. is_action action (py_str a)) (as_list (get stmt (txt "Action")))

-- The values of one operator of a condition.
unfoldable pub arns_of_mapping : List (Text × Json) → List Text
unfolding lower as_list py_str txt ◌===◌
arns_of_mapping [] = []
arns_of_mapping ((key, v) ∷ more) =
    let rest = arns_of_mapping more in
    if lower key === txt "aws:sourcearn" then map py_str (as_list v) ++ rest else rest

unfoldable pub arns_of_operators : List (Text × Json) → List Text
unfolding arns_of_mapping items_of
arns_of_operators [] = []
arns_of_operators ((operator, obj d) ∷ more) =
    arns_of_mapping (items_of d) ++ arns_of_operators more
arns_of_operators ((operator, v) ∷ more) = arns_of_operators more

abbrev arns_of_condition : Json → List Text
arns_of_condition (obj d) = arns_of_operators (items_of d)
arns_of_condition _ = []

unfoldable pub source_arn_values : Fields → List Text
unfolding arns_of_operators items_of get txt
source_arn_values stmt = arns_of_condition (get stmt (txt "Condition"))

unfoldable pub arc_matches : Text → Text → Bool
unfolding ◌===◌ ends_with starts_with drop_last txt
arc_matches condition bucket_arn =
    if condition === bucket_arn
    then true
    else if ends_with (txt "*") condition
    then starts_with (drop_last condition) bucket_arn
    else false

-- `s.get("Effect", "Allow") == "Allow"`
unfoldable pub is_allow : Fields → Bool
unfolding get_or is_str txt
is_allow stmt = is_str (txt "Allow") (get_or stmt (txt "Effect") (str (txt "Allow")))

first_target : List Json → Option Target
unfolding target_of before lower py_str
first_target [] = none
first_target (a ∷ more) = elim (target_of (before b':' (lower (py_str a)))) [
  | some t ↦ some t
  | none ↦ first_target more
]

unfoldable pub detect_in : List Fields → Option Target
unfolding first_target as_list get txt
detect_in [] = none
detect_in (stmt ∷ rest) = elim (first_target (as_list (get stmt (txt "Action")))) [
  | some t ↦ some t
  | none ↦ detect_in rest
]

unfoldable pub detect_target_type : Fields → Option Target
unfolding detect_in statements
detect_target_type policy = detect_in (statements policy)
