-- ===== src/CrossAccount/Statement.antt =====
-- The matching of one policy statement: `_as_list`, `_account_of`, `_action_matches`,
-- `_resource_matches`, `_principal_grants`, `_principal_matches`, `_has_condition`.
use storageops.Base.{
  ◌==◌, if◌then◌else◌, Bool, true, false, not, ◌||◌, Option, none, some, List, [], ◌∷◌, ◌++◌, Text,
  txt, ◌===◌, any, is_digit,
}
use storageops.Json.{
  as_list, keep_objects, Json, str, obj, Fields, get, has, values, is_str, is_empty, py_str,
}
use storageops.CrossAccount.Glob.{glob_match}

-- `_statements`
unfoldable pub statements : Fields → List Fields
unfolding as_list keep_objects get txt
statements policy =
    if is_empty policy then [] else keep_objects (as_list (get policy (txt "Statement")))

-- The text behind its first colon.
unfoldable pub after_colon : Text → Option Text
after_colon [] = none
after_colon (c ∷ s) = if c == b':' then some s else after_colon s

unfoldable pub drop_prefix : Text → Text → Option Text
drop_prefix [] t = some t
drop_prefix (c ∷ s) [] = none
drop_prefix (c ∷ s) (d ∷ t) = if c == d then drop_prefix s t else none

-- The digits up to a colon, of which there must be one at least.
unfoldable pub account_digits : Text → Text → Option Text
unfolding is_digit
account_digits found [] = none
account_digits found (c ∷ s) =
    if is_digit c
    then account_digits (found ++ (c ∷ [])) s
    else if c == b':'
    then (elim found [ [] ↦ none | d ∷ ds ↦ some (d ∷ ds) ])
    else none

abbrev and_then : Option Text → (Text → Option Text) → Option Text
and_then none f = none
and_then (some s) f = f s

-- `_account_of`, the expression `^arn:[^:]*:[^:]*:[^:]*:(\d+):`
unfoldable pub account_of : Text → Option Text
unfolding drop_prefix after_colon account_digits txt
account_of arn = and_then (drop_prefix (txt "arn:") arn) λ partition.
    and_then (after_colon partition) λ service.
      and_then (after_colon service)
        λ region. and_then (after_colon region) λ rest. account_digits [] rest

-- `any(_glob_match(str(p), value) for p in _as_list(patterns))`
unfoldable pub some_glob : Json → Text → Bool
unfolding any as_list glob_match py_str
some_glob patterns value = any (λ p. glob_match (py_str p) value) (as_list patterns)

-- `_action_matches`: whether it matches, and whether by the inverted form.
unfoldable pub action_matches : Fields → Text → Bool × Bool
unfolding some_glob has get txt
action_matches stmt action =
    if has stmt (txt "Action")
    then (some_glob (get stmt (txt "Action")) action, false)
    else if has stmt (txt "NotAction")
    then (not (some_glob (get stmt (txt "NotAction")) action), true)
    else (true, false)

-- `_resource_matches`
unfoldable pub resource_matches : Fields → Text → Bool × Bool
unfolding some_glob has get txt
resource_matches stmt resource =
    if has stmt (txt "Resource")
    then (some_glob (get stmt (txt "Resource")) resource, false)
    else if has stmt (txt "NotResource")
    then (not (some_glob (get stmt (txt "NotResource")) resource), true)
    else (true, false)

-- `account and v in (account, f"arn:aws:iam::{account}:root")`
unfoldable pub is_account : Option Text → Text → Bool
unfolding ◌===◌ txt
is_account none v = false
is_account (some account) v =
    v === account || v === (txt "arn:aws:iam::" ++ (account ++ txt ":root"))

-- The body of the loop over the values of a principal.
unfoldable pub value_grants : Text → Text → Bool
unfolding is_account account_of glob_match
value_grants principal_arn v =
    v === txt "*"
    || v === principal_arn
    || is_account (account_of principal_arn) v
    || glob_match v principal_arn

-- `_principal_grants`
unfoldable pub principal_grants : Json → Text → Bool
unfolding any as_list get values is_str py_str value_grants txt
principal_grants (str s) arn = if s === txt "*" then true else value_grants arn s
principal_grants (obj d) arn =
    if any (is_str (txt "*")) (values d)
    then true
    else any (λ v. value_grants arn (py_str v)) (as_list (get d (txt "AWS")))
principal_grants _ arn = false

-- `_principal_matches`
unfoldable pub principal_matches : Fields → Text → Bool × Bool
unfolding principal_grants has get txt
principal_matches stmt arn =
    if has stmt (txt "Principal")
    then (principal_grants (get stmt (txt "Principal")) arn, false)
    else if has stmt (txt "NotPrincipal")
    then (not (principal_grants (get stmt (txt "NotPrincipal")) arn), true)
    else (false, false)

abbrev is_condition : Json → Bool
is_condition (obj d) = not (is_empty d)
is_condition _ = false

-- `_has_condition`
unfoldable pub has_condition : Fields → Bool
unfolding get txt is_empty
has_condition stmt = is_condition (get stmt (txt "Condition"))
