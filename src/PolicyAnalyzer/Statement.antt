-- ===== src/PolicyAnalyzer/Statement.antt =====
-- `_flatten_statements`, `_is_public`, `_action_set`, `_is_broad_resource`, and what `analyze` finds in
-- one statement. A text of the report is a constructor that holds the values put into it.
use storageops.Base.{
  ℕ, if◌then◌else◌, Bool, true, false, not, ◌&&◌, ◌||◌, List, [], ◌∷◌, ◌++◌, map, any, member, Text,
  txt, ◌===◌, lower,
}
use storageops.Base.Try.{Try, returns, raises, ◌>>=◌}
use storageops.Json.{
  Json, str, arr, obj, Items, nil, cons, Fields, end, field, list_of, get, get_or, has, py_str,
  truthy, as_dict, items_of,
}

unfoldable pub broad_actions : List Text
unfolding txt
broad_actions =
    txt "*"
    ∷ txt "s3:*"
    ∷ txt "ec2:*"
    ∷ txt "iam:*"
    ∷ txt "lambda:*"
    ∷ txt "dynamodb:*"
    ∷ txt "kms:*"
    ∷ txt "rds:*"
    ∷ txt "sqs:*"
    ∷ txt "sns:*"
    ∷ []

unfoldable pub star : Text
unfolding txt
star = txt "*"

-- `if isinstance(stmts, dict): stmts = [stmts]`
unfoldable pub wrap_dict : Json → Json
wrap_dict (obj d) = arr (cons (obj d) nil)
wrap_dict v = v

unfoldable pub flatten_statements : Fields → Json
unfolding get_or wrap_dict txt
flatten_statements doc = wrap_dict (get_or doc (txt "Statement") (arr nil))

unfoldable mutual
  unfolding ◌===◌ has star

  pub is_public : Json → Bool
  is_public (str s) = s === star
  is_public (arr xs) = some_public xs
  is_public (obj d) = value_public d || has d star
  is_public _ = false

  pub some_public : Items → Bool
  some_public nil = false
  some_public (cons x xs) = is_public x || some_public xs

  pub value_public : Fields → Bool
  value_public end = false
  value_public (field k v d) = is_public v || value_public d

unfoldable pub action_set : Json → List Json
unfolding list_of
action_set (str s) = str s ∷ []
action_set (arr xs) = list_of xs
action_set _ = []

abbrev is_star : Json → Bool
is_star (str s) = s === star
is_star _ = false

unfoldable pub is_broad_resource : Json → Bool
unfolding any list_of
is_broad_resource (str s) = s === star
is_broad_resource (arr xs) = any is_star (list_of xs)
is_broad_resource _ = false

-- `a in BROAD_ACTIONS`, which raises for what has no hash.
unfoldable pub is_broad : Json → Try Bool
unfolding member broad_actions
is_broad (str s) = returns (member s broad_actions)
is_broad (arr xs) = raises
is_broad (obj d) = raises
is_broad _ = returns false

unfoldable pub broad_flags : List Json → Try (List (Json × Bool))
unfolding is_broad
broad_flags [] = returns []
broad_flags (a ∷ as') = do b ← is_broad a; bs ← broad_flags as'; returns ((a, b) ∷ bs)

pub data Category : Type 0 where
  broad_resource_risk condition_keys explicit_denies least_privilege_violations missing_allow
        not_action_risk :
      Category
  not_principal_risk overly_broad_actions public_access_risk : Category

pub data Finding : Type 0 where
  denies : ℕ → Json → List (Json × Bool) → Finding
  no_action public_principal not_principal not_action broad_resource : ℕ → Finding
  broad_action : ℕ → Json → Json → Finding
  condition_key : ℕ → Bool → Text → Text → Json → Finding
  unconditioned : ℕ → Json → Finding

unfoldable pub category : Finding → Category
category (denies i r as') = explicit_denies
category (no_action i) = missing_allow
category (public_principal i) = public_access_risk
category (not_principal i) = not_principal_risk
category (not_action i) = not_action_risk
category (broad_resource i) = broad_resource_risk
category (broad_action i a r) = overly_broad_actions
category (condition_key i d o k a) = condition_keys
category (unconditioned i r) = least_privilege_violations

-- The findings after which the source counts an issue.
unfoldable pub is_issue : Finding → Bool
is_issue (no_action i) = true
is_issue (public_principal i) = true
is_issue (not_principal i) = true
is_issue (not_action i) = true
is_issue (broad_resource i) = true
is_issue (broad_action i a r) = true
is_issue _ = false

abbrev pub when : Bool → Finding → List Finding
when b f = if b then f ∷ [] else []

-- The keys of the mappings of a condition.
unfoldable pub condition_findings : ℕ → Bool → Json → List (Text × Json) → List Finding
unfolding items_of
condition_findings i deny action [] = []
condition_findings i deny action ((op, obj m) ∷ more) =
    map (λ (k, v). condition_key i deny op k action) (items_of m)
    ++ condition_findings i deny action more
condition_findings i deny action ((op, v) ∷ more) = condition_findings i deny action more

unfoldable pub effect_of : Fields → Text
unfolding lower py_str get_or txt
effect_of stmt = lower (py_str (get_or stmt (txt "Effect") (str [])))

unfoldable pub allows : Fields → Bool
unfolding effect_of ◌===◌ txt
allows stmt = effect_of stmt === txt "allow"

unfoldable pub forbids : Fields → Bool
unfolding effect_of ◌===◌ txt
forbids stmt = effect_of stmt === txt "deny"

unfoldable pub action_of : Fields → Json
unfolding get_or txt
action_of stmt = get_or stmt (txt "Action") (arr nil)

unfoldable pub resource_of : Fields → Json
unfolding get_or txt
resource_of stmt = get_or stmt (txt "Resource") (str (txt "*"))

unfoldable pub principal_of : Fields → Json
unfolding get_or txt
principal_of stmt = get_or stmt (txt "Principal") (str [])

unfoldable pub field_of : Fields → Text → Json
unfolding get
field_of stmt name = get stmt name

abbrev pub is_flagged : Json × Bool → Bool
is_flagged (a, b) = b

unfoldable pub broad_findings : ℕ → Json → List (Json × Bool) → List Finding
broad_findings i resource [] = []
broad_findings i resource ((a, b) ∷ more) =
    when b (broad_action i a resource) ++ broad_findings i resource more

-- The findings of an Allow, the flags and the items of the condition given.
unfoldable pub allow_findings : ℕ → Fields → List (Json × Bool) → List (Text × Json) → List Finding
unfolding txt
allow_findings i stmt flags condition =
    when (not (truthy (action_of stmt))) (no_action i)
    ++ (when (is_public (principal_of stmt)) (public_principal i)
        ++ (when (truthy (field_of stmt (txt "NotPrincipal"))) (not_principal i)
            ++ (when (truthy (field_of stmt (txt "NotAction"))) (not_action i)
                ++ (when (is_broad_resource (resource_of stmt)) (broad_resource i)
                    ++ (broad_findings i (resource_of stmt) flags
                        ++ (condition_findings i false (action_of stmt) condition
                            ++ when
                                (not (truthy (field_of stmt (txt "Condition")))
                                  && any is_flagged flags)
                                (unconditioned i (resource_of stmt))))))))

-- `condition.items()`, where the condition is not empty.
unfoldable pub condition_items : Fields → Try (List (Text × Json))
unfolding txt items_of
condition_items stmt =
    let condition = field_of stmt (txt "Condition") in
    let items = as_dict condition >>= λ d. returns (items_of d) in
    if truthy condition then items else returns []

-- What is found in statement number `i`.
unfoldable pub check : ℕ → Fields → Try (List Finding)
check i stmt =
    let found = (do
      flags ← broad_flags (action_set (action_of stmt))
      items ← condition_items stmt
      returns (
          if allows stmt
          then allow_findings i stmt flags items
          else denies i (resource_of stmt) flags
            ∷ condition_findings i true (action_of stmt) items)) in
    if allows stmt || forbids stmt then found else returns []
