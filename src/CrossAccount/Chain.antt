-- ===== src/CrossAccount/Chain.antt =====
-- `_kms_action_for` and `validate`: the links of the chain, the decision and the report. A message
-- is a constructor that holds the values which the source puts into its text.
pub mod Laws
pub mod Reports
use storageops.Base.{
  if◌then◌else◌, Bool, true, false, not, ◌&&◌, ◌||◌, Option, none, some, List, [], ◌∷◌, ◌++◌, map,
  Text, txt, ◌===◌, lower, member, any, keep,
}
use storageops.Json.{Json, null, Fields}
use storageops.CrossAccount.Statement.{statements, account_of}
use storageops.CrossAccount.Link.{
  Result, explicit_deny, allow, implicit_deny, not_provided, Evaluation, evaluate_link,
}

pub data LinkName : Type 0 where
  identity_policy resource_policy kms_key_policy : LinkName

-- The `reason` of a link: its action, and the statement that decided it.
pub data Reason : Type 0 where
  not_supplied : Reason
  allowed : Text → Json → Reason
  denied : Text → Json → Reason
  not_granted : Text → Reason

pub record Link : Type 0 where
  pub link : LinkName
  pub account : Option Text
  pub result : Result
  pub matched_sid : Json
  pub conditional : Bool
  pub not_clause : Bool
  pub kms_action : Option Text
  pub reason : Reason

pub data Decision : Type 0 where
  allowed_chain denied_chain indeterminate : Decision

pub data Summary : Type 0 where
  satisfied : Bool → Text → Summary
  unconfirmed : Text → List LinkName → Summary
  blocked : Text → LinkName → Reason → Summary

pub data Recommendation : Type 0 where
  look_outside : Recommendation
  supply : List LinkName → Text → Recommendation
  add_iam_allow : Text → Text → Text → Recommendation
  add_bucket_allow : Text → Text → Option Text → Text → Recommendation
  grant_kms : Text → Text → Recommendation
  resolve_deny : LinkName → Recommendation

pub data Question : Type 0 where
  has_conditions has_inverted_elements identity_unknown : Question

pub record Report : Type 0 where
  pub ok : Bool
  pub decision : Decision
  pub cross_account : Bool
  pub principal : Text
  pub action : Text
  pub resource : Text
  pub caller_account : Option Text
  pub resource_account : Option Text
  pub links : List Link
  pub blocked_at : Option LinkName
  pub summary : Summary
  pub recommendation : Recommendation
  pub open_questions : List Question

unfoldable pub kms_action_for : Text → Text
unfolding lower member txt
kms_action_for action =
    let a = lower action in
    if member a (txt "s3:getobject" ∷ txt "s3:headobject" ∷ txt "s3:copyobject" ∷ [])
    then txt "kms:Decrypt"
    else if member a (
        txt "s3:putobject"
        ∷ txt "s3:copyobject"
        ∷ txt "s3:createmultipartupload"
        ∷ txt "s3:uploadpart"
        ∷ [])
    then txt "kms:GenerateDataKey"
    else txt "kms:Decrypt"

unfoldable pub reason_of : Text → Evaluation → Reason
reason_of action ev = elim ev.result [
  | allow ↦ allowed action ev.matched_sid
  | explicit_deny ↦ denied action ev.matched_sid
  | _ ↦ not_granted action
]

-- A link whose policy was not supplied.
unfoldable pub missing_link : LinkName → Option Text → Link
missing_link name account = record {
  link = name;
  account = account;
  result = not_provided;
  matched_sid = null;
  conditional = false;
  not_clause = false;
  kms_action = none;
  reason = not_supplied;
}

unfoldable pub evaluated_link : LinkName → Option Text → Text → Evaluation → Link
evaluated_link name account action ev = record {
  link = name;
  account = account;
  result = ev.result;
  matched_sid = ev.matched_sid;
  conditional = ev.conditional;
  not_clause = ev.not_clause;
  kms_action = none;
  reason = reason_of action ev;
}

-- Link 1, the caller's policy.
unfoldable pub identity_link : Option Fields → Option Text → Text → Text → Link
identity_link none account action resource = missing_link identity_policy account
identity_link (some policy) account action resource =
    evaluated_link identity_policy account action
      (evaluate_link action resource [] false (statements policy))

-- Link 2, the bucket policy.
unfoldable pub bucket_link : Option Fields → Option Text → Text → Text → Text → Link
bucket_link none account action resource arn = missing_link resource_policy account
bucket_link (some policy) account action resource arn =
    evaluated_link resource_policy account action
      (evaluate_link action resource arn true (statements policy))

-- Link 3, only where a key policy is supplied. Its dict has no `not_clause` and no account.
unfoldable pub kms_links : Option Fields → Text → Text → List Link
kms_links none action arn = []
kms_links (some policy) action arn =
    let kms_action = kms_action_for action in
    let ev = evaluate_link kms_action (txt "*") arn true (statements policy) in
    record (evaluated_link kms_key_policy none kms_action ev) {
      not_clause = false;
      kms_action = some kms_action;
    }
    ∷ []

unfoldable pub is_explicit : Result → Bool
is_explicit explicit_deny = true
is_explicit _ = false

unfoldable pub is_implicit : Result → Bool
is_implicit implicit_deny = true
is_implicit _ = false

unfoldable pub is_missing : Result → Bool
is_missing not_provided = true
is_missing _ = false

-- The name of the first link whose result passes the test.
unfoldable pub first_link : (Result → Bool) → List Link → Option LinkName
first_link p [] = none
first_link p (l ∷ ls) = if p l.result then some l.link else first_link p ls

unfoldable pub same_link : LinkName → LinkName → Bool
same_link identity_policy identity_policy = true
same_link resource_policy resource_policy = true
same_link kms_key_policy kms_key_policy = true
same_link _ _ = false

-- `next(l for l in links if l["link"] == blocked_at)`, which raises where there is none.
unfoldable pub next_link : LinkName → List Link → Option Link
next_link n [] = none
next_link n (l ∷ ls) = if same_link l.link n then some l else next_link n ls

unfoldable pub unknown_links : List Link → List LinkName
unknown_links ls = map (λ l. Link.link l) (keep (λ l. is_missing (Link.result l)) ls)

abbrev decision_without_block : List LinkName → Decision
decision_without_block [] = allowed_chain
decision_without_block (n ∷ ns) = indeterminate

-- The two loops over the links, and the test for links that were not provided.
unfoldable pub decide : List Link → Decision × Option LinkName
decide links = elim (first_link is_explicit links) [
  | some n ↦ (denied_chain, some n)
  | none ↦ elim (first_link is_implicit links) [
    | some n ↦ (denied_chain, some n)
    | none ↦ (decision_without_block (unknown_links links), none)
  ]
]

-- `account and account != ""`, as Python reads a text for true.
unfoldable pub is_given : Option Text → Bool
is_given none = false
is_given (some []) = false
is_given (some (c ∷ s)) = true

abbrev differ : Option Text → Option Text → Bool
differ (some a) (some b) = not (a === b)
differ _ _ = true

-- `resource_account or _account_of(resource)`
unfoldable pub owner_of : Option Text → Text → Option Text
owner_of account resource = if is_given account then account else account_of resource

unfoldable pub is_cross_account : Option Text → Option Text → Bool
unfolding ◌===◌
is_cross_account caller owner = is_given caller && is_given owner && differ caller owner

module _ (arn action resource : Text) (caller : Option Text) where
  -- The advice for a chain that is blocked at a link. A branch for each name, and one for any other.
  unfoldable pub advice_for : LinkName → Link → Recommendation
  advice_for n broken =
      if same_link n identity_policy
      then add_iam_allow action resource arn
      else if same_link n resource_policy
      then add_bucket_allow action arn caller resource
      else if same_link n kms_key_policy
      then grant_kms (elim broken.kms_action [ none ↦ txt "the KMS action" | some a ↦ a ]) arn
      else resolve_deny n

  -- Summary and recommendation; none where `next` raises.
  unfoldable pub advise :
      Bool → List Link → Decision → Option LinkName → Option (Summary × Recommendation)
  advise cross links allowed_chain blocked_at = some (satisfied cross action, look_outside)
  advise cross links indeterminate blocked_at =
      let unknown = unknown_links links in some (unconfirmed action unknown, supply unknown action)
  advise cross links denied_chain none = none
  advise cross links denied_chain (some n) = elim (next_link n links) [
    | none ↦ none
    | some broken ↦ some (blocked action n (Link.reason broken), advice_for n broken)
  ]

abbrev question_if : Bool → Question → List Question
question_if b q = if b then q ∷ [] else []

abbrev is_supplied : Option Fields → Bool
is_supplied none = false
is_supplied (some d) = true

unfoldable pub open_questions_of : List Link → Bool → Option Fields → Option Fields → List Question
open_questions_of links cross bucket identity =
    question_if (any (λ l. Link.conditional l) links) has_conditions
    ++ (question_if (any (λ l. Link.not_clause l) links) has_inverted_elements
        ++ question_if (cross && is_supplied bucket && not (is_supplied identity)) identity_unknown)

pub record Request : Type 0 where
  pub principal_arn : Text
  pub action : Text
  pub resource : Text
  pub identity : Option Fields
  pub bucket : Option Fields
  pub kms_key : Option Fields
  pub resource_account : Option Text

-- `links`
unfoldable pub links_of : Request → List Link
links_of r =
    identity_link r.identity (account_of r.principal_arn) r.action r.resource
    ∷ bucket_link r.bucket (owner_of r.resource_account r.resource) r.action r.resource
        r.principal_arn
    ∷ kms_links r.kms_key r.action r.principal_arn

unfoldable pub is_cross_request : Request → Bool
is_cross_request r =
    is_cross_account (account_of r.principal_arn) (owner_of r.resource_account r.resource)

-- The dict that `validate` returns.
unfoldable pub report_of : Request → Summary × Recommendation → Report
report_of r (summary, recommendation) = record {
  ok = elim (decide (links_of r)).0 [ allowed_chain ↦ true | _ ↦ false ];
  decision = (decide (links_of r)).0;
  cross_account = is_cross_request r;
  principal = r.principal_arn;
  action = r.action;
  resource = r.resource;
  caller_account = account_of r.principal_arn;
  resource_account = owner_of r.resource_account r.resource;
  links = links_of r;
  blocked_at = (decide (links_of r)).1;
  summary = summary;
  recommendation = recommendation;
  open_questions = open_questions_of (links_of r) (is_cross_request r) r.bucket r.identity;
}

-- The advice of a request: none where `next` raises.
unfoldable pub advice_of : Request → Option (Summary × Recommendation)
advice_of r =
    advise r.principal_arn r.action r.resource (account_of r.principal_arn) (is_cross_request r)
      (links_of r) (decide (links_of r)).0 (decide (links_of r)).1

-- `validate`; none where it raises.
unfoldable pub validate : Request → Option Report
validate r = elim (advice_of r) [ none ↦ none | some advice ↦ some (report_of r advice) ]
