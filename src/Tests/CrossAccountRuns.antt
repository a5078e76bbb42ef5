-- ===== src/Tests/CrossAccountRuns.antt =====
-- cross_account_access_validator.py on concrete policies.
use Prim.Native.String.{String}
use mathlib.Core.Option.{some-injective}
use mathlib.Core.List.Perm
use storageops.Base.{
  ◌≡◌, refl, ap, ◌≢◌, ◌↔◌, ◌⊎◌, Bool, true, false, none, some, List, [], ◌∷◌, Text, txt, any, all,
  ◌===◌,
}
use storageops.Json.{null, str, arr, obj, nil, cons, Fields, end, field, has, get}
use storageops.CrossAccount.Glob.{glob_match}
use storageops.CrossAccount.Glob.Pieces.{IsLineOf, glob_match_iff}
use storageops.CrossAccount.Statement.{
  statements, account_of, action_matches, resource_matches, principal_matches, has_condition,
}
use storageops.CrossAccount.Link.{
  Result, explicit_deny, allow, implicit_deny, evaluate_link, evaluate_loop, applicability,
  record_allow, conclude, effect_is, sid_of, is_none,
}
use storageops.CrossAccount.Link.Laws.{
  evaluate_link_lem, evaluate_link-null_sid, evaluate_link-perm, null_sid, verdict, denies, allows,
}
use storageops.CrossAccount.Chain.{
  Request, validate, Report, denied_chain, identity_policy, resource_policy, resolve_deny,
  add_iam_allow,
}
use storageops.CrossAccount.Chain.Laws.{
  Grants, GrantsIfGiven, identity_answer, bucket_answer, key_answer,
}
use storageops.CrossAccount.Chain.Reports.{
  validate_allows, Refuses, validate_denies, validate_never_resolves, validate_denied_identity,
  validate_denied_bucket,
}

abbrev statement : String → String → Fields → Fields
statement effect action more =
    field (txt "Effect") (str (txt effect))
      (field (txt "Action") (str (txt action)) (field (txt "Resource") (str (txt "*")) more))

abbrev policy_of : Fields → Fields
policy_of stmt = field (txt "Statement") (arr (cons (obj stmt) nil)) end

abbrev caller : Text
caller = txt "arn:aws:iam::111111111111:user/alice"

abbrev root_principal : Fields
root_principal =
    field (txt "Principal")
      (obj (field (txt "AWS") (str (txt "arn:aws:iam::111111111111:root")) end)) end

-- The caller's policy denies explicitly, the bucket policy allows.
abbrev denied_request : Request
denied_request = record {
  principal_arn = caller;
  action = txt "s3:GetObject";
  resource = txt "arn:aws:s3:::shared-data/report.csv";
  identity = some (policy_of (statement "Deny" "s3:*" end));
  bucket = some (policy_of (statement "Allow" "s3:Get*" root_principal));
  kms_key = none;
  resource_account = some (txt "222222222222");
}

abbrev denied_bucket : Request
denied_bucket = record denied_request {
  identity = some (policy_of (statement "Allow" "s3:PutObject" end));
  bucket = some (policy_of (statement "Deny" "s3:Get*" root_principal));
}

run_link : Text → Text → Text → Bool → List Fields → Result
unfolding evaluate_link evaluate_loop applicability record_allow conclude effect_is sid_of is_none
    has_condition action_matches resource_matches principal_matches
run_link action resource arn m stmts = (evaluate_link action resource arn m stmts).result

glob_match_iff_example :
    (glob_match (txt "s3:Get*") (txt "s3:GetObject") ≡ true)
    ↔ ((txt "s3:Get*" ≡ txt "*") ⊎ IsLineOf (txt "s3:Get*") (txt "s3:GetObject"))
glob_match_iff_example = glob_match_iff (txt "s3:Get*") (txt "s3:GetObject")

account_of-caller : account_of caller ≡ some (txt "111111111111")
unfolding account_of txt
account_of-caller = refl

denied_identity_runs :
    identity_answer denied_request (policy_of (statement "Deny" "s3:*" end)) ≡ explicit_deny
unfolding identity_answer run_link statements txt
denied_identity_runs = refl

allowed_bucket_runs :
    bucket_answer denied_request (policy_of (statement "Allow" "s3:Get*" root_principal)) ≡ allow
unfolding bucket_answer run_link statements txt
allowed_bucket_runs = refl

validate_denied_identity_example :
    (rep : Report) × (validate denied_request ≡ some rep)
    × (rep.blocked_at ≡ some identity_policy)
    × (rep.recommendation
        ≡ add_iam_allow (txt "s3:GetObject") (txt "arn:aws:s3:::shared-data/report.csv") caller)
validate_denied_identity_example =
    validate_denied_identity denied_request (policy_of (statement "Deny" "s3:*" end)) refl
      denied_identity_runs

denied_bucket_runs :
    bucket_answer denied_bucket (policy_of (statement "Deny" "s3:Get*" root_principal))
    ≡ explicit_deny
unfolding bucket_answer run_link statements txt
denied_bucket_runs = refl

allowed_put_runs :
    identity_answer denied_bucket (policy_of (statement "Allow" "s3:PutObject" end)) ≡ implicit_deny
unfolding identity_answer run_link statements txt
allowed_put_runs = refl

put_is_no_deny :
    (q : Fields) → denied_bucket.identity ≡ some q → identity_answer denied_bucket q ≢ explicit_deny
put_is_no_deny q e d =
    cc (ap (identity_answer denied_bucket) (some-injective _ q e), allowed_put_runs)

validate_denied_bucket_example :
    (rep : Report) × (validate denied_bucket ≡ some rep) × (rep.blocked_at ≡ some resource_policy)
validate_denied_bucket_example =
    validate_denied_bucket denied_bucket (policy_of (statement "Deny" "s3:Get*" root_principal))
      refl denied_bucket_runs put_is_no_deny

validate_allows_example :
    (rep : Report) × (validate denied_request ≡ some rep)
    × ((rep.ok ≡ true) ↔ (
        Grants denied_request.identity (identity_answer denied_request)
        × Grants denied_request.bucket (bucket_answer denied_request)
        × GrantsIfGiven denied_request.kms_key (key_answer denied_request)))
validate_allows_example = validate_allows denied_request

validate_denies_example :
    (rep : Report) × (validate denied_request ≡ some rep)
    × ((rep.decision ≡ denied_chain) ↔ (
        Refuses denied_request.identity (identity_answer denied_request)
        ⊎ Refuses denied_request.bucket (bucket_answer denied_request)
        ⊎ Refuses denied_request.kms_key (key_answer denied_request)))
validate_denies_example = validate_denies denied_request

-- The report of a blocked request, with its advice.
denied_report : (rep : Report) × (validate denied_request ≡ some rep)
denied_report = let (rep, e, _, _) = validate_denied_identity_example in (rep, e)

validate_never_resolves_example : denied_report.0.recommendation ≢ resolve_deny identity_policy
validate_never_resolves_example =
    validate_never_resolves denied_request {rep = denied_report.0} identity_policy denied_report.1

abbrev two_statements : List Fields
two_statements = statement "Allow" "s3:*" end ∷ statement "Deny" "s3:DeleteObject" end ∷ []

evaluate_link_lem_example :
    (evaluate_link (txt "s3:DeleteObject") (txt "*") [] false two_statements).result
    ≡ verdict
        (txt "s3:DeleteObject")
        (txt "*")
        []
        false
        (any (denies (txt "s3:DeleteObject") (txt "*") [] false) two_statements)
        (any (allows (txt "s3:DeleteObject") (txt "*") [] false) two_statements)
evaluate_link_lem_example =
    evaluate_link_lem (txt "s3:DeleteObject") (txt "*") [] false two_statements

evaluate_link-perm_example :
    (evaluate_link
      (txt "s3:DeleteObject")
      (txt "*")
      []
      false
      (statement "Allow" "s3:*" end ∷ statement "Deny" "s3:DeleteObject" end ∷ [])).result
    ≡ (evaluate_link
        (txt "s3:DeleteObject")
        (txt "*")
        []
        false
        (statement "Deny" "s3:DeleteObject" end ∷ statement "Allow" "s3:*" end ∷ [])).result
evaluate_link-perm_example =
    evaluate_link-perm (txt "s3:DeleteObject") (txt "*") [] false
      (statement "Allow" "s3:*" end ∷ statement "Deny" "s3:DeleteObject" end ∷ [])
      (statement "Deny" "s3:DeleteObject" end ∷ statement "Allow" "s3:*" end ∷ []) (Perm.swap _ _ _)

deny_wins : run_link (txt "s3:DeleteObject") (txt "*") [] false two_statements ≡ explicit_deny
unfolding run_link txt
deny_wins = refl

-- A statement that allows, with a Sid that is null, is passed over.
null_sid_runs :
    run_link
      (txt "s3:GetObject")
      (txt "*")
      []
      false
      (statement "Allow" "s3:*" (field (txt "Sid") null end) ∷ [])
    ≡ implicit_deny
unfolding run_link txt
null_sid_runs = refl

abbrev null_sid_statements : List Fields
null_sid_statements = statement "Allow" "s3:*" (field (txt "Sid") null end) ∷ []

null_sids : all null_sid null_sid_statements ≡ true
unfolding all null_sid is_none has get txt ◌===◌
null_sids = refl

evaluate_link-null_sid_example :
    (evaluate_link (txt "s3:GetObject") (txt "*") [] false null_sid_statements).result ≢ allow
evaluate_link-null_sid_example =
    evaluate_link-null_sid (txt "s3:GetObject") (txt "*") [] false null_sid_statements null_sids
