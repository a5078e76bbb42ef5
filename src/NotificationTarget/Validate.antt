-- ===== src/NotificationTarget/Validate.antt =====
-- `_suggested_statement` and `validate` of notification_target_policy_validator.py. A message is a
-- constructor that holds the values which the source puts into its text.
pub mod Delivery
use storageops.Base.{
  ℕ, ◌==◌, if◌then◌else◌, Bool, true, false, not, ◌&&◌, ◌||◌, Option, none, some, List, [], ◌∷◌,
  ◌++◌, Text, txt, any, keep, lower, strip,
}
use storageops.Json.{Json, str, obj, Fields, end, field}
use storageops.NotificationTarget.Statement.{
  Target, lambda, sqs, sns, s3_service, required_action, target_of, statements,
  principal_is_wildcard, principal_is_s3, action_present, source_arn_values, arc_matches, is_allow,
  detect_target_type,
}

pub data Missing : Type 0 where
  target_type : Missing
  s3_principal : Missing
  s3_action : Text → Missing
  source_arn : Text → Missing

pub data Summary : Type 0 where
  unknown_target : Summary
  permits : Text → Option Text → Summary
  arn_differs : Text → Text → Summary
  does_not_permit : List Missing → Target → Summary

pub data Recommendation : Type 0 where
  pass_target_type : Recommendation
  look_at_rule : Bool → Recommendation
  update_arn : Text → Text → Recommendation
  add_statement : Text → Option Text → Recommendation

pub record Report : Type 0 where
  pub ok : Bool
  pub target : Option Target
  pub policy_ok : Bool
  pub missing : List Missing
  pub summary : Summary
  pub recommendation : Recommendation
  pub suggested_statement : Fields

unfoldable pub is_empty_list {ℓ} : {A : Type ℓ} → List A → Bool
is_empty_list [] = true
is_empty_list (x ∷ xs) = false

-- An argument that is empty counts as none.
unfoldable pub given : Option Text → Option Text
given none = none
given (some []) = none
given (some (c ∷ s)) = some (c ∷ s)

unfoldable pub arn_condition : Option Text → Fields
unfolding txt
arn_condition none = end
arn_condition (some arn) =
    field (txt "Condition")
      (obj (field (txt "ArnLike") (obj (field (txt "aws:SourceArn") (str arn) end)) end)) end

unfoldable pub sid_and_resource : Target → Fields → Fields
unfolding txt
sid_and_resource lambda rest = field (txt "Sid") (str (txt "AllowS3Invoke")) rest
sid_and_resource _ rest =
    field (txt "Sid") (str (txt "AllowS3Delivery"))
      (field (txt "Resource") (str (txt "<target-arn>")) rest)

-- `_suggested_statement`
unfoldable pub suggested : Target → Option Text → Fields
unfolding given arn_condition sid_and_resource required_action s3_service txt
suggested t bucket_arn = field (txt "Effect") (str (txt "Allow")) (
    field (txt "Principal") (obj (field (txt "Service") (str s3_service) end)) (
      field (txt "Action") (str (required_action t))
        (sid_and_resource t (arn_condition (given bucket_arn)))))

-- `s3_stmts` and `action_stmts`
unfoldable pub s3_statements : List Fields → List Fields
s3_statements stmts = keep (λ s. is_allow s && principal_is_s3 s) stmts

unfoldable pub action_statements : Target → List Fields → List Fields
action_statements t stmts = keep (λ s. action_present s (required_action t)) (s3_statements stmts)

unfoldable pub is_conditioned : Fields → Bool
is_conditioned s = not (is_empty_list (source_arn_values s))

unfoldable pub arn_allowed : Text → Fields → Bool
arn_allowed arn s = any (λ v. arc_matches v arn) (source_arn_values s)

-- `sourcearn_mismatch`, of the statements that grant the action.
unfoldable pub arn_mismatch : Option Text → List Fields → Bool
arn_mismatch none stmts = false
arn_mismatch (some arn) stmts =
    let conditioned = keep is_conditioned stmts in
    if is_empty_list stmts
    then false
    else if is_empty_list conditioned
    then false
    else not (any (arn_allowed arn) conditioned) && not (any (λ s. not (is_conditioned s)) stmts)

abbrev missing_if : Bool → Missing → List Missing
missing_if b m = if b then m ∷ [] else []

abbrev arn_missing : Bool → Option Text → List Missing
arn_missing b none = []
arn_missing b (some arn) = missing_if b (source_arn arn)

unfoldable pub missing_of : Target → Option Text → List Fields → List Missing
missing_of t arn stmts =
    let action_stmts = action_statements t stmts in
    missing_if (is_empty_list (s3_statements stmts)) s3_principal
    ++ (missing_if (is_empty_list action_stmts) (s3_action (required_action t))
        ++ arn_missing (arn_mismatch arn action_stmts) arn)

abbrev arn_summary : Text → Option Text → Summary × Recommendation
arn_summary action none = (arn_differs action [], update_arn action [])
arn_summary action (some arn) = (arn_differs action arn, update_arn action arn)

-- The report for a target that is known.
unfoldable pub check_policy : Target → Option Text → List Fields → Report
check_policy t arn stmts =
    let action = required_action t in
    let action_stmts = action_statements t stmts in
    let missing = missing_of t arn stmts in
    let policy_ok = is_empty_list missing in
    let overbroad = policy_ok && any principal_is_wildcard action_stmts in
    let (summary, recommendation) =
      if policy_ok
      then (permits action arn, look_at_rule overbroad)
      else if arn_mismatch arn action_stmts
      then arn_summary action arn
      else (does_not_permit missing t, add_statement action arn) in
    record {
      ok = true;
      target = some t;
      policy_ok = policy_ok;
      missing = missing;
      summary = summary;
      recommendation = recommendation;
      suggested_statement = if policy_ok then end else suggested t arn;
    }

abbrev unknown_report : Report
unknown_report = record {
  ok = false;
  target = none;
  policy_ok = false;
  missing = target_type ∷ [];
  summary = unknown_target;
  recommendation = pass_target_type;
  suggested_statement = end;
}

abbrev named_target : Option Text → Option Target
named_target none = none
named_target (some name) = target_of (lower (strip name))

-- The target that is asked for, or else the one that the actions show.
unfoldable pub choose_target : Option Text → Fields → Option Target
choose_target asked policy = elim (named_target asked) [
  | some t ↦ some t
  | none ↦ detect_target_type policy
]

unfoldable pub validate : Fields → Option Text → Option Text → Report
validate policy asked bucket_arn = elim (choose_target asked policy) [
  | none ↦ unknown_report
  | some t ↦ check_policy t (given bucket_arn) (statements policy)
]
