-- ===== src/Tests/NotificationTargetRuns.antt =====
-- notification_target_policy_validator.py on concrete policies.
use storageops.Base.{
  ◌≡◌, refl, Bool, true, false, Option, none, some, [], ◌∷◌, ◌++◌, Text, txt, any, lower, strip,
  keep,
}
use storageops.Json.{str, arr, obj, Items, nil, cons, Fields, end, field}
use storageops.NotificationTarget.Statement.{
  sqs, statements, is_allow, detect_target_type, target_of, principal_is_s3, action_present,
  source_arn_values, arc_matches,
}
use storageops.NotificationTarget.Validate.{
  validate, choose_target, check_policy, suggested, given, missing_of, s3_statements,
  action_statements, arn_mismatch, is_conditioned, arn_allowed, is_empty_list,
}
use storageops.NotificationTarget.Validate.Delivery.{
  delivers, validate-delivers, validate_ignores_deny, validate-suggested,
}

abbrev policy_of : Items → Fields
policy_of stmts = field (txt "Statement") (arr stmts) end

abbrev bucket : Text
bucket = txt "arn:aws:s3:::uploads"

-- Everybody may send, from another bucket.
abbrev other_bucket : Fields
other_bucket = field (txt "Principal") (str (txt "*")) (
    field (txt "Action") (str (txt "sqs:*")) (
      field (txt "Condition")
        (obj (
          field (txt "ArnLike")
            (obj (field (txt "aws:SourceArn") (str (txt "arn:aws:s3:::logs*")) end)) end))
        end))

abbrev deny_all : Fields
deny_all =
    field (txt "Effect") (str (txt "Deny"))
      (field (txt "Principal") (str (txt "*")) (field (txt "Action") (str (txt "*")) end))

policy_ok : Fields → Option Text → Bool
unfolding validate check_policy missing_of s3_statements action_statements arn_mismatch
    is_conditioned arn_allowed is_empty_list choose_target given detect_target_type target_of
    statements is_allow principal_is_s3 action_present source_arn_values arc_matches any keep lower
    strip
policy_ok policy bucket_arn = (validate policy none bucket_arn).policy_ok

other_bucket_runs : policy_ok (policy_of (cons (obj other_bucket) nil)) (some bucket) ≡ false
unfolding policy_ok txt storageops.NotificationTarget.Statement.required_action
other_bucket_runs = refl

logs_bucket_runs :
    policy_ok (policy_of (cons (obj other_bucket) nil)) (some (txt "arn:aws:s3:::logs-eu")) ≡ true
unfolding policy_ok txt storageops.NotificationTarget.Statement.required_action
logs_bucket_runs = refl

-- The target is found from the action `sqs:*`.
detected : choose_target none (policy_of (cons (obj other_bucket) nil)) ≡ some sqs
unfolding policy_ok txt
detected = refl

detected_with_deny :
    choose_target none (policy_of (cons (obj deny_all) (cons (obj other_bucket) nil))) ≡ some sqs
unfolding policy_ok txt
detected_with_deny = refl

validate-delivers_example :
    (validate (policy_of (cons (obj other_bucket) nil)) none (some bucket)).policy_ok
    ≡ any
        (delivers sqs (given (some bucket)))
        (statements (policy_of (cons (obj other_bucket) nil)))
validate-delivers_example =
    validate-delivers (policy_of (cons (obj other_bucket) nil)) none (some bucket) sqs detected

deny_is_no_allow : is_allow deny_all ≡ false
unfolding is_allow txt storageops.Base.◌===◌
deny_is_no_allow = refl

deny_first :
    statements (policy_of (cons (obj deny_all) (cons (obj other_bucket) nil)))
    ≡ deny_all ∷ statements (policy_of (cons (obj other_bucket) nil))
unfolding statements txt storageops.Base.◌===◌
deny_first = refl

validate_ignores_deny_example :
    (validate
      (policy_of (cons (obj deny_all) (cons (obj other_bucket) nil)))
      none
      (some bucket)).policy_ok
    ≡ (validate (policy_of (cons (obj other_bucket) nil)) none (some bucket)).policy_ok
validate_ignores_deny_example =
    validate_ignores_deny (policy_of (cons (obj other_bucket) nil))
      (policy_of (cons (obj deny_all) (cons (obj other_bucket) nil))) none (some bucket) sqs
      deny_all detected detected_with_deny deny_is_no_allow deny_first

abbrev repaired : Fields
repaired = policy_of (cons (obj other_bucket) (cons (obj (suggested sqs (some bucket))) nil))

detected_repaired : choose_target none repaired ≡ some sqs
unfolding policy_ok suggested txt
detected_repaired = refl

suggested_last :
    statements repaired
    ≡ statements (policy_of (cons (obj other_bucket) nil)) ++ (suggested sqs (some bucket) ∷ [])
unfolding statements txt storageops.Base.◌===◌
suggested_last = refl

validate-suggested_example : (validate repaired none (some bucket)).policy_ok ≡ true
validate-suggested_example =
    validate-suggested (policy_of (cons (obj other_bucket) nil)) repaired none (some bucket) sqs
      detected_repaired suggested_last
