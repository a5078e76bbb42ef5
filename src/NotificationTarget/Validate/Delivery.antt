-- ===== src/NotificationTarget/Validate/Delivery.antt =====
-- When a target policy is reported to permit delivery, and that the suggested statement repairs it.
use storageops.Base.{
  ℕ, ◌≡◌, refl, sym, ◌∙◌, ap, inl, inr, Bool, true, false, not, ◌&&◌, ◌||◌, Option, none, some,
  List, [], ◌∷◌, ◌++◌, Text, any, keep, any-append, any-keep, any-ext, arith, Bool-cases, ===_refl,
}
use storageops.Json.{Fields}
use storageops.NotificationTarget.Statement.{
  Target, lambda, sqs, sns, required_action, statements, principal_is_s3, action_present,
  source_arn_values, arc_matches, is_allow,
}
use storageops.NotificationTarget.Validate.{
  is_empty_list, given, suggested, s3_statements, action_statements, is_conditioned, arn_allowed,
  arn_mismatch, missing_of, check_policy, choose_target, validate,
}

-- The bucket may be the source of what a statement permits.
unfoldable pub admits_source : Option Text → Fields → Bool
admits_source none s = true
admits_source (some arn) s = not (is_conditioned s) || arn_allowed arn s

-- One statement lets S3 deliver from the bucket.
unfoldable pub delivers : Target → Option Text → Fields → Bool
delivers t arn s =
    is_allow s && principal_is_s3 s && action_present s (required_action t) && admits_source arn s

is_empty_keep {ℓ} :
    {A : Type ℓ} (p : A → Bool) (xs : List A) → is_empty_list (keep p xs) ≡ not (any p xs)
unfolding keep any is_empty_list
is_empty_keep p [] = refl
is_empty_keep p (x ∷ xs) = ground (arith, is_empty_keep p xs)

any_conditioned :
    (arn : Text) (xs : List Fields)
    → (any (arn_allowed arn) (keep is_conditioned xs) || any (λ s. not (is_conditioned s)) xs)
      ≡ any (admits_source (some arn)) xs
unfolding keep any admits_source
any_conditioned arn [] = refl
any_conditioned arn (x ∷ xs) = ground (arith, any_conditioned arn xs)

arn_mismatch_lem :
    (arn : Text) (xs : List Fields)
    → is_empty_list xs ≡ false
    → arn_mismatch (some arn) xs ≡ not (any (admits_source (some arn)) xs)
unfolding arn_mismatch is_empty_list any admits_source
arn_mismatch_lem arn [] h = cc
arn_mismatch_lem arn (x ∷ xs) h =
    ground (arith, is_empty_keep is_conditioned (x ∷ xs), any_conditioned arn (x ∷ xs))

any_of_empty : (p : Fields → Bool) (xs : List Fields) → any p xs ≡ true → is_empty_list xs ≡ false
unfolding any is_empty_list
any_of_empty p [] h = cc
any_of_empty p (x ∷ xs) h = refl

-- The two filters together.
action_statements_lem :
    (t : Target) (p : Fields → Bool) (stmts : List Fields)
    → any p (action_statements t stmts)
      ≡ any
          (λ s. is_allow s && principal_is_s3 s && action_present s (required_action t) && p s)
          stmts
unfolding action_statements s3_statements
action_statements_lem t p stmts =
    any-keep p _ _ ∙ (any-keep _ _ stmts ∙ any-ext _ _ stmts (λ s. ground arith))

any_empty : (p : Fields → Bool) (xs : List Fields) → is_empty_list xs ≡ true → any p xs ≡ false
unfolding any is_empty_list
any_empty p [] h = refl
any_empty p (x ∷ xs) h = cc

any_admits_none : (xs : List Fields) → is_empty_list xs ≡ false → any (admits_source none) xs ≡ true
unfolding any is_empty_list admits_source
any_admits_none [] h = cc
any_admits_none (x ∷ xs) h = refl

-- Where some statement grants the action, some statement is for S3.
s3_of_action :
    (t : Target) (stmts : List Fields)
    → is_empty_list (action_statements t stmts) ≡ false
    → is_empty_list (s3_statements stmts) ≡ false
unfolding action_statements
s3_of_action t stmts h =
    any_of_empty (λ s. action_present s (required_action t)) (s3_statements stmts)
      (ground (
        arith,
        is_empty_keep (λ (s : Fields). action_present s (required_action t)) (s3_statements stmts),
      ))

missing_of_nonempty :
    (t : Target) (arn : Option Text) (stmts : List Fields)
    → is_empty_list (action_statements t stmts) ≡ false
    → is_empty_list (missing_of t arn stmts) ≡ any (admits_source arn) (action_statements t stmts)
unfolding missing_of is_empty_list
missing_of_nonempty t none stmts h =
    ground (arith, s3_of_action t stmts h, any_admits_none (action_statements t stmts) h)
missing_of_nonempty t (some arn) stmts h =
    ground (arith, s3_of_action t stmts h, arn_mismatch_lem arn (action_statements t stmts) h)

missing_of_empty :
    (t : Target) (arn : Option Text) (stmts : List Fields)
    → is_empty_list (action_statements t stmts) ≡ true
    → is_empty_list (missing_of t arn stmts) ≡ false
unfolding missing_of is_empty_list
missing_of_empty t arn stmts h = ground arith

missing_of_lem :
    (t : Target) (arn : Option Text) (stmts : List Fields)
    → is_empty_list (missing_of t arn stmts) ≡ any (delivers t arn) stmts
unfolding delivers
missing_of_lem t arn stmts = elim (Bool-cases (is_empty_list (action_statements t stmts))) [
  | inl e ↦
      missing_of_empty t arn stmts e
      ∙ (sym (any_empty (admits_source arn) _ e)
          ∙ action_statements_lem t (admits_source arn) stmts)
  | inr e ↦ missing_of_nonempty t arn stmts e ∙ action_statements_lem t (admits_source arn) stmts
]

-- The policy is reported to permit delivery exactly when one of its statements alone allows, names
-- S3 or everybody, grants the target's action, and has no source condition or one that the bucket
-- meets. A bucket that is not given or empty meets every condition.
pub validate-delivers :
    (policy : Fields) (asked bucket_arn : Option Text) (t : Target)
    → choose_target asked policy ≡ some t
    → (validate policy asked bucket_arn).policy_ok
      ≡ any (delivers t (given bucket_arn)) (statements policy)
unfolding validate check_policy
validate-delivers policy asked bucket_arn t h =
    ground (arith, missing_of_lem t (given bucket_arn) (statements policy))

-- A statement whose effect is not Allow changes nothing, also one that denies S3 the action.
pub validate_ignores_deny :
    (policy more : Fields) (asked bucket_arn : Option Text) (t : Target) (deny : Fields)
    → choose_target asked policy ≡ some t
    → choose_target asked more ≡ some t
    → is_allow deny ≡ false
    → statements more ≡ deny ∷ statements policy
    → (validate more asked bucket_arn).policy_ok ≡ (validate policy asked bucket_arn).policy_ok
unfolding any delivers
validate_ignores_deny policy more asked bucket_arn t deny h k d e =
    validate-delivers more asked bucket_arn t k
    ∙ (ap (any (delivers t (given bucket_arn))) e
        ∙ (ground arith ∙ sym (validate-delivers policy asked bucket_arn t h)))

suggested_grants :
    (t : Target) (arn : Option Text)
    → (is_allow (suggested t arn)
        && principal_is_s3 (suggested t arn)
        && action_present (suggested t arn) (required_action t))
      ≡ true
unfolding is_allow principal_is_s3 action_present suggested
suggested_grants lambda arn = refl
suggested_grants sqs arn = refl
suggested_grants sns arn = refl

suggested_arns :
    (t : Target) (c : ℕ) (s : Text) → source_arn_values (suggested t (some (c ∷ s))) ≡ (c ∷ s) ∷ []
unfolding source_arn_values suggested
suggested_arns lambda c s = refl
suggested_arns sqs c s = refl
suggested_arns sns c s = refl

arc_matches_refl : (arn : Text) → arc_matches arn arn ≡ true
unfolding arc_matches
arc_matches_refl arn = rw (===_refl arn)

suggested_admits :
    (t : Target) (arn : Option Text) → admits_source (given arn) (suggested t arn) ≡ true
unfolding admits_source given is_conditioned arn_allowed is_empty_list any
suggested_admits t none = refl
suggested_admits t (some []) = refl
suggested_admits t (some (c ∷ s)) = ground (
  arith,
  suggested_arns t c s,
  arc_matches_refl (c ∷ s),
  ap (any (λ v. arc_matches v (c ∷ s))) (suggested_arns t c s),
)

-- Adding the suggested statement to a policy repairs it: the policy that has it behind its other
-- statements is reported to permit delivery, for every target, with or without a bucket.
pub validate-suggested :
    (policy repaired : Fields) (asked bucket_arn : Option Text) (t : Target)
    → choose_target asked repaired ≡ some t
    → statements repaired ≡ statements policy ++ (suggested t bucket_arn ∷ [])
    → (validate repaired asked bucket_arn).policy_ok ≡ true
unfolding any delivers
validate-suggested policy repaired asked bucket_arn t h e =
    validate-delivers repaired asked bucket_arn t h
    ∙ (ap (any (delivers t (given bucket_arn))) e
        ∙ (any-append (delivers t (given bucket_arn)) (statements policy)
              (suggested t bucket_arn ∷ [])
            ∙ ground (arith, suggested_grants t bucket_arn, suggested_admits t bucket_arn)))
