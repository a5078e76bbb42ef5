-- ===== src/CrossAccount/Chain/Reports.antt =====
-- What the report of `validate` says of the request's policies.
use mathlib.Core.Option.{some-injective}
use storageops.Base.{
  ◌≡◌, refl, sym, ap, ◌∙◌, ◌≢◌, ◌↔◌, ◌⊎◌, inl, inr, Bool, true, false, ◌||◌, Option, none, some,
  List, [], ◌∷◌, Text, txt, arith, Bool-cases, Option-cases,
}
use storageops.Json.{Fields}
use storageops.CrossAccount.Statement.{account_of}
use storageops.CrossAccount.Link.{Result, explicit_deny, allow, implicit_deny, not_provided}
use storageops.CrossAccount.Link.Laws.{evaluate_link-provided}
use storageops.CrossAccount.Chain.{
  LinkName, identity_policy, resource_policy, kms_key_policy, Link, Decision, allowed_chain,
  denied_chain, indeterminate, Summary, blocked, Recommendation, resolve_deny, add_iam_allow,
  Report, kms_action_for, identity_link, bucket_link, kms_links, missing_link, evaluated_link,
  is_explicit, is_implicit, first_link, same_link, next_link, decide, advice_for, advise, Request,
  links_of, validate, is_cross_request, owner_of, reason_of, report_of, advice_of,
}
use storageops.CrossAccount.Chain.Laws.{
  validate_total, decide_allows, Grants, GrantsIfGiven, identity_answer, bucket_answer, key_answer,
}

-- `validate` returns a report for every request. It says `ok` exactly when the caller's policy and
-- the bucket policy are supplied and each allows on its own, and the key policy allows if it is
-- supplied.
pub validate_allows :
    (r : Request)
    → (rep : Report) × (validate r ≡ some rep)
      × ((rep.ok ≡ true) ↔ (
          Grants r.identity (identity_answer r)
          × Grants r.bucket (bucket_answer r)
          × GrantsIfGiven r.kms_key (key_answer r)))
unfolding report_of
validate_allows r =
    let (a, e) = validate_total r in
    let (f, g) = decide_allows r in
    (report_of r a, e, (λ h. f (ground arith), λ h. ground (arith, g h)))

-- The policy is supplied and does not allow.
abbrev pub Refuses : Option Fields → (Fields → Result) → Type 0
Refuses policy answer = (p : Fields) × (policy ≡ some p) × (answer p ≢ allow)

abbrev refuses : Result → Bool
refuses x = is_explicit x || is_implicit x

abbrev some_refuses : List Link → Bool
some_refuses [] = false
some_refuses (l ∷ ls) = refuses (Link.result l) || some_refuses ls

first_link-none :
    (ls : List Link)
    → some_refuses ls ≡ false
    → (first_link is_explicit ls ≡ none) × (first_link is_implicit ls ≡ none)
unfolding first_link
first_link-none [] h = (refl, refl)
first_link-none (l ∷ ls) h = ground (arith, first_link-none ls)

none_refuses :
    (ls : List Link)
    → first_link is_explicit ls ≡ none
    → first_link is_implicit ls ≡ none
    → some_refuses ls ≡ false
unfolding first_link
none_refuses [] e i = refl
none_refuses (l ∷ ls) e i = ground (arith, none_refuses ls)

decide_refused : (ls : List Link) → ((decide ls).0 ≡ denied_chain) ↔ (some_refuses ls ≡ true)
unfolding decide
decide_refused ls = (
  λ h. elim (Bool-cases (some_refuses ls)) [
    | inl e ↦ e
    | inr e ↦ absurd (ground (arith, first_link-none ls e))
  ],
  λ h. ground (arith, none_refuses ls),
)

answer_refuses : (x : Result) → x ≢ not_provided → (refuses x ≡ true) ↔ (x ≢ allow)
unfolding is_explicit is_implicit
answer_refuses explicit_deny p = (λ h. (λ e. cc), λ n. refl)
answer_refuses implicit_deny p = (λ h. (λ e. cc), λ n. refl)
answer_refuses allow p = (λ h. cc, λ n. absurd (n refl))
answer_refuses not_provided p = absurd (p refl)

Refuses-some :
    (p : Fields) (answer : Fields → Result)
    → answer p ≢ not_provided
    → (refuses (answer p) ≡ true) ↔ Refuses (some p) answer
Refuses-some p answer given =
    let (f, g) = answer_refuses (answer p) given in
    (λ h. (p, refl, f h), λ (q, e, n). g (λ a. n (ap answer (sym (some-injective p q e)) ∙ a)))

module _ (r : Request) where
  identity-Refuses :
      (policy : Option Fields)
      → (refuses
            (Link.result (identity_link policy (account_of r.principal_arn) r.action r.resource))
          ≡ true)
        ↔ Refuses policy (identity_answer r)
  unfolding identity_link missing_link evaluated_link identity_answer is_explicit is_implicit
  identity-Refuses none = (λ h. cc, λ (p, e, a). cc)
  identity-Refuses (some p) =
      Refuses-some p (identity_answer r) (evaluate_link-provided r.action r.resource [] false _)

  bucket-Refuses :
      (policy : Option Fields) (owner : Option Text)
      → (refuses (Link.result (bucket_link policy owner r.action r.resource r.principal_arn))
          ≡ true)
        ↔ Refuses policy (bucket_answer r)
  unfolding bucket_link missing_link evaluated_link bucket_answer is_explicit is_implicit
  bucket-Refuses none owner = (λ h. cc, λ (p, e, a). cc)
  bucket-Refuses (some p) owner =
      Refuses-some p (bucket_answer r)
        (evaluate_link-provided r.action r.resource r.principal_arn true _)

  key-Refuses :
      (policy : Option Fields)
      → (some_refuses (kms_links policy r.action r.principal_arn) ≡ true)
        ↔ Refuses policy (key_answer r)
  unfolding kms_links evaluated_link key_answer is_explicit is_implicit
  key-Refuses none = (λ h. cc, λ (p, e, a). cc)
  key-Refuses (some p) =
      let (f, g) =
        Refuses-some p (key_answer r)
          (evaluate_link-provided (kms_action_for r.action) (txt "*") r.principal_arn true _) in
      (λ h. f (ground arith), λ k. ground (arith, g k))

  -- The decision is `deny` exactly when some policy that is supplied does not allow.
  decide_denies : ((decide (links_of r)).0 ≡ denied_chain) ↔ (
      Refuses r.identity (identity_answer r)
      ⊎ Refuses r.bucket (bucket_answer r)
      ⊎ Refuses r.kms_key (key_answer r))
  unfolding links_of
  decide_denies =
      let (a, b) = decide_refused (links_of r) in
      let (i, i') = identity-Refuses r.identity in
      let (k, k') = bucket-Refuses r.bucket (owner_of r.resource_account r.resource) in
      let (m, m') = key-Refuses r.kms_key in
      (
        (λ h.
            elim (Bool-cases (
              refuses (
                Link.result
                  (identity_link r.identity (account_of r.principal_arn) r.action r.resource)))) [
                    | inl x ↦ inl (i x)
                    | inr x ↦
                        elim (Bool-cases (
                          refuses (
                            Link.result (
                              bucket_link r.bucket (owner_of r.resource_account r.resource) r.action
                                r.resource r.principal_arn)))) [
                                  | inl y ↦ inr (inl (k y))
                                  | inr y ↦ let t = a h in inr (inr (m (ground arith)))
                                ]
                  ]),
        λ d. b (elim d [
          | inl x ↦ ground (arith, i' x)
          | inr e ↦ elim e [ inl x ↦ ground (arith, k' x) | inr x ↦ ground (arith, m' x) ]
        ]),
      )

-- The report says `deny` exactly when some policy that is supplied does not allow, by an explicit
-- Deny or by having no statement that allows.
pub validate_denies :
    (r : Request)
    → (rep : Report) × (validate r ≡ some rep)
      × ((rep.decision ≡ denied_chain) ↔ (
          Refuses r.identity (identity_answer r)
          ⊎ Refuses r.bucket (bucket_answer r)
          ⊎ Refuses r.kms_key (key_answer r)))
unfolding report_of
validate_denies r = let (a, e) = validate_total r in (report_of r a, e, decide_denies r)

abbrev AdvisesOther : LinkName → Option (Summary × Recommendation) → Type 0
AdvisesOther n none = Unit
AdvisesOther n (some a) = a.1 ≢ resolve_deny n

module _ (arn action resource : Text) (caller : Option Text) (cross : Bool) (ls : List Link) where
  advice_for_never_resolves :
      (n m : LinkName) (l : Link) → advice_for arn action resource caller m l ≢ resolve_deny n
  unfolding advice_for same_link
  advice_for_never_resolves n identity_policy l = λ e. cc
  advice_for_never_resolves n resource_policy l = λ e. cc
  advice_for_never_resolves n kms_key_policy l = λ e. cc

  advise_never_resolves :
      (n : LinkName) (d : Decision) (b : Option LinkName)
      → AdvisesOther n (advise arn action resource caller cross ls d b)
  unfolding advise
  advise_never_resolves n allowed_chain b = λ e. cc
  advise_never_resolves n indeterminate b = λ e. cc
  advise_never_resolves n denied_chain none = tt
  advise_never_resolves n denied_chain (some m) =
      elim (next_link m ls)
        as (λ o. AdvisesOther n (elim o [
          | none ↦ none
          | some broken ↦ some (
            blocked action m (Link.reason broken),
            advice_for arn action resource caller m broken,
          )
        ])) [ none ↦ tt | some l ↦ advice_for_never_resolves n m l ]

-- The advice to resolve an explicit Deny is never given, whatever the policies hold.
pub validate_never_resolves :
    (r : Request) {rep : Report} (n : LinkName)
    → validate r ≡ some rep
    → rep.recommendation ≢ resolve_deny n
unfolding validate report_of advice_of
validate_never_resolves r n h = ground (
  arith,
  advise_never_resolves r.principal_arn r.action r.resource (account_of r.principal_arn)
      (is_cross_request r) (links_of r) n (decide (links_of r)).0 (decide (links_of r)).1,
)

-- Where the caller's own policy denies explicitly, the advice is to add an Allow to that policy.
pub validate_denied_identity :
    (r : Request) (p : Fields)
    → r.identity ≡ some p
    → identity_answer r p ≡ explicit_deny
    → (rep : Report) × (validate r ≡ some rep)
      × (rep.blocked_at ≡ some identity_policy)
      × (rep.recommendation ≡ add_iam_allow r.action r.resource r.principal_arn)
unfolding validate advice_of report_of decide first_link links_of identity_link evaluated_link
    advise advice_for next_link same_link identity_answer is_explicit reason_of
validate_denied_identity r p e d = (
  report_of r (
    blocked r.action identity_policy
        (Link.reason (identity_link r.identity (account_of r.principal_arn) r.action r.resource)),
    add_iam_allow r.action r.resource r.principal_arn,
  ),
  ground arith,
  ground arith,
  ground arith,
)

-- An explicit Deny of the bucket policy is named before a missing allow of the caller's policy.
pub validate_denied_bucket :
    (r : Request) (p : Fields)
    → r.bucket ≡ some p
    → bucket_answer r p ≡ explicit_deny
    → ((q : Fields) → r.identity ≡ some q → identity_answer r q ≢ explicit_deny)
    → (rep : Report) × (validate r ≡ some rep) × (rep.blocked_at ≡ some resource_policy)
unfolding report_of decide first_link links_of identity_link missing_link bucket_link evaluated_link
    bucket_answer identity_answer is_explicit
validate_denied_bucket r p e d o =
    let (a, v) = validate_total r in
    (
      report_of r a,
      v,
      elim (Option-cases r.identity) [
        | inl absent ↦ ground arith
        | inr (q, given) ↦ ground (arith, o q given)
      ],
    )
