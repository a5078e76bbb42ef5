-- ===== src/CrossAccount/Chain/Laws.antt =====
-- What a decision says of the links, and that a report is always made.
use storageops.Base.{
  ◌≡◌, refl, ◌↔◌, inl, inr, Bool, true, false, ◌&&◌, Option, none, some, List, [], ◌∷◌, Text, txt,
  keep, arith, Bool-cases, Option-cases,
}
use storageops.Json.{Fields}
use storageops.CrossAccount.Statement.{statements, account_of}
use storageops.CrossAccount.Link.{Result, allow, evaluate_link}
use storageops.CrossAccount.Chain.{
  LinkName, identity_policy, resource_policy, kms_key_policy, Link, Decision, allowed_chain,
  denied_chain, indeterminate, Summary, blocked, Recommendation, kms_action_for, identity_link,
  bucket_link, kms_links, missing_link, evaluated_link, is_explicit, is_implicit, is_missing,
  first_link, same_link, next_link, unknown_links, decide, advice_for, advise, Request, links_of,
  report_of, is_cross_request, advice_of, validate, owner_of,
}

same_link_refl : (n : LinkName) → same_link n n ≡ true
unfolding same_link
same_link_refl identity_policy = refl
same_link_refl resource_policy = refl
same_link_refl kms_key_policy = refl

-- A link that was found by its result is found again by its name.
next_link-first_link :
    (p : Result → Bool) (ls : List Link) {n : LinkName}
    → first_link p ls ≡ some n
    → (l : Link) × (next_link n ls ≡ some l)
unfolding first_link next_link
next_link-first_link p [] h = absurd (ground arith)
next_link-first_link p (l ∷ ls) {n} h = elim (Bool-cases (same_link l.link n)) [
  | inl e ↦ (l, rw e)
  | inr e ↦ elim (Bool-cases (p l.result)) [
    | inl q ↦ absurd (ground (arith, same_link_refl n))
    | inr q ↦ let (m, found) = next_link-first_link p ls {n = n} (ground arith) in (m, rw e found)
  ]
]

-- A denied chain names a link that `next` finds.
decide_denied :
    (ls : List Link)
    → (decide ls).0 ≡ denied_chain
    → (n : LinkName) × (l : Link) × ((decide ls).1 ≡ some n) × (next_link n ls ≡ some l)
unfolding decide
decide_denied ls h = elim (Option-cases (first_link is_explicit ls)) [
  | inl e ↦ elim (Option-cases (first_link is_implicit ls)) [
    | inl i ↦ absurd (ground arith)
    | inr (n, i) ↦
        let (l, found) = next_link-first_link is_implicit ls {n = n} i in
        (n, l, ground arith, found)
  ]
  | inr (n, e) ↦
      let (l, found) = next_link-first_link is_explicit ls {n = n} e in (n, l, ground arith, found)
]

module _ (arn action resource : Text) (caller : Option Text) (cross : Bool) (ls : List Link) where
  advise_total :
      (d : Decision) (b : Option LinkName)
      → (d ≡ denied_chain → (n : LinkName) × (l : Link) × (b ≡ some n) × (next_link n ls ≡ some l))
      → (a : Summary × Recommendation) × (advise arn action resource caller cross ls d b ≡ some a)
  unfolding advise
  advise_total allowed_chain b h = (_, refl)
  advise_total indeterminate b h = (_, refl)
  advise_total denied_chain none h = let (n, l, e, f) = h refl in cc
  advise_total denied_chain (some m) h =
      let (n, l, e, f) = h refl in
      ((blocked action n (Link.reason l), advice_for arn action resource caller n l), ground arith)

-- `validate` never raises: `next` finds the link that is named as blocked.
pub validate_total :
    (r : Request) → (a : Summary × Recommendation) × (validate r ≡ some (report_of r a))
unfolding validate advice_of
validate_total r =
    let (a, e) =
      advise_total r.principal_arn r.action r.resource (account_of r.principal_arn)
        (is_cross_request r) (links_of r) (decide (links_of r)).0 (decide (links_of r)).1
        (decide_denied (links_of r)) in
    (a, ground arith)

abbrev is_allow : Result → Bool
is_allow allow = true
is_allow _ = false

abbrev all_allow : List Link → Bool
all_allow [] = true
all_allow (l ∷ ls) = is_allow (Link.result l) && all_allow ls

-- A link whose result is none of the three others allows.
all_allow_of_none :
    (ls : List Link)
    → first_link is_explicit ls ≡ none
    → first_link is_implicit ls ≡ none
    → unknown_links ls ≡ []
    → all_allow ls ≡ true
unfolding first_link is_explicit is_implicit is_missing unknown_links keep
all_allow_of_none [] e i u = refl
all_allow_of_none (l ∷ ls) e i u = ground (arith, all_allow_of_none ls)

none_of_all_allow :
    (ls : List Link)
    → all_allow ls ≡ true
    → (first_link is_explicit ls ≡ none)
      × (first_link is_implicit ls ≡ none)
      × (unknown_links ls ≡ [])
unfolding first_link is_explicit is_implicit is_missing unknown_links keep
none_of_all_allow [] h = (refl, refl, refl)
none_of_all_allow (l ∷ ls) h = ground (arith, none_of_all_allow ls)

decide_allowed : (ls : List Link) → ((decide ls).0 ≡ allowed_chain) ↔ (all_allow ls ≡ true)
unfolding decide
decide_allowed ls =
    (λ h. ground (arith, all_allow_of_none ls), λ h. ground (arith, none_of_all_allow ls))

-- What the policies answer, each taken alone.
unfoldable pub identity_answer : Request → Fields → Result
identity_answer r p = (evaluate_link r.action r.resource [] false (statements p)).result

unfoldable pub bucket_answer : Request → Fields → Result
bucket_answer r p = (evaluate_link r.action r.resource r.principal_arn true (statements p)).result

unfoldable pub key_answer : Request → Fields → Result
key_answer r p =
    (evaluate_link (kms_action_for r.action) (txt "*") r.principal_arn true (statements p)).result

-- The policy is supplied and allows.
abbrev pub Grants : Option Fields → (Fields → Result) → Type 0
Grants policy answer = (p : Fields) × (policy ≡ some p) × (answer p ≡ allow)

-- The policy allows if it is supplied.
abbrev pub GrantsIfGiven : Option Fields → (Fields → Result) → Type 0
GrantsIfGiven policy answer = (p : Fields) → policy ≡ some p → answer p ≡ allow

is_allow→≡ : (x : Result) → is_allow x ≡ true → x ≡ allow
is_allow→≡ allow h = refl
is_allow→≡ _ h = cc

module _ (r : Request) where
  identity-Grants :
      (policy : Option Fields)
      → (is_allow
            (Link.result (identity_link policy (account_of r.principal_arn) r.action r.resource))
          ≡ true)
        ↔ Grants policy (identity_answer r)
  unfolding identity_link missing_link evaluated_link identity_answer
  identity-Grants none = (λ h. cc, λ (p, e, a). cc)
  identity-Grants (some p) = (λ h. (p, refl, is_allow→≡ _ h), λ (q, e, a). ground arith)

  bucket-Grants :
      (policy : Option Fields) (owner : Option Text)
      → (is_allow (Link.result (bucket_link policy owner r.action r.resource r.principal_arn))
          ≡ true)
        ↔ Grants policy (bucket_answer r)
  unfolding bucket_link missing_link evaluated_link bucket_answer
  bucket-Grants none owner = (λ h. cc, λ (p, e, a). cc)
  bucket-Grants (some p) owner = (λ h. (p, refl, is_allow→≡ _ h), λ (q, e, a). ground arith)

  key-Grants :
      (policy : Option Fields)
      → (all_allow (kms_links policy r.action r.principal_arn) ≡ true)
        ↔ GrantsIfGiven policy (key_answer r)
  unfolding kms_links evaluated_link key_answer
  key-Grants none = (λ h p e. cc, λ h. refl)
  key-Grants (some p) = (λ h q e. ground arith, λ h. ground (arith, h p refl))

-- The decision is `allow` exactly when the caller's policy and the bucket policy are supplied and
-- each allows on its own, and the key policy allows if it is supplied.
pub decide_allows :
    (r : Request)
    → ((decide (links_of r)).0 ≡ allowed_chain) ↔ (
        Grants r.identity (identity_answer r)
        × Grants r.bucket (bucket_answer r)
        × GrantsIfGiven r.kms_key (key_answer r))
unfolding links_of
decide_allows r =
    let (a, b) = decide_allowed (links_of r) in
    let (i, i') = identity-Grants r r.identity in
    let (k, k') = bucket-Grants r r.bucket (owner_of r.resource_account r.resource) in
    let (m, m') = key-Grants r r.kms_key in
    (
      λ h. let t = a h in (i (ground arith), k (ground arith), m (ground arith)),
      λ (x, y, z). b (ground (arith, i' x, k' y, m' z)),
    )
