-- ===== src/Evidence/Check/Complete.antt =====
-- What the verdict says of the items, and that more text never loses an item.
use storageops.Base.{
  ℕ, ◌+◌, ◌*◌, ◌≤◌, ◌<◌, ◌≡◌, refl, ◌∙◌, ap, ◌↔◌, ◌⊎◌, inl, inr, Bool, true, false, not, some, List,
  [], ◌∷◌, ◌++◌, map, map-append, any, keep, length, Text, lower, lower_code, contains_text,
  starts_with, arith, Bool-cases,
}
use storageops.Base.Affixes.{Among, here, there}
use storageops.Evidence.Domains.{
  Domain, Item, required, resolve_domain, signature_auth, permission_access_denied,
  s3_protocol_compatibility, cli_sdk_behavior, performance_throughput, mount_filesystem_workspace,
  network_endpoint_access, security_iam_policy, lifecycle_cost,
}
use storageops.Evidence.Check.{
  Report, Verdict, ready, insufficient, is_present, readiness, verdict_of, label_of, check_domain,
  check,
}

contains_text-before :
    (s pre t : Text) → contains_text s t ≡ true → contains_text s (pre ++ t) ≡ true
unfolding contains_text
contains_text-before s [] t h = h
contains_text-before s (c ∷ pre) t h = ground (arith, contains_text-before s pre t h)

starts_with-more : (s t post : Text) → starts_with s t ≡ true → starts_with s (t ++ post) ≡ true
unfolding starts_with
starts_with-more [] t post h = refl
starts_with-more (c ∷ s) [] post h = absurd (ground arith)
starts_with-more (c ∷ s) (d ∷ t) post h = ground (arith, starts_with-more s t post)

starts_with-contains_text : (s t : Text) → starts_with s t ≡ true → contains_text s t ≡ true
unfolding contains_text
starts_with-contains_text s [] h = h
starts_with-contains_text s (c ∷ t) h = ground (arith, h)

contains_text-after :
    (s t post : Text) → contains_text s t ≡ true → contains_text s (t ++ post) ≡ true
unfolding contains_text
contains_text-after s [] post h = starts_with-contains_text s post (starts_with-more s [] post h)
contains_text-after s (d ∷ t) post h = elim (Bool-cases (starts_with s (d ∷ t))) [
  | inl y ↦ let z = starts_with-more s (d ∷ t) post y in ground arith
  | inr n ↦ ground (arith, contains_text-after s t post)
]

any_keyword :
    (low pre post : Text) (ks : List Text)
    → any (λ k. contains_text (lower k) low) ks ≡ true
    → any (λ k. contains_text (lower k) (pre ++ (low ++ post))) ks ≡ true
unfolding any
any_keyword low pre post [] h = h
any_keyword low pre post (k ∷ ks) h = elim (Bool-cases (contains_text (lower k) low)) [
  | inl y ↦
      let z =
        contains_text-before (lower k) pre (low ++ post)
          (contains_text-after (lower k) low post y) in
      ground arith
  | inr n ↦ ground (arith, any_keyword low pre post ks)
]

is_present-more :
    (low pre post : Text) (x : Item)
    → is_present low x ≡ true
    → is_present (pre ++ (low ++ post)) x ≡ true
unfolding is_present
is_present-more low pre post (label, ks) h = any_keyword low pre post ks h

Among-tail :
    {l a : Text} {as' bs : List Text}
    → Among l (a ∷ as')
    → (Among l as' → Among l bs)
    → Among l (a ∷ bs)
Among-tail here f = here
Among-tail (there m) f = there (f m)

missing_dropped :
    (p : Item → Bool) (x : Item) (xs : List Item)
    → p x ≡ true
    → keep (λ y. not (p y)) (x ∷ xs) ≡ keep (λ y. not (p y)) xs
unfolding keep
missing_dropped p x xs h = ground (arith, h)

missing_kept :
    (p : Item → Bool) (x : Item) (xs : List Item)
    → p x ≡ false
    → keep (λ y. not (p y)) (x ∷ xs) ≡ x ∷ keep (λ y. not (p y)) xs
unfolding keep
missing_kept p x xs h = ground (arith, h)

-- Two tests, of which the second passes where the first does.
module _ (p q : Item → Bool) (more : (x : Item) → p x ≡ true → q x ≡ true) where
  missing_less :
      (l : Text) (xs : List Item)
      → Among l (map label_of (keep (λ x. not (q x)) xs))
      → Among l (map label_of (keep (λ x. not (p x)) xs))
  unfolding keep
  missing_less l [] m = m
  missing_less l (x ∷ xs) m = elim (Bool-cases (p x)) [
    | inl y ↦
        rw (missing_dropped p x xs y)
          (missing_less l xs (rw (missing_dropped q x xs (more x y)) at m))
    | inr n ↦ rw (missing_kept p x xs n) (elim (Bool-cases (q x)) [
      | inl y ↦ there (missing_less l xs (rw (missing_dropped q x xs y) at m))
      | inr z ↦ Among-tail (rw (missing_kept q x xs z) at m) (missing_less l xs)
    ])
  ]

  present_more :
      (xs : List Item) → length (map label_of (keep p xs)) ≤ length (map label_of (keep q xs))
  unfolding keep
  present_more [] = omega arith
  present_more (x ∷ xs) = ground (arith, more x, present_more xs)

present_missing :
    (p : Item → Bool) (xs : List Item)
    → length (map label_of (keep p xs)) + length (map label_of (keep (λ x. not (p x)) xs))
      ≡ length xs
unfolding keep
present_missing p [] = refl
present_missing p (x ∷ xs) = ground (arith, present_missing p xs)

abbrev pub IsJudged : Verdict → ℕ → ℕ → Type 0
IsJudged v present total =
    ((v ≡ ready) ↔ (4 * total ≤ 5 * present)) × ((v ≡ insufficient) ↔ (2 * present < total))

verdict_five : (p : ℕ) → IsJudged (verdict_of (readiness p 5)) p 5
unfolding verdict_of readiness
verdict_five p = ((λ h. ground arith, λ h. ground arith), (λ h. ground arith, λ h. ground arith))

verdict_six : (p : ℕ) → IsJudged (verdict_of (readiness p 6)) p 6
unfolding verdict_of readiness
verdict_six p = ((λ h. ground arith, λ h. ground arith), (λ h. ground arith, λ h. ground arith))

verdict_seven : (p : ℕ) → IsJudged (verdict_of (readiness p 7)) p 7
unfolding verdict_of readiness
verdict_seven p = ((λ h. ground arith, λ h. ground arith), (λ h. ground arith, λ h. ground arith))

required-size :
    (d : Domain)
    → (length (required d) ≡ 5) ⊎ ((length (required d) ≡ 6) ⊎ (length (required d) ≡ 7))
unfolding required
required-size signature_auth = inr (inr refl)
required-size permission_access_denied = inr (inl refl)
required-size s3_protocol_compatibility = inr (inl refl)
required-size cli_sdk_behavior = inl refl
required-size performance_throughput = inr (inl refl)
required-size mount_filesystem_workspace = inl refl
required-size network_endpoint_access = inr (inl refl)
required-size security_iam_policy = inr (inl refl)
required-size lifecycle_cost = inl refl

verdict_of-IsJudged :
    (d : Domain) (p : ℕ)
    → IsJudged (verdict_of (readiness p (length (required d)))) p (length (required d))
verdict_of-IsJudged d p = elim (required-size d) [
  | inl e ↦ rw e (verdict_five p)
  | inr f ↦ elim f [ inl e ↦ rw e (verdict_six p) | inr e ↦ rw e (verdict_seven p) ]
]

-- For a domain that is known there is a report. Every item of the domain is counted as present or as
-- missing. The verdict is ready exactly when four fifths of the items are present, and insufficient
-- exactly when less than half are: the rounding of the readiness never changes it.
pub check-IsJudged :
    (domain text : Text) (d : Domain)
    → resolve_domain domain ≡ some d
    → (r : Report) × (check domain text ≡ some r)
      × (length r.present + length r.missing ≡ length (required d))
      × IsJudged r.verdict (length r.present) (length (required d))
unfolding check check_domain
check-IsJudged domain text d known =
    let r = check_domain d text in
    let total = present_missing (is_present (lower text)) (required d) in
    (r, rw known refl, total, rw total (verdict_of-IsJudged d (length r.present)))

lower-append : (s t : Text) → lower (s ++ t) ≡ lower s ++ lower t
unfolding lower
lower-append s t = map-append lower_code s t

-- Text that is put before or behind the evidence loses nothing: what is missing then was missing
-- before, and no fewer items are present.
pub check-more_text :
    (domain pre text post : Text) (d : Domain)
    → resolve_domain domain ≡ some d
    → (r q : Report) × (check domain text ≡ some r)
      × (check domain (pre ++ (text ++ post)) ≡ some q)
      × ((l : Text) → Among l q.missing → Among l r.missing)
      × (length r.present ≤ length q.present)
unfolding check check_domain
check-more_text domain pre text post d known =
    let low = lower text in
    let wide = lower pre ++ (low ++ lower post) in
    let e : lower (pre ++ (text ++ post)) ≡ wide =
      lower-append pre (text ++ post) ∙ ap (λ s. lower pre ++ s) (lower-append text post) in
    let more : (x : Item)
        → is_present low x ≡ true
        → is_present (lower (pre ++ (text ++ post))) x ≡ true =
      λ x h. rw e (is_present-more low (lower pre) (lower post) x h) in
    (
      check_domain d text,
      check_domain d (pre ++ (text ++ post)),
      rw known refl,
      rw known refl,
      λ l.
          missing_less (is_present low) (is_present (lower (pre ++ (text ++ post)))) more l
            (required d),
      present_more (is_present low) (is_present (lower (pre ++ (text ++ post)))) more (required d),
    )
