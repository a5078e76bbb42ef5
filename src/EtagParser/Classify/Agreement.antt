-- ===== src/EtagParser/Classify/Agreement.antt =====
-- etag_parser.py and multipart_etag_calculator.py read an ETag alike.
use storageops.Base.{
  ℕ, suc, ◌≡◌, refl, ◌∙◌, ap, true, ◌==◌, Option, none, some, [], ◌∷◌, Text, lower, strip,
  strip_quotes, arith, Option-cases, Bool-cases, inl, inr,
}
use storageops.Multipart.Etag.{
  is_hex, take_hex, drop_quote, at_end, quote_at_end, is_hex32, match_multipart, match_bos, Shape,
  aws_multipart, single_md5, unknown, Observed, parse_normalized, parse_observed_etag,
  normalize_etag,
}
use storageops.EtagParser.Classify.{
  Kind, multipart, md5_hex, none_inferable, Info, is_plain_md5, weak_body, classify_strong,
  classify_stripped, classify_etag,
}

abbrev HasReading : Kind → Observed → Info → Type 0
HasReading k o i = (i.kind ≡ k) × (i.md5 ≡ o.md5)

abbrev AgreesAt : Shape → Observed → Info → Type 0
AgreesAt aws_multipart o i = HasReading multipart o i × (i.part_count ≡ o.part_count)
AgreesAt Shape.bos_multipart o i = HasReading Kind.bos_multipart o i
AgreesAt single_md5 o i = HasReading md5_hex o i
AgreesAt unknown o i = Unit

-- The same kind and MD5, and the same part count if the ETag has one, where the calculator knows the
-- shape.
abbrev pub Agrees : Observed → Info → Type 0
Agrees o i = AgreesAt o.shape o i

no_quote : (n c : ℕ) (s : Text) → (c == 34) ≡ true → take_hex (suc n) (c ∷ s) ≡ none
unfolding take_hex is_hex
no_quote n c s h = elim (Option-cases (take_hex n s)) [
  | inl e ↦ rw e refl
  | inr ((hex, rest), e) ↦ rw e (ground (arith, h))
]

ends_plain : (rest : Text) → at_end rest ≡ true → quote_at_end rest ≡ true
unfolding at_end quote_at_end drop_quote
ends_plain [] h = refl
ends_plain (c ∷ []) h = ground arith
ends_plain (c ∷ d ∷ s) h = absurd (ground arith)

hex32_plain : (s : Text) → is_hex32 s ≡ true → is_plain_md5 s ≡ true
unfolding is_hex32 is_plain_md5 drop_quote take_hex
hex32_plain [] h = absurd (ground arith)
hex32_plain (c ∷ s) h = elim (Bool-cases (c == 34)) [
  | inl y ↦ absurd (ground (arith, no_quote 31 c s y))
  | inr n ↦ elim (Option-cases (take_hex 32 (c ∷ s))) [
    | inl e ↦ absurd (ground (arith, e))
    | inr ((hex, rest), e) ↦ ground (arith, n, e, ends_plain rest)
  ]
]

module _ (s : Text) where
  abbrev info : Kind → Option Text → Option ℕ → Info
  info k hash n = record {
    kind = k;
    normalized = s;
    md5 = hash;
    part_count = n;
    encryption = none_inferable;
  }

  both_agree :
      (o : Observed) (i : Info)
      → parse_normalized s ≡ o
      → classify_strong s s ≡ i
      → Agrees o i
      → Agrees (parse_normalized s) (classify_strong s s)
  both_agree o i p q a = rw (p, q) a

  strong-Agrees : Agrees (parse_normalized s) (classify_strong s s)
  unfolding parse_normalized classify_strong
  strong-Agrees = elim (Option-cases (match_multipart s)) [
    | inr ((hash, n), e) ↦
        both_agree (record { shape = aws_multipart; md5 = some hash; part_count = some n })
          (info multipart (some hash) (some n)) (rw (e, parse_normalized) refl)
          (rw (e, classify_strong) refl) ((refl, refl), refl)
    | inl e ↦ elim (Option-cases (match_bos s)) [
      | inr (hash, f) ↦
          both_agree (record { shape = Shape.bos_multipart; md5 = some hash; part_count = none })
            (info Kind.bos_multipart (some hash) none) (rw (e, f, parse_normalized) refl)
            (rw (e, f, classify_strong) refl) (refl, refl)
      | inl f ↦ elim (Bool-cases (is_hex32 s)) [
        | inl y ↦
            both_agree (record { shape = single_md5; md5 = some (lower s); part_count = some 1 })
              (info md5_hex (some (lower s)) none) (rw (e, f, y, parse_normalized) refl)
              (rw (e, f, hex32_plain s y, classify_strong) refl) (refl, refl)
        | inr n ↦
            both_agree (record { shape = unknown; md5 = none; part_count = none })
              (classify_strong s s) (rw (e, f, n, parse_normalized) refl) refl tt
      ]
    ]
  ]

classify_plain :
    (raw : Text)
    → weak_body (strip raw) ≡ none
    → strip_quotes (strip raw) ≡ strip raw
    → classify_etag raw ≡ classify_strong (strip raw) (strip raw)
unfolding classify_etag classify_stripped
classify_plain raw w q =
    (rw (w, classify_stripped) refl) ∙ ap (λ s. classify_strong s (strip raw)) q

-- On a text that is no weak validator and has no quotes around it, where the calculator's parser knows
-- the shape, this script finds the same kind of ETag with the same MD5, and for an ETag of AWS the same
-- number of parts.
pub classify_etag-parse_observed_etag :
    (raw : Text)
    → weak_body (strip raw) ≡ none
    → strip_quotes (strip raw) ≡ strip raw
    → Agrees (parse_observed_etag raw) (classify_etag raw)
unfolding parse_observed_etag normalize_etag
classify_etag-parse_observed_etag raw w q =
    rw (classify_plain raw w q) (rw q (strong-Agrees (strip raw)))
