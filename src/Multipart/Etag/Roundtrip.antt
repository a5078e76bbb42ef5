-- ===== src/Multipart/Etag/Roundtrip.antt =====
-- A computed ETag is read back with its hash and its part count.
use mathlib.Core.List.{append-nil}
use storageops.Base.{
  ℕ, ◌<◌, leb, ◌==◌, ◌≡◌, refl, ◌∙◌, ap, Bool, true, ◌&&◌, ◌||◌, none, some, List, [], ◌∷◌, ◌++◌,
  Text, length, lower, decimal, to_int, is_digit, is_space, all, span_digits-all, arith,
  to_int-decimal, is_digit-decimal, length-decimal-pos, strip_by, strip_by_free, free_of,
  free_of-append,
}
use storageops.Multipart.Etag.{
  take_hex, drop_quote, after_hex, match_multipart, match_bos, Observed, aws_multipart,
  bos_multipart, normalize_etag, parse_normalized, parse_observed_etag, Format, aws, bos, Computed,
  Outcome, computed, etag_of, compute_cleaned, compute_multipart_etag, Cleaned, tokens, bad_line,
  concat, clean,
}

unfoldable pub is_lower_hex : ℕ → Bool
is_lower_hex c = leb b'0' c && leb c b'9' || (leb b'a' c && leb c b'f')

-- What `hexdigest` documents of MD5: 32 digits in lower case.
pub record IsHexDigest (md5 : List ℕ → Text) : Type 0 where
  pub size : (bytes : List ℕ) → length (md5 bytes) ≡ 32
  pub digits : (bytes : List ℕ) → all is_lower_hex (md5 bytes) ≡ true

take_hex-append :
    (s rest : Text) → all is_lower_hex s ≡ true → take_hex (length s) (s ++ rest) ≡ some (s, rest)
unfolding all take_hex is_lower_hex
take_hex-append [] rest h = refl
take_hex-append (c ∷ s) rest h = ground (arith, take_hex-append s rest)

lower_id : (s : Text) → all is_lower_hex s ≡ true → lower s ≡ s
unfolding all lower is_lower_hex
lower_id [] h = refl
lower_id (c ∷ s) h = ground (arith, lower_id s)

-- No white space and no quote.
free_of_hex :
    (s : Text)
    → all is_lower_hex s ≡ true
    → (free_of is_space s ≡ true) × (free_of (λ c. c == 34) s ≡ true)
unfolding all free_of is_space is_lower_hex
free_of_hex [] h = (refl, refl)
free_of_hex (c ∷ s) h = ground (arith, free_of_hex s)

free_of_digits :
    (s : Text)
    → all is_digit s ≡ true
    → (free_of is_space s ≡ true) × (free_of (λ c. c == 34) s ≡ true)
unfolding all free_of is_space is_digit
free_of_digits [] h = (refl, refl)
free_of_digits (c ∷ s) h = ground (arith, free_of_digits s)

normalize_free :
    (s : Text) → free_of is_space s ≡ true → free_of (λ c. c == 34) s ≡ true → normalize_etag s ≡ s
unfolding normalize_etag
normalize_free s h k =
    ap (strip_by (λ c. c == 34)) (strip_by_free is_space s h) ∙ strip_by_free (λ c. c == 34) s k

-- A text of hexadecimal digits that is not empty does not begin with a quote or a dash.
drop_quote_hex :
    (s rest : Text) → all is_lower_hex s ≡ true → 0 < length s → drop_quote (s ++ rest) ≡ s ++ rest
unfolding all drop_quote is_lower_hex
drop_quote_hex [] rest h p = absurd (omega arith)
drop_quote_hex (c ∷ s) rest h p = ground arith

part_count_of_digits :
    (hex ds : Text)
    → all is_digit ds ≡ true
    → 0 < length ds
    → after_hex hex (b'-' ∷ ds) ≡ some (lower hex, to_int ds)
unfolding after_hex
part_count_of_digits hex [] h p = absurd (omega arith)
part_count_of_digits hex (d ∷ ds) h p = ground (arith, span_digits-all (d ∷ ds) h)

module _ (hex : Text) (size : length hex ≡ 32) (digits : all is_lower_hex hex ≡ true) where
  match_multipart_lem : (n : ℕ) → match_multipart (hex ++ (b'-' ∷ decimal n)) ≡ some (hex, n)
  unfolding match_multipart
  match_multipart_lem n = ground (
    arith,
    drop_quote_hex hex (b'-' ∷ decimal n) digits (omega arith),
    rw size at (take_hex-append hex (b'-' ∷ decimal n) digits),
    part_count_of_digits hex (decimal n) (is_digit-decimal n) (length-decimal-pos n),
    lower_id hex digits,
    to_int-decimal n,
  )

  normalize_aws : (n : ℕ) → normalize_etag (hex ++ (b'-' ∷ decimal n)) ≡ hex ++ (b'-' ∷ decimal n)
  unfolding free_of is_space
  normalize_aws n =
      let (a, b) = free_of_hex hex digits in
      let (c, d) = free_of_digits (decimal n) (is_digit-decimal n) in
      normalize_free _ (free_of-append is_space hex (b'-' ∷ decimal n) ∙ ground arith)
        (free_of-append (λ c. c == 34) hex (b'-' ∷ decimal n) ∙ ground arith)

  match_multipart_bos : match_multipart (b'-' ∷ hex) ≡ none
  unfolding match_multipart
  match_multipart_bos = ground arith

  match_bos_lem : match_bos (b'-' ∷ hex) ≡ some hex
  unfolding match_bos
  match_bos_lem = ground (
    arith,
    rw (append-nil hex) at (rw size at (take_hex-append hex [] digits)),
    lower_id hex digits,
  )

  normalize_bos : normalize_etag (b'-' ∷ hex) ≡ b'-' ∷ hex
  unfolding free_of is_space
  normalize_bos =
      let (a, b) = free_of_hex hex digits in normalize_free _ (ground arith) (ground arith)

-- What a computed ETag of the format is read as.
abbrev pub reading : Format → Computed → Observed
reading aws r = record {
  shape = aws_multipart;
  md5 = some (Computed.combined_md5 r);
  part_count = some (Computed.part_count r);
}
reading bos r = record {
  shape = bos_multipart;
  md5 = some (Computed.combined_md5 r);
  part_count = none;
}

abbrev IsReadBack : Format → Outcome → Type 0
IsReadBack fmt (computed r) = parse_observed_etag (Computed.etag r) ≡ reading fmt r
IsReadBack fmt _ = Unit {0}

module _ (md5 : List ℕ → Text) (law : IsHexDigest md5) where
  parse_aws :
      (bytes : List ℕ) (n : ℕ)
      → parse_observed_etag (md5 bytes ++ (b'-' ∷ decimal n))
        ≡ record { shape = aws_multipart; md5 = some (md5 bytes); part_count = some n }
  unfolding parse_observed_etag parse_normalized
  parse_aws bytes n =
      rw (normalize_aws (md5 bytes) (law.size bytes) (law.digits bytes) n)
        (ground (arith, match_multipart_lem (md5 bytes) (law.size bytes) (law.digits bytes) n))

  parse_bos :
      (bytes : List ℕ)
      → parse_observed_etag (b'-' ∷ md5 bytes)
        ≡ record { shape = bos_multipart; md5 = some (md5 bytes); part_count = none }
  unfolding parse_observed_etag parse_normalized
  parse_bos bytes = rw (normalize_bos (md5 bytes) (law.size bytes) (law.digits bytes)) (
      ground (
        arith,
        match_multipart_bos (md5 bytes) (law.size bytes) (law.digits bytes),
        match_bos_lem (md5 bytes) (law.size bytes) (law.digits bytes),
      ))

  compute_cleaned-IsReadBack :
      (fmt : Format) (c : Cleaned) → IsReadBack fmt (compute_cleaned md5 fmt c)
  unfolding compute_cleaned etag_of
  compute_cleaned-IsReadBack fmt (bad_line raw) = tt
  compute_cleaned-IsReadBack fmt (tokens []) = tt
  compute_cleaned-IsReadBack aws (tokens (t ∷ ts)) = parse_aws (concat (t ∷ ts)) (length (t ∷ ts))
  compute_cleaned-IsReadBack bos (tokens (t ∷ ts)) = parse_bos (concat (t ∷ ts))

  -- An ETag computed in the format of AWS is parsed into its hash and its number of parts, and one in
  -- the format of BOS into its hash and no number of parts.
  pub parse_observed_etag-compute :
      (fmt : Format) (raws : List Text) {r : Computed}
      → compute_multipart_etag md5 fmt raws ≡ computed r
      → parse_observed_etag r.etag ≡ reading fmt r
  unfolding compute_multipart_etag
  parse_observed_etag-compute fmt raws h = rw h at (compute_cleaned-IsReadBack fmt (clean raws))

  abbrev IsNormal : Outcome → Type 0
  IsNormal (computed r) = normalize_etag (Computed.etag r) ≡ Computed.etag r
  IsNormal _ = Unit {0}

  compute_cleaned-IsNormal : (fmt : Format) (c : Cleaned) → IsNormal (compute_cleaned md5 fmt c)
  unfolding compute_cleaned etag_of
  compute_cleaned-IsNormal fmt (bad_line raw) = tt
  compute_cleaned-IsNormal fmt (tokens []) = tt
  compute_cleaned-IsNormal aws (tokens (t ∷ ts)) =
      let bytes = concat (t ∷ ts) in
      normalize_aws (md5 bytes) (law.size bytes) (law.digits bytes) (length (t ∷ ts))
  compute_cleaned-IsNormal bos (tokens (t ∷ ts)) =
      let bytes = concat (t ∷ ts) in normalize_bos (md5 bytes) (law.size bytes) (law.digits bytes)

  -- A computed ETag has no blanks and no quotes around it.
  pub normalize_etag-compute :
      (fmt : Format) (raws : List Text) {r : Computed}
      → compute_multipart_etag md5 fmt raws ≡ computed r
      → normalize_etag r.etag ≡ r.etag
  unfolding compute_multipart_etag
  normalize_etag-compute fmt raws h = rw h at (compute_cleaned-IsNormal fmt (clean raws))
