-- ===== src/Multipart/Run/Modes.antt =====
-- How the two modes of `run` fit together.
use storageops.Base.{
  ℕ, ◌^◌, ◌<◌, ◌≡◌, ◌≢◌, refl, ◌∙◌, sym, ap, true, not, ◌&&◌, none, some, List, [], ◌∷◌, Text,
  ◌===◌, ===_refl, lower, arith, inl, inr, ◌⊎◌,
}
use storageops.Multipart.Division.{ceil_div_pos}
use storageops.Multipart.PartSize.{Band, Rechunk, etag_differs, in_band}
use storageops.Multipart.PartSize.Exact.{parts, derive_part_size-exact}
use storageops.Multipart.PartSize.Rechunking.{analyze_rechunk-exact}
use storageops.Multipart.Etag.{
  Format, aws, bos, Computed, computed, Observed, Shape, compute_multipart_etag, normalize_etag,
  parse_observed_etag, aws_multipart, bos_multipart, unknown,
}
use storageops.Multipart.Etag.Roundtrip.{
  IsHexDigest, parse_observed_etag-compute, normalize_etag-compute,
}
use storageops.Multipart.Run.{
  Args, run, compute_mode, derive_mode, no_part_count, ComputeResult, DeriveResult, Comparison,
  compare, compute_result, derive_result, derive_observed, provider_of, format_of, other_algorithm,
}

-- What is read of a text without a code.
parse_empty : (parse_observed_etag []).shape ≡ unknown
unfolding parse_observed_etag storageops.Multipart.Etag.parse_normalized
    storageops.Multipart.Etag.match_multipart normalize_etag storageops.Multipart.Etag.match_bos
    storageops.Multipart.Etag.is_hex32
parse_empty = refl

Text-cases : (t : Text) → (t ≡ []) ⊎ ((c : ℕ) × (s : Text) × (t ≡ c ∷ s))
Text-cases [] = inl refl
Text-cases (c ∷ s) = inr (c, s, refl)

compare_same :
    (provider : Text) (r : Computed)
    → normalize_etag r.etag ≡ r.etag
    → r.etag ≢ []
    → (c : Comparison) × (compare provider r (some r.etag) ≡ some c) × (c.match ≡ true)
unfolding compare
compare_same provider r norm full = elim (Text-cases r.etag) [
  | inl e ↦ absurd (full e)
  | inr (c, s, e) ↦
      let exp = normalize_etag (c ∷ s) in
      let same : (lower exp === lower r.etag) ≡ true =
        rw (sym e) (rw norm (===_refl (lower r.etag))) in
      (
        record {
          expected_etag = exp;
          match = lower exp === lower r.etag;
          recommends = not (lower exp === lower r.etag) && not (other_algorithm provider);
        },
        rw e refl,
        same,
      )
]

feasible-in_band : (b : Band) (size : ℕ) → in_band b size ≡ true → b.feasible ≡ true
unfolding in_band
feasible-in_band b size h = ground arith

-- `run` without parts.
run_derive :
    (md5 : List ℕ → Text) (args : Args) (total : ℕ) (etag : Text)
    → args.part_md5s ≡ none
    → args.total_size ≡ some total
    → args.observed_etag ≡ some etag
    → etag ≢ []
    → run md5 args
      ≡ derive_result (provider_of args.provider) total etag args.part_count args.other_part_size
unfolding run
run_derive md5 args total [] no_lines size e full = absurd (full refl)
run_derive md5 args total (c ∷ s) no_lines size e full = rw (no_lines, size, e) refl

module _ (md5 : List ℕ → Text) (law : IsHexDigest md5) where
  etag_nonempty :
      (fmt : Format) (raws : List Text) {r : Computed}
      → compute_multipart_etag md5 fmt raws ≡ computed r
      → r.etag ≢ []
  etag_nonempty aws raws {r = r} h e =
      let seen = rw e at (parse_observed_etag-compute md5 law aws raws {r = r} h) in
      let wrong : unknown ≡ aws_multipart = sym parse_empty ∙ ap Observed.shape seen in cc
  etag_nonempty bos raws {r = r} h e =
      let seen = rw e at (parse_observed_etag-compute md5 law bos raws {r = r} h) in
      let wrong : unknown ≡ bos_multipart = sym parse_empty ∙ ap Observed.shape seen in cc

  -- Comparing the lines of parts with the ETag that is computed from them reports a match.
  pub run-own_etag :
      (args : Args) (raws : List Text) (r : Computed)
      → args.part_md5s ≡ some raws
      → compute_multipart_etag md5 (format_of (provider_of args.provider)) raws ≡ computed r
      → args.expected ≡ some r.etag
      → (res : ComputeResult) × (c : Comparison) × (run md5 args ≡ compute_mode res)
        × (res.comparison ≡ some c)
        × (c.match ≡ true)
  unfolding run compute_result
  run-own_etag args raws r given h expected =
      let provider = provider_of args.provider in
      let (c, e, m) =
        compare_same provider r (normalize_etag-compute md5 law (format_of provider) raws {r = r} h)
          (etag_nonempty (format_of provider) raws {r = r} h) in
      (
        record {
          provider = provider;
          computed = r;
          provider_warning = other_algorithm provider;
          comparison = some c;
        },
        c,
        rw (given, expected, h) (rw e refl),
        refl,
        m,
      )

  -- An ETag computed in the format of BOS is refused for want of a part count, also where one is given.
  pub run-bos_etag :
      (args : Args) (raws : List Text) (r : Computed) (total : ℕ)
      → compute_multipart_etag md5 bos raws ≡ computed r
      → args.part_md5s ≡ none
      → args.total_size ≡ some total
      → args.observed_etag ≡ some r.etag
      → run md5 args ≡ no_part_count
  unfolding run derive_result derive_observed
  run-bos_etag args raws r total h no_lines size etag =
      run_derive md5 args total r.etag no_lines size etag (etag_nonempty bos raws {r = r} h)
      ∙ ap
          (derive_observed (provider_of args.provider) total (normalize_etag r.etag) args.part_count
            args.other_part_size)
          (parse_observed_etag-compute md5 law bos raws {r = r} h)

  -- An AWS ETag of an object that was uploaded in parts of one size, for which the same size is asked
  -- about: the mode that derives part sizes gives a band that holds the size, and does not answer that
  -- the ETag differs.
  pub run-derive :
      (args : Args) (raws : List Text) (r : Computed) (total size : ℕ)
      → compute_multipart_etag md5 aws raws ≡ computed r
      → 0 < total
      → total < 2 ^ 53
      → 0 < size
      → parts total size ≡ r.part_count
      → args.part_md5s ≡ none
      → args.total_size ≡ some total
      → args.observed_etag ≡ some r.etag
      → args.part_count ≡ none
      → args.other_part_size ≡ some size
      → (d : DeriveResult) × (k : Rechunk) × (run md5 args ≡ derive_mode d)
        × (in_band d.band size ≡ true)
        × (d.rechunk_analysis ≡ some k)
        × (k.verdict ≢ etag_differs)
  unfolding run derive_result derive_observed
  run-derive args raws r total size h pt bound ps count no_lines given etag no_count other =
      let n = r.part_count in
      let pn : 0 < n = rw (sym count) (ceil_div_pos total size ps pt) in
      let (b, be, bx) = derive_part_size-exact total n pt bound pn in
      let inside : in_band b size ≡ true = (bx size ps).1 count in
      let (k, ke, differs, _, _) = analyze_rechunk-exact total n size pt bound pn ps in
      (
        record {
          provider = provider_of args.provider;
          total_size = total;
          observed_etag = normalize_etag r.etag;
          observed_shape = aws_multipart;
          part_count = n;
          band = b;
          rechunk_analysis = some k;
        },
        k,
        run_derive md5 args total r.etag no_lines given etag (etag_nonempty aws raws {r = r} h)
            ∙ ap
                (derive_observed (provider_of args.provider) total (normalize_etag r.etag)
                  args.part_count args.other_part_size)
                (parse_observed_etag-compute md5 law aws raws {r = r} h)
            ∙ rw (no_count, other, be, feasible-in_band b size inside, ke) refl,
        inside,
        refl,
        λ e. differs.0 e count,
      )
