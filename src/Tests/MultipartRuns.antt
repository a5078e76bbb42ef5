-- ===== src/Tests/MultipartRuns.antt =====
-- multipart_etag_calculator.py on concrete sizes and ETags.
use storageops.Base.{
  ℕ, ◌≡◌, refl, ◌≢◌, ◌↔◌, ◌+◌, ◌<◌, true, none, some, List, [], ◌∷◌, ◌++◌, Text, txt, arith,
  decimal,
}
use storageops.Multipart.PartSize.{
  Band, ok, fail, derive_part_size, analyze_rechunk, in_band, Rechunk, etag_differs, etag_matches,
  outside_band, total_not_positive,
}
use storageops.Multipart.PartSize.Exact.{parts, derive_part_size-exact}
use storageops.Multipart.PartSize.Rechunking.{analyze_rechunk-exact}
use storageops.Multipart.Etag.{
  aws, bos, Computed, computed, compute_multipart_etag, compute_cleaned, clean, etag_of,
  parse_observed_etag, parse_normalized, single_md5,
}
use storageops.Multipart.Run.{
  Args, run, compute_mode, derive_mode, no_part_count, ComputeResult, DeriveResult, Comparison,
  provider_of, format_of,
}
use storageops.Multipart.Run.Modes.{run-own_etag, run-bos_etag, run-derive}
use storageops.Multipart.Etag.Roundtrip.{IsHexDigest, reading, parse_observed_etag-compute}

-- An object of 50 MB in 7 parts.
derive_part_size-exact_example :
    (b : Band) × (derive_part_size 50000000 7 ≡ ok b)
    × ((size : ℕ) → 0 < size → (in_band b size ≡ true) ↔ (parts 50000000 size ≡ 7))
derive_part_size-exact_example =
    derive_part_size-exact 50000000 7 (omega arith) (omega arith) (omega arith)

analyze_rechunk-exact_example :
    (r : Rechunk) × (analyze_rechunk 50000000 7 8000000 ≡ ok r)
    × ((r.verdict ≡ etag_differs) ↔ (parts 50000000 8000000 ≢ 7))
    × ((r.verdict ≡ etag_matches) ↔ (
        (parts 50000000 8000000 ≡ 7)
        × ((size : ℕ) → 0 < size → parts 50000000 size ≡ 7 → size ≡ 8000000)))
    × (r.explanation ≢ outside_band)
analyze_rechunk-exact_example =
    analyze_rechunk-exact 50000000 7 8000000 (omega arith) (omega arith) (omega arith) (omega arith)

-- A digest function that always gives the same 32 digits.
abbrev empty_md5 : Text
empty_md5 = txt "d41d8cd98f00b204e9800998ecf8427e"

same_md5 : List ℕ → Text
same_md5 bytes = empty_md5

same_md5-IsHexDigest : IsHexDigest same_md5
unfolding same_md5 txt storageops.Base.all storageops.Multipart.Etag.Roundtrip.is_lower_hex
same_md5-IsHexDigest = record { size = λ bytes. refl; digits = λ bytes. refl }

abbrev two_parts : List Text
two_parts = empty_md5 ∷ txt "\"D41D8CD98F00B204E9800998ECF8427E\"" ∷ []

abbrev of_two_parts : Computed
of_two_parts = record {
  etag = empty_md5 ++ (b'-' ∷ b'2' ∷ []);
  combined_md5 = empty_md5;
  part_count = 2;
  format = aws;
}

abbrev of_bos : Computed
of_bos = record { etag = b'-' ∷ empty_md5; combined_md5 = empty_md5; part_count = 2; format = bos }

two_parts_run : compute_multipart_etag same_md5 aws two_parts ≡ computed of_two_parts
unfolding compute_multipart_etag compute_cleaned clean txt etag_of same_md5 decimal
two_parts_run = refl

parse_observed_etag-compute_example :
    parse_observed_etag of_two_parts.etag ≡ reading aws of_two_parts
parse_observed_etag-compute_example =
    parse_observed_etag-compute same_md5 same_md5-IsHexDigest aws two_parts {r = of_two_parts}
      two_parts_run

single_run :
    parse_observed_etag (txt "\"D41D8CD98F00B204E9800998ECF8427E\"")
    ≡ record { shape = single_md5; md5 = some empty_md5; part_count = some 1 }
unfolding parse_observed_etag parse_normalized storageops.Multipart.Etag.match_multipart
    storageops.Multipart.Etag.normalize_etag txt storageops.Multipart.Etag.match_bos
    storageops.Multipart.Etag.is_hex32 storageops.Base.lower
single_run = refl

no_bytes_run : derive_part_size 0 7 ≡ fail total_not_positive
unfolding derive_part_size
no_bytes_run = refl

bos_parts_run : compute_multipart_etag same_md5 bos two_parts ≡ computed of_bos
unfolding compute_multipart_etag compute_cleaned clean txt etag_of same_md5
bos_parts_run = refl

abbrev aws_args : Args
aws_args = record {
  provider = none;
  part_md5s = none;
  expected = none;
  total_size = some 10000000;
  observed_etag = some of_two_parts.etag;
  part_count = none;
  other_part_size = some 5242880;
}

abbrev bos_args : Args
bos_args = record {
  provider = some (txt "bos");
  part_md5s = none;
  expected = none;
  total_size = some 10000000;
  observed_etag = some of_bos.etag;
  part_count = some 2;
  other_part_size = none;
}

abbrev compute_args : Args
compute_args = record {
  provider = some (txt " AWS ");
  part_md5s = some two_parts;
  expected = some of_two_parts.etag;
  total_size = none;
  observed_etag = none;
  part_count = none;
  other_part_size = none;
}

aws_format :
    compute_multipart_etag same_md5 (format_of (provider_of compute_args.provider)) two_parts
    ≡ computed of_two_parts
unfolding compute_multipart_etag compute_cleaned clean txt etag_of same_md5 format_of provider_of
    decimal
aws_format = refl

two_of_5mib : parts 10000000 5242880 ≡ 2
unfolding storageops.Multipart.Division.ceil_div
two_of_5mib = refl

run-own_etag_example :
    (res : ComputeResult) × (c : Comparison) × (run same_md5 compute_args ≡ compute_mode res)
    × (res.comparison ≡ some c)
    × (c.match ≡ true)
run-own_etag_example =
    run-own_etag same_md5 same_md5-IsHexDigest compute_args two_parts of_two_parts refl aws_format
      refl

run-bos_etag_example : run same_md5 bos_args ≡ no_part_count
run-bos_etag_example =
    run-bos_etag same_md5 same_md5-IsHexDigest bos_args two_parts of_bos 10000000 bos_parts_run refl
      refl refl

run-derive_example :
    (d : DeriveResult) × (k : Rechunk) × (run same_md5 aws_args ≡ derive_mode d)
    × (in_band d.band 5242880 ≡ true)
    × (d.rechunk_analysis ≡ some k)
    × (k.verdict ≢ etag_differs)
run-derive_example =
    run-derive same_md5 same_md5-IsHexDigest aws_args two_parts of_two_parts 10000000 5242880
      two_parts_run (omega arith) (omega arith) (omega arith) two_of_5mib refl refl refl refl refl
