-- ===== src/Tests/EtagParserRuns.antt =====
-- etag_parser.py on concrete ETags.
use storageops.Base.{◌≡◌, refl, [], ◌∷◌, Text, txt, strip}
use storageops.Multipart.Etag.{parse_observed_etag}
use storageops.EtagParser.Classify.{by_header, weak_body, classify_etag, augment_encryption}
use storageops.EtagParser.Classify.Agreement.{Agrees, classify_etag-parse_observed_etag}
use storageops.EtagParser.Consistency.{count_mismatch, parse_etags}

abbrev two_part : Text
two_part = txt " D41D8CD98F00B204E9800998ECF8427E-2\n"

classify_etag-parse_observed_etag_example :
    Agrees (parse_observed_etag two_part) (classify_etag two_part)
unfolding weak_body strip txt storageops.Base.strip_quotes
classify_etag-parse_observed_etag_example = classify_etag-parse_observed_etag two_part refl refl

weak_read : (classify_etag (txt "W/\"abc\"")).normalized ≡ txt "abc"
unfolding txt classify_etag storageops.EtagParser.Classify.classify_stripped
weak_read = refl

two_sources :
    (parse_etags
      (txt "d41d8cd98f00b204e9800998ecf8427e-2\n\nd41d8cd98f00b204e9800998ecf8427e-3")
      []).findings
    ≡ count_mismatch ∷ []
unfolding parse_etags storageops.EtagParser.Classify.classify_stripped
    storageops.EtagParser.Classify.classify_strong storageops.Base.to_int
two_sources = refl

-- The headers of an object that is encrypted with a key of KMS: the general one is looked at first.
kms_object :
    (augment_encryption
      (txt "x-amz-server-side-encryption" ∷ txt "x-amz-server-side-encryption-aws-kms-key-id" ∷ [])
      (classify_etag (txt "d41d8cd98f00b204e9800998ecf8427e"))).encryption
    ≡ by_header (txt "SSE-S3 (AES-256)")
unfolding augment_encryption
kms_object = refl
