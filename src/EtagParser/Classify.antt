-- ===== src/EtagParser/Classify.antt =====
-- `classify_etag` and `augment_encryption`. The patterns of this script are those of
-- multipart_etag_calculator.py, which Multipart/Etag matches, with quotes allowed around them.
pub mod Agreement
use storageops.Base.{
  ℕ, leb, ◌==◌, if◌then◌else◌, Bool, true, false, not, ◌&&◌, ◌||◌, Option, none, some, List, [],
  ◌∷◌, ◌++◌, all, any, map, length, Text, txt, ◌===◌, lower, starts_with, drop_last, strip,
  strip_quotes, is_digit,
}
use storageops.Base.Dict.{Dict, contains}
use storageops.Multipart.Etag.{
  take_hex, drop_quote, quote_at_end, match_multipart, match_bos, at_end,
}

pub data Kind : Type 0 where
  weak multipart bos_multipart md5_hex binary_blob unrecognised : Kind

-- The labels of encryption, or none at all.
pub data Encryption : Type 0 where
  not_said none_inferable likely_kms kms_or_customer : Encryption
  by_header : Text → Encryption

pub record Info : Type 0 where
  pub kind : Kind
  pub normalized : Text
  pub md5 : Option Text
  pub part_count : Option ℕ
  pub encryption : Encryption

-- `RE_PLAIN_MD5`
unfoldable pub is_plain_md5 : Text → Bool
unfolding take_hex drop_quote quote_at_end
is_plain_md5 s = elim (take_hex 32 (drop_quote s)) [
  | none ↦ false
  | some (hex, rest) ↦ quote_at_end rest
]

abbrev weak_rest : Text → Option Text
weak_rest (a ∷ b ∷ c ∷ d ∷ e ∷ s) =
    if a == b'W' && b == b'/' && c == b'"' then some (d ∷ e ∷ s) else none
weak_rest s = none

abbrev ends_quoted : Text → Bool
ends_quoted [] = false
ends_quoted (c ∷ []) = c == b'"'
ends_quoted (c ∷ d ∷ s) = not (c == b'\n') && ends_quoted (d ∷ s)

abbrev weak_of : Option Text → Option Text
weak_of none = none
weak_of (some rest) = if ends_quoted rest then some (drop_last rest) else none

-- `RE_WEAK` on a stripped text, with the text between the quotes.
unfoldable pub weak_body : Text → Option Text
unfolding drop_last
weak_body s = weak_of (weak_rest s)

unfoldable pub is_base64 : ℕ → Bool
unfolding is_digit
is_base64 c =
    is_digit c
    || (leb b'a' c && leb c b'z')
    || (leb b'A' c && leb c b'Z')
    || c == b'+'
    || c == b'/'
    || c == b'='

-- The codes of the class, and the rest.
unfoldable pub span_base64 : Text → Text × Text
unfolding is_base64
span_base64 [] = ([], [])
span_base64 (c ∷ s) =
    let (taken, rest) = span_base64 s in if is_base64 c then (c ∷ taken, rest) else ([], c ∷ s)

abbrev is_long : Text × Text → Bool
is_long (taken, rest) = leb 40 (length taken) && quote_at_end rest

-- `RE_KMS_B64`
unfoldable pub is_blob : Text → Bool
unfolding span_base64 drop_quote quote_at_end
is_blob s = is_long (span_base64 (drop_quote s))

abbrev first_found : {A : Type 0} → Option A → Option A → Option A
first_found none other = other
first_found (some x) other = some x

abbrev kms_label : Text → Encryption
kms_label s =
    if starts_with (txt "AQID") s || starts_with (txt "AQIC") s then likely_kms else kms_or_customer

-- The branches behind the weak one, on the text without its quotes and on the text.
unfoldable pub classify_strong : Text → Text → Info
unfolding match_multipart match_bos is_plain_md5 is_blob lower starts_with txt
classify_strong no_q s = elim (first_found (match_multipart no_q) (match_multipart s)) [
  | some (hash, n) ↦ record {
    kind = multipart;
    normalized = no_q;
    md5 = some hash;
    part_count = some n;
    encryption = none_inferable;
  }
  | none ↦ elim (first_found (match_bos no_q) (match_bos s)) [
    | some hash ↦ record {
      kind = bos_multipart;
      normalized = no_q;
      md5 = some hash;
      part_count = none;
      encryption = none_inferable;
    }
    | none ↦
        if is_plain_md5 no_q || is_plain_md5 s
        then record {
          kind = md5_hex;
          normalized = no_q;
          md5 = some (lower no_q);
          part_count = none;
          encryption = none_inferable;
        }
        else if is_blob no_q || is_blob s
        then record {
          kind = binary_blob;
          normalized = no_q;
          md5 = none;
          part_count = none;
          encryption = kms_label no_q;
        }
        else record {
          kind = unrecognised;
          normalized = no_q;
          md5 = none;
          part_count = none;
          encryption = not_said;
        }
  ]
]

unfoldable pub classify_stripped : Text → Info
unfolding weak_body strip_quotes
classify_stripped s = elim (weak_body s) [
  | some body ↦ record {
    kind = weak;
    normalized = body;
    md5 = none;
    part_count = none;
    encryption = not_said;
  }
  | none ↦ classify_strong (strip_quotes s) s
]

unfoldable pub classify_etag : Text → Info
unfolding strip
classify_etag raw = classify_stripped (strip raw)

unfoldable pub sse_headers : Dict Text
unfolding txt
sse_headers =
    (txt "x-amz-server-side-encryption", txt "SSE-S3 (AES-256)")
    ∷ (txt "x-amz-server-side-encryption-aws-kms-key-id", txt "SSE-KMS")
    ∷ (txt "x-amz-server-side-encryption-customer-algorithm", txt "SSE-C")
    ∷ (txt "x-bce-server-side-encryption", txt "BOS-SSE")
    ∷ []

abbrev header_label : Dict Text → List Text → Encryption → Encryption
header_label [] names encryption = encryption
header_label ((key, label) ∷ headers) names encryption =
    let later = header_label headers names encryption in
    if any (λ name. name === key) names then by_header label else later

-- `augment_encryption`, on the names of the metadata.
unfoldable pub augment_encryption : List Text → Info → Info
unfolding sse_headers any ◌===◌ lower
augment_encryption names info = record info {
  encryption = header_label sse_headers (map lower names) info.encryption;
}
