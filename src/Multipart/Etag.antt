-- ===== src/Multipart/Etag.antt =====
-- `compute_multipart_etag`, `_normalize_etag` and `_parse_observed_etag`. MD5 is a parameter: the hex
-- digest of a list of bytes.
pub mod Roundtrip
use storageops.Base.{
  ℕ, zero, suc, ◌+◌, ◌-◌, ◌*◌, leb, ◌==◌, if◌then◌else◌, Bool, true, false, not, ◌&&◌, ◌||◌, Option,
  none, some, List, [], ◌∷◌, ◌++◌, Text, txt, length, lower, decimal, to_int, span_digits, is_digit,
  strip, strip_quotes, is_space,
}

unfoldable pub is_hex : ℕ → Bool
is_hex c = leb b'0' c && leb c b'9' || (leb b'a' c && leb c b'f') || (leb b'A' c && leb c b'F')

-- The first n codes if all are hexadecimal, and the rest.
unfoldable pub take_hex : ℕ → Text → Option (Text × Text)
unfolding is_hex
take_hex zero s = some ([], s)
take_hex (suc n) [] = none
take_hex (suc n) (c ∷ s) = elim (take_hex n s) [
  | none ↦ none
  | some (hex, rest) ↦ if is_hex c then some (c ∷ hex, rest) else none
]

-- `$`
unfoldable pub at_end : Text → Bool
at_end [] = true
at_end (c ∷ []) = c == 10
at_end (c ∷ d ∷ s) = false

-- `"?`
unfoldable pub drop_quote : Text → Text
drop_quote [] = []
drop_quote (c ∷ s) = if c == 34 then s else c ∷ s

-- `"?$`
unfoldable pub quote_at_end : Text → Bool
unfolding at_end drop_quote
quote_at_end s = at_end (drop_quote s)

-- `_HEX32.match`
unfoldable pub is_hex32 : Text → Bool
unfolding take_hex at_end
is_hex32 s = elim (take_hex 32 s) [ none ↦ false | some (hex, rest) ↦ at_end rest ]

abbrev part_count_of : Text → Text × Text → Option (Text × ℕ)
part_count_of hex ([], rest) = none
part_count_of hex (d ∷ ds, rest) =
    if quote_at_end rest then some (lower hex, to_int (d ∷ ds)) else none

unfoldable pub after_hex : Text → Text → Option (Text × ℕ)
unfolding span_digits quote_at_end
after_hex hex [] = none
after_hex hex (c ∷ rest) = if c == b'-' then part_count_of hex (span_digits rest) else none

-- `_MULTIPART_ETAG`, with the hash in lower case and the count as a number.
unfoldable pub match_multipart : Text → Option (Text × ℕ)
unfolding take_hex drop_quote after_hex
match_multipart s = elim (take_hex 32 (drop_quote s)) [
  | none ↦ none
  | some (hex, rest) ↦ after_hex hex rest
]

abbrev bos_hex : Option (Text × Text) → Option Text
bos_hex none = none
bos_hex (some (hex, rest)) = if quote_at_end rest then some (lower hex) else none

unfoldable pub after_dash : Text → Option Text
unfolding take_hex quote_at_end
after_dash [] = none
after_dash (c ∷ s) = if c == b'-' then bos_hex (take_hex 32 s) else none

-- `_BOS_ETAG`
unfoldable pub match_bos : Text → Option Text
unfolding after_dash drop_quote
match_bos s = after_dash (drop_quote s)

pub data Shape : Type 0 where
  aws_multipart bos_multipart single_md5 unknown : Shape

pub record Observed : Type 0 where
  pub shape : Shape
  pub md5 : Option Text
  pub part_count : Option ℕ

unfoldable pub normalize_etag : Text → Text
unfolding strip strip_quotes
normalize_etag etag = strip_quotes (strip etag)

unfoldable pub parse_normalized : Text → Observed
parse_normalized s = elim (match_multipart s) [
  | some (md5, n) ↦ record { shape = aws_multipart; md5 = some md5; part_count = some n }
  | none ↦ elim (match_bos s) [
    | some md5 ↦ record { shape = bos_multipart; md5 = some md5; part_count = none }
    | none ↦
        if is_hex32 s
        then record { shape = single_md5; md5 = some (lower s); part_count = some 1 }
        else record { shape = unknown; md5 = none; part_count = none }
  ]
]

unfoldable pub parse_observed_etag : Text → Observed
parse_observed_etag etag = parse_normalized (normalize_etag etag)

pub data Format : Type 0 where
  aws bos : Format

pub record Computed : Type 0 where
  pub etag : Text
  pub combined_md5 : Text
  pub part_count : ℕ
  pub format : Format

-- The two ValueErrors of `compute_multipart_etag`.
pub data Outcome : Type 0 where
  computed : Computed → Outcome
  not_md5 : Text → Outcome
  no_parts : Outcome

-- `cleaned`, or the first line that is no MD5.
pub data Cleaned : Type 0 where
  tokens : List Text → Cleaned
  bad_line : Text → Cleaned

abbrev keep_token : Text → Text → Cleaned → Cleaned
keep_token raw token (bad_line other) = if is_hex32 token then bad_line other else bad_line raw
keep_token raw token (tokens ts) =
    if is_hex32 token then tokens (lower token ∷ ts) else bad_line raw

unfoldable pub clean : List Text → Cleaned
unfolding normalize_etag is_hex32 lower
clean [] = tokens []
clean (raw ∷ raws) =
    let rest = clean raws in
    elim (normalize_etag raw) [ [] ↦ rest | c ∷ s ↦ keep_token raw (c ∷ s) rest ]

unfoldable pub hex_value : ℕ → ℕ
hex_value c = if leb c b'9' then c - 48 else c - 87

-- `bytes.fromhex` of a token in lower case: 32 digits, and at most a newline, which it skips.
unfoldable pub from_hex : Text → List ℕ
unfolding hex_value
from_hex [] = []
from_hex (c ∷ []) = []
from_hex (c ∷ d ∷ s) = (hex_value c * 16 + hex_value d) ∷ from_hex s

unfoldable pub concat : List Text → List ℕ
unfolding from_hex
concat [] = []
concat (t ∷ ts) = from_hex t ++ concat ts

module _ (md5 : List ℕ → Text) where
  unfoldable pub etag_of : Format → List Text → Text
  etag_of bos ts = b'-' ∷ md5 (concat ts)
  etag_of aws ts = md5 (concat ts) ++ (b'-' ∷ decimal (length ts))

  unfoldable pub compute_cleaned : Format → Cleaned → Outcome
  compute_cleaned fmt (bad_line raw) = not_md5 raw
  compute_cleaned fmt (tokens []) = no_parts
  compute_cleaned fmt (tokens (t ∷ ts)) = computed (record {
    etag = etag_of fmt (t ∷ ts);
    combined_md5 = md5 (concat (t ∷ ts));
    part_count = length (t ∷ ts);
    format = fmt;
  })

  unfoldable pub compute_multipart_etag : Format → List Text → Outcome
  compute_multipart_etag fmt raws = compute_cleaned fmt (clean raws)
