-- ===== src/EtagParser/Consistency.antt =====
-- `check_consistency` and `parse_etags`.
use storageops.Base.{
  ℕ, ◌==◌, if◌then◌else◌, Bool, true, false, not, none, some, List, [], ◌∷◌, any, map, Text, txt,
  ◌===◌, strip,
}
use storageops.EtagParser.Classify.{
  Kind, weak, multipart, bos_multipart, md5_hex, binary_blob, unrecognised, Encryption, not_said,
  none_inferable, likely_kms, kms_or_customer, by_header, Info, classify_etag, augment_encryption,
}

unfoldable pub kind_name : Kind → Text
unfolding txt
kind_name weak = txt "weak"
kind_name multipart = txt "multipart"
kind_name bos_multipart = txt "bos-multipart"
kind_name md5_hex = txt "md5"
kind_name binary_blob = txt "binary-blob"
kind_name unrecognised = txt "unknown"

-- `i.get("encryption", "")`
unfoldable pub encryption_text : Encryption → Text
unfolding txt
encryption_text not_said = []
encryption_text none_inferable = txt "none (inferable)"
encryption_text likely_kms = txt "SSE-KMS (likely AWS)"
encryption_text kms_or_customer = txt "SSE-KMS or SSE-C (base64 blob)"
encryption_text (by_header label) = label

abbrev md5s_of : List Info → List Text
md5s_of [] = []
md5s_of (i ∷ infos) = elim i.md5 [
  | some [] ↦ md5s_of infos
  | some (c ∷ s) ↦ (c ∷ s) ∷ md5s_of infos
  | none ↦ md5s_of infos
]

abbrev counts_of : List Info → List ℕ
counts_of [] = []
counts_of (i ∷ infos) = elim i.part_count [ some n ↦ n ∷ counts_of infos | none ↦ counts_of infos ]

-- A set of texts with more than one element.
unfoldable pub differ : List Text → Bool
unfolding any ◌===◌
differ [] = false
differ (t ∷ ts) = any (λ s. not (t === s)) ts

unfoldable pub counts_differ : List ℕ → Bool
unfolding any
counts_differ [] = false
counts_differ (n ∷ ns) = any (λ m. not (n == m)) ns

-- The findings, without the sorted sets in their texts. The first is a warning, the others are errors.
pub data Finding : Type 0 where
  mixed_types md5_mismatch count_mismatch encryption_mismatch : Finding

unfoldable pub is_error : Finding → Bool
is_error mixed_types = false
is_error f = true

abbrev found_if : Bool → Finding → List Finding → List Finding
found_if b f fs = if b then f ∷ fs else fs

unfoldable pub check_consistency : List Info → List Finding
unfolding differ counts_differ kind_name encryption_text
check_consistency infos = found_if (differ (map (λ i. kind_name i.kind) infos)) mixed_types (
    found_if (differ (md5s_of infos)) md5_mismatch (
      found_if (counts_differ (counts_of infos)) count_mismatch
        (found_if (differ (map (λ i. encryption_text i.encryption) infos)) encryption_mismatch [])))

abbrev add_code : ℕ → List Text → List Text
add_code c [] = (c ∷ []) ∷ []
add_code c (part ∷ parts) = (c ∷ part) ∷ parts

-- `raw.split("\n")`
unfoldable pub split_lines : Text → List Text
split_lines [] = [] ∷ []
split_lines (c ∷ s) =
    let lines = split_lines s in if c == b'\n' then [] ∷ lines else add_code c lines

abbrev kept_line : Text → List Text → List Text
kept_line [] lines = lines
kept_line (c ∷ s) lines = (c ∷ s) ∷ lines

abbrev stripped : List Text → List Text
stripped [] = []
stripped (line ∷ lines) = kept_line (strip line) (stripped lines)

pub record Report : Type 0 where
  pub ok : Bool
  pub details : List Info
  pub findings : List Finding

-- The report on the parts: an empty list is refused.
unfoldable pub report_parts : List Text → List Text → Report
unfolding classify_etag augment_encryption check_consistency any is_error
report_parts names [] = record { ok = false; details = []; findings = [] }
report_parts names (part ∷ parts) =
    let details = map (λ p. augment_encryption names (classify_etag p)) (part ∷ parts) in
    let findings = check_consistency details in
    record { ok = not (any is_error findings); details = details; findings = findings }

-- `parse_etags`, on the names of the metadata, without its summary.
unfoldable pub parse_etags : Text → List Text → Report
unfolding split_lines strip report_parts
parse_etags raw names = report_parts names (stripped (split_lines raw))
