-- ===== src/Multipart/PartSize.antt =====
-- `derive_part_size` and `analyze_rechunk`: the part sizes that split an object into so many parts.
-- Sizes and counts are natural numbers, so the source's tests for `<= 0` and `< 1` are tests for 0.
pub mod Exact
pub mod Rechunking
use storageops.Base.{
  ℕ, ◌+◌, ◌-◌, ◌*◌, ◌^◌, leb, ltb, ◌==◌, if◌then◌else◌, Bool, true, false, not, ◌&&◌, ◌||◌, Option,
  none, some, List, [], ◌∷◌, keep, sort_by, Text, txt,
}
use storageops.Multipart.Division.{ceil_quotient}

-- `_STANDARD_PART_SIZES`
unfoldable pub standard_part_sizes : List (Text × ℕ)
unfolding txt
standard_part_sizes =
    (txt "5MiB", 5 * 1024 ^ 2)
    ∷ (txt "8MiB", 8 * 1024 ^ 2)
    ∷ (txt "10MiB", 10 * 1024 ^ 2)
    ∷ (txt "15MiB", 15 * 1024 ^ 2)
    ∷ (txt "16MiB", 16 * 1024 ^ 2)
    ∷ (txt "32MiB", 32 * 1024 ^ 2)
    ∷ (txt "64MiB", 64 * 1024 ^ 2)
    ∷ (txt "100MiB", 100 * 1024 ^ 2)
    ∷ (txt "128MiB", 128 * 1024 ^ 2)
    ∷ (txt "5MB", 5 * 1000 ^ 2)
    ∷ (txt "8MB", 8 * 1000 ^ 2)
    ∷ (txt "16MB", 16 * 1000 ^ 2)
    ∷ (txt "64MB", 64 * 1000 ^ 2)
    ∷ (txt "100MB", 100 * 1000 ^ 2)
    ∷ []

pub record Band : Type 0 where
  pub part_size_min : ℕ
  pub part_size_max : Option ℕ
  pub feasible : Bool
  pub matching_standard_sizes : List (Text × ℕ)

-- The two ValueErrors of `derive_part_size`, and that of `analyze_rechunk`.
pub data Failure : Type 0 where
  total_not_positive count_not_positive other_not_positive : Failure

pub data Outcome (A : Type 0) : Type 0 where
  ok : A → Outcome A
  fail : Failure → Outcome A

-- `p_max is None or size <= p_max`
unfoldable pub at_most : ℕ → Option ℕ → Bool
at_most size none = true
at_most size (some p_max) = leb size p_max

unfoldable pub by_bytes : Text × ℕ → Text × ℕ → Bool
by_bytes (l, a) (k, b) = leb a b

unfoldable pub matches : ℕ → Option ℕ → List (Text × ℕ)
matches p_min p_max =
    sort_by by_bytes
      (keep (λ (label, size). leb p_min size && at_most size p_max) standard_part_sizes)

unfoldable pub band_of : ℕ → Option ℕ → Band
band_of p_min p_max = record {
  part_size_min = p_min;
  part_size_max = p_max;
  feasible = true;
  matching_standard_sizes = matches p_min p_max;
}

unfoldable pub infeasible_band : ℕ → ℕ → Band
infeasible_band p_min p_max = record {
  part_size_min = p_min;
  part_size_max = some p_max;
  feasible = false;
  matching_standard_sizes = [];
}

unfoldable pub derive_part_size : ℕ → ℕ → Outcome Band
derive_part_size total count =
    let p_min = ceil_quotient total count in
    let p_max = ceil_quotient total (count - 1) - 1 in
    if total == 0
    then fail total_not_positive
    else if count == 0
    then fail count_not_positive
    else if count == 1
    then ok (band_of p_min none)
    else if ltb p_max p_min
    then ok (infeasible_band p_min p_max)
    else ok (band_of p_min (some p_max))

pub data Verdict : Type 0 where
  etag_differs etag_matches etag_matches_iff_same_part_size : Verdict

-- The verdict with the branch that gave it, on which the explanation depends.
pub data Explanation : Type 0 where
  other_parts : Explanation
  outside_band : Explanation
  only_size : Explanation
  same_count : Explanation

pub record Rechunk : Type 0 where
  pub other_part_size : ℕ
  pub other_part_count : ℕ
  pub verdict : Verdict
  pub explanation : Explanation

unfoldable pub in_band : Band → ℕ → Bool
in_band b size =
    Band.feasible b && leb (Band.part_size_min b) size && at_most size (Band.part_size_max b)

unfoldable pub is_number : Option ℕ → ℕ → Bool
is_number none n = false
is_number (some m) n = m == n

unfoldable pub band_is_unique : Band → Bool
band_is_unique b = Band.feasible b && is_number (Band.part_size_max b) (Band.part_size_min b)

unfoldable pub judge : Band → ℕ → ℕ → ℕ → Verdict × Explanation
judge band other_count observed other =
    if not (other_count == observed)
    then (etag_differs, other_parts)
    else if not (in_band band other)
    then (etag_differs, outside_band)
    else if band_is_unique band
    then (etag_matches, only_size)
    else (etag_matches_iff_same_part_size, same_count)

abbrev rechunk_from : ℕ → ℕ → ℕ → Outcome Band → Outcome Rechunk
rechunk_from other_count observed other (fail e) = fail e
rechunk_from other_count observed other (ok band) =
    let (verdict, explanation) = judge band other_count observed other in
    ok (record {
      other_part_size = other;
      other_part_count = other_count;
      verdict = verdict;
      explanation = explanation;
    })

unfoldable pub analyze_rechunk : ℕ → ℕ → ℕ → Outcome Rechunk
analyze_rechunk total observed other =
    if other == 0
    then fail other_not_positive
    else rechunk_from (ceil_quotient total other) observed other (derive_part_size total observed)
