-- ===== src/Multipart/Run.antt =====
-- `run`: the mode that computes an ETag from the MD5s of the parts, and the one that derives the part
-- size from an observed ETag. The sizes are those that `parse_size` gives, and the lines those read.
pub mod Modes
use storageops.Base.{
  ℕ, if◌then◌else◌, Bool, true, false, not, ◌&&◌, ◌||◌, Option, none, some, List, [], ◌∷◌, Text,
  txt, ◌===◌, lower, strip,
}
use storageops.Multipart.PartSize.{Band, Failure, Rechunk, derive_part_size, analyze_rechunk}
use storageops.Multipart.PartSize
use storageops.Multipart.Etag.{
  Format, aws, bos, Computed, Observed, Shape, compute_multipart_etag, normalize_etag,
  parse_observed_etag,
}
use storageops.Multipart.Etag

-- `(args.provider or "aws").strip().lower()`
unfoldable pub provider_of : Option Text → Text
unfolding strip lower txt
provider_of none = txt "aws"
provider_of (some []) = txt "aws"
provider_of (some (c ∷ s)) = lower (strip (c ∷ s))

unfoldable pub format_of : Text → Format
unfolding ◌===◌ txt
format_of provider = if provider === txt "bos" then bos else aws

-- `provider in ("oss", "cos")`
unfoldable pub other_algorithm : Text → Bool
unfolding ◌===◌ txt
other_algorithm provider = provider === txt "oss" || provider === txt "cos"

-- `match` with the ETag that was expected, and whether `recommendation` is given.
pub record Comparison : Type 0 where
  pub expected_etag : Text
  pub match : Bool
  pub recommends : Bool

pub record ComputeResult : Type 0 where
  pub provider : Text
  pub computed : Computed
  pub provider_warning : Bool
  pub comparison : Option Comparison

pub record DeriveResult : Type 0 where
  pub provider : Text
  pub total_size : ℕ
  pub observed_etag : Text
  pub observed_shape : Shape
  pub part_count : ℕ
  pub band : Band
  pub rechunk_analysis : Option Rechunk

-- The results of the two modes, and the ValueErrors.
pub data Outcome : Type 0 where
  compute_mode : ComputeResult → Outcome
  derive_mode : DeriveResult → Outcome
  bad_parts : Etag.Outcome → Outcome
  bad_size : Failure → Outcome
  no_part_count nothing_to_do : Outcome

unfoldable pub compare : Text → Computed → Option Text → Option Comparison
unfolding lower ◌===◌
compare provider r none = none
compare provider r (some []) = none
compare provider r (some (c ∷ s)) =
    let exp = normalize_etag (c ∷ s) in
    let match = lower exp === lower r.etag in
    some (record {
      expected_etag = exp;
      match = match;
      recommends = not match && not (other_algorithm provider);
    })

unfoldable pub compute_result : Text → Option Text → Etag.Outcome → Outcome
compute_result provider expected (Etag.computed r) = compute_mode (record {
  provider = provider;
  computed = r;
  provider_warning = other_algorithm provider;
  comparison = compare provider r expected;
})
compute_result provider expected e = bad_parts e

abbrev with_rechunk : DeriveResult → PartSize.Outcome Rechunk → Outcome
with_rechunk d (PartSize.fail f) = bad_size f
with_rechunk d (PartSize.ok r) = derive_mode (record {
  provider = d.provider;
  total_size = d.total_size;
  observed_etag = d.observed_etag;
  observed_shape = d.observed_shape;
  part_count = d.part_count;
  band = d.band;
  rechunk_analysis = some r;
})

abbrev rechunk_result : DeriveResult → Option ℕ → Outcome
rechunk_result d none = derive_mode d
rechunk_result d (some other) =
    if d.band.feasible
    then with_rechunk d (analyze_rechunk d.total_size d.part_count other)
    else derive_mode d

abbrev derive_band : Text → ℕ → Text → Shape → ℕ → Option ℕ → PartSize.Outcome Band → Outcome
derive_band provider total etag shape n other (PartSize.fail f) = bad_size f
derive_band provider total etag shape n other (PartSize.ok band) =
    rechunk_result
      (record {
        provider = provider;
        total_size = total;
        observed_etag = etag;
        observed_shape = shape;
        part_count = n;
        band = band;
        rechunk_analysis = none;
      })
      other

-- `args.part_count if args.part_count is not None else observed["part_count"]`
abbrev pub count_of : Option ℕ → ℕ → ℕ
count_of none n = n
count_of (some m) n = m

unfoldable pub derive_observed : Text → ℕ → Text → Option ℕ → Option ℕ → Observed → Outcome
derive_observed provider total etag part_count other observed =
    elim (Observed.part_count observed) [
      | none ↦ no_part_count
      | some seen ↦
          let n = count_of part_count seen in
          derive_band provider total etag (Observed.shape observed) n other
            (derive_part_size total n)
    ]

unfoldable pub derive_result : Text → ℕ → Text → Option ℕ → Option ℕ → Outcome
derive_result provider total etag part_count other =
    derive_observed provider total (normalize_etag etag) part_count other (parse_observed_etag etag)

pub record Args : Type 0 where
  pub provider : Option Text
  pub part_md5s : Option (List Text)
  pub expected : Option Text
  pub total_size : Option ℕ
  pub observed_etag : Option Text
  pub part_count : Option ℕ
  pub other_part_size : Option ℕ

abbrev derive_args : Args → Option ℕ → Option Text → Outcome
derive_args args none etag = nothing_to_do
derive_args args (some total) none = nothing_to_do
derive_args args (some total) (some []) = nothing_to_do
derive_args args (some total) (some (c ∷ s)) =
    derive_result (provider_of args.provider) total (c ∷ s) args.part_count args.other_part_size

module _ (md5 : List ℕ → Text) where
  unfoldable pub run : Args → Outcome
  run args =
      let provider = provider_of args.provider in
      elim args.part_md5s [
        | some lines ↦
            compute_result provider args.expected
              (compute_multipart_etag md5 (format_of provider) lines)
        | none ↦ derive_args args args.total_size args.observed_etag
      ]
