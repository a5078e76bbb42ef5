-- ===== src/Multipart/PartSize/Rechunking.antt =====
-- What the verdicts of `analyze_rechunk` say of the part counts.
use storageops.Base.{
  ℕ, ◌+◌, ◌-◌, ◌^◌, ◌<◌, leb, ◌≡◌, ◌≢◌, ◌⊎◌, ◌↔◌, true, false, arith, Bool-cases, Option-cases, inl,
  inr, ◌∙◌, sym,
}
use storageops.Multipart.Division.{ceil_quotient-exact, ceil_div_pos}
use storageops.Multipart.PartSize.{
  Band, ok, at_most, in_band, band_is_unique, is_number, judge, analyze_rechunk, Rechunk,
  etag_differs, etag_matches, outside_band,
}
use storageops.Multipart.PartSize.Exact.{parts, derive_total}

-- A band is one size only if it has a largest size, which is its smallest.
unique_size :
    (b : Band) (size : ℕ) → band_is_unique b ≡ true → in_band b size ≡ true → size ≡ b.part_size_min
unfolding band_is_unique is_number in_band at_most
unique_size b size u h = elim (Option-cases b.part_size_max) [
  | inl e ↦ absurd (ground arith)
  | inr (m, e) ↦ ground arith
]

-- A band that is not one size only holds, beside one of its sizes, the next or the one before.
other_size :
    (b : Band) (size : ℕ)
    → band_is_unique b ≡ false
    → in_band b size ≡ true
    → (in_band b (size + 1) ≡ true) ⊎ ((in_band b (size - 1) ≡ true) × (b.part_size_min < size))
unfolding band_is_unique is_number in_band at_most
other_size b size u h = elim (Option-cases b.part_size_max) [
  | inl e ↦ inl (ground arith)
  | inr (m, e) ↦ elim (Bool-cases (leb (size + 1) m)) [
    | inl y ↦ inl (ground arith)
    | inr n ↦ inr (ground arith, ground arith)
  ]
]

-- What a band that is exact lets `judge` say of another part size.
module _ (total observed other : ℕ) (b : Band) (po : 0 < other) (pm : 0 < b.part_size_min)
    (x : (size : ℕ) → 0 < size → (in_band b size ≡ true) ↔ (parts total size ≡ observed)) where
  abbrev Alone : Type 0
  Alone = (size : ℕ) → 0 < size → parts total size ≡ observed → size ≡ other

  judge_differs :
      ((judge b (parts total other) observed other).0 ≡ etag_differs)
      ↔ (parts total other ≢ observed)
  unfolding judge
  judge_differs = let (i, o) = x other po in (λ h e. let t = o e in ground arith, λ n. ground arith)

  judge_inside : (judge b (parts total other) observed other).1 ≢ outside_band
  unfolding judge
  judge_inside h = let (i, o) = x other po in ground arith

  judge_matches :
      ((judge b (parts total other) observed other).0 ≡ etag_matches)
      ↔ ((parts total other ≡ observed) × Alone)
  unfolding judge
  judge_matches =
      let (i, o) = x other po in
      (
        λ h.
            let here : in_band b other ≡ true = ground arith in
            let only : band_is_unique b ≡ true = ground arith in
            (
              i here,
              λ size ps e.
                  unique_size b size only ((x size ps).1 e) ∙ sym (unique_size b other only here),
            ),
        λ (e, alone). elim (Bool-cases (band_is_unique b)) [
          | inl u ↦ let t = o e in ground arith
          | inr u ↦ elim (other_size b other u (o e)) [
            | inl more ↦
                let t = alone (other + 1) (omega arith) ((x (other + 1) (omega arith)).0 more) in
                absurd (omega arith)
            | inr (less, above) ↦
                let t = alone (other - 1) (omega arith) ((x (other - 1) (omega arith)).0 less) in
                absurd (omega arith)
          ]
        ],
      )

-- For an object of 1 to 2^53 - 1 bytes and positive counts and sizes, `analyze_rechunk` returns a
-- result. It says that the ETag differs exactly when the other part size gives another number of
-- parts, and that it matches exactly when the other part size gives the observed number and no other
-- size does. The branch for a size outside the band is never taken.
pub analyze_rechunk-exact :
    (total observed other : ℕ)
    → 0 < total
    → total < 2 ^ 53
    → 0 < observed
    → 0 < other
    → (r : Rechunk) × (analyze_rechunk total observed other ≡ ok r)
      × ((r.verdict ≡ etag_differs) ↔ (parts total other ≢ observed))
      × ((r.verdict ≡ etag_matches) ↔ (
          (parts total other ≡ observed)
          × ((size : ℕ) → 0 < size → parts total size ≡ observed → size ≡ other)))
      × (r.explanation ≢ outside_band)
unfolding analyze_rechunk
analyze_rechunk-exact total observed other pt bound pc po =
    let (b, e, x, m, _) = derive_total total pt bound observed pc in
    let pm : 0 < b.part_size_min = rw m (ceil_div_pos total observed pc pt) in
    let c = parts total other in
    (
      record {
        other_part_size = other;
        other_part_count = c;
        verdict = (judge b c observed other).0;
        explanation = (judge b c observed other).1;
      },
      ground (arith, ceil_quotient-exact total other pt bound),
      judge_differs total observed other b po pm x,
      judge_matches total observed other b po pm x,
      judge_inside total observed other b po pm x,
    )
