-- ===== src/Multipart/PartSize/Exact.antt =====
-- The band of part sizes that `derive_part_size` returns is exact.
use storageops.Base.{
  ℕ, zero, suc, ◌-◌, ◌^◌, ◌≤◌, ◌<◌, leb, ltb, if◌then◌else◌, ◌≡◌, refl, ◌↔◌, true, none, some,
  arith, Bool-cases, inl, inr,
}
use storageops.Multipart.Division.{ceil_div, ceil_quotient-exact, ceil_div_iff, ceil_div_pos}
use storageops.Multipart.PartSize.{
  Band, ok, at_most, band_of, infeasible_band, derive_part_size, in_band,
}

-- Parts of `size` bytes split `total` bytes into so many.
abbrev pub parts : ℕ → ℕ → ℕ
parts = ceil_div

module _ (total size : ℕ) (pt : 0 < total) (ps : 0 < size) where
  -- The count is at most k exactly when the size is at least the ceiling of total / k.
  parts_le : (k : ℕ) → 0 < k → (parts total size ≤ k) ↔ (ceil_div total k ≤ size)
  parts_le k pk =
      let (a, b) = ceil_div_iff total size ps k in
      let (c, d) = ceil_div_iff total k pk size in
      (λ h. d (let t = a h in omega arith), λ h. b (let t = c h in omega arith))

  parts_one : (parts total size ≡ 1) ↔ (ceil_div total 1 ≤ size)
  parts_one =
      let (a, b) = parts_le 1 (omega arith) in
      (λ h. a (omega arith), λ h. let t = b h in omega (arith, ceil_div_pos total size ps pt))

  parts_more :
      (k : ℕ)
      → 0 < k
      → (parts total size ≡ suc k) ↔ ((ceil_div total (suc k) ≤ size) × (size < ceil_div total k))
  parts_more k pk =
      let (a, b) = parts_le (suc k) (omega arith) in
      let (c, c') = parts_le k pk in
      (
        λ h. (
          a (omega arith),
          elim (Bool-cases (ltb size (ceil_div total k))) [
            | inl y ↦ ground arith
            | inr n ↦ let t = c' (ground arith) in absurd (omega arith)
          ],
        ),
        λ (h, l). elim (Bool-cases (leb (parts total size) k)) [
          | inl y ↦ let t = c (ground arith) in absurd (omega arith)
          | inr n ↦ let t = b h in ground arith
        ],
      )

-- The branches of `derive_part_size` for at least one part of at least one byte.
module _ (total : ℕ) (pt : 0 < total) (bound : total < 2 ^ 53) where
  derive_one : derive_part_size total 1 ≡ ok (band_of (ceil_div total 1) none)
  unfolding derive_part_size
  derive_one = ground (arith, ceil_quotient-exact total 1 pt bound)

  derive_more :
      (k : ℕ)
      → 0 < k
      → derive_part_size total (suc k) ≡ (
          if ltb (ceil_div total k - 1) (ceil_div total (suc k))
          then ok (infeasible_band (ceil_div total (suc k)) (ceil_div total k - 1))
          else ok (band_of (ceil_div total (suc k)) (some (ceil_div total k - 1))))
  unfolding derive_part_size
  derive_more k pk =
      let e : suc k - 1 ≡ k = omega arith in
      rw e (
        ground
          (arith, ceil_quotient-exact total (suc k) pt bound, ceil_quotient-exact total k pt bound))

  -- What the band says of a size.
  abbrev pub Exact : ℕ → Band → Type 0
  Exact count b = (size : ℕ) → 0 < size → (in_band b size ≡ true) ↔ (parts total size ≡ count)

  band_of-one : Exact 1 (band_of (ceil_div total 1) none)
  unfolding in_band band_of at_most
  band_of-one size ps =
      let (a, b) = parts_one total size pt ps in
      (λ h. b (ground arith), λ h. let x = a h in ground arith)

  band_of-more :
      (k : ℕ)
      → 0 < k
      → Exact (suc k) (band_of (ceil_div total (suc k)) (some (ceil_div total k - 1)))
  unfolding in_band band_of at_most
  band_of-more k pk size ps =
      let (a, b) = parts_more total size pt ps k pk in
      (λ h. b (ground arith, ground arith), λ h. let (x, y) = a h in ground arith)

  infeasible_band-more :
      (k : ℕ)
      → 0 < k
      → ceil_div total k - 1 < ceil_div total (suc k)
      → Exact (suc k) (infeasible_band (ceil_div total (suc k)) (ceil_div total k - 1))
  unfolding in_band infeasible_band
  infeasible_band-more k pk none_fits size ps =
      let (a, b) = parts_more total size pt ps k pk in
      (λ h. cc, λ h. let (x, y) = a h in absurd (omega arith))

  derive_more_total :
      (k : ℕ)
      → 0 < k
      → (b : Band) × (derive_part_size total (suc k) ≡ ok b)
        × Exact (suc k) b
        × (b.part_size_min ≡ ceil_div total (suc k))
        × ((b.feasible ≡ true) ↔ (in_band b (ceil_div total (suc k)) ≡ true))
  unfolding in_band band_of infeasible_band at_most
  derive_more_total k pk = elim (Bool-cases (ltb (ceil_div total k - 1) (ceil_div total (suc k)))) [
    | inl thin ↦ (
      infeasible_band (ceil_div total (suc k)) (ceil_div total k - 1),
      ground (arith, derive_more k pk),
      infeasible_band-more k pk (ground arith),
      refl,
      (λ h. cc, λ h. cc),
    )
    | inr wide ↦ (
      band_of (ceil_div total (suc k)) (some (ceil_div total k - 1)),
      ground (arith, derive_more k pk),
      band_of-more k pk,
      refl,
      (λ h. ground arith, λ h. refl),
    )
  ]

  pub derive_total :
      (count : ℕ)
      → 0 < count
      → (b : Band) × (derive_part_size total count ≡ ok b)
        × Exact count b
        × (b.part_size_min ≡ ceil_div total count)
        × ((b.feasible ≡ true) ↔ (in_band b (ceil_div total count) ≡ true))
  unfolding in_band band_of at_most
  derive_total zero pc = elim pc [ ]
  derive_total (suc zero) pc = (
    band_of (ceil_div total 1) none,
    derive_one,
    band_of-one,
    refl,
    (λ h. ground arith, λ h. refl),
  )
  derive_total (suc (suc k)) pc = derive_more_total (suc k) (omega arith)

-- For an object of 1 to 2^53 - 1 bytes and a count of one part at least, `derive_part_size` returns
-- a band, and a part size lies in it exactly when it splits the object into that many parts.
pub derive_part_size-exact :
    (total count : ℕ)
    → 0 < total
    → total < 2 ^ 53
    → 0 < count
    → (b : Band) × (derive_part_size total count ≡ ok b)
      × ((size : ℕ) → 0 < size → (in_band b size ≡ true) ↔ (parts total size ≡ count))
derive_part_size-exact total count pt bound pc =
    let (b, e, x, _, _) = derive_total total pt bound count pc in (b, e, x)

-- The band is reported as feasible exactly when some part size splits the object into that many
-- parts, and then its smallest size does.
derive_part_size-feasible :
    (total count : ℕ)
    → 0 < total
    → total < 2 ^ 53
    → 0 < count
    → (b : Band) × (derive_part_size total count ≡ ok b)
      × (b.feasible ≡ true → (0 < b.part_size_min) × (parts total b.part_size_min ≡ count))
      × ((size : ℕ) → 0 < size → parts total size ≡ count → b.feasible ≡ true)
unfolding in_band
derive_part_size-feasible total count pt bound pc =
    let (b, e, x, m, fg) = derive_total total pt bound count pc in
    let pos : 0 < ceil_div total count = ceil_div_pos total count pc pt in
    (
      b,
      e,
      (λ h. (omega arith, rw m ((x (ceil_div total count) pos).0 (fg.0 h)))),
      (λ size ps h. let t = (x size ps).1 h in ground arith),
    )
