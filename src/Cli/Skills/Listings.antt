-- ===== src/Cli/Skills/Listings.antt =====
-- Directories, whose entries have different names.
use storageops.Base.{
  if◌then◌else◌, ◌≡◌, refl, ◌∙◌, sym, ap, Bool, true, false, not, ◌&&◌, ◌||◌, Option, none, some,
  [], ◌∷◌, all, keep, Text, ◌===◌, ===_iff, ===_refl, insert_sorted, sort_by, arith, Bool-cases,
  inl, inr,
}
use storageops.Base.Dict.{Dict, lookup, contains, insert, contains-lookup-none}

different : (i k : Text) → (i === k) ≡ false → (k === i) ≡ false
different i k h = elim (Bool-cases (k === i)) [
  | inl y ↦ absurd (ground (arith, ===_refl i, ap (λ x. i === x) ((===_iff k i).0 y)))
  | inr n ↦ n
]

module _ {ℓ} {V : Type ℓ} where
  unfoldable pub unique : Dict V → Bool
  unique [] = true
  unique ((k, v) ∷ d) = not (contains d k) && unique d

  pub lookup-none-contains : (d : Dict V) (k : Text) → lookup d k ≡ none → contains d k ≡ false
  unfolding lookup contains
  lookup-none-contains [] k h = refl
  lookup-none-contains ((i, w) ∷ d) k h = ground (arith, lookup-none-contains d k)

  pub contains-insert :
      (d : Dict V) (j k : Text) (v : V) → contains (insert d k v) j ≡ (k === j || contains d j)
  unfolding contains insert
  contains-insert [] j k v = ground arith
  contains-insert ((i, w) ∷ d) j k v = elim (Bool-cases (i === k)) [
    | inl y ↦ rw y (ground (arith, ap (λ x. x === j) ((===_iff i k).0 y)))
    | inr n ↦ ground (arith, contains-insert d j k v)
  ]

  pub unique-insert :
      (d : Dict V) (k : Text) (v : V) → unique d ≡ true → unique (insert d k v) ≡ true
  unfolding unique insert contains
  unique-insert [] k v h = ground arith
  unique-insert ((i, w) ∷ d) k v h = elim (Bool-cases (i === k)) [
    | inl y ↦ rw y h
    | inr n ↦
        ground (arith, contains-insert d i k v, different i k n, unique-insert d k v (ground arith))
  ]

  contains-keep :
      (q : Text × V → Bool) (d : Dict V) (k : Text)
      → contains d k ≡ false
      → contains (keep q d) k ≡ false
  unfolding contains keep
  contains-keep q [] k h = refl
  contains-keep q ((i, w) ∷ d) k h = ground (arith, contains-keep q d k (ground arith))

  pub unique-keep : (q : Text × V → Bool) (d : Dict V) → unique d ≡ true → unique (keep q d) ≡ true
  unfolding unique keep
  unique-keep q [] h = refl
  unique-keep q ((i, w) ∷ d) h =
      ground (arith, contains-keep q d i (ground arith), unique-keep q d (ground arith))

  abbrev pub kept : (Text × V → Bool) → Text → Option V → Option V
  kept q k none = none
  kept q k (some v) = if q (k, v) then some v else none

  -- Where names differ, an entry that is filtered out is not found again.
  pub lookup-keep :
      (q : Text × V → Bool) (d : Dict V) (k : Text)
      → unique d ≡ true
      → lookup (keep q d) k ≡ kept q k (lookup d k)
  unfolding unique lookup keep
  lookup-keep q [] k h = refl
  lookup-keep q ((i, w) ∷ d) k h = elim (Bool-cases (i === k)) [
    | inl y ↦
        let e = (===_iff i k).0 y in
        let gone =
          contains-lookup-none (keep q d) k
            (contains-keep q d k (ap (contains d) (sym e) ∙ ground arith)) in
        elim (Bool-cases (q (i, w))) [
          | inl m ↦ ground (arith, m, ap (λ x. q (x, w)) e)
          | inr m ↦ ground (arith, m, ap (λ x. q (x, w)) e, gone)
        ]
    | inr n ↦ ground (arith, lookup-keep q d k (ground arith))
  ]

  module _ (le : Text × V → Text × V → Bool) where
    lookup-insert_sorted :
        (e : Text × V) (d : Dict V) (k : Text)
        → contains d e.0 ≡ false
        → lookup (insert_sorted le e d) k ≡ lookup (e ∷ d) k
    unfolding lookup insert_sorted contains
    lookup-insert_sorted (j, v) [] k h = refl
    lookup-insert_sorted (j, v) ((i, w) ∷ d) k h =
        let later = lookup-insert_sorted (j, v) d k (ground arith) in
        elim (Bool-cases (le (j, v) (i, w))) [
          | inl y ↦ rw y refl
          | inr n ↦ elim (Bool-cases (i === k)) [
            | inl y ↦
                let other : (j === k) ≡ false =
                  ap (λ x. j === x) (sym ((===_iff i k).0 y)) ∙ different i j (ground arith) in
                rw n (ground (arith, other))
            | inr m ↦ rw n (ground (arith, m, later))
          ]
        ]

    contains-insert_sorted :
        (e : Text × V) (d : Dict V) (k : Text)
        → contains (insert_sorted le e d) k ≡ contains (e ∷ d) k
    unfolding contains insert_sorted
    contains-insert_sorted (j, v) [] k = refl
    contains-insert_sorted (j, v) ((i, w) ∷ d) k = ground (arith, contains-insert_sorted (j, v) d k)

    pub contains-sort_by : (d : Dict V) (k : Text) → contains (sort_by le d) k ≡ contains d k
    unfolding contains sort_by
    contains-sort_by [] k = refl
    contains-sort_by ((i, w) ∷ d) k =
        contains-insert_sorted (i, w) (sort_by le d) k
        ∙ ap (λ b. i === k || b) (contains-sort_by d k)

    unique-insert_sorted :
        (e : Text × V) (d : Dict V)
        → contains d e.0 ≡ false
        → unique d ≡ true
        → unique (insert_sorted le e d) ≡ true
    unfolding unique insert_sorted contains
    unique-insert_sorted (j, v) [] n h = refl
    unique-insert_sorted (j, v) ((i, w) ∷ d) n h = ground (
      arith,
      contains-insert_sorted (j, v) d i,
      different i j (ground arith),
      unique-insert_sorted (j, v) d (ground arith) (ground arith),
    )

    pub unique-sort_by : (d : Dict V) → unique d ≡ true → unique (sort_by le d) ≡ true
    unfolding unique sort_by
    unique-sort_by [] h = refl
    unique-sort_by ((i, w) ∷ d) h =
        unique-insert_sorted (i, w) (sort_by le d) (contains-sort_by d i ∙ ground arith)
          (unique-sort_by d (ground arith))

    -- Sorting entries with different names changes none.
    pub lookup-sort_by :
        (d : Dict V) (k : Text) → unique d ≡ true → lookup (sort_by le d) k ≡ lookup d k
    unfolding lookup sort_by unique
    lookup-sort_by [] k h = refl
    lookup-sort_by ((i, w) ∷ d) k h =
        lookup-insert_sorted (i, w) (sort_by le d) k (contains-sort_by d i ∙ ground arith)
        ∙ ap (λ o. if i === k then some w else o) (lookup-sort_by d k (ground arith))

    all-insert_sorted :
        (q : Text × V → Bool) (e : Text × V) (d : Dict V)
        → all q (insert_sorted le e d) ≡ all q (e ∷ d)
    unfolding all insert_sorted
    all-insert_sorted q e [] = refl
    all-insert_sorted q e (x ∷ d) = ground (arith, all-insert_sorted q e d)

    pub all-sort_by : (q : Text × V → Bool) (d : Dict V) → all q (sort_by le d) ≡ all q d
    unfolding all sort_by
    all-sort_by q [] = refl
    all-sort_by q (e ∷ d) =
        all-insert_sorted q e (sort_by le d) ∙ ap (λ b. q e && b) (all-sort_by q d)
