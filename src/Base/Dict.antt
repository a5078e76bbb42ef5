-- ===== src/Base/Dict.antt =====
-- Python's dict keyed by texts, in the order of insertion.
use storageops.Base.{
  ◌≡◌, refl, Bool, true, false, ◌||◌, Option, none, some, List, [], ◌∷◌, if◌then◌else◌, Text, ◌===◌,
  ===_iff, ===_refl, arith, Bool-cases, inl, inr, ◌∙◌, ap,
}

abbrev pub Dict {ℓ} : Type ℓ → Type ℓ
Dict V = List (Text × V)

module _ {ℓ} {V : Type ℓ} where
  -- `d.get(k)`
  unfoldable pub lookup : Dict V → Text → Option V
  lookup [] k = none
  lookup ((j, v) ∷ d) k = if j === k then some v else lookup d k

  -- `k in d`
  unfoldable pub contains : Dict V → Text → Bool
  contains [] k = false
  contains ((j, v) ∷ d) k = j === k || contains d k

  -- `d[k] = v`
  unfoldable pub insert : Dict V → Text → V → Dict V
  insert [] k v = (k, v) ∷ []
  insert ((j, w) ∷ d) k v = if j === k then (j, v) ∷ d else (j, w) ∷ insert d k v

  -- `del d[k]`, of every entry for the key.
  unfoldable pub without : Dict V → Text → Dict V
  without [] k = []
  without ((j, w) ∷ d) k = let rest = without d k in if j === k then rest else (j, w) ∷ rest

  pub lookup-insert_self : (d : Dict V) (k : Text) (v : V) → lookup (insert d k v) k ≡ some v
  unfolding lookup insert
  lookup-insert_self [] k v = ground (arith, ===_refl k)
  lookup-insert_self ((j, w) ∷ d) k v = ground (arith, lookup-insert_self d k v)

  pub lookup-insert_ne :
      (d : Dict V) (j k : Text) (v : V) → (k === j) ≡ false → lookup (insert d k v) j ≡ lookup d j
  unfolding lookup insert
  lookup-insert_ne [] j k v h = ground arith
  lookup-insert_ne ((i, w) ∷ d) j k v h = elim (Bool-cases (i === k)) [
    | inl e ↦ rw e (rw (ap (λ x. x === j) ((===_iff i k).0 e) ∙ h) refl)
    | inr n ↦ ground (arith, lookup-insert_ne d j k v h)
  ]

  pub contains-lookup-none : (d : Dict V) (k : Text) → contains d k ≡ false → lookup d k ≡ none
  unfolding lookup contains
  contains-lookup-none [] k h = refl
  contains-lookup-none ((j, v) ∷ d) k h = ground (arith, contains-lookup-none d k)

  pub lookup-contains : (d : Dict V) (k : Text) (v : V) → lookup d k ≡ some v → contains d k ≡ true
  unfolding lookup contains
  lookup-contains [] k v h = absurd (ground arith)
  lookup-contains ((j, w) ∷ d) k v h = ground (arith, lookup-contains d k v)

  -- Writing a key that is not there changes none that is.
  pub lookup-insert_new :
      (d : Dict V) (j k : Text) (v : V) (w : V)
      → contains d k ≡ false
      → lookup d j ≡ some w
      → lookup (insert d k v) j ≡ some w
  lookup-insert_new d j k v w h e = elim (Bool-cases (k === j)) [
    | inl same ↦
        let present = lookup-contains d j w e in
        let k_is_j = (===_iff k j).0 same in absurd (ground (arith, ap (contains d) k_is_j))
    | inr other ↦ lookup-insert_ne d j k v other ∙ e
  ]
