-- ===== src/Base/Affixes.antt =====
-- What the tests for prefixes, suffixes and members say.
use storageops.Base.{
  ℕ, ◌≡◌, refl, sym, ap, ◌↔◌, ◌⊎◌, inl, inr, Bool, true, List, [], ◌∷◌, ◌++◌, any, Text,
  starts_with, ends_with, insert_sorted, sort_by, drop_last, ◌===◌, ===_iff, arith, Bool-cases,
}

starts_with→ : (s t : Text) → starts_with s t ≡ true → (rest : Text) × (t ≡ s ++ rest)
unfolding starts_with
starts_with→ [] t h = (t, refl)
starts_with→ (c ∷ s) [] h = absurd (ground arith)
starts_with→ (c ∷ s) (d ∷ t) h =
    let (rest, e) = starts_with→ s t (ground arith) in let head : c ≡ d = ground arith in (rest, cc)

starts_with← : (s rest : Text) → starts_with s (s ++ rest) ≡ true
unfolding starts_with
starts_with← [] rest = refl
starts_with← (c ∷ s) rest = ground (arith, starts_with← s rest)

pub starts_with_iff : (s t : Text) → (starts_with s t ≡ true) ↔ ((rest : Text) × (t ≡ s ++ rest))
starts_with_iff s t = (starts_with→ s t, λ (rest, e). rw e (starts_with← s rest))

ends_with→ : (s t : Text) → ends_with s t ≡ true → (stem : Text) × (t ≡ stem ++ s)
unfolding ends_with
ends_with→ s [] h = ([], sym ((===_iff s []).0 h))
ends_with→ s (c ∷ t) h = elim (Bool-cases (s === (c ∷ t))) [
  | inl e ↦ ([], sym ((===_iff s (c ∷ t)).0 e))
  | inr n ↦ let (stem, e) = ends_with→ s t (ground arith) in (c ∷ stem, ap (λ x. c ∷ x) e)
]

ends_with_self : (s : Text) → ends_with s s ≡ true
unfolding ends_with
ends_with_self [] = refl
ends_with_self (c ∷ s) = ground (arith, (===_iff (c ∷ s) (c ∷ s)).1 refl)

ends_with← : (stem s : Text) → ends_with s (stem ++ s) ≡ true
unfolding ends_with
ends_with← [] s = ends_with_self s
ends_with← (c ∷ stem) s = ground (arith, ends_with← stem s)

pub ends_with_iff : (s t : Text) → (ends_with s t ≡ true) ↔ ((stem : Text) × (t ≡ stem ++ s))
ends_with_iff s t = (ends_with→ s t, λ (stem, e). rw e (ends_with← stem s))

pub drop_last-append : (s : Text) (c d : ℕ) → drop_last (s ++ (c ∷ d ∷ [])) ≡ s ++ (c ∷ [])
unfolding drop_last
drop_last-append [] c d = refl
drop_last-append (a ∷ []) c d = refl
drop_last-append (a ∷ b ∷ s) c d = ap (λ x. a ∷ x) (drop_last-append (b ∷ s) c d)

-- A member of a list, at its place.
pub data Among {ℓ} {A : Type ℓ} : A → List A → Type ℓ where
  here : {x : A} {xs : List A} → Among x (x ∷ xs)
  there : {x y : A} {xs : List A} → Among x xs → Among x (y ∷ xs)

module _ {ℓ} {A : Type ℓ} (p : A → Bool) where
  any→ : (xs : List A) → any p xs ≡ true → (x : A) × Among x xs × (p x ≡ true)
  unfolding any
  any→ [] h = absurd (ground arith)
  any→ (x ∷ xs) h = elim (Bool-cases (p x)) [
    | inl e ↦ (x, here, e)
    | inr n ↦ let (y, m, e) = any→ xs (ground arith) in (y, there m, e)
  ]

  pub any← : {x : A} {xs : List A} → Among x xs → p x ≡ true → any p xs ≡ true
  unfolding any
  any← here h = ground (arith, h)
  any← (there m) h = ground (arith, any← m h)

  pub any_iff : (xs : List A) → (any p xs ≡ true) ↔ ((x : A) × Among x xs × (p x ≡ true))
  any_iff xs = (any→ xs, λ (x, m, e). any← m e)

module _ {ℓ} {A : Type ℓ} where
  Among-second : {y x z : A} {ws : List A} → Among y (x ∷ ws) → Among y (x ∷ z ∷ ws)
  Among-second here = here
  Among-second (there j) = there (there j)

  Among-swap :
      (y x z : A) (zs ws : List A)
      → (Among y zs → Among y (x ∷ ws))
      → Among y (z ∷ zs)
      → Among y (x ∷ z ∷ ws)
  Among-swap y x z zs ws f here = there here
  Among-swap y x z zs ws f (there k) = Among-second (f k)

  pub Among-cons :
      (y x : A) (xs ys : List A) → (Among y xs → Among y ys) → Among y (x ∷ xs) → Among y (x ∷ ys)
  Among-cons y x xs ys f here = here
  Among-cons y x xs ys f (there k) = there (f k)

module _ {ℓ} {A : Type ℓ} (le : A → A → Bool) where
  Among-insert_sorted : (y x : A) (xs : List A) → Among y (insert_sorted le x xs) → Among y (x ∷ xs)
  unfolding insert_sorted
  Among-insert_sorted y x [] m = m
  Among-insert_sorted y x (z ∷ zs) m = elim (Bool-cases (le x z)) [
    | inl e ↦ rw e at m
    | inr n ↦ Among-swap y x z _ zs (Among-insert_sorted y x zs) (rw n at m)
  ]

  -- Sorting brings no element in.
  pub Among-sort_by : (y : A) (xs : List A) → Among y (sort_by le xs) → Among y xs
  unfolding sort_by
  Among-sort_by y [] m = m
  Among-sort_by y (x ∷ xs) m =
      Among-cons y x (sort_by le xs) xs (Among-sort_by y xs)
        (Among-insert_sorted y x (sort_by le xs) m)

  insert_sorted-here : (x : A) (xs : List A) → Among x (insert_sorted le x xs)
  unfolding insert_sorted
  insert_sorted-here x [] = here
  insert_sorted-here x (z ∷ zs) = elim (Bool-cases (le x z)) [
    | inl e ↦ rw e here
    | inr n ↦ rw n (there (insert_sorted-here x zs))
  ]

  insert_sorted-there : (y x : A) (xs : List A) → Among y xs → Among y (insert_sorted le x xs)
  unfolding insert_sorted
  insert_sorted-there y x [] m = there m
  insert_sorted-there y x (z ∷ zs) m = elim (Bool-cases (le x z)) [
    | inl e ↦ rw e (there m)
    | inr n ↦ rw n (Among-cons y z zs (insert_sorted le x zs) (insert_sorted-there y x zs) m)
  ]

  -- Sorting loses no element.
  pub sort_by-Among : (y : A) (xs : List A) → Among y xs → Among y (sort_by le xs)
  unfolding sort_by
  sort_by-Among y [] m = m
  sort_by-Among y (x ∷ xs) here = insert_sorted-here x (sort_by le xs)
  sort_by-Among y (x ∷ xs) (there m) =
      insert_sorted-there y x (sort_by le xs) (sort_by-Among y xs m)

module _ {ℓ} {A : Type ℓ} where
  pub Among-cases : (x y : A) (ys : List A) → Among x (y ∷ ys) → (x ≡ y) ⊎ Among x ys
  Among-cases x y ys here = inl refl
  Among-cases x y ys (there m) = inr m

  pub Among-append_cases : (x : A) (xs ys : List A) → Among x (xs ++ ys) → Among x xs ⊎ Among x ys
  Among-append_cases x [] ys m = inr m
  Among-append_cases x (y ∷ xs) ys here = inl here
  Among-append_cases x (y ∷ xs) ys (there m) = elim (Among-append_cases x xs ys m) [
    | inl a ↦ inl (there a)
    | inr b ↦ inr b
  ]

  pub Among-append_left : (x : A) (xs ys : List A) → Among x xs → Among x (xs ++ ys)
  Among-append_left x [] ys m = elim m [ ]
  Among-append_left x (y ∷ xs) ys m = Among-cons x y xs (xs ++ ys) (Among-append_left x xs ys) m

  pub Among-append_right : (x : A) (xs ys : List A) → Among x ys → Among x (xs ++ ys)
  Among-append_right x [] ys m = m
  Among-append_right x (y ∷ xs) ys m = there (Among-append_right x xs ys m)
