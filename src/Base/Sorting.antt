-- ===== src/Base/Sorting.antt =====
-- The stable sort gives a sorted permutation.
use mathlib.Core.Path.{◌≡◌}
use mathlib.Core.Logic.{inl, inr}
use mathlib.Core.Bool.{Bool, true, false}
use mathlib.Core.List.{List, [], ◌∷◌, Perm}
use mathlib.Core.List.Perm
use storageops.Base.Bools.{Bool-cases}
use storageops.Base.Lists.{insert_sorted, sort_by}

module _ {ℓ} {A : Type ℓ} (le : A → A → Bool) where
  -- Every element of the list is at least the first argument.
  abbrev pub IsBelow : A → List A → Type 0
  IsBelow x [] = Unit
  IsBelow x (y ∷ ys) = (le x y ≡ true) × IsBelow x ys

  abbrev pub IsSorted : List A → Type 0
  IsSorted [] = Unit
  IsSorted (x ∷ xs) = IsBelow x xs × IsSorted xs

  insert_sorted-perm : (x : A) (xs : List A) → Perm (insert_sorted le x xs) (x ∷ xs)
  unfolding insert_sorted
  insert_sorted-perm x [] = Perm.refl _
  insert_sorted-perm x (y ∷ ys) = elim (Bool-cases (le x y)) [
    | inl e ↦ rw e (Perm.refl _)
    | inr e ↦ rw e (Perm.trans (Perm.cons y (insert_sorted-perm x ys)) (Perm.swap _ _ _))
  ]

  pub sort_by-perm : (xs : List A) → Perm (sort_by le xs) xs
  unfolding sort_by
  sort_by-perm [] = Perm.refl _
  sort_by-perm (x ∷ xs) =
      Perm.trans (insert_sorted-perm x (sort_by le xs)) (Perm.cons x (sort_by-perm xs))

module _ {ℓ} {A : Type ℓ} (le : A → A → Bool) (total : (a b : A) → le a b ≡ false → le b a ≡ true)
    (trans : (a b c : A) → le a b ≡ true → le b c ≡ true → le a c ≡ true) where
  IsBelow-trans : (x y : A) (ys : List A) → le x y ≡ true → IsBelow le y ys → IsBelow le x ys
  IsBelow-trans x y [] h b = tt
  IsBelow-trans x y (z ∷ zs) h (k, b) = (trans x y z h k, IsBelow-trans x y zs h b)

  IsBelow-insert :
      (x y : A) (ys : List A)
      → le y x ≡ true
      → IsBelow le y ys
      → IsBelow le y (insert_sorted le x ys)
  unfolding insert_sorted
  IsBelow-insert x y [] h b = (h, tt)
  IsBelow-insert x y (z ∷ zs) h (k, b) = elim (Bool-cases (le x z)) [
    | inl e ↦ rw e (h, (k, b))
    | inr e ↦ rw e (k, IsBelow-insert x y zs h b)
  ]

  insert_sorted-IsSorted :
      (x : A) (xs : List A) → IsSorted le xs → IsSorted le (insert_sorted le x xs)
  unfolding insert_sorted
  insert_sorted-IsSorted x [] s = (tt, tt)
  insert_sorted-IsSorted x (y ∷ ys) (b, s) = elim (Bool-cases (le x y)) [
    | inl e ↦ rw e ((e, IsBelow-trans x y ys e b), (b, s))
    | inr e ↦ rw e (IsBelow-insert x y ys (total x y e) b, insert_sorted-IsSorted x ys s)
  ]

  pub sort_by-IsSorted : (xs : List A) → IsSorted le (sort_by le xs)
  unfolding sort_by
  sort_by-IsSorted [] = tt
  sort_by-IsSorted (x ∷ xs) = insert_sorted-IsSorted x (sort_by le xs) (sort_by-IsSorted xs)
