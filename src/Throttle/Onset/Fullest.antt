-- ===== src/Throttle/Onset/Fullest.antt =====
-- No window of a minute holds more throttled lines than the onset rate says.
use storageops.Base.{
  ℕ, ◌≤◌, leb, ltb, ◌≡◌, refl, ◌⊎◌, false, List, [], ◌∷◌, insert_sorted, sort_by, arith, Bool-cases,
  inl, inr,
}
use storageops.Base.Sorting.{IsBelow, IsSorted}
use storageops.Throttle.Onset.{most_in_window}
use storageops.Throttle.Onset.Windows.{
  held, up_to, larger, fullest, most_in_window-fullest, IsSorted-times,
}

held_later : (a t : ℕ) (ts : List ℕ) → a ≤ t → held a ts ≤ up_to t ts
unfolding held up_to
held_later a t [] h = ground arith
held_later a t (u ∷ ts) h = ground (arith, held_later a t ts h)

held_here : (t : ℕ) (ts : List ℕ) → IsBelow leb t ts → up_to t ts ≤ held t ts
unfolding held up_to
held_here t [] b = ground arith
held_here t (u ∷ ts) (k, b) = ground (arith, held_here t ts b)

held_more : (a t : ℕ) (ts : List ℕ) → held a ts ≤ held a (t ∷ ts)
unfolding held
held_more a t ts = ground arith

held_first : (t : ℕ) (ts : List ℕ) → IsBelow leb t ts → up_to t (t ∷ ts) ≤ held t (t ∷ ts)
unfolding held up_to
held_first t ts b = ground (arith, held_here t ts b)

held_before : (a t : ℕ) (ts : List ℕ) → leb a t ≡ false → held a (t ∷ ts) ≡ held a ts
unfolding held
held_before a t ts h = ground (arith, h)

fullest_least : (ts : List ℕ) (best : ℕ) → best ≤ fullest ts best
unfolding fullest
fullest_least [] best = ground arith
fullest_least (t ∷ ts) best = ground (arith, fullest_least ts (larger best (up_to t (t ∷ ts))))

fullest_bound : (a : ℕ) (ts : List ℕ) (best : ℕ) → IsSorted leb ts → held a ts ≤ fullest ts best
unfolding fullest held
fullest_bound a [] best s = ground arith
fullest_bound a (t ∷ ts) best (b, s) =
    let later = larger best (up_to t (t ∷ ts)) in
    elim (Bool-cases (leb a t)) [
      | inl y ↦ ground (arith, held_later a t (t ∷ ts) (ground arith), fullest_least ts later)
      | inr n ↦ ground (arith, n, fullest_bound a ts later s)
    ]

fullest_attained :
    (ts : List ℕ) (best : ℕ)
    → IsSorted leb ts
    → (fullest ts best ≡ best) ⊎ ((a : ℕ) × (fullest ts best ≤ held a ts))
unfolding fullest
fullest_attained [] best s = inl refl
fullest_attained (t ∷ ts) best (b, s) =
    let n = up_to t (t ∷ ts) in
    elim (fullest_attained ts (larger best n) s) [
      | inl e ↦ elim (Bool-cases (ltb best n)) [
        | inl y ↦ inr (t, ground (arith, e, y, held_first t ts b))
        | inr m ↦ inl (ground (arith, e, m))
      ]
      | inr (a, h) ↦ inr (a, ground (arith, h, held_more a t ts))
    ]

held-insert_sorted : (a t : ℕ) (ts : List ℕ) → held a (insert_sorted leb t ts) ≡ held a (t ∷ ts)
unfolding held insert_sorted
held-insert_sorted a t [] = refl
held-insert_sorted a t (u ∷ ts) = ground (arith, held-insert_sorted a t ts)

held-sort_by : (a : ℕ) (ts : List ℕ) → held a (sort_by leb ts) ≡ held a ts
unfolding held sort_by
held-sort_by a [] = refl
held-sort_by a (t ∷ ts) = ground (arith, held-insert_sorted a t (sort_by leb ts), held-sort_by a ts)

-- The count behind the onset rate is the most that a window of a minute holds: no window holds more,
-- wherever it begins, and one holds as many. The times may come in any order.
pub most_in_window_lem :
    (times : List ℕ)
    → ((a : ℕ) → held a times ≤ most_in_window times)
      × ((a : ℕ) × (held a times ≡ most_in_window times))
most_in_window_lem times =
    let sts = sort_by leb times in
    let s = IsSorted-times times in
    let most = most_in_window-fullest times in
    let bound : (a : ℕ) → held a times ≤ most_in_window times =
      λ a. omega (arith, most, held-sort_by a times, fullest_bound a sts 0 s) in
    (
      bound,
      elim (fullest_attained sts 0 s) [
        | inl e ↦ (0, omega (arith, most, e, bound 0))
        | inr (a, h) ↦ (a, omega (arith, most, h, held-sort_by a times, bound a))
      ],
    )
