-- ===== src/Throttle/Onset/Windows.antt =====
-- The two indices that move over the sorted times find the fullest window.
use storageops.Base.{
  ℕ, zero, suc, ◌+◌, ◌-◌, ◌≤◌, leb, ltb, if◌then◌else◌, ◌≡◌, refl, ◌∙◌, sym, ap, true, false, ◌&&◌,
  List, [], ◌∷◌, sort_by, arith, Bool-cases, inl, inr,
}
use storageops.Base.Sorting.{IsBelow, IsSorted, sort_by-IsSorted}
use storageops.Throttle.Onset.{window, advance, onset_loop, most_in_window}

-- How many of the times lie in the window that begins at the first argument.
unfoldable pub held : ℕ → List ℕ → ℕ
held from [] = 0
held from (t ∷ ts) =
    let rest = held from ts in if leb from t && leb t (from + window) then suc rest else rest

-- The same for times that are no earlier.
unfoldable pub up_to : ℕ → List ℕ → ℕ
up_to from [] = 0
up_to from (t ∷ ts) = let rest = up_to from ts in if leb t (from + window) then suc rest else rest

abbrev pub larger : ℕ → ℕ → ℕ
larger best n = if ltb best n then n else best

-- The most that a window holds which begins at a time of the list, counted from there on.
unfoldable pub fullest : List ℕ → ℕ → ℕ
fullest [] best = best
fullest (t ∷ ts) best = fullest ts (larger best (up_to t (t ∷ ts)))

late_none :
    (from t : ℕ) (ts : List ℕ)
    → leb t (from + window) ≡ false
    → IsBelow leb t ts
    → up_to from ts ≡ 0
unfolding up_to
late_none from t [] h b = refl
late_none from t (u ∷ ts) h (k, b) = ground (arith, late_none from t ts h b)

unfoldable drop : ℕ → List ℕ → List ℕ
drop zero ts = ts
drop (suc n) [] = []
drop (suc n) (t ∷ ts) = drop n ts

advance_eq :
    (from : ℕ) (ts : List ℕ)
    → IsSorted leb ts
    → advance from ts ≡ (up_to from ts, drop (up_to from ts) ts)
unfolding advance up_to drop
advance_eq from [] s = refl
advance_eq from (t ∷ ts) (b, s) = elim (Bool-cases (leb t (from + window))) [
  | inl y ↦ rw (y, advance_eq from ts s) refl
  | inr n ↦ rw (n, late_none from t ts n b) refl
]

drop-up_to :
    (from k : ℕ) (ts : List ℕ)
    → IsSorted leb ts
    → k ≤ up_to from ts
    → k + up_to from (drop k ts) ≡ up_to from ts
unfolding up_to drop
drop-up_to from zero ts s h = ground arith
drop-up_to from (suc k) [] s h = ground arith
drop-up_to from (suc k) (t ∷ ts) (b, s) h = elim (Bool-cases (leb t (from + window))) [
  | inl y ↦ ground (arith, y, drop-up_to from k ts s (ground (arith, y)))
  | inr n ↦ absurd (ground (arith, n, late_none from t ts n b))
]

drop_none : (n : ℕ) → drop n [] ≡ []
unfolding drop
drop_none zero = refl
drop_none (suc n) = refl

suc_first : (k m : ℕ) → suc (k + m) ≡ suc k + m
suc_first k m = omega arith

drop-drop : (m k : ℕ) (ts : List ℕ) → drop m (drop k ts) ≡ drop (k + m) ts
unfolding drop
drop-drop m zero ts = ap (λ n. drop n ts) (omega arith)
drop-drop m (suc k) [] = drop_none m ∙ sym (drop_none (suc k + m))
drop-drop m (suc k) (t ∷ ts) = drop-drop m k ts ∙ ap (λ n. drop n (t ∷ ts)) (suc_first k m)

drop-IsSorted : (k : ℕ) (ts : List ℕ) → IsSorted leb ts → IsSorted leb (drop k ts)
unfolding drop
drop-IsSorted zero ts s = s
drop-IsSorted (suc k) [] s = s
drop-IsSorted (suc k) (t ∷ ts) (b, s) = drop-IsSorted k ts s

up_to_later : (t u : ℕ) (ts : List ℕ) → t ≤ u → up_to t ts ≤ up_to u ts
unfolding up_to
up_to_later t u [] h = ground arith
up_to_later t u (v ∷ ts) h = ground (arith, up_to_later t u ts h)

-- What the loop keeps: the window of the next time holds what was counted.
abbrev Ready : ℕ → List ℕ → Type 0
Ready inside [] = Unit
Ready inside (t ∷ ts) = inside ≤ up_to t (t ∷ ts)

up_to_first : (t : ℕ) (ts : List ℕ) → up_to t (t ∷ ts) ≡ suc (up_to t ts)
unfolding up_to
up_to_first t ts = ground arith

Ready-next : (t : ℕ) (ts : List ℕ) → IsBelow leb t ts → Ready (up_to t ts) ts
Ready-next t [] b = tt
Ready-next t (u ∷ ts) (k, b) = up_to_later t u (u ∷ ts) (ground arith)

one_less : (n m : ℕ) → n ≡ suc m → n - 1 ≡ m
one_less n m h = omega arith

loop_step :
    (t : ℕ) (ts : List ℕ) (inside best : ℕ)
    → IsSorted leb (t ∷ ts)
    → inside ≤ up_to t (t ∷ ts)
    → onset_loop (t ∷ ts) inside (drop inside (t ∷ ts)) best
      ≡ onset_loop ts (up_to t ts) (drop (up_to t ts) ts) (larger best (up_to t (t ∷ ts)))
unfolding onset_loop drop
loop_step t ts inside best s h =
    let l = t ∷ ts in
    let rest = drop inside l in
    let counted : inside + up_to t rest ≡ up_to t l = drop-up_to t inside l s h in
    let behind : drop (up_to t rest) rest ≡ drop (up_to t ts) ts =
      drop-drop (up_to t rest) inside l
      ∙ ap (λ n. drop n l) counted
      ∙ ap (λ n. drop n l) (up_to_first t ts) in
    ap (λ p. onset_loop ts (inside + p.0 - 1) p.1 (larger best (inside + p.0)))
      (advance_eq t rest (drop-IsSorted inside l s))
    ∙ ap (λ n. onset_loop ts (n - 1) (drop (up_to t rest) rest) (larger best n)) counted
    ∙ ap (λ ahead. onset_loop ts (up_to t l - 1) ahead (larger best (up_to t l))) behind
    ∙ ap (λ n. onset_loop ts n (drop (up_to t ts) ts) (larger best (up_to t l)))
        (one_less (up_to t l) (up_to t ts) (up_to_first t ts))

onset_loop-fullest :
    (ts : List ℕ) (inside best : ℕ)
    → IsSorted leb ts
    → Ready inside ts
    → onset_loop ts inside (drop inside ts) best ≡ fullest ts best
unfolding onset_loop fullest
onset_loop-fullest [] inside best s r = refl
onset_loop-fullest (t ∷ ts) inside best (b, s) r =
    loop_step t ts inside best (b, s) r
    ∙ onset_loop-fullest ts (up_to t ts) (larger best (up_to t (t ∷ ts))) s (Ready-next t ts b)

Ready-zero : (ts : List ℕ) → Ready 0 ts
Ready-zero [] = tt
Ready-zero (t ∷ ts) = ground arith

leb_total : (a b : ℕ) → leb a b ≡ false → leb b a ≡ true
leb_total a b h = ground arith

leb_trans : (a b c : ℕ) → leb a b ≡ true → leb b c ≡ true → leb a c ≡ true
leb_trans a b c h k = ground arith

pub IsSorted-times : (times : List ℕ) → IsSorted leb (sort_by leb times)
IsSorted-times times = sort_by-IsSorted leb leb_total leb_trans times

pub most_in_window-fullest : (times : List ℕ) → most_in_window times ≡ fullest (sort_by leb times) 0
unfolding most_in_window drop
most_in_window-fullest times =
    let sts = sort_by leb times in
    onset_loop-fullest sts 0 0 (IsSorted-times times) (Ready-zero sts)
