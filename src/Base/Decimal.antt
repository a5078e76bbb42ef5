-- ===== src/Base/Decimal.antt =====
-- `str(n)` of a natural number, and `int(s)` of a run of ASCII digits.
use Prim.Native.Nat.{ℕ, zero, suc, ◌+◌, ◌-◌, ◌*◌, ◌/◌, ◌%◌, ◌≤◌, ◌<◌}
use mathlib.Core.Path.{◌≡◌, refl, ap, ◌∙◌}
use mathlib.Core.Bool.{Bool, true, not, ◌&&◌}
use mathlib.Core.Logic.{inl, inr}
use mathlib.Core.List.{[], ◌∷◌, ◌++◌, foldl, foldl-append}
use native.Mathlib.Omega.{arith}
use storageops.Base.Bools.{ltb, leb, if◌then◌else◌, Bool-cases}
use storageops.Base.Lists.{all, length, length-append}
use storageops.Base.Strings.{Text}

unfoldable pub is_digit : ℕ → Bool
is_digit c = leb b'0' c && leb c b'9'

unfoldable pub decimal_loop : ℕ → ℕ → Text
decimal_loop zero n = []
decimal_loop (suc f) n =
    let more = decimal_loop f (n / 10) ++ ((n % 10 + 48) ∷ []) in
    if ltb n 10 then (n + 48) ∷ [] else more

-- `str(n)`. One round writes a digit, and n + 1 rounds are enough for n.
unfoldable pub decimal : ℕ → Text
unfolding decimal_loop
decimal n = decimal_loop (suc n) n

unfoldable pub add_digit : ℕ → ℕ → ℕ
add_digit n c = n * 10 + (c - 48)

-- `int(s)`, for a text of digits.
unfoldable pub to_int : Text → ℕ
unfolding add_digit
to_int s = foldl add_digit 0 s

to_int-decimal_loop : (f n : ℕ) → n < f → to_int (decimal_loop f n) ≡ n
unfolding to_int decimal_loop
to_int-decimal_loop zero n h = elim h [ ]
to_int-decimal_loop (suc f) n h = elim (Bool-cases (ltb n 10)) [
  | inl e ↦ rw e (omega arith)
  | inr e ↦
      let big : 10 ≤ n = ground arith in
      let ih : to_int (decimal_loop f (n / 10)) ≡ n / 10 =
        to_int-decimal_loop f (n / 10) (omega arith) in
      rw e (rw (foldl-append) (ap (λ (m : ℕ). m * 10 + (n % 10 + 48 - 48)) ih ∙ omega arith))
]

-- Writing a number and reading it back gives the number.
pub to_int-decimal : (n : ℕ) → to_int (decimal n) ≡ n
unfolding decimal
to_int-decimal n = to_int-decimal_loop (suc n) n (omega arith)

all-append :
    (p : ℕ → Bool) (xs ys : Text) → all p xs ≡ true → all p ys ≡ true → all p (xs ++ ys) ≡ true
unfolding all
all-append p [] ys h k = k
all-append p (x ∷ xs) ys h k = ground (arith, all-append p xs ys)

is_digit-decimal_loop : (f n : ℕ) → all is_digit (decimal_loop f n) ≡ true
unfolding all decimal_loop
is_digit-decimal_loop zero n = refl
is_digit-decimal_loop (suc f) n = elim (Bool-cases (ltb n 10)) [
  | inl e ↦ rw e (last_digit n (ground arith))
  | inr e ↦ rw e (
      all-append is_digit _ _ (is_digit-decimal_loop f (n / 10))
        (last_digit (n % 10) (omega arith)))
]
  where
    last_digit : (d : ℕ) → d < 10 → all is_digit ((d + 48) ∷ []) ≡ true
    last_digit d h = unfold is_digit in ground arith

-- A number is written with digits only.
pub is_digit-decimal : (n : ℕ) → all is_digit (decimal n) ≡ true
unfolding decimal
is_digit-decimal n = is_digit-decimal_loop (suc n) n

-- and with one at least.
pub length-decimal-pos : (n : ℕ) → 0 < length (decimal n)
unfolding decimal
length-decimal-pos n = elim (Bool-cases (ltb n 10)) [
  | inl e ↦ rw e (omega arith)
  | inr e ↦ rw e (omega (arith, length-append {0} (decimal_loop n (n / 10)) ((n % 10 + 48) ∷ [])))
]

-- The digits in front, and the rest.
unfoldable pub span_digits : Text → Text × Text
unfolding is_digit
span_digits [] = ([], [])
span_digits (c ∷ s) =
    let (digits, rest) = span_digits s in if is_digit c then (c ∷ digits, rest) else ([], c ∷ s)

pub span_digits-all : (s : Text) → all is_digit s ≡ true → span_digits s ≡ (s, [])
unfolding all span_digits
span_digits-all [] h = refl
span_digits-all (c ∷ s) h = ground (arith, span_digits-all s)

-- The code behind the digits of a text, if any, is no digit.
unfoldable pub ends_digits : Text → Bool
ends_digits [] = true
ends_digits (c ∷ s) = not (is_digit c)

pub span_digits-append :
    (s rest : Text)
    → all is_digit s ≡ true
    → ends_digits rest ≡ true
    → span_digits (s ++ rest) ≡ (s, rest)
unfolding all span_digits ends_digits
span_digits-append [] [] h e = refl
span_digits-append [] (c ∷ rest) h e = ground arith
span_digits-append (c ∷ s) rest h e = ground (arith, span_digits-append s rest)
