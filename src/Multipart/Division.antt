-- ===== src/Multipart/Division.antt =====
-- `math.ceil(a / b)` of Python's integers: the quotient is the nearest double, ties to even, of 53
-- significant bits, and `ceil` is taken of that. The exponent's range is not modelled: no quotient
-- here is near 2^1024 or 2^-1022.
use native.Mathlib.Nat.{
  le-div_iff_mul-le, div-add-mod, div-le_of_le-mul, pow-suc, div-lt_iff_lt-mul, mul-le-mul_right,
}
use native.Mathlib.Bridge.{le_by_compare, IsLe}
use storageops.Base.{
  ℕ, zero, suc, ◌+◌, ◌-◌, ◌*◌, ◌/◌, ◌%◌, ◌^◌, ◌≤◌, ◌<◌, leb, ltb, ◌==◌, if◌then◌else◌, ◌≡◌, refl,
  ◌↔◌, arith, Bool-cases, inl, inr, ap,
}

-- n / b rounded to the nearest integer, ties to even.
unfoldable pub round_half_even : ℕ → ℕ → ℕ
round_half_even n b =
    let q = n / b in
    let r = n % b in if ltb (2 * r) b then q else if ltb b (2 * r) then q + 1 else q + q % 2

-- Doubles `m` and the scale `s` until m / b has 53 bits before the point.
unfoldable pub scale_up : ℕ → ℕ → ℕ → ℕ → ℕ × ℕ
scale_up zero b m s = (m, s)
scale_up (suc f) b m s =
    let more = scale_up f b (2 * m) (2 * s) in if ltb m (2 ^ 52 * b) then more else (m, s)

-- Doubles the divisor until the quotient has 53 bits before the point.
unfoldable pub scale_down : ℕ → ℕ → ℕ → ℕ → ℕ × ℕ
scale_down zero a b s = (b, s)
scale_down (suc f) a b s =
    let more = scale_down f a (2 * b) (2 * s) in if leb (2 ^ 53 * b) a then more else (b, s)

unfoldable pub ceil_scaled : ℕ → ℕ × ℕ → ℕ
ceil_scaled b (m, s) = (round_half_even m b + (s - 1)) / s

unfoldable pub whole_scaled : ℕ → ℕ × ℕ → ℕ
whole_scaled a (b, s) = round_half_even a b * s

-- `math.ceil(a / b)`, for b > 0. Scaling up takes at most 53 + b rounds and scaling down at most a.
unfoldable pub ceil_quotient : ℕ → ℕ → ℕ
ceil_quotient a b =
    if a == 0
    then 0
    else if ltb a (2 ^ 52 * b)
    then ceil_scaled b (scale_up (b + 53) b a 1)
    else whole_scaled a (scale_down a a b 1)

-- The exact ceiling.
unfoldable pub ceil_div : ℕ → ℕ → ℕ
ceil_div a b = (a + (b - 1)) / b

third : ceil_quotient 10 3 ≡ 4
unfolding ceil_quotient ceil_scaled scale_up round_half_even
third = refl

div_unique : (n s c : ℕ) → c * s ≤ n → n < c * s + s → n / s ≡ c
div_unique n s c h k = grind arith

module _ (n b : ℕ) (p : 0 < b) where
  -- The rounding goes up when the remainder is more than half.
  round_half_even_lower : (x s : ℕ) → b * x + s ≤ n → b < 2 * s → x + 1 ≤ round_half_even n b
  unfolding round_half_even
  round_half_even_lower x s h k =
      let below : x ≤ n / b = (le-div_iff_mul-le p).1 (grind arith) in
      elim (Bool-cases (ltb x (n / b))) [
        | inl more ↦ ground arith
        | inr same ↦
            let e : n / b ≡ x = ground arith in
            let r : s ≤ n % b = omega (arith, div-add-mod n b, ap (λ (t : ℕ). b * t) e) in
            ground arith
      ]

  round_half_even_upper : (y : ℕ) → n ≤ b * y → round_half_even n b ≤ y
  unfolding round_half_even
  round_half_even_upper y h =
      let above : n / b ≤ y = div-le_of_le-mul b h in
      elim (Bool-cases (ltb (n / b) y)) [
        | inl more ↦ ground arith
        | inr same ↦
            let e : n / b ≡ y = ground arith in
            let r : n % b ≡ 0 = omega (arith, div-add-mod n b, ap (λ (t : ℕ). b * t) e) in
            ground arith
      ]

-- What scaling up keeps and reaches.
record IsScaled (a b m s : ℕ) : Type 0 where
  same : m ≡ a * s
  pos : 0 < s
  large : 2 ^ 52 * b ≤ m

scale_up-IsScaled :
    (f a b m s : ℕ)
    → m ≡ a * s
    → 0 < s
    → 2 ^ 52 * b ≤ m * 2 ^ f
    → IsScaled a b (scale_up f b m s).0 (scale_up f b m s).1
unfolding scale_up
scale_up-IsScaled zero a b m s e p h = record { same = e; pos = p; large = omega arith }
scale_up-IsScaled (suc f) a b m s e p h = elim (Bool-cases (ltb m (2 ^ 52 * b))) [
  | inl less ↦ rw less (
      scale_up-IsScaled f a b (2 * m) (2 * s) (omega (arith, ap (λ (t : ℕ). 2 * t) e)) (omega arith)
        (omega (arith, ap (λ (t : ℕ). m * t) (pow-suc 2 f))))
  | inr more ↦ rw more (record { same = e; pos = p; large = ground arith })
]

module _ (a b : ℕ) (pb : 0 < b) where
  -- The ceiling is the least number of parts that suffices.
  pub ceil_div_iff : (k : ℕ) → (ceil_div a b ≤ k) ↔ (a ≤ b * k)
  unfolding ceil_div
  ceil_div_iff k =
      let e : (a + (b - 1)) / b < k + 1 ↔ a + (b - 1) < (k + 1) * b = div-lt_iff_lt-mul pb in
      (
        λ h. let t = e.0 (omega arith) in omega arith,
        λ h. let t : (a + (b - 1)) / b < k + 1 = e.1 (omega arith) in omega arith,
      )

  pub le-ceil_div : a ≤ b * ceil_div a b
  le-ceil_div = (ceil_div_iff (ceil_div a b)).0 (omega arith)

  pub ceil_div_pos : 0 < a → 0 < ceil_div a b
  ceil_div_pos h = elim (Bool-cases (ltb 0 (ceil_div a b))) [
    | inl y ↦ ground arith
    | inr n ↦ let z : a ≤ b * 0 = (ceil_div_iff 0).0 (ground arith) in absurd (omega arith)
  ]

  pub ceil_div_low : 0 < a → b * (ceil_div a b - 1) + 1 ≤ a
  ceil_div_low h = elim (Bool-cases (leb a (b * (ceil_div a b - 1)))) [
    | inl y ↦
        let z : ceil_div a b ≤ ceil_div a b - 1 =
          (ceil_div_iff (ceil_div a b - 1)).1 (ground arith) in
        absurd (omega (arith, ceil_div_pos h))
    | inr n ↦ ground arith
  ]

-- A quotient of an integer below 2^53 lies on the right side of the integer below it.
module _ (a b m s c : ℕ) (pb : 0 < b) (i : IsScaled a b m s) where
  scale_large : a < 2 ^ 53 → b < 2 * s
  scale_large h = let t : (a + 1) * s ≤ 2 ^ 53 * s = mul-le-mul_right s (omega arith) in omega arith

  scaled_upper : a ≤ b * c → round_half_even m b ≤ c * s
  scaled_upper h =
      round_half_even_upper m b pb (c * s)
        (let t : a * s ≤ b * c * s = mul-le-mul_right s h in omega arith)

  scaled_lower : a < 2 ^ 53 → b * (c - 1) + 1 ≤ a → (c - 1) * s + 1 ≤ round_half_even m b
  scaled_lower h k =
      round_half_even_lower m b pb ((c - 1) * s) s
        (let t : (b * (c - 1) + 1) * s ≤ a * s = mul-le-mul_right s k in omega arith)
        (scale_large h)

  ceil_scaled_lem : a < 2 ^ 53 → a ≤ b * c → b * (c - 1) + 1 ≤ a → 0 < c → ceil_scaled b (m, s) ≡ c
  unfolding ceil_scaled
  ceil_scaled_lem h top low pc =
      div_unique _ s c
        (let e : c - 1 + 1 ≡ c = omega arith in
          let d : (c - 1 + 1) * s ≡ c * s = ap (λ (t : ℕ). t * s) e in
          omega (arith, scaled_lower h low))
        (omega (arith, scaled_upper top))

pow_fuel : (b : ℕ) → 2 ^ 52 * (b + 1) ≤ 2 ^ (b + 53)
unfolding IsLe
pow_fuel zero = le_by_compare (2 ^ 52 * (0 + 1)) (2 ^ (0 + 53)) tt
pow_fuel (suc b) =
    let e : suc b + 53 ≡ suc (b + 53) = omega arith in
    rw e (omega (arith, pow_fuel b, pow-suc 2 (b + 53)))

scale_down_stays : (a b : ℕ) → a < 2 ^ 53 * b → scale_down a a b 1 ≡ (b, 1)
unfolding scale_down
scale_down_stays zero b h = refl
scale_down_stays (suc a) b h = ground arith

-- For an integer below 2^53 the rounding to a double does no harm: `math.ceil(a / b)` is the exact
-- ceiling.
pub ceil_quotient-exact : (a b : ℕ) → 0 < a → a < 2 ^ 53 → 0 < b → ceil_quotient a b ≡ ceil_div a b
unfolding ceil_quotient whole_scaled ceil_scaled
ceil_quotient-exact a b ha hb pb = elim (Bool-cases (ltb a (2 ^ 52 * b))) [
  | inl small ↦
      let i = scale_up-IsScaled (b + 53) a b a 1 (omega arith) (omega arith) (
        let t : 1 * 2 ^ (b + 53) ≤ a * 2 ^ (b + 53) = mul-le-mul_right (2 ^ (b + 53)) ha in
        omega (arith, pow_fuel b)) in
      ground (
        arith,
        ceil_scaled_lem a b (scale_up (b + 53) b a 1).0 (scale_up (b + 53) b a 1).1 (ceil_div a b)
            pb i hb (le-ceil_div a b pb) (ceil_div_low a b pb ha) (ceil_div_pos a b pb ha),
      )
  | inr large ↦
      let i : IsScaled a b a 1 = record {
        same = omega arith;
        pos = omega arith;
        large = ground arith;
      } in
      ground (
        arith,
        scale_down_stays a b (omega arith),
        ceil_scaled_lem a b a 1 (ceil_div a b) pb i hb (le-ceil_div a b pb) (ceil_div_low a b pb ha)
            (ceil_div_pos a b pb ha),
      )
]
