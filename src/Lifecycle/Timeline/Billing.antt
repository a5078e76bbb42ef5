-- ===== src/Lifecycle/Timeline/Billing.antt =====
-- The residencies of a timeline, and what is billed for them beside the risks that the walk reports.
use storageops.Base.{if◌then◌else◌, ◌≡◌, List, [], ◌∷◌, ◌++◌, Text, arith, Bool-cases, inl, inr}
use storageops.Base.Int.{ℤ, pos, ◌-ℤ◌, ◌+ℤ◌, ◌≤ℤ◌, ltb_ℤ, int_laws}
use storageops.Lifecycle.Classes.{min_duration_days}
use storageops.Lifecycle.Timeline.{Event, transition, expire, day_of, Risk, close, walk}

-- A class that was held for so many days.
pub record Window : Type 0 where
  pub storage_class : Text
  pub days : ℤ

-- The windows of a timeline: each event closes one, and an expiration is the last.
unfoldable pub windows : List Event → Text → ℤ → List Window
windows [] current since = []
windows (transition d c ∷ es) current since =
    record { storage_class = current; days = d -ℤ since } ∷ windows es c d
windows (expire d ∷ es) current since = record { storage_class = current; days = d -ℤ since } ∷ []

-- `max(days, minimum)`
unfoldable pub billed : Window → ℤ
billed w =
    let least = pos (min_duration_days (Window.storage_class w)) in
    if ltb_ℤ (Window.days w) least then least else Window.days w

unfoldable pub total_billed : List Window → ℤ
total_billed [] = pos 0
total_billed (w ∷ ws) = billed w +ℤ total_billed ws

unfoldable pub total_wasted : List Risk → ℤ
total_wasted [] = pos 0
total_wasted (r ∷ rs) = Risk.wasted_days r +ℤ total_wasted rs

-- The day on which the last window ends.
unfoldable pub end_day : List Event → ℤ → ℤ
end_day [] since = since
end_day (transition d c ∷ es) since = end_day es d
end_day (expire d ∷ es) since = d

-- The days do not fall, and none is before the start.
abbrev pub Ascends : ℤ → List Event → Type 0
Ascends since [] = Unit {0}
Ascends since (e ∷ es) = (since ≤ℤ day_of e) × Ascends (day_of e) es

-- For a class and its minimum: what is billed is what was held and what was wasted.
module _ (c : Text) (days : ℤ) where
  close_lem :
      pos 0 ≤ℤ days
      → billed (record { storage_class = c; days = days }) ≡ days +ℤ total_wasted (close c days)
  unfolding billed close total_wasted
  close_lem h =
      let m = min_duration_days c in
      elim (Bool-cases (ltb_ℤ days (pos m))) [
        | inl short ↦
            let e : pos m ≡ days +ℤ ((pos m -ℤ days) +ℤ pos 0) = omega int_laws in ground (arith, e)
        | inr long ↦ let e : days ≡ days +ℤ pos 0 = omega int_laws in ground (arith, e)
      ]

total_wasted-append :
    (xs ys : List Risk) → total_wasted (xs ++ ys) ≡ total_wasted xs +ℤ total_wasted ys
unfolding total_wasted
total_wasted-append [] ys = omega int_laws
total_wasted-append (x ∷ xs) ys = rw (total_wasted-append xs ys) (omega int_laws)

-- For a timeline whose days do not fall below one another or the start, the days billed are the days
-- up to the last event that counts and the days that the walk reports as wasted.
pub total_billed-walk :
    (es : List Event) (current : Text) (since : ℤ)
    → Ascends since es
    → total_billed (windows es current since)
      ≡ (end_day es since -ℤ since) +ℤ total_wasted (walk es current since)
unfolding total_billed windows end_day walk total_wasted
total_billed-walk [] current since h = omega int_laws
total_billed-walk (transition d c ∷ es) current since (h, a) =
    rw
      (
        close_lem current (d -ℤ since) (omega int_laws),
        total_billed-walk es c d a,
        total_wasted-append (close current (d -ℤ since)) (walk es c d),
      )
      (omega int_laws)
total_billed-walk (expire d ∷ es) current since (h, a) =
    rw (close_lem current (d -ℤ since) (omega int_laws)) (omega int_laws)
