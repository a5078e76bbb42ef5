-- ===== src/Lifecycle/Timeline/Order.antt =====
-- The order of the timeline, and the billing of a rule set.
use mathlib.Core.List.{Perm}
use storageops.Base.{◌≡◌, ◌∙◌, Bool, true, false, List, [], ◌∷◌, Text, arith, any, any-perm}
use storageops.Base.Int.{pos, ◌+ℤ◌, ◌≤ℤ◌, ltb_ℤ, int_laws}
use storageops.Base.Sorting.{IsBelow, IsSorted, sort_by-perm, sort_by-IsSorted}
use storageops.Lifecycle.Timeline.{
  Rule, Event, day_of, event_le, collect_events, timeline, min_duration_risks,
}
use storageops.Lifecycle.Timeline.Billing.{
  windows, total_billed, total_wasted, end_day, Ascends, total_billed-walk,
}

event_le_total : (e f : Event) → event_le e f ≡ false → event_le f e ≡ true
unfolding event_le
event_le_total e f h = ground arith

event_le_trans : (e f g : Event) → event_le e f ≡ true → event_le f g ≡ true → event_le e g ≡ true
unfolding event_le
event_le_trans e f g h k = ground arith

-- The timeline holds the events of the enabled rules, each as often as the rules do, and is sorted
-- by day, with expirations before the transitions of their day.
pub timeline-IsSorted :
    (rs : List Rule) → Perm (timeline rs) (collect_events rs) × IsSorted event_le (timeline rs)
unfolding timeline
timeline-IsSorted rs = (
  sort_by-perm event_le (collect_events rs),
  sort_by-IsSorted event_le event_le_total event_le_trans (collect_events rs),
)

event_le→≤ : (e f : Event) → event_le e f ≡ true → day_of e ≤ℤ day_of f
unfolding event_le
event_le→≤ e f h = ground arith

Ascends-IsSorted :
    (e : Event) (es : List Event)
    → IsBelow event_le e es
    → IsSorted event_le es
    → Ascends (day_of e) es
Ascends-IsSorted e [] b s = tt
Ascends-IsSorted e (f ∷ fs) (h, b) (c, s) = (event_le→≤ e f h, Ascends-IsSorted f fs c s)

unfoldable pub is_negative : Event → Bool
is_negative e = ltb_ℤ (day_of e) (pos 0)

Ascends-IsSorted_zero :
    (es : List Event) → IsSorted event_le es → any is_negative es ≡ false → Ascends (pos 0) es
unfolding any is_negative
Ascends-IsSorted_zero [] s n = tt
Ascends-IsSorted_zero (e ∷ es) (b, s) n = (ground arith, Ascends-IsSorted e es b s)

-- Where no enabled rule has a negative day, the days that are billed for the windows of the timeline,
-- each at least the minimum of its class, are the days up to the last event that counts together with
-- the wasted days that are reported as risks.
pub min_duration_risks-billed :
    (rs : List Rule) (start_class : Text)
    → any is_negative (collect_events rs) ≡ false
    → total_billed (windows (timeline rs) start_class (pos 0))
      ≡ end_day (timeline rs) (pos 0) +ℤ total_wasted (min_duration_risks rs start_class)
unfolding min_duration_risks
min_duration_risks-billed rs start_class h =
    let (p, s) = timeline-IsSorted rs in
    let a = Ascends-IsSorted_zero (timeline rs) s (any-perm is_negative _ _ p ∙ h) in
    rw (total_billed-walk (timeline rs) start_class (pos 0) a) (omega int_laws)
