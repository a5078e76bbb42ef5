-- ===== src/Lifecycle/Timeline.antt =====
-- The timeline of `analyze`: the events of the enabled rules in order of their days, and the walk over
-- them. A rule is what the parsers of the source hand over.
pub mod Billing
pub mod Order
pub mod Contents
use storageops.Base.{
  ℕ, ltb, if◌then◌else◌, Bool, true, false, not, ◌&&◌, ◌||◌, Option, none, some, List, [], ◌∷◌,
  ◌++◌, Text, txt, ◌===◌, lower, strip, sort_by,
}
use storageops.Base.Int.{ℤ, pos, ◌-ℤ◌, ltb_ℤ, leb_ℤ}
use storageops.Lifecycle.Classes.{min_duration_days}

pub record Transition : Type 0 where
  pub days : Option ℤ
  pub storage_class : Text

pub record Rule : Type 0 where
  pub id : Text
  pub status : Text
  pub transitions : List Transition
  pub expiration_days : Option ℤ
  pub abort_multipart : Bool

unfoldable pub enabled : Rule → Bool
unfolding strip lower ◌===◌ txt
enabled r = lower (strip r.status) === txt "enabled"

-- `(day, "transition", storage_class)` and `(day, "expire", None)`
pub data Event : Type 0 where
  transition : ℤ → Text → Event
  expire : ℤ → Event

abbrev pub day_of : Event → ℤ
day_of (transition d c) = d
day_of (expire d) = d

abbrev pub rank : Event → ℕ
rank (expire d) = 0
rank (transition d c) = 1

-- The key `(day, 0 if kind == "expire" else 1)`, compared as tuples are.
unfoldable pub event_le : Event → Event → Bool
event_le e f =
    if ltb_ℤ (day_of e) (day_of f)
    then true
    else if ltb_ℤ (day_of f) (day_of e)
    then false
    else not (ltb (rank f) (rank e))

unfoldable pub transition_events : List Transition → List Event
transition_events [] = []
transition_events (t ∷ ts) =
    let rest = transition_events ts in
    elim (Transition.days t) [
      | none ↦ rest
      | some d ↦ transition d (Transition.storage_class t) ∷ rest
    ]

abbrev expire_event : Option ℤ → List Event
expire_event none = []
expire_event (some d) = expire d ∷ []

unfoldable pub rule_events : Rule → List Event
unfolding transition_events
rule_events r = transition_events r.transitions ++ expire_event r.expiration_days

-- `events`, before the sort.
unfoldable pub collect_events : List Rule → List Event
collect_events [] = []
collect_events (r ∷ rs) =
    let rest = collect_events rs in if enabled r then rule_events r ++ rest else rest

unfoldable pub timeline : List Rule → List Event
unfolding sort_by event_le
timeline rs = sort_by event_le (collect_events rs)

pub record Risk : Type 0 where
  pub storage_class : Text
  pub min_days : ℕ
  pub residency_days : ℤ
  pub wasted_days : ℤ

-- Closing a residency of so many days in a class.
unfoldable pub close : Text → ℤ → List Risk
close storage_class residency =
    let min_days = min_duration_days storage_class in
    if ltb 0 min_days && ltb_ℤ residency (pos min_days)
    then record {
      storage_class = storage_class;
      min_days = min_days;
      residency_days = residency;
      wasted_days = pos min_days -ℤ residency;
    }
      ∷ []
    else []

-- The walk from a class and the day on which it was entered. An expiration ends it.
unfoldable pub walk : List Event → Text → ℤ → List Risk
walk [] current_class current_since = []
walk (transition d c ∷ es) current_class current_since =
    close current_class (d -ℤ current_since) ++ walk es c d
walk (expire d ∷ es) current_class current_since = close current_class (d -ℤ current_since)

unfoldable pub min_duration_risks : List Rule → Text → List Risk
min_duration_risks rs start_class = walk (timeline rs) start_class (pos 0)
