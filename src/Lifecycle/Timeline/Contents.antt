-- ===== src/Lifecycle/Timeline/Contents.antt =====
-- Which events the timeline holds, and in which order.
use storageops.Base.{
  ◌≡◌, refl, sym, subst, ◌↔◌, ◌⊎◌, inl, inr, true, Option, none, some, List, [], ◌∷◌, arith,
  Bool-cases, Option-cases,
}
use storageops.Base.Int.{ℤ, ◌≤ℤ◌}
use storageops.Base.Affixes.{
  Among, here, there, Among-cases, Among-append_cases, Among-append_left, Among-append_right,
  Among-sort_by, sort_by-Among,
}
use storageops.Base.Sorting.{IsBelow, IsSorted}
use storageops.Lifecycle.Timeline.{
  Transition, Rule, enabled, Event, transition, expire, day_of, event_le, transition_events,
  expire_event, rule_events, collect_events, timeline,
}
use storageops.Lifecycle.Timeline.Order.{timeline-IsSorted}

-- The event is one of the rule's: a transition that has a day, or the expiration.
abbrev pub AsksFor : Rule → Event → Type 0
AsksFor r e =
    ((t : Transition) × (d : ℤ) × Among t r.transitions
      × (t.days ≡ some d)
      × (e ≡ transition d t.storage_class))
    ⊎ ((d : ℤ) × (r.expiration_days ≡ some d) × (e ≡ expire d))

abbrev pub IsAskedFor : List Rule → Event → Type 0
IsAskedFor rs e = (r : Rule) × Among r rs × (enabled r ≡ true) × AsksFor r e

-- Two events, the first one listed earlier: the days do not fall, and no transition stands before an
-- expiration of the same day.
abbrev pub MayPrecede : Event → Event → Type 0
MayPrecede (transition d c) (transition e k) = d ≤ℤ e
MayPrecede (transition d c) (expire e) = ¬ (e ≤ℤ d)
MayPrecede (expire d) f = d ≤ℤ day_of f

abbrev pub PrecedesAll : Event → List Event → Type 0
PrecedesAll e [] = Unit {0}
PrecedesAll e (f ∷ fs) = MayPrecede e f × PrecedesAll e fs

abbrev pub InOrder : List Event → Type 0
InOrder [] = Unit {0}
InOrder (e ∷ es) = PrecedesAll e es × InOrder es

event_le-MayPrecede : (e f : Event) → event_le e f ≡ true → MayPrecede e f
unfolding event_le
event_le-MayPrecede (transition d c) (transition e k) h = ground arith
event_le-MayPrecede (transition d c) (expire e) h = λ k. absurd (ground arith)
event_le-MayPrecede (expire d) (transition e k) h = ground arith
event_le-MayPrecede (expire d) (expire e) h = ground arith

IsBelow-PrecedesAll : (e : Event) (es : List Event) → IsBelow event_le e es → PrecedesAll e es
IsBelow-PrecedesAll e [] b = tt
IsBelow-PrecedesAll e (f ∷ fs) (h, b) = (event_le-MayPrecede e f h, IsBelow-PrecedesAll e fs b)

IsSorted-InOrder : (es : List Event) → IsSorted event_le es → InOrder es
IsSorted-InOrder [] s = tt
IsSorted-InOrder (e ∷ es) (b, s) = (IsBelow-PrecedesAll e es b, IsSorted-InOrder es s)

AsTransition : Event → List Transition → Type 0
AsTransition e ts =
    (t : Transition) × (d : ℤ) × Among t ts × (t.days ≡ some d) × (e ≡ transition d t.storage_class)

transition_events→ :
    (e : Event) (ts : List Transition) → Among e (transition_events ts) → AsTransition e ts
unfolding transition_events AsTransition
transition_events→ e [] m = elim m [ ]
transition_events→ e (t ∷ ts) m = elim (Option-cases t.days) [
  | inl n ↦ let (u, d, k, h, q) = transition_events→ e ts (rw n at m) in (u, d, there k, h, q)
  | inr (d, y) ↦ elim (Among-cases e (transition d t.storage_class) _ (rw y at m)) [
    | inl q ↦ (t, d, here, y, q)
    | inr k ↦ let (u, b, j, h, q) = transition_events→ e ts k in (u, b, there j, h, q)
  ]
]

transition_events← :
    (t : Transition) (d : ℤ) (ts : List Transition)
    → Among t ts
    → t.days ≡ some d
    → Among (transition d t.storage_class) (transition_events ts)
unfolding transition_events
transition_events← t d (u ∷ ts) here h = rw h here
transition_events← t d (u ∷ ts) (there m) h = elim (Option-cases u.days) [
  | inl n ↦ rw n (transition_events← t d ts m h)
  | inr (k, y) ↦ rw y (there (transition_events← t d ts m h))
]
transition_events← t d [] m h = elim m [ ]

expire_event→ :
    (e : Event) (o : Option ℤ) → Among e (expire_event o) → (d : ℤ) × (o ≡ some d) × (e ≡ expire d)
expire_event→ e none m = elim m [ ]
expire_event→ e (some d) m = elim (Among-cases e (expire d) [] m) [
  | inl q ↦ (d, refl, q)
  | inr k ↦ elim k [ ]
]

rule_events_iff : (r : Rule) (e : Event) → Among e (rule_events r) ↔ AsksFor r e
unfolding rule_events AsTransition
rule_events_iff r e =
    let ts = transition_events r.transitions in
    let es = expire_event r.expiration_days in
    (
      λ m. elim (Among-append_cases e ts es m) [
        | inl a ↦ inl (transition_events→ e r.transitions a)
        | inr b ↦ inr (expire_event→ e r.expiration_days b)
      ],
      λ h. elim h [
        | inl (t, d, m, k, q) ↦
            Among-append_left e ts es
              (subst (λ f. Among f ts) (sym q) (transition_events← t d r.transitions m k))
        | inr (d, k, q) ↦ Among-append_right e ts es (
            subst (λ o. Among e (expire_event o)) (sym k)
              (subst (λ f. Among f (expire d ∷ [])) (sym q) here))
      ],
    )

collect_events→ : (rs : List Rule) (e : Event) → Among e (collect_events rs) → IsAskedFor rs e
unfolding collect_events
collect_events→ [] e m = elim m [ ]
collect_events→ (r ∷ rs) e m = elim (Bool-cases (enabled r)) [
  | inl y ↦ elim (Among-append_cases e (rule_events r) (collect_events rs) (rw y at m)) [
    | inl a ↦ (r, here, y, (rule_events_iff r e).0 a)
    | inr b ↦ let (q, k, h, a) = collect_events→ rs e b in (q, there k, h, a)
  ]
  | inr n ↦ let (q, k, h, a) = collect_events→ rs e (rw n at m) in (q, there k, h, a)
]

collect_events← :
    (rs : List Rule) (r : Rule) (e : Event)
    → Among r rs
    → enabled r ≡ true
    → AsksFor r e
    → Among e (collect_events rs)
unfolding collect_events
collect_events← [] r e m y a = elim m [ ]
collect_events← (q ∷ rs) r e here y a =
    rw y (Among-append_left e (rule_events r) (collect_events rs) ((rule_events_iff r e).1 a))
collect_events← (q ∷ rs) r e (there m) y a = elim (Bool-cases (enabled q)) [
  | inl h ↦
      rw h (Among-append_right e (rule_events q) (collect_events rs) (collect_events← rs r e m y a))
  | inr n ↦ rw n (collect_events← rs r e m y a)
]

-- The timeline holds an event exactly when an enabled rule has it, as a transition with a day or as
-- its expiration, and its order is such that of two events the earlier one has no later day and is no
-- transition on the day of an expiration behind it.
pub timeline-InOrder :
    (rs : List Rule) (e : Event) → (Among e (timeline rs) ↔ IsAskedFor rs e) × InOrder (timeline rs)
unfolding timeline
timeline-InOrder rs e = (
  (
    λ m. collect_events→ rs e (Among-sort_by event_le e (collect_events rs) m),
    λ (r, m, y, a). sort_by-Among event_le e (collect_events rs) (collect_events← rs r e m y a),
  ),
  IsSorted-InOrder (timeline rs) (timeline-IsSorted rs).1,
)
