-- ===== src/Throttle/Scan/Counts.antt =====
-- How the counters of a scan relate.
use storageops.Base.{
  ℕ, suc, ◌+◌, ◌≤◌, if◌then◌else◌, ◌≡◌, refl, ◌∙◌, ap, Bool, true, false, ◌||◌, Option, none, some,
  List, [], ◌∷◌, ◌++◌, length, length-append, Text, arith, Bool-cases, inl, inr,
}
use storageops.Base.Try.{returns}
use storageops.Throttle.Signals.{Code, status_429, status_503, extract_throttle_status, has_keyword}
use storageops.Throttle.Scan.{
  Stamp, Event, Detector, start, noted, is_429, is_503, is_coded, scan_read, scan_line, scan,
}
use storageops.Throttle.Onset.{Summary, same_zone, ratio_of, report_of, summary}

-- A line that throttles is one event, counted by its code, its keyword or both; a time that throttles
-- is the time of an event and a time of the log.
pub record IsTallied (d : Detector) : Type 0 where
  pub counted : length d.events ≤ (d.code_429 + d.code_503) + d.kw_hits
  pub coded : d.code_429 + d.code_503 ≤ length d.events
  pub keyed : d.kw_hits ≤ length d.events
  pub timed : length d.throttle_ts ≤ length d.events
  pub of_log : length d.throttle_ts ≤ length d.all_ts

code_count : (o : Option Code) → is_429 o + is_503 o ≡ (if is_coded o then 1 else 0)
code_count none = refl
code_count (some status_429) = refl
code_count (some status_503) = refl

abbrev stamp_count : Option Stamp → ℕ
stamp_count none = 0
stamp_count (some ts) = 1

length-noted :
    (stamps : List Stamp) (ts : Option Stamp)
    → length (noted stamps ts) ≡ length stamps + stamp_count ts
length-noted stamps none = omega arith
length-noted stamps (some ts) = length-append stamps (ts ∷ [])

stamp_most : (ts : Option Stamp) → stamp_count ts ≤ 1
stamp_most none = omega arith
stamp_most (some ts) = omega arith

length_one_more : (es : List Event) (e : Event) → length (es ++ (e ∷ [])) ≡ suc (length es)
length_one_more es e = length-append es (e ∷ []) ∙ omega arith

-- A state whose counters have grown by a line.
record Counts (code : Option Code) (kw : Bool) (ts : Option Stamp) (d d' : Detector) : Type 0 where
  by_429 : d'.code_429 ≡ d.code_429 + is_429 code
  by_503 : d'.code_503 ≡ d.code_503 + is_503 code
  by_kw : d'.kw_hits ≡ d.kw_hits + (if kw then 1 else 0)
  by_ts : d'.all_ts ≡ noted d.all_ts ts

module _ (code : Option Code) (kw : Bool) (ts : Option Stamp) (d d' : Detector)
    (c : Counts code kw ts d d') (t : IsTallied d) where
  event-IsTallied :
      (e : Event)
      → (is_coded code || kw) ≡ true
      → d'.events ≡ d.events ++ (e ∷ [])
      → d'.throttle_ts ≡ noted d.throttle_ts ts
      → IsTallied d'
  event-IsTallied e y more times =
      let events = ap length more ∙ length_one_more d.events e in
      let throttled = ap length times ∙ length-noted d.throttle_ts ts in
      let stamps = ap length c.by_ts ∙ length-noted d.all_ts ts in
      record {
        counted = ground (arith, events, code_count code, c.by_429, c.by_503, c.by_kw);
        coded = ground (arith, events, code_count code, c.by_429, c.by_503);
        keyed = ground (arith, events, c.by_kw);
        timed = ground (arith, events, throttled, stamp_most ts);
        of_log = ground (arith, throttled, stamps);
      }

  plain-IsTallied :
      (is_coded code || kw) ≡ false
      → d'.events ≡ d.events
      → d'.throttle_ts ≡ d.throttle_ts
      → IsTallied d'
  plain-IsTallied n same times =
      let events = ap length same in
      let throttled = ap length times in
      let stamps = ap length c.by_ts ∙ length-noted d.all_ts ts in
      record {
        counted = ground (arith, events, code_count code, c.by_429, c.by_503, c.by_kw);
        coded = ground (arith, events, code_count code, c.by_429, c.by_503);
        keyed = ground (arith, events, c.by_kw);
        timed = ground (arith, events, throttled);
        of_log = ground (arith, throttled, stamps);
      }

read-IsTallied :
    (code : Option Code) (kw : Bool) (ts : Option Stamp) (line : Text) (d : Detector)
    → IsTallied d
    → IsTallied (scan_read code kw ts line d)
unfolding scan_read
read-IsTallied code kw ts line d t = elim (Bool-cases (is_coded code || kw)) [
  | inl y ↦ rw y (
      event-IsTallied code kw ts d _
        (record { by_429 = refl; by_503 = refl; by_kw = refl; by_ts = refl }) t _ y refl refl)
  | inr n ↦ rw n (
      plain-IsTallied code kw ts d _
        (record { by_429 = refl; by_503 = refl; by_kw = refl; by_ts = refl }) t n refl refl)
]

start-IsTallied : IsTallied start
unfolding start
start-IsTallied = record {
  counted = omega arith;
  coded = omega arith;
  keyed = omega arith;
  timed = omega arith;
  of_log = omega arith;
}

module _ (parse_ts : Text → Option Stamp) where
  -- Whatever the lines are, a scan that begins with tallied counters ends with tallied counters.
  pub scan-IsTallied :
      (lines : List Text) (d : Detector) → IsTallied d → IsTallied (scan parse_ts d lines)
  unfolding scan scan_line
  scan-IsTallied [] d t = t
  scan-IsTallied (line ∷ lines) d t =
      scan-IsTallied lines (scan_line parse_ts d line)
        (read-IsTallied (extract_throttle_status line) (has_keyword line) (parse_ts line) line d t)

abbrev pub Bounded : Summary → Type 0
Bounded s =
    (s.total_events ≤ (s.status_429 + s.status_503) + s.keyword_hits)
    × (s.status_429 + s.status_503 ≤ s.total_events)
    × (s.keyword_hits ≤ s.total_events)
    × ((n m : ℕ) → s.throttle_ratio ≡ some (n, m) → n ≤ m)

ratio_most : (a b n m : ℕ) → a ≤ b → ratio_of a b ≡ some (n, m) → n ≤ m
ratio_most a b n m h e = ground arith

report-Bounded : (d : Detector) → IsTallied d → Bounded (report_of d)
unfolding report_of
report-Bounded d t = (
  t.counted,
  t.coded,
  t.keyed,
  λ n m. ratio_most (length d.throttle_ts) (length d.all_ts) n m t.of_log,
)

summary_given : (d : Detector) → same_zone d.all_ts ≡ true → summary d ≡ returns (report_of d)
unfolding summary
summary_given d h = rw h refl

module _ (parse_ts : Text → Option Stamp) where
  -- For a log whose times all have a zone or all have none there is a summary. It counts no more events
  -- than status codes and keywords together, no more codes than events, no more keywords than events,
  -- and as throttled a part of the times that is at most all of them.
  pub summary-scan_bounds :
      (lines : List Text)
      → same_zone (scan parse_ts start lines).all_ts ≡ true
      → (s : Summary) × (summary (scan parse_ts start lines) ≡ returns s) × Bounded s
  summary-scan_bounds lines h =
      let d = scan parse_ts start lines in
      (
        report_of d,
        summary_given d h,
        report-Bounded d (scan-IsTallied parse_ts lines start start-IsTallied),
      )
