-- ===== src/Tests/ThrottleRuns.antt =====
-- throttle_detector.py on concrete lines.
use storageops.Base.{
  ℕ, ◌*◌, ◌≤◌, ◌≡◌, refl, true, false, Option, none, some, List, [], ◌∷◌, Text, txt,
}
use storageops.Base.Try.{returns, raises}
use storageops.Throttle.Signals.{status_503, extract_throttle_status, has_keyword, extract_path}
use storageops.Throttle.Scan.{Stamp, prefix, operation_from, start, scan}
use storageops.Throttle.Scan.Counts.{Bounded, summary-scan_bounds}
use storageops.Throttle.Onset.{Summary, same_zone, summary, most_in_window}
use storageops.Throttle.Onset.Windows.{held}
use storageops.Throttle.Onset.Fullest.{most_in_window_lem}

abbrev seconds : ℕ → ℕ
seconds n = n * 1000000

abbrev bursts : List ℕ
bursts = seconds 90 ∷ seconds 0 ∷ seconds 30 ∷ seconds 61 ∷ seconds 85 ∷ seconds 300 ∷ []

four_in_a_minute : most_in_window bursts ≡ 4
unfolding most_in_window
four_in_a_minute = refl

most_in_window_lem_example :
    ((a : ℕ) → held a bursts ≤ most_in_window bursts)
    × ((a : ℕ) × (held a bursts ≡ most_in_window bursts))
most_in_window_lem_example = most_in_window_lem bursts

abbrev slow_down : Text
slow_down = txt "HTTP/1.1 503 Slow Down, key=logs/2024/a.gz: GET"

slow_down_read :
    (extract_throttle_status slow_down ≡ some status_503)
    × (has_keyword slow_down ≡ true)
    × (extract_path slow_down ≡ some (txt "logs/2024/a.gz:"))
    × (operation_from false slow_down ≡ some (txt "GET"))
unfolding extract_throttle_status storageops.Throttle.Signals.status_from has_keyword
    storageops.Base.◌===◌ storageops.Throttle.Signals.after_words extract_path operation_from
slow_down_read = (refl, refl, refl, refl)

number_alone : extract_throttle_status (txt "wrote 429 bytes") ≡ none
unfolding extract_throttle_status storageops.Throttle.Signals.status_from
number_alone = refl

two_deep : prefix (txt "/logs/2024/a.gz") ≡ txt "logs/2024"
unfolding txt prefix
two_deep = refl

-- Times without a zone.
abbrev some_time : Text → Option Stamp
some_time [] = none
some_time (c ∷ line) = some (record { aware = false; micros = c })

abbrev two_lines : List Text
two_lines = txt "PUT status 429" ∷ txt "ok" ∷ []

summary-scan_bounds_example :
    (s : Summary) × (summary (scan some_time start two_lines) ≡ returns s) × Bounded s
unfolding same_zone scan storageops.Throttle.Signals.status_from start
summary-scan_bounds_example = summary-scan_bounds some_time two_lines refl

-- One time with a zone and one without.
abbrev mixed_time : Text → Option Stamp
mixed_time [] = none
mixed_time (c ∷ []) = none
mixed_time (c ∷ d ∷ []) = some (record { aware = true; micros = c })
mixed_time (c ∷ d ∷ e ∷ line) = some (record { aware = false; micros = c })

mixed_zones : summary (scan mixed_time start two_lines) ≡ raises
unfolding summary scan storageops.Throttle.Signals.status_from start
mixed_zones = refl
