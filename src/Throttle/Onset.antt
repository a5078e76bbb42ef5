-- ===== src/Throttle/Onset.antt =====
-- `ThrottleDetector._onset_rate` and `summary`. A rate is given as a count and the microseconds that it
-- is divided by, before the rounding to four decimals.
pub mod Windows
pub mod Fullest
use storageops.Base.{
  ℕ, suc, ◌+◌, ◌-◌, leb, ltb, if◌then◌else◌, Bool, true, false, not, ◌&&◌, ◌||◌, Option, none, some,
  List, [], ◌∷◌, length, map, all, Text, sort_by, decimal,
}
use storageops.Base.Dict.{Dict}
use storageops.Base.Try.{Try, returns, raises}
use storageops.Throttle.Scan.{Stamp, Detector}

-- `window`: 60 seconds.
unfoldable pub window : ℕ
window = 60000000

-- The `while` loop: how many more times lie in the window that begins at the first argument, and the
-- times behind it.
unfoldable pub advance : ℕ → List ℕ → ℕ × List ℕ
unfolding window
advance from [] = (0, [])
advance from (t ∷ ts) =
    let (taken, ahead) = advance from ts in
    if leb t (from + window) then (suc taken, ahead) else (0, t ∷ ts)

-- The `for` loop: the times from `sts[i]` on, `j - i`, the times from `sts[j]` on, and the most that a
-- window held so far.
unfoldable pub onset_loop : List ℕ → ℕ → List ℕ → ℕ → ℕ
unfolding advance
onset_loop [] inside ahead best = best
onset_loop (t ∷ ts) inside ahead best =
    let (taken, ahead') = advance t ahead in
    let n = inside + taken in onset_loop ts (n - 1) ahead' (if ltb best n then n else best)

unfoldable pub most_in_window : List ℕ → ℕ
unfolding onset_loop sort_by
most_in_window times = let sts = sort_by leb times in onset_loop sts 0 sts 0

abbrev positive : ℕ → Option (ℕ × ℕ)
positive n = if ltb 0 n then some (n, window) else none

-- `_onset_rate`
unfoldable pub onset_rate : List ℕ → Option (ℕ × ℕ)
unfolding most_in_window
onset_rate times = if ltb (length times) 2 then none else positive (most_in_window times)

unfoldable pub greatest : ℕ → List ℕ → ℕ
greatest best [] = best
greatest best (t ∷ ts) = greatest (if ltb best t then t else best) ts

unfoldable pub least : ℕ → List ℕ → ℕ
least best [] = best
least best (t ∷ ts) = least (if ltb t best then t else best) ts

abbrev lasting : ℕ → ℕ → Option (ℕ × ℕ)
lasting n dur = if ltb 0 dur then some (n, dur) else none

unfoldable pub request_rate : List ℕ → Option (ℕ × ℕ)
unfolding greatest least
request_rate (t ∷ u ∷ ts) = lasting (length (t ∷ u ∷ ts)) (greatest t (u ∷ ts) - least t (u ∷ ts))
request_rate ts = none

-- Times with a zone and without cannot be compared: `max` raises where both are there.
unfoldable pub same_zone : List Stamp → Bool
unfolding all
same_zone [] = true
same_zone (s ∷ stamps) = all (λ r. if s.aware then r.aware else not r.aware) stamps

unfoldable pub most_common : Dict ℕ → Dict ℕ
unfolding sort_by
most_common = sort_by (λ (i, n) (j, m). leb m n)

abbrev first_ten : ℕ → Dict ℕ → Dict ℕ
first_ten n [] = []
first_ten n (e ∷ entries) =
    let rest = first_ten (suc n) entries in if ltb n 10 then e ∷ rest else []

pub record Summary : Type 0 where
  pub total_events : ℕ
  pub status_429 : ℕ
  pub status_503 : ℕ
  pub keyword_hits : ℕ
  pub request_rate_sec : Option (ℕ × ℕ)
  pub throttle_ratio : Option (ℕ × ℕ)
  pub onset_rate_sec : Option (ℕ × ℕ)
  pub top_prefixes : Dict ℕ
  pub top_operations : Dict ℕ

abbrev pub ratio_of : ℕ → ℕ → Option (ℕ × ℕ)
ratio_of n m = if ltb 0 m then some (n, m) else none

abbrev micros_of : List Stamp → List ℕ
micros_of = map (λ s. s.micros)

unfoldable pub report_of : Detector → Summary
unfolding request_rate onset_rate most_common
report_of d = record {
  total_events = length d.events;
  status_429 = d.code_429;
  status_503 = d.code_503;
  keyword_hits = d.kw_hits;
  request_rate_sec = request_rate (micros_of d.all_ts);
  throttle_ratio = ratio_of (length d.throttle_ts) (length d.all_ts);
  onset_rate_sec = onset_rate (micros_of d.throttle_ts);
  top_prefixes = first_ten 0 (most_common d.prefixes);
  top_operations = most_common d.ops;
}

unfoldable pub summary : Detector → Try Summary
unfolding same_zone report_of
summary d = if same_zone d.all_ts then returns (report_of d) else raises
