-- ===== src/Throttle/Scan.antt =====
-- The loop over the lines: `ThrottleDetector.scan`, `_prefix` and the counters of `summary`.
pub mod Counts
use storageops.Base.{
  ℕ, zero, suc, ◌+◌, leb, ◌==◌, if◌then◌else◌, Bool, true, false, not, ◌&&◌, ◌||◌, Option, none,
  some, List, [], ◌∷◌, ◌++◌, length, Text, txt, ◌===◌, starts_with, strip, strip_by, is_digit,
  sort_by,
}
use storageops.Base.Dict.{Dict}
use storageops.Throttle.Signals.{
  Code, status_429, status_503, extract_throttle_status, has_keyword, extract_path, first_codes,
  is_letter, starts_by,
}

abbrev add_code : ℕ → List Text → List Text
add_code c [] = (c ∷ []) ∷ []
add_code c (part ∷ parts) = (c ∷ part) ∷ parts

-- `path.split("/")`
unfoldable pub split_slashes : Text → List Text
split_slashes [] = [] ∷ []
split_slashes (c ∷ s) =
    let parts = split_slashes s in if c == b'/' then [] ∷ parts else add_code c parts

abbrev two_parts : Text → List Text → Text
two_parts path (a ∷ b ∷ more) = a ++ (b'/' ∷ b)
two_parts path parts = path

-- `_prefix(path)`
unfoldable pub prefix : Text → Text
unfolding strip_by split_slashes
prefix path = two_parts path (split_slashes (strip_by (λ c. c == b'/') path))

unfoldable pub operations : List Text
unfolding txt
operations =
    txt "GET"
    ∷ txt "PUT"
    ∷ txt "POST"
    ∷ txt "DELETE"
    ∷ txt "HEAD"
    ∷ txt "LIST"
    ∷ txt "UPLOAD"
    ∷ txt "COPY"
    ∷ []

unfoldable pub is_word_code : ℕ → Bool
unfolding is_letter is_digit
is_word_code c = is_letter c || is_digit c || c == b'_'

unfoldable pub behind_word : Text → Text → Text
behind_word [] s = s
behind_word (w ∷ word) [] = []
behind_word (w ∷ word) (c ∷ s) = behind_word word s

-- `(GET|…)\b`
unfoldable pub operation_here : List Text → Text → Option Text
unfolding starts_with starts_by is_word_code behind_word
operation_here [] s = none
operation_here (op ∷ ops) s =
    if starts_with op s && not (starts_by is_word_code (behind_word op s))
    then some op
    else operation_here ops s

-- The first operation of the line; the flag says that a word reaches up to the place.
unfoldable pub operation_from : Bool → Text → Option Text
unfolding operation_here operations is_word_code
operation_from inside [] = none
operation_from inside (c ∷ s) = elim (if inside then none else operation_here operations (c ∷ s)) [
  | some op ↦ some op
  | none ↦ operation_from (is_word_code c) s
]

-- `counter[key] += 1`
unfoldable pub count_one : Dict ℕ → Text → Dict ℕ
unfolding ◌===◌
count_one [] key = (key, 1) ∷ []
count_one ((j, n) ∷ counter) key =
    if j === key then (j, suc n) ∷ counter else (j, n) ∷ count_one counter key

-- A time, as `datetime.strptime` gives it: with a zone or without, and its microseconds.
pub record Stamp : Type 0 where
  pub aware : Bool
  pub micros : ℕ

-- An entry of `details`, without the text of the keyword.
pub record Event : Type 0 where
  pub line : Text
  pub code : Option Code
  pub keyword : Bool
  pub timestamp : Option Stamp
  pub path : Option Text
  pub operation : Option Text

pub record Detector : Type 0 where
  pub events : List Event
  pub code_429 : ℕ
  pub code_503 : ℕ
  pub kw_hits : ℕ
  pub prefixes : Dict ℕ
  pub ops : Dict ℕ
  pub all_ts : List Stamp
  pub throttle_ts : List Stamp

unfoldable pub start : Detector
start = record {
  events = [];
  code_429 = 0;
  code_503 = 0;
  kw_hits = 0;
  prefixes = [];
  ops = [];
  all_ts = [];
  throttle_ts = [];
}

abbrev counted : Dict ℕ → Option Text → Dict ℕ
counted counter none = counter
counted counter (some key) = count_one counter key

abbrev noted : List Stamp → Option Stamp → List Stamp
noted stamps none = stamps
noted stamps (some ts) = stamps ++ (ts ∷ [])

abbrev full_path : Option Text → Option Text
full_path (some (c ∷ path)) = some (c ∷ path)
full_path o = none

abbrev prefix_of : Option Text → Option Text
prefix_of none = none
prefix_of (some path) = some (prefix path)

abbrev is_429 : Option Code → ℕ
is_429 (some status_429) = 1
is_429 o = 0

abbrev is_503 : Option Code → ℕ
is_503 (some status_503) = 1
is_503 o = 0

abbrev is_coded : Option Code → Bool
is_coded none = false
is_coded (some code) = true

-- A line with its code, whether it holds a keyword, and its time.
unfoldable pub scan_read : Option Code → Bool → Option Stamp → Text → Detector → Detector
unfolding prefix extract_path operation_from count_one strip first_codes
scan_read code kw ts line d =
    let path = full_path (extract_path line) in
    let operation = operation_from false line in
    let counting = record d {
      all_ts = noted d.all_ts ts;
      code_429 = d.code_429 + is_429 code;
      code_503 = d.code_503 + is_503 code;
      kw_hits = d.kw_hits + (if kw then 1 else 0);
    } in
    if not (is_coded code || kw) then counting else record counting {
      throttle_ts = noted d.throttle_ts ts;
      prefixes = counted d.prefixes (prefix_of path);
      ops = counted d.ops operation;
      events =
          d.events
          ++ (record {
            line = first_codes 300 (strip line);
            code = code;
            keyword = kw;
            timestamp = ts;
            path = path;
            operation = operation;
          }
              ∷ []);
    }

module _ (parse_ts : Text → Option Stamp) where
  unfoldable pub scan_line : Detector → Text → Detector
  unfolding extract_throttle_status has_keyword scan_read
  scan_line d line =
      scan_read (extract_throttle_status line) (has_keyword line) (parse_ts line) line d

  -- `ThrottleDetector(lines).scan()`, from a state on. `_parse_ts` is a pattern and `datetime.strptime`:
  -- a parameter.
  unfoldable pub scan : Detector → List Text → Detector
  unfolding scan_line
  scan d [] = d
  scan d (line ∷ lines) = scan (scan_line d line) lines
