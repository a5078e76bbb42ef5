-- ===== src/Throttle/Signals.antt =====
-- What a line of a log says: `_extract_throttle_status`, `_THROTTLE_RE`, `_extract_path`, `_prefix` and
-- the pattern of operations.
use storageops.Base.{
  ℕ, zero, suc, leb, ◌==◌, if◌then◌else◌, Bool, true, false, not, ◌&&◌, ◌||◌, Option, none, some,
  List, [], ◌∷◌, ◌++◌, any, Text, txt, ◌===◌, lower, contains_text, is_digit, is_space,
}
use mathlib.Core.List.{reverse}

-- The first codes of a text, at most so many.
unfoldable pub first_codes : ℕ → Text → Text
first_codes n [] = []
first_codes zero (c ∷ s) = []
first_codes (suc n) (c ∷ s) = c ∷ first_codes n s

unfoldable pub starts_by : (ℕ → Bool) → Text → Bool
starts_by p [] = false
starts_by p (c ∷ s) = p c

pub data Code : Type 0 where
  status_429 status_503 : Code

-- `(429|503)(?!\d)`
unfoldable pub code_here : Text → Option Code
unfolding starts_by is_digit
code_here (a ∷ b ∷ c ∷ s) =
    if starts_by is_digit s
    then none
    else if a == b'4' && b == b'2' && c == b'9'
    then some status_429
    else if a == b'5' && b == b'0' && c == b'3'
    then some status_503
    else none
code_here s = none

unfoldable pub context_words : List Text
unfolding txt
context_words =
    txt "status"
    ∷ txt "http"
    ∷ txt "error"
    ∷ txt "err"
    ∷ txt "fail"
    ∷ txt "slowdown"
    ∷ txt "throttl"
    ∷ txt "rate"
    ∷ []

-- 32 codes before the place, which are given in reverse, and 35 from it on.
unfoldable pub has_context : Text → Text → Bool
unfolding any contains_text context_words first_codes lower
has_context behind s =
    let context = lower (reverse (first_codes 32 behind) ++ first_codes 35 s) in
    any (λ w. contains_text w context) context_words

abbrev code_or : Option Code → Bool → Option Code → Option Code
code_or none near later = later
code_or (some code) near later = if near then some code else later

-- From a place on, with what is before it in reverse. A code of three digits that is passed over holds
-- no other code.
unfoldable pub status_from : Text → Text → Option Code
unfolding starts_by code_here has_context is_digit
status_from behind [] = none
status_from behind (c ∷ s) =
    let later = status_from (c ∷ behind) s in
    if starts_by (λ d. is_digit d || d == b'.') behind
    then later
    else code_or (code_here (c ∷ s)) (has_context behind (c ∷ s)) later

unfoldable pub extract_throttle_status : Text → Option Code
extract_throttle_status line = status_from [] line

-- `\s*`
unfoldable pub skip_spaces : Text → Text
unfolding is_space
skip_spaces [] = []
skip_spaces (c ∷ s) = if is_space c then skip_spaces s else c ∷ s

-- What stands behind a word in lower case, whatever the case of the text.
unfoldable pub after_word : Text → Text → Option Text
unfolding lower
after_word [] s = some s
after_word (w ∷ word) [] = none
after_word (w ∷ word) (c ∷ s) = if lower (c ∷ []) === (w ∷ []) then after_word word s else none

-- A phrase: a first word, and further ones with `\s+` (true) or `\s*` before them.
abbrev pub Phrase : Type 0
Phrase = Text × List (Bool × Text)

unfoldable pub phrases : List Phrase
unfolding txt
phrases =
    (txt "slow", (false, txt "down") ∷ [])
    ∷ (txt "rate", (true, txt "exceeded") ∷ [])
    ∷ (txt "throttl", [])
    ∷ (txt "request", (false, txt "limit") ∷ [])
    ∷ (txt "quota", (true, txt "exceeded") ∷ [])
    ∷ (txt "too", (true, txt "many") ∷ (true, txt "requests") ∷ [])
    ∷ (txt "try", (true, txt "again") ∷ [])
    ∷ (txt "bandwidth", (true, txt "exceeded") ∷ [])
    ∷ (txt "tps", (true, txt "exceeded") ∷ [])
    ∷ []

abbrev or_none : Option Text → (Text → Option Text) → Option Text
or_none none next = none
or_none (some s) next = next s

unfoldable pub after_words : List (Bool × Text) → Text → Option Text
unfolding starts_by is_space skip_spaces after_word
after_words [] s = some s
after_words ((needed, word) ∷ words) s =
    if needed && not (starts_by is_space s)
    then none
    else or_none (after_word word (skip_spaces s)) (after_words words)

unfoldable pub phrase_here : List Phrase → Text → Bool
unfolding after_word
phrase_here [] s = false
phrase_here ((word, words) ∷ more) s = elim (or_none (after_word word s) (after_words words)) [
  | some rest ↦ true
  | none ↦ phrase_here more s
]

-- `_THROTTLE_RE.search(line)`, as a test.
unfoldable pub has_keyword : Text → Bool
unfolding phrase_here phrases
has_keyword [] = phrase_here phrases []
has_keyword (c ∷ s) = phrase_here phrases (c ∷ s) || has_keyword s

-- `\S+`
unfoldable pub non_spaces : Text → Text
unfolding is_space
non_spaces [] = []
non_spaces (c ∷ s) = if is_space c then [] else c ∷ non_spaces s

abbrev full : Text → Option Text
full [] = none
full (c ∷ s) = some (c ∷ s)

abbrev value_behind_sign : Text → Option Text
value_behind_sign [] = none
value_behind_sign (c ∷ s) =
    if c == b'=' || c == b':' then full (non_spaces (skip_spaces s)) else none

abbrev keyed_by : List Text → Text → Option Text
keyed_by [] s = none
keyed_by (word ∷ words) s = elim (after_word word s) [
  | some rest ↦ value_behind_sign (skip_spaces rest)
  | none ↦ keyed_by words s
]

-- `(?:path|key|object|prefix)\s*[=:]\s*(\S+)`
unfoldable pub keyed_here : Text → Option Text
unfolding after_word skip_spaces non_spaces txt
keyed_here s = keyed_by (txt "path" ∷ txt "key" ∷ txt "object" ∷ txt "prefix" ∷ []) s

-- `(/\S+)`
unfoldable pub slashed_here : Text → Option Text
unfolding non_spaces
slashed_here (c ∷ d ∷ s) =
    if c == b'/'
    then (elim (full (non_spaces (d ∷ s))) [ some rest ↦ some (c ∷ rest) | none ↦ none ])
    else none
slashed_here s = none

unfoldable pub is_letter : ℕ → Bool
is_letter c = (leb b'A' c && leb c b'Z') || (leb b'a' c && leb c b'z')

unfoldable pub skip_letters : Text → Text
unfolding is_letter
skip_letters [] = []
skip_letters (c ∷ s) = if is_letter c then skip_letters s else c ∷ s

-- `"[A-Z]+\s+(/\S+)`
unfoldable pub quoted_here : Text → Option Text
unfolding starts_by is_letter skip_letters is_space skip_spaces slashed_here
quoted_here [] = none
quoted_here (c ∷ s) =
    if c == b'"' && starts_by is_letter s && starts_by is_space (skip_letters s)
    then slashed_here (skip_spaces (skip_letters s))
    else none

unfoldable pub search : (Text → Option Text) → Text → Option Text
search here [] = here []
search here (c ∷ s) = elim (here (c ∷ s)) [ some found ↦ some found | none ↦ search here s ]

unfoldable pub drop_ends : (ℕ → Bool) → Text → Text
drop_ends p [] = []
drop_ends p (c ∷ s) =
    let rest = drop_ends p s in elim rest [ [] ↦ if p c then [] else c ∷ [] | d ∷ t ↦ c ∷ d ∷ t ]

-- `,;)}]"'`
abbrev closing : ℕ → Bool
closing c = any (λ d. c == d) (44 ∷ 59 ∷ 41 ∷ 125 ∷ 93 ∷ 34 ∷ 39 ∷ [])

abbrev first_path : Text → List (Text → Option Text) → Option Text
first_path line [] = none
first_path line (pattern_here ∷ more) = elim (search pattern_here line) [
  | some path ↦ some (drop_ends closing path)
  | none ↦ first_path line more
]

unfoldable pub extract_path : Text → Option Text
unfolding search keyed_here quoted_here slashed_here drop_ends any
extract_path line = first_path line (keyed_here ∷ quoted_here ∷ slashed_here ∷ [])
