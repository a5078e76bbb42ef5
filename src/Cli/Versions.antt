-- ===== src/Cli/Versions.antt =====
-- `_parse_version_triple`, `_parse` of `check_pi_version`, `_node_too_old`, `_suggest_node_path`,
-- `_version_tuple` and `_is_newer_version`.
pub mod Order
pub mod Reading
use storageops.Base.{
  ℕ, ltb, ◌==◌, if◌then◌else◌, Bool, true, false, not, ◌&&◌, ◌||◌, Option, none, some, List, [],
  ◌∷◌, Text, is_digit, add_digit, span_digits, to_int, sort_by,
}
use storageops.Base.Optional.{◌>>=◌}

abbrev pub Triple : Type 0
Triple = ℕ × ℕ × ℕ

abbrev number_of : Text × Text → Option (ℕ × Text)
number_of ([], rest) = none
number_of (d ∷ ds, rest) = some (to_int (d ∷ ds), rest)

-- `(\d+)`
unfoldable pub number : Text → Option (ℕ × Text)
unfolding span_digits to_int
number s = number_of (span_digits s)

-- `\.`
unfoldable pub dot : Text → Option Text
dot [] = none
dot (c ∷ s) = if c == b'.' then some s else none

-- `(\d+)\.(\d+)\.(\d+)` at the beginning of the text. A number ends only where its digits do, since no
-- dot is a digit.
unfoldable pub match_triple : Text → Option Triple
unfolding number dot
match_triple s = do
  a ← number s
  s1 ← dot a.1
  b ← number s1
  s2 ← dot b.1
  c ← number s2
  some (a.0, b.0, c.0)

-- `re.search`: the first place where it matches.
unfoldable pub parse_version_triple : Text → Option Triple
parse_version_triple [] = none
parse_version_triple (c ∷ s) = elim (match_triple (c ∷ s)) [
  | some v ↦ some v
  | none ↦ parse_version_triple s
]

-- Tuples of three numbers, compared as Python does.
unfoldable pub triple_lt : Triple → Triple → Bool
triple_lt (a, b, c) (x, y, z) = ltb a x || (a == x && (ltb b y || (b == y && ltb c z)))

unfoldable pub min_pi_version : Triple
min_pi_version = (0, 78, 0)

unfoldable pub min_node_version : Triple
min_node_version = (22, 19, 0)

abbrev or_zero : Option Triple → Triple
or_zero none = (0, 0, 0)
or_zero (some v) = v

-- What `check_pi_version` answers for the output of `pi --version`, already stripped.
unfoldable pub pi_version_ok : Text → Bool
pi_version_ok raw = not (triple_lt (or_zero (parse_version_triple raw)) min_pi_version)

-- `_node_too_old` of the version found, and `node_ok` of `_runtime_status`.
unfoldable pub node_too_old : Option Triple → Bool
unfolding triple_lt min_node_version
node_too_old none = false
node_too_old (some v) = triple_lt v min_node_version

unfoldable pub node_ok : Option Triple → Bool
unfolding triple_lt min_node_version
node_ok none = false
node_ok (some v) = not (triple_lt v min_node_version)

-- The directories under ~/.nvm/versions/node that hold a `bin/node`, by their names.
unfoldable pub node_candidates : List Text → List (Triple × Text)
node_candidates [] = []
node_candidates (name ∷ names) =
    let rest = node_candidates names in
    elim (parse_version_triple name) [
      | none ↦ rest
      | some v ↦ if triple_lt v min_node_version then rest else (v, name) ∷ rest
    ]

-- `sort(key=…, reverse=True)`: the greatest first, equals in their order.
unfoldable pub newest_first : Triple × Text → Triple × Text → Bool
unfolding triple_lt
newest_first (v, a) (w, b) = not (triple_lt v w)

abbrev pub first_name : List (Triple × Text) → Option Text
first_name [] = none
first_name ((v, name) ∷ more) = some name

unfoldable pub suggest_node_path : List Text → Option Text
suggest_node_path names = first_name (sort_by newest_first (node_candidates names))

-- `^(\d+(?:\.\d+)*)` split at its dots: the number read so far, and the text behind it. A dot belongs
-- to the match only with a digit behind it.
unfoldable mutual
  pub more_digits : ℕ → Text → List ℕ
  more_digits n [] = n ∷ []
  more_digits n (c ∷ s) = elim (is_digit c) [
    | true ↦ more_digits (add_digit n c) s
    | false ↦ elim (c == b'.') [ true ↦ after_dot n s | false ↦ n ∷ [] ]
  ]

  pub after_dot : ℕ → Text → List ℕ
  after_dot n [] = n ∷ []
  after_dot n (c ∷ s) = elim (is_digit c) [
    | true ↦ n ∷ more_digits (add_digit 0 c) s
    | false ↦ n ∷ []
  ]

unfoldable pub version_tuple : Text → List ℕ
version_tuple [] = []
version_tuple (c ∷ s) = elim (is_digit c) [ true ↦ more_digits (add_digit 0 c) s | false ↦ [] ]

-- Tuples of numbers, compared as Python does.
unfoldable pub tuple_lt : List ℕ → List ℕ → Bool
tuple_lt [] [] = false
tuple_lt [] (y ∷ ys) = true
tuple_lt (x ∷ xs) [] = false
tuple_lt (x ∷ xs) (y ∷ ys) = ltb x y || (x == y && tuple_lt xs ys)

abbrev is_nil : List ℕ → Bool
is_nil [] = true
is_nil (x ∷ xs) = false

unfoldable pub is_newer_version : Text → Text → Bool
is_newer_version candidate current =
    let cand = version_tuple candidate in
    let cur = version_tuple current in not (is_nil cand) && not (is_nil cur) && tuple_lt cur cand
