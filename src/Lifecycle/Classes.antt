-- ===== src/Lifecycle/Classes.antt =====
-- Storage classes: `_MIN_DURATION_DAYS`, `_min_duration_days`, `_norm_class`, and `_MIN_BILLABLE`,
-- `_min_billable` of small_object_analyzer.py.
use storageops.Base.{
  ℕ, ◌≡◌, refl, ◌*◌, ◌^◌, leb, ◌==◌, if◌then◌else◌, Bool, true, false, ◌&&◌, ◌||◌, List, [], ◌∷◌,
  Text, txt, length, sort_by, map, upper, strip, contains_text,
}

-- A table in the order of the source.
abbrev pub Table : Type 0
Table = List (Text × ℕ)

unfoldable pub min_duration_table : Table
unfolding txt
min_duration_table =
    (txt "STANDARD", 0)
    ∷ (txt "INTELLIGENT_TIERING", 0)
    ∷ (txt "STANDARD_IA", 30)
    ∷ (txt "ONEZONE_IA", 30)
    ∷ (txt "GLACIER_IR", 90)
    ∷ (txt "GLACIER", 90)
    ∷ (txt "DEEP_ARCHIVE", 180)
    ∷ []

unfoldable pub min_billable_table : Table
unfolding txt
min_billable_table =
    (txt "STANDARD", 0)
    ∷ (txt "STANDARD_IA", 128 * 2 ^ 10)
    ∷ (txt "ONEZONE_IA", 128 * 2 ^ 10)
    ∷ (txt "GLACIER_IR", 128 * 2 ^ 10)
    ∷ (txt "GLACIER", 40 * 2 ^ 10)
    ∷ (txt "DEEP_ARCHIVE", 40 * 2 ^ 10)
    ∷ (txt "INTELLIGENT_TIERING", 0)
    ∷ []

-- `sorted(table, key=len, reverse=True)`: the longest first, equals in the order of the table.
unfoldable pub longest_first : Table → Table
unfolding sort_by
longest_first = sort_by (λ (a, m) (b, n). leb (length b) (length a))

-- The value of the first marker that the class holds, else 0.
unfoldable pub first_marker : Text → Table → ℕ
unfolding contains_text
first_marker name [] = 0
first_marker name ((marker, n) ∷ more) =
    if contains_text marker name then n else first_marker name more

unfoldable pub min_duration_days : Text → ℕ
unfolding first_marker longest_first min_duration_table upper
min_duration_days storage_class =
    first_marker (upper storage_class) (longest_first min_duration_table)

-- `re.sub(r"[ \-]+", "_", s)`: the flag is set inside a run of blanks and dashes.
unfoldable pub join_words : Bool → Text → Text
join_words inside [] = []
join_words inside (c ∷ s) =
    let run = join_words true s in
    let out = join_words false s in
    if c == b' ' || c == b'-' then (if inside then run else b'_' ∷ run) else c ∷ out

unfoldable pub min_billable : Text → ℕ
unfolding first_marker longest_first min_billable_table upper join_words contains_text txt
min_billable storage_class =
    let name = join_words false (upper storage_class) in
    let known =
      if contains_text (txt "INSTANT") name && contains_text (txt "GLACIER") name
      then txt "GLACIER_IR"
      else name in
    first_marker known (longest_first min_billable_table)

dash_to_underscore : ℕ → ℕ
dash_to_underscore c = if c == b'-' then b'_' else c

-- `_norm_class` of a text.
unfoldable pub norm_class : Text → Text
unfolding strip upper dash_to_underscore
norm_class value = map dash_to_underscore (upper (strip value))

deep_archive : min_duration_days (txt "glacier_deep_archive") ≡ 180
unfolding min_duration_days txt
deep_archive = refl

instant : min_billable (txt "Glacier Instant  Retrieval") ≡ 131072
unfolding min_billable txt
instant = refl
