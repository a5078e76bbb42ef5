-- ===== src/Cli/Versions/Reading.antt =====
-- Versions are read back from the texts that they are written in.
use storageops.Base.{
  ℕ, ◌<◌, ◌==◌, ◌≡◌, refl, ◌∙◌, sym, ap, Bool, true, false, not, ◌&&◌, ◌||◌, none, some, List, [],
  ◌∷◌, ◌++◌, all, length, Text, is_digit, add_digit, decimal, to_int, span_digits,
  span_digits-append, ends_digits, is_digit-decimal, length-decimal-pos, to_int-decimal, arith,
}
use mathlib.Core.List.{foldl, append_assoc}
use storageops.Cli.Versions.{
  Triple, number, number_of, dot, match_triple, parse_version_triple, more_digits, after_dot,
  version_tuple, tuple_lt, is_newer_version,
}

number_of-digits : (ds rest : Text) → 0 < length ds → number_of (ds, rest) ≡ some (to_int ds, rest)
number_of-digits [] rest h = absurd (omega arith)
number_of-digits (d ∷ ds) rest h = refl

number-decimal :
    (n : ℕ) (rest : Text) → ends_digits rest ≡ true → number (decimal n ++ rest) ≡ some (n, rest)
unfolding number
number-decimal n rest h =
    rw (span_digits-append (decimal n) rest (is_digit-decimal n) h)
      (number_of-digits (decimal n) rest (length-decimal-pos n) ∙ rw (to_int-decimal n) refl)

-- `a.b.c` with a text behind it.
abbrev pub triple_text : Triple → Text → Text
triple_text (a, b, c) rest = decimal a ++ (b'.' ∷ (decimal b ++ (b'.' ∷ (decimal c ++ rest))))

match_triple-text :
    (v : Triple) (rest : Text)
    → ends_digits rest ≡ true
    → match_triple (triple_text v rest) ≡ some v
unfolding match_triple dot ends_digits is_digit
match_triple-text (a, b, c) rest h =
    rw (number-decimal a (b'.' ∷ (decimal b ++ (b'.' ∷ (decimal c ++ rest)))) refl)
      (rw (number-decimal b (b'.' ∷ (decimal c ++ rest)) refl) (rw (number-decimal c rest h) refl))

parse_here : (t : Text) (v : Triple) → match_triple t ≡ some v → parse_version_triple t ≡ some v
unfolding parse_version_triple
parse_here [] v h = sym nothing ∙ h
  where
    nothing : match_triple [] ≡ none
    nothing = unfold match_triple number span_digits in refl
parse_here (c ∷ s) v h = ground (arith, h)

match_triple-skip : (c : ℕ) (s : Text) → is_digit c ≡ false → match_triple (c ∷ s) ≡ none
unfolding match_triple number span_digits
match_triple-skip c s h = ground (arith, h)

-- The first version in a text is read, where no digit stands before it and none right behind it.
parse_version_triple-text :
    (pre rest : Text) (v : Triple)
    → all (λ c. not (is_digit c)) pre ≡ true
    → ends_digits rest ≡ true
    → parse_version_triple (pre ++ triple_text v rest) ≡ some v
unfolding all parse_version_triple
parse_version_triple-text [] rest v p h =
    parse_here (triple_text v rest) v (match_triple-text v rest h)
parse_version_triple-text (c ∷ pre) rest v p h = ground (
  arith,
  match_triple-skip c (pre ++ triple_text v rest),
  parse_version_triple-text pre rest v (ground arith) h,
)

-- `n1.n2.….nk`
abbrev pub dotted : ℕ → List ℕ → Text
dotted n [] = decimal n
dotted n (m ∷ ms) = decimal n ++ (b'.' ∷ dotted m ms)

-- No digit begins the text.
unfoldable starts_plain : Text → Bool
starts_plain [] = true
starts_plain (c ∷ s) = not (is_digit c)

-- Neither a digit nor a dot with a digit behind it begins the text.
unfoldable pub ends_version : Text → Bool
unfolding starts_plain
ends_version [] = true
ends_version (c ∷ s) = not (is_digit c) && (not (c == b'.') || starts_plain s)

more_digits-run :
    (n : ℕ) (ds rest : Text)
    → all is_digit ds ≡ true
    → more_digits n (ds ++ rest) ≡ more_digits (foldl add_digit n ds) rest
unfolding all more_digits
more_digits-run n [] rest h = refl
more_digits-run n (d ∷ ds) rest h =
    let digit : is_digit d ≡ true = ground arith in
    ground (arith, digit, more_digits-run (add_digit n d) ds rest (ground arith))

after_dot-plain : (n : ℕ) (s : Text) → starts_plain s ≡ true → after_dot n s ≡ n ∷ []
unfolding after_dot starts_plain
after_dot-plain n [] h = refl
after_dot-plain n (c ∷ s) h = ground arith

more_digits-end : (n : ℕ) (rest : Text) → ends_version rest ≡ true → more_digits n rest ≡ n ∷ []
unfolding more_digits ends_version
more_digits-end n [] h = refl
more_digits-end n (c ∷ s) h = ground (arith, after_dot-plain n s)

-- A number at the beginning of a version, and one behind a dot.
version_tuple-run :
    (ds rest : Text)
    → 0 < length ds
    → all is_digit ds ≡ true
    → version_tuple (ds ++ rest) ≡ more_digits (to_int ds) rest
unfolding all version_tuple to_int
version_tuple-run [] rest p h = absurd (omega arith)
version_tuple-run (d ∷ ds) rest p h =
    ground (arith, more_digits-run (add_digit 0 d) ds rest (ground arith))

after_dot-run :
    (n : ℕ) (ds rest : Text)
    → 0 < length ds
    → all is_digit ds ≡ true
    → after_dot n (ds ++ rest) ≡ n ∷ more_digits (to_int ds) rest
unfolding all after_dot to_int
after_dot-run n [] rest p h = absurd (omega arith)
after_dot-run n (d ∷ ds) rest p h =
    ground (arith, more_digits-run (add_digit 0 d) ds rest (ground arith))

after_dot-decimal :
    (n m : ℕ) (rest : Text) → after_dot n (decimal m ++ rest) ≡ n ∷ more_digits m rest
after_dot-decimal n m rest =
    after_dot-run n (decimal m) rest (length-decimal-pos m) (is_digit-decimal m)
    ∙ rw (to_int-decimal m) refl

more_digits-dot : (n : ℕ) (s : Text) → more_digits n (b'.' ∷ s) ≡ after_dot n s
unfolding more_digits is_digit
more_digits-dot n s = refl

after_dot-dotted :
    (k n : ℕ) (ms : List ℕ) (rest : Text)
    → ends_version rest ≡ true
    → after_dot k (dotted n ms ++ rest) ≡ k ∷ n ∷ ms
after_dot-dotted k n [] rest h =
    after_dot-decimal k n rest ∙ ap (λ xs. k ∷ xs) (more_digits-end n rest h)
after_dot-dotted k n (m ∷ ms) rest h = rw (append_assoc (decimal n) (b'.' ∷ dotted m ms) rest) (
    after_dot-decimal k n (b'.' ∷ (dotted m ms ++ rest))
    ∙ ap (λ xs. k ∷ xs) (more_digits-dot n (dotted m ms ++ rest) ∙ after_dot-dotted n m ms rest h))

-- A version of numbers and dots is read back as its numbers, with any text behind it that begins
-- neither with a digit nor with a dot and a digit.
version_tuple-dotted :
    (n : ℕ) (ms : List ℕ) (rest : Text)
    → ends_version rest ≡ true
    → version_tuple (dotted n ms ++ rest) ≡ n ∷ ms
version_tuple-dotted n [] rest h =
    version_tuple-run (decimal n) rest (length-decimal-pos n) (is_digit-decimal n)
    ∙ rw (to_int-decimal n) (more_digits-end n rest h)
version_tuple-dotted n (m ∷ ms) rest h = rw (append_assoc (decimal n) (b'.' ∷ dotted m ms) rest) (
    version_tuple-run (decimal n) (b'.' ∷ (dotted m ms ++ rest)) (length-decimal-pos n)
      (is_digit-decimal n)
    ∙ rw (to_int-decimal n)
        (more_digits-dot n (dotted m ms ++ rest) ∙ after_dot-dotted n m ms rest h))

-- One version is newer than another exactly when its numbers are greater as tuples, whatever text
-- follows that begins neither with a digit nor with a dot and a digit (`.dev1`, `-beta`, `rc1`).
pub is_newer_version-dotted :
    (n m : ℕ) (ns ms : List ℕ) (rest end : Text)
    → ends_version rest ≡ true
    → ends_version end ≡ true
    → is_newer_version (dotted n ns ++ rest) (dotted m ms ++ end) ≡ tuple_lt (m ∷ ms) (n ∷ ns)
unfolding is_newer_version
is_newer_version-dotted n m ns ms rest end h k =
    rw (version_tuple-dotted n ns rest h, version_tuple-dotted m ms end k) refl
