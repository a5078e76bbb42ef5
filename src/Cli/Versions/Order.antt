-- ===== src/Cli/Versions/Order.antt =====
-- The order of versions, and the choice of the newest Node.
use storageops.Base.{
  ℕ, ◌≡◌, refl, subst, Bool, true, false, none, some, List, [], ◌∷◌, Text, sort_by, any, any-perm,
  arith, Bool-cases, Option-cases, inl, inr, sym,
}
use storageops.Base.Affixes.{Among, here, there, any←, Among-sort_by}
use storageops.Base.Sorting.{IsBelow, IsSorted, sort_by-IsSorted, sort_by-perm}
use storageops.Cli.Versions.{
  Triple, parse_version_triple, triple_lt, min_node_version, node_candidates, newest_first,
  first_name, suggest_node_path, version_tuple, tuple_lt, is_newer_version,
}

tuple_lt_irrefl : (xs : List ℕ) → tuple_lt xs xs ≡ false
unfolding tuple_lt
tuple_lt_irrefl [] = refl
tuple_lt_irrefl (x ∷ xs) = ground (arith, tuple_lt_irrefl xs)

tuple_lt_trans :
    (xs ys zs : List ℕ) → tuple_lt xs ys ≡ true → tuple_lt ys zs ≡ true → tuple_lt xs zs ≡ true
unfolding tuple_lt
tuple_lt_trans [] [] zs h k = absurd (ground arith)
tuple_lt_trans [] (y ∷ ys) [] h k = absurd (ground arith)
tuple_lt_trans [] (y ∷ ys) (z ∷ zs) h k = refl
tuple_lt_trans (x ∷ xs) [] zs h k = absurd (ground arith)
tuple_lt_trans (x ∷ xs) (y ∷ ys) [] h k = absurd (ground arith)
tuple_lt_trans (x ∷ xs) (y ∷ ys) (z ∷ zs) h k = ground (arith, tuple_lt_trans xs ys zs)

-- No version is newer than itself, and what is newer than a newer version is newer.
is_newer_version_order :
    (a b c : Text)
    → (is_newer_version a a ≡ false)
      × (is_newer_version a b ≡ true → is_newer_version b c ≡ true → is_newer_version a c ≡ true)
unfolding is_newer_version
is_newer_version_order a b c = (
  ground (arith, tuple_lt_irrefl (version_tuple a)),
  λ h k. ground (arith, tuple_lt_trans (version_tuple c) (version_tuple b) (version_tuple a)),
)

newest_first_total : (x y : Triple × Text) → newest_first x y ≡ false → newest_first y x ≡ true
unfolding newest_first triple_lt
newest_first_total ((a, b, c), s) ((x, y, z), t) h = ground arith

newest_first_trans :
    (x y z : Triple × Text)
    → newest_first x y ≡ true
    → newest_first y z ≡ true
    → newest_first x z ≡ true
unfolding newest_first triple_lt
newest_first_trans ((a, b, c), s) ((x, y, z), t) ((p, q, r), u) h k = ground arith

abbrev pub IsCandidate : Triple → Text → List Text → Type 0
IsCandidate v n names =
    Among n names × (parse_version_triple n ≡ some v) × (triple_lt v min_node_version ≡ false)

IsCandidate-later :
    (v : Triple) (n name : Text) (names : List Text)
    → IsCandidate v n names
    → IsCandidate v n (name ∷ names)
IsCandidate-later v n name names (m, p, q) = (there m, p, q)

IsCandidate-here :
    (v : Triple) (n : Text) (w : Triple) (name : Text) (names : List Text)
    (more : List (Triple × Text))
    → parse_version_triple name ≡ some w
    → triple_lt w min_node_version ≡ false
    → (Among (v, n) more → IsCandidate v n names)
    → Among (v, n) ((w, name) ∷ more)
    → IsCandidate v n (name ∷ names)
IsCandidate-here v n w name names more e fit f here = (here, e, fit)
IsCandidate-here v n w name names more e fit f (there m) = IsCandidate-later v n name names (f m)

skip_unread :
    (name : Text) (names : List Text)
    → parse_version_triple name ≡ none
    → node_candidates (name ∷ names) ≡ node_candidates names
unfolding node_candidates
skip_unread name names e = ground (arith, e)

skip_old :
    (w : Triple) (name : Text) (names : List Text)
    → parse_version_triple name ≡ some w
    → triple_lt w min_node_version ≡ true
    → node_candidates (name ∷ names) ≡ node_candidates names
unfolding node_candidates
skip_old w name names e old = ground (arith, e, old)

take_candidate :
    (w : Triple) (name : Text) (names : List Text)
    → parse_version_triple name ≡ some w
    → triple_lt w min_node_version ≡ false
    → node_candidates (name ∷ names) ≡ (w, name) ∷ node_candidates names
unfolding node_candidates
take_candidate w name names e fit = ground (arith, e, fit)

no_candidates : node_candidates [] ≡ []
unfolding node_candidates
no_candidates = refl

-- What a candidate is.
IsCandidate-Among :
    (v : Triple) (n : Text) (names : List Text)
    → Among (v, n) (node_candidates names)
    → IsCandidate v n names
IsCandidate-Among v n [] m = elim (rw no_candidates at m) [ ]
IsCandidate-Among v n (name ∷ names) m = elim (Option-cases (parse_version_triple name)) [
  | inl e ↦
      IsCandidate-later v n name names
        (IsCandidate-Among v n names (rw (skip_unread name names e) at m))
  | inr (w, e) ↦ elim (Bool-cases (triple_lt w min_node_version)) [
    | inl old ↦
        IsCandidate-later v n name names
          (IsCandidate-Among v n names (rw (skip_old w name names e old) at m))
    | inr fit ↦
        IsCandidate-here v n w name names _ e fit (IsCandidate-Among v n names)
          (rw (take_candidate w name names e fit) at m)
  ]
]

Among-candidates :
    (w : Triple) (m : Text) (names : List Text)
    → Among m names
    → parse_version_triple m ≡ some w
    → triple_lt w min_node_version ≡ false
    → Among (w, m) (node_candidates names)
Among-candidates w m [] k e fit = elim k [ ]
Among-candidates w m (name ∷ names) here e fit = rw (take_candidate w name names e fit) here
Among-candidates w m (name ∷ names) (there k) e fit =
    let ih = Among-candidates w m names k e fit in
    elim (Option-cases (parse_version_triple name)) [
      | inl f ↦ rw (skip_unread name names f) ih
      | inr (v, f) ↦ elim (Bool-cases (triple_lt v min_node_version)) [
        | inl old ↦ rw (skip_old v name names f old) ih
        | inr new ↦ rw (take_candidate v name names f new) (there ih)
      ]
    ]

IsBelow-any :
    (x : Triple × Text) (ys : List (Triple × Text))
    → IsBelow newest_first x ys
    → any (λ y. triple_lt x.0 y.0) ys ≡ false
unfolding any newest_first
IsBelow-any x [] b = refl
IsBelow-any x (y ∷ ys) (h, b) = ground (arith, h, IsBelow-any x ys b)

triple_lt_irrefl : (v : Triple) → triple_lt v v ≡ false
unfolding triple_lt
triple_lt_irrefl (a, b, c) = ground arith

triple_lt_between :
    (v m w : Triple) → triple_lt v m ≡ false → triple_lt w m ≡ true → triple_lt v w ≡ false
unfolding triple_lt
triple_lt_between (a, b, c) (x, y, z) (p, q, r) h k = ground arith

abbrev pub IsNewest : Triple → Text → List Text → Type 0
IsNewest v n names =
    IsCandidate v n names
    × ((m : Text) (w : Triple)
        → Among m names
        → parse_version_triple m ≡ some w
        → triple_lt v w ≡ false)

-- The head of a sorted list of the candidates.
head-IsNewest :
    (names : List Text) (v : Triple) (n : Text) (more : List (Triple × Text))
    → Among (v, n) (node_candidates names)
    → any (λ y. triple_lt v y.0) (node_candidates names)
      ≡ any (λ y. triple_lt v y.0) ((v, n) ∷ more)
    → IsBelow newest_first (v, n) more
    → IsNewest v n names
unfolding any
head-IsNewest names v n more m same below =
    let c = IsCandidate-Among v n names m in
    let none_above : any (λ y. triple_lt v y.0) (node_candidates names) ≡ false =
      ground (arith, same, triple_lt_irrefl v, IsBelow-any (v, n) more below) in
    (
      c,
      λ m' w k e. elim (Bool-cases (triple_lt w min_node_version)) [
        | inl old ↦ triple_lt_between v min_node_version w (c.2) old
        | inr fit ↦ elim (Bool-cases (triple_lt v w)) [
          | inl above ↦
              let found = any← (λ y. triple_lt v y.0) (Among-candidates w m' names k e fit) above in
              absurd (ground (arith, found, none_above))
          | inr y ↦ y
        ]
      ],
    )

first-IsNewest :
    (names : List Text) (n : Text) (xs : List (Triple × Text))
    → ((y : Triple × Text) → Among y xs → Among y (node_candidates names))
    → ((p : Triple × Text → Bool) → any p (node_candidates names) ≡ any p xs)
    → IsSorted newest_first xs
    → first_name xs ≡ some n
    → (v : Triple) × IsNewest v n names
first-IsNewest names n [] sub same s h = absurd (ground (arith, h))
first-IsNewest names n ((v, m) ∷ more) sub same (b, s) h =
    let e : m ≡ n = cc in
    (
      v,
      subst (λ x. IsNewest v x names) e
          (head-IsNewest names v m more (sub (v, m) here) (same (λ y. triple_lt v y.0)) b),
    )

-- The Node that is suggested is one of the installed ones, new enough, and none is newer.
pub suggest_node_path-IsNewest :
    (names : List Text) (n : Text)
    → suggest_node_path names ≡ some n
    → (v : Triple) × IsNewest v n names
unfolding suggest_node_path
suggest_node_path-IsNewest names n h =
    let cs = node_candidates names in
    first-IsNewest names n (sort_by newest_first cs) (λ y. Among-sort_by newest_first y cs)
      (λ p. sym (any-perm p _ _ (sort_by-perm newest_first cs)))
      (sort_by-IsSorted newest_first newest_first_total newest_first_trans cs) h
