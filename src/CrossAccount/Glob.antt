-- ===== src/CrossAccount/Glob.antt =====
-- `_glob_match` of cross_account_access_validator.py: the regular expression that it builds from an
-- IAM pattern, matched with backtracking. `.` stands for no newline, and `$` also stands before a
-- newline that ends the text.
pub mod Pieces
use storageops.Base.{
  ℕ, ◌==◌, if◌then◌else◌, ◌≡◌, refl, ◌≢◌, ◌↔◌, ◌⊎◌, inl, inr, Bool, true, false, [], ◌∷◌, Text,
  Bool-cases, arith, txt, ◌===◌, ===_iff,
}

abbrev pub newline : ℕ
newline = 10

-- `$`
unfoldable pub at_end : Text → Bool
at_end [] = true
at_end (c ∷ []) = c == newline
at_end (c ∷ d ∷ v) = false

-- `re.match` of the expression that a pattern stands for, without its `^`.
unfoldable pub match_here : Text → Text → Bool
unfolding at_end
match_here [] v = at_end v
match_here (p ∷ ps) [] = if p == b'*' then match_here ps [] else false
match_here (p ∷ ps) (c ∷ v) =
    let leave = match_here ps (c ∷ v) in
    let take = match_here (p ∷ ps) v in
    let one = match_here ps v in
    if p == b'*'
    then (if leave then true else if c == newline then false else take)
    else if p == b'?'
    then (if c == newline then false else one)
    else if p == c
    then one
    else false

unfoldable pub glob_match : Text → Text → Bool
unfolding match_here
glob_match pattern value = if pattern === txt "*" then true else match_here pattern value

-- What the expression matches, with no order of search in it.
pub data Matches : Text → Text → Type 0 where
  done : Matches [] []
  done_line : (c : ℕ) → c ≡ newline → Matches [] (c ∷ [])
  star_leave : {p : ℕ} {ps v : Text} → p ≡ b'*' → Matches ps v → Matches (p ∷ ps) v
  star_take :
      {p c : ℕ} {ps v : Text}
      → p ≡ b'*'
      → c ≢ newline
      → Matches (p ∷ ps) v
      → Matches (p ∷ ps) (c ∷ v)
  any_one :
      {p c : ℕ} {ps v : Text} → p ≡ b'?' → c ≢ newline → Matches ps v → Matches (p ∷ ps) (c ∷ v)
  literal :
      {p c : ℕ} {ps v : Text}
      → p ≢ b'*'
      → p ≢ b'?'
      → p ≡ c
      → Matches ps v
      → Matches (p ∷ ps) (c ∷ v)

at_end→Matches : (v : Text) → at_end v ≡ true → Matches [] v
unfolding at_end
at_end→Matches [] h = done
at_end→Matches (c ∷ []) h = done_line c (ground arith)
at_end→Matches (c ∷ d ∷ v) h = absurd (ground arith)

match_here→Matches : (ps v : Text) → match_here ps v ≡ true → Matches ps v
unfolding match_here
match_here→Matches [] v h = at_end→Matches v h
match_here→Matches (p ∷ ps) [] h =
    star_leave (ground arith) (match_here→Matches ps [] (ground arith))
match_here→Matches (p ∷ ps) (c ∷ v) h = elim (Bool-cases (p == b'*')) [
  | inl star ↦ elim (Bool-cases (match_here ps (c ∷ v))) [
    | inl leaves ↦ star_leave (ground arith) (match_here→Matches ps (c ∷ v) leaves)
    | inr stays ↦
        star_take (ground arith) (ground arith) (match_here→Matches (p ∷ ps) v (ground arith))
  ]
  | inr plain ↦ elim (Bool-cases (p == b'?')) [
    | inl one ↦ any_one (ground arith) (ground arith) (match_here→Matches ps v (ground arith))
    | inr other ↦
        literal (ground arith) (ground arith) (ground arith)
          (match_here→Matches ps v (ground arith))
  ]
]

star_leave-match_here :
    (p : ℕ) (ps v : Text) → p ≡ b'*' → match_here ps v ≡ true → match_here (p ∷ ps) v ≡ true
unfolding match_here
star_leave-match_here p ps [] e h = ground arith
star_leave-match_here p ps (c ∷ v) e h = ground arith

Matches→match_here : {ps v : Text} → Matches ps v → match_here ps v ≡ true
unfolding match_here
Matches→match_here done = refl
Matches→match_here (done_line c e) = ground arith
Matches→match_here (star_leave {p = p} {ps = ps} {v = v} e m) =
    star_leave-match_here p ps v e (Matches→match_here m)
Matches→match_here (star_take e ne m) = ground (arith, Matches→match_here m)
Matches→match_here (any_one e ne m) = ground (arith, Matches→match_here m)
Matches→match_here (literal a b e m) = ground (arith, Matches→match_here m)

pub glob_match_lem :
    (pattern value : Text)
    → (glob_match pattern value ≡ true) ↔ ((pattern ≡ txt "*") ⊎ Matches pattern value)
unfolding glob_match
glob_match_lem pattern value = elim (Bool-cases (pattern === txt "*")) [
  | inl every ↦ (λ h. inl ((===_iff pattern (txt "*")).0 every), λ m. rw every)
  | inr other ↦ (
    λ h. inr (match_here→Matches pattern value (rw other at h)),
    λ m.
        rw other
          (elim m [ inl e ↦ cc ((===_iff pattern (txt "*")).1 e) | inr d ↦ Matches→match_here d ]),
  )
]
