-- ===== src/CrossAccount/Glob/Pieces.antt =====
-- A value that a pattern of `_glob_match` matches is made of pieces, one for each code of the pattern.
use mathlib.Core.List.{append_assoc}
use storageops.Base.{
  ℕ, ◌==◌, ◌≡◌, refl, ◌∙◌, ap, sym, subst, ◌≢◌, ◌↔◌, ◌⊎◌, inl, inr, Bool, true, [], ◌∷◌, ◌++◌, Text,
  arith, txt, free_of,
}
use storageops.CrossAccount.Glob.{
  newline, glob_match, Matches, done, done_line, star_leave, star_take, any_one, literal,
  glob_match_lem,
}

unfoldable pub is_newline : ℕ → Bool
is_newline c = c == newline

-- What may stand for a code of a pattern: any codes but newlines for `*`, one code but a newline for
-- `?`, and the code itself for any other.
abbrev pub StandsFor : ℕ → Text → Type 0
StandsFor p w =
    ((p ≡ b'*') × (free_of is_newline w ≡ true))
    ⊎ (((p ≡ b'?') × ((c : ℕ) × (w ≡ c ∷ []) × (c ≢ newline)))
        ⊎ ((p ≢ b'*') × (p ≢ b'?') × (w ≡ p ∷ [])))

-- The value is made of pieces that stand for the codes of the pattern, in their order.
abbrev pub IsMadeOf : Text → Text → Type 0
IsMadeOf [] value = value ≡ []
IsMadeOf (p ∷ ps) value =
    (w : Text) × (rest : Text) × (value ≡ w ++ rest) × StandsFor p w × IsMadeOf ps rest

-- The same, with a newline behind the pieces or not.
abbrev pub IsLineOf : Text → Text → Type 0
IsLineOf pattern value =
    (line : Text) × ((value ≡ line) ⊎ (value ≡ line ++ (newline ∷ []))) × IsMadeOf pattern line

add_piece :
    (p : ℕ) (ps w rest : Text) → StandsFor p w → IsLineOf ps rest → IsLineOf (p ∷ ps) (w ++ rest)
add_piece p ps w rest s (line, inl e, m) =
    (w ++ line, inl (ap (λ r. w ++ r) e), (w, line, refl, s, m))
add_piece p ps w rest s (line, inr e, m) = (
  w ++ line,
  inr (ap (λ r. w ++ r) e ∙ sym (append_assoc w line (newline ∷ []))),
  (w, line, refl, s, m),
)

-- A piece for `*` takes one code more.
longer :
    (p c : ℕ) (ps v : Text)
    → p ≡ b'*'
    → c ≢ newline
    → IsLineOf (p ∷ ps) v
    → IsLineOf (p ∷ ps) (c ∷ v)
unfolding free_of is_newline
longer p c ps v star ne (line, end, (w, rest, e, inl (a, f), m)) = (
  c ∷ line,
  elim end [ inl g ↦ inl (ap (λ r. c ∷ r) g) | inr g ↦ inr (ap (λ r. c ∷ r) g) ],
  (c ∷ w, rest, ap (λ r. c ∷ r) e, inl (a, ground arith), m),
)
longer p c ps v star ne (line, end, (w, rest, e, inr (inl (a, f)), m)) =
    absurd (omega (arith, a, star))
longer p c ps v star ne (line, end, (w, rest, e, inr (inr (a, b, f)), m)) = absurd (a star)

Matches→IsLineOf : {ps v : Text} → Matches ps v → IsLineOf ps v
unfolding free_of
Matches→IsLineOf done = ([], inl refl, refl)
Matches→IsLineOf (done_line c e) = ([], inr (ap (λ d. d ∷ []) e), refl)
Matches→IsLineOf (star_leave {p = p} {ps = ps} {v = v} e m) =
    add_piece p ps [] v (inl (e, refl)) (Matches→IsLineOf m)
Matches→IsLineOf (star_take {p = p} {c = c} {ps = ps} {v = v} e ne m) =
    longer p c ps v e ne (Matches→IsLineOf m)
Matches→IsLineOf (any_one {p = p} {c = c} {ps = ps} {v = v} e ne m) =
    add_piece p ps (c ∷ []) v (inr (inl (e, (c, refl, ne)))) (Matches→IsLineOf m)
Matches→IsLineOf (literal {p = p} {c = c} {ps = ps} {v = v} a b e m) =
    add_piece p ps (c ∷ []) v (inr (inr (a, b, ap (λ d. d ∷ []) (sym e)))) (Matches→IsLineOf m)

star-Matches :
    (p : ℕ) (ps w rest : Text)
    → p ≡ b'*'
    → free_of is_newline w ≡ true
    → Matches ps rest
    → Matches (p ∷ ps) (w ++ rest)
unfolding free_of is_newline
star-Matches p ps [] rest e f m = star_leave e m
star-Matches p ps (c ∷ w) rest e f m =
    star_take e (ground arith) (star-Matches p ps w rest e (ground arith) m)

piece-Matches :
    (p : ℕ) (ps w rest : Text) → StandsFor p w → Matches ps rest → Matches (p ∷ ps) (w ++ rest)
piece-Matches p ps w rest (inl (e, f)) m = star-Matches p ps w rest e f m
piece-Matches p ps w rest (inr (inl (e, (c, f, ne)))) m =
    subst (λ u. Matches (p ∷ ps) (u ++ rest)) (sym f) (any_one e ne m)
piece-Matches p ps w rest (inr (inr (a, b, f))) m =
    subst (λ u. Matches (p ∷ ps) (u ++ rest)) (sym f) (literal a b refl m)

end-Matches :
    (line value : Text)
    → line ≡ []
    → (value ≡ line) ⊎ (value ≡ line ++ (newline ∷ []))
    → Matches [] value
end-Matches line value e (inl f) = subst (λ v. Matches [] v) (sym (f ∙ e)) done
end-Matches line value e (inr f) =
    subst (λ v. Matches [] v) (sym (f ∙ ap (λ l. l ++ (newline ∷ [])) e)) (done_line newline refl)

IsLineOf→Matches : (ps v : Text) → IsLineOf ps v → Matches ps v
IsLineOf→Matches [] v (line, end, m) = end-Matches line v m end
IsLineOf→Matches (p ∷ ps) v (line, inl e, (w, rest, f, s, m)) =
    subst (λ u. Matches (p ∷ ps) u) (sym (e ∙ f))
      (piece-Matches p ps w rest s (IsLineOf→Matches ps rest (rest, inl refl, m)))
IsLineOf→Matches (p ∷ ps) v (line, inr e, (w, rest, f, s, m)) =
    subst (λ u. Matches (p ∷ ps) u)
      (sym (e ∙ ap (λ l. l ++ (newline ∷ [])) f ∙ append_assoc w rest (newline ∷ [])))
      (piece-Matches p ps w (rest ++ (newline ∷ [])) s
        (IsLineOf→Matches ps (rest ++ (newline ∷ [])) (rest, inr refl, m)))

-- `_glob_match` answers true exactly where the pattern is `*` alone or the value is made of one piece
-- for each code of the pattern, in order, with one newline behind them or not: any codes but newlines
-- for `*`, one code but a newline for `?`, and the code itself for any other.
pub glob_match_iff :
    (pattern value : Text)
    → (glob_match pattern value ≡ true) ↔ ((pattern ≡ txt "*") ⊎ IsLineOf pattern value)
glob_match_iff pattern value =
    let (a, b) = glob_match_lem pattern value in
    (
      λ h. elim (a h) [ inl e ↦ inl e | inr m ↦ inr (Matches→IsLineOf m) ],
      λ h. elim h [ inl e ↦ b (inl e) | inr l ↦ b (inr (IsLineOf→Matches pattern value l)) ],
    )
