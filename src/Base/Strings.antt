-- ===== src/Base/Strings.antt =====
-- Python's texts as lists of code points: literals, equality, `lower`, `startswith`, `endswith`.
-- Case folding is that of ASCII.
use Prim.Native.Nat.{ℕ, ◌+◌, ◌-◌}
use Prim.Native.Char.{code}
use Prim.Native.String.{String}
use mathlib.Core.Path.{◌≡◌, refl, ◌∙◌, ap}
use mathlib.Core.Logic.{◌↔◌}
use mathlib.Core.Bool.{Bool, true, false, not, ◌&&◌, ◌||◌}
use mathlib.Core.List.{List, [], ◌∷◌, ◌++◌, map, reverse, reverse-append, reverse-reverse}
use native.Mathlib.Omega.{arith}
use storageops.Base.Bools.{leb, ◌==◌, if◌then◌else◌}

abbrev pub Text : Type 0
Text = List ℕ

-- A literal of the source.
unfoldable pub txt : String → Text
txt String.[] = []
txt (String.◌∷◌ c s) = code c ∷ txt s

infix 50 ◌===◌
unfoldable pub ◌===◌ : Text → Text → Bool
[] === [] = true
[] === (d ∷ t) = false
(c ∷ s) === [] = false
(c ∷ s) === (d ∷ t) = c == d && s === t

===→≡ : (s t : Text) → (s === t) ≡ true → s ≡ t
unfolding ◌===◌
===→≡ [] [] h = refl
===→≡ [] (d ∷ t) h = ground arith
===→≡ (c ∷ s) [] h = ground arith
===→≡ (c ∷ s) (d ∷ t) h = ground (arith, ===→≡ s t)

pub ===_refl : (s : Text) → (s === s) ≡ true
unfolding ◌===◌
===_refl [] = refl
===_refl (c ∷ s) = ground (arith, ===_refl s)

pub ===_iff : (s t : Text) → ((s === t) ≡ true) ↔ (s ≡ t)
===_iff s t = (===→≡ s t, λ e. rw e (===_refl t))

-- `t in ts`
unfoldable pub member : Text → List Text → Bool
member t [] = false
member t (s ∷ ts) = t === s || member t ts

unfoldable pub lower_code : ℕ → ℕ
lower_code c = if leb b'A' c && leb c b'Z' then c + 32 else c

unfoldable pub upper_code : ℕ → ℕ
upper_code c = if leb b'a' c && leb c b'z' then c - 32 else c

-- `s.lower()`
unfoldable pub lower : Text → Text
unfolding lower_code
lower = map lower_code

-- `s.upper()`
unfoldable pub upper : Text → Text
unfolding upper_code
upper = map upper_code

-- `t.startswith(s)`, the prefix first.
unfoldable pub starts_with : Text → Text → Bool
starts_with [] t = true
starts_with (c ∷ s) [] = false
starts_with (c ∷ s) (d ∷ t) = c == d && starts_with s t

-- `s in t`, for texts.
unfoldable pub contains_text : Text → Text → Bool
unfolding starts_with
contains_text s [] = starts_with s []
contains_text s (d ∷ t) = starts_with s (d ∷ t) || contains_text s t

-- `s.endswith(suffix)`, the suffix first.
unfoldable pub ends_with : Text → Text → Bool
unfolding ◌===◌
ends_with suffix [] = suffix === []
ends_with suffix (c ∷ s) = suffix === (c ∷ s) || ends_with suffix s

unfoldable pub is_space : ℕ → Bool
is_space c = c == 32 || (leb 9 c && leb c 13) || (leb 28 c && leb c 31)

unfoldable pub skip_while : (ℕ → Bool) → Text → Text
skip_while p [] = []
skip_while p (c ∷ s) = if p c then skip_while p s else c ∷ s

unfoldable pub strip_by : (ℕ → Bool) → Text → Text
unfolding skip_while
strip_by p s = reverse (skip_while p (reverse (skip_while p s)))

-- `s.strip()`
unfoldable pub strip : Text → Text
unfolding is_space strip_by
strip = strip_by is_space

-- `s.strip('"')`
unfoldable pub strip_quotes : Text → Text
unfolding strip_by
strip_quotes = strip_by (λ c. c == 34)

-- A test that no code of a text passes.
unfoldable pub free_of : (ℕ → Bool) → Text → Bool
free_of p [] = true
free_of p (c ∷ s) = not (p c) && free_of p s

skip_while_free : (p : ℕ → Bool) (s : Text) → free_of p s ≡ true → skip_while p s ≡ s
unfolding skip_while free_of
skip_while_free p [] h = refl
skip_while_free p (c ∷ s) h = ground arith

pub free_of-append : (p : ℕ → Bool) (s t : Text) → free_of p (s ++ t) ≡ (free_of p s && free_of p t)
unfolding free_of
free_of-append p [] t = refl
free_of-append p (c ∷ s) t = ground (arith, free_of-append p s t)

free_of-reverse : (p : ℕ → Bool) (s : Text) → free_of p (reverse s) ≡ free_of p s
unfolding free_of
free_of-reverse p [] = refl
free_of-reverse p (c ∷ s) =
    rw (reverse-append (c ∷ []) s)
      (ground (arith, free_of-append p (reverse s) (c ∷ []), free_of-reverse p s))

-- Stripping changes nothing where there is nothing to strip.
pub strip_by_free : (p : ℕ → Bool) (s : Text) → free_of p s ≡ true → strip_by p s ≡ s
unfolding strip_by
strip_by_free p s h =
    rw (skip_while_free p s h)
      (rw (skip_while_free p (reverse s) (free_of-reverse p s ∙ h)) (reverse-reverse s))

skip_while_none : (p : ℕ → Bool) (c : ℕ) (s : Text) → p c ≡ false → skip_while p (c ∷ s) ≡ c ∷ s
unfolding skip_while
skip_while_none p c s h = rw h refl

skip_while_one :
    (p : ℕ → Bool) (c : ℕ) (s : Text) → p c ≡ true → skip_while p (c ∷ s) ≡ skip_while p s
unfolding skip_while
skip_while_one p c s h = rw h refl

free_head : (p : ℕ → Bool) (c : ℕ) (s : Text) → free_of p (c ∷ s) ≡ true → p c ≡ false
unfolding free_of
free_head p c s h = ground arith

-- One code to strip behind a text that has none.
pub strip_by_last :
    (p : ℕ → Bool) (c d : ℕ) (s : Text)
    → p d ≡ true
    → free_of p (c ∷ s) ≡ true
    → strip_by p ((c ∷ s) ++ (d ∷ [])) ≡ c ∷ s
unfolding strip_by
strip_by_last p c d s h n =
    ap (λ t. reverse (skip_while p (reverse t)))
      (skip_while_none p c (s ++ (d ∷ [])) (free_head p c s n))
    ∙ ap (λ t. reverse (skip_while p t)) (reverse-append (c ∷ s) (d ∷ []))
    ∙ ap reverse (skip_while_one p d (reverse (c ∷ s)) h)
    ∙ ap reverse (skip_while_free p (reverse (c ∷ s)) (free_of-reverse p (c ∷ s) ∙ n))
    ∙ reverse-reverse (c ∷ s)

-- The text before its first occurrence of a code, `s.split(c, 1)[0]`.
unfoldable pub before : ℕ → Text → Text
before d [] = []
before d (c ∷ s) = if c == d then [] else c ∷ before d s

-- `s[:-1]`
unfoldable pub drop_last : Text → Text
drop_last [] = []
drop_last (c ∷ []) = []
drop_last (c ∷ d ∷ s) = c ∷ drop_last (d ∷ s)
