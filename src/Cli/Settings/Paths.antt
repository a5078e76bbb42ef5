-- ===== src/Cli/Settings/Paths.antt =====
-- The list of skill paths after a merge.
use storageops.Base.{
  ◌≡◌, refl, ◌∙◌, sym, ap, Bool, true, false, not, ◌&&◌, ◌||◌, List, [], ◌∷◌, ◌++◌, member, Text,
  ◌===◌, ===_iff, ===_refl, arith, Bool-cases, inl, inr,
}
use storageops.Json.{Json, null, bool, num, str, arr, obj, Items, nil, cons}
use storageops.Cli.Settings.{texts, add_paths, add_list, merge_skill_paths}

pub member-append :
    (t : Text) (xs ys : List Text) → member t (xs ++ ys) ≡ (member t xs || member t ys)
unfolding member
member-append t [] ys = refl
member-append t (x ∷ xs) ys = ground (arith, member-append t xs ys)

member_one : (t s : Text) → member t (s ∷ []) ≡ (t === s)
unfolding member
member_one t s = ground arith

-- A list that names nothing twice.
unfoldable pub distinct : List Text → Bool
distinct [] = true
distinct (t ∷ ts) = not (member t ts) && distinct ts

distinct-snoc :
    (t : Text) (ts : List Text)
    → distinct ts ≡ true
    → member t ts ≡ false
    → distinct (ts ++ (t ∷ [])) ≡ true
unfolding distinct member
distinct-snoc t [] h n = refl
distinct-snoc t (s ∷ ts) h n =
    let other : (s === t) ≡ false = elim (Bool-cases (s === t)) [
      | inl y ↦ absurd (ground (arith, ===_refl t, ap (λ x. t === x) ((===_iff s t).0 y)))
      | inr e ↦ e
    ] in
    ground (arith, member-append s ts (t ∷ []), distinct-snoc t ts (ground arith) (ground arith))

-- An item of a JSON list that is the text.
unfoldable pub item_of : Text → Items → Bool
item_of t nil = false
item_of t (cons (str s) items) = t === s || item_of t items
item_of t (cons v items) = item_of t items

unfoldable pub listed : Text → Json → Bool
listed t (arr items) = item_of t items
listed t v = false

member_of_member :
    (t s : Text) (ts : List Text) → member s ts ≡ true → (member t ts || t === s) ≡ member t ts
member_of_member t s ts h = elim (Bool-cases (t === s)) [
  | inl y ↦ ground (arith, ap (λ x. member x ts) ((===_iff t s).0 y))
  | inr n ↦ ground arith
]

add_paths-member :
    (t : Text) (merged : List Text) (items : Items)
    → member t (add_paths merged items) ≡ (member t merged || item_of t items)
unfolding add_paths item_of
add_paths-member t merged nil = ground arith
add_paths-member t merged (cons (str s) items) = elim (Bool-cases (member s merged)) [
  | inl y ↦ rw y (ground (arith, add_paths-member t merged items, member_of_member t s merged y))
  | inr n ↦ rw n (
      ground (
        arith,
        add_paths-member t (merged ++ (s ∷ [])) items,
        member-append t merged (s ∷ []),
        member_one t s,
      ))
]
add_paths-member t merged (cons null items) = add_paths-member t merged items
add_paths-member t merged (cons (bool b) items) = add_paths-member t merged items
add_paths-member t merged (cons (num w) items) = add_paths-member t merged items
add_paths-member t merged (cons (arr xs) items) = add_paths-member t merged items
add_paths-member t merged (cons (obj d) items) = add_paths-member t merged items

add_paths-distinct :
    (merged : List Text) (items : Items)
    → distinct merged ≡ true
    → distinct (add_paths merged items) ≡ true
unfolding add_paths
add_paths-distinct merged nil h = h
add_paths-distinct merged (cons (str s) items) h = elim (Bool-cases (member s merged)) [
  | inl y ↦ rw y (add_paths-distinct merged items h)
  | inr n ↦ rw n (add_paths-distinct (merged ++ (s ∷ [])) items (distinct-snoc s merged h n))
]
add_paths-distinct merged (cons null items) h = add_paths-distinct merged items h
add_paths-distinct merged (cons (bool b) items) h = add_paths-distinct merged items h
add_paths-distinct merged (cons (num t) items) h = add_paths-distinct merged items h
add_paths-distinct merged (cons (arr xs) items) h = add_paths-distinct merged items h
add_paths-distinct merged (cons (obj d) items) h = add_paths-distinct merged items h

add_list-member :
    (t : Text) (merged : List Text) (v : Json)
    → member t (add_list merged v) ≡ (member t merged || listed t v)
unfolding add_list listed
add_list-member t merged (arr items) = add_paths-member t merged items
add_list-member t merged (str s) = ground arith
add_list-member t merged null = ground arith
add_list-member t merged (bool b) = ground arith
add_list-member t merged (num w) = ground arith
add_list-member t merged (obj d) = ground arith

add_list-distinct :
    (merged : List Text) (v : Json) → distinct merged ≡ true → distinct (add_list merged v) ≡ true
unfolding add_list
add_list-distinct merged (arr items) h = add_paths-distinct merged items h
add_list-distinct merged (str s) h = h
add_list-distinct merged null h = h
add_list-distinct merged (bool b) h = h
add_list-distinct merged (num w) h = h
add_list-distinct merged (obj d) h = h

-- The merged paths are the texts that one of the two lists has, each once.
pub merge_skill_paths-member :
    (t : Text) (existing required : Json)
    → (member t (merge_skill_paths existing required) ≡ (listed t existing || listed t required))
      × (distinct (merge_skill_paths existing required) ≡ true)
unfolding merge_skill_paths member distinct
merge_skill_paths-member t existing required = (
  add_list-member t (add_list [] existing) required
      ∙ ap (λ b. b || listed t required) (add_list-member t [] existing),
  add_list-distinct (add_list [] existing) required (add_list-distinct [] existing refl),
)

append_one : (xs ys : List Text) (t : Text) → (xs ++ (t ∷ [])) ++ ys ≡ xs ++ (t ∷ ys)
append_one [] ys t = refl
append_one (x ∷ xs) ys t = ap (λ zs. x ∷ zs) (append_one xs ys t)

append_none : (xs : List Text) → xs ++ [] ≡ xs
append_none [] = refl
append_none (x ∷ xs) = ap (λ zs. x ∷ zs) (append_none xs)

distinct_middle :
    (t : Text) (xs ys : List Text) → distinct (xs ++ (t ∷ ys)) ≡ true → member t xs ≡ false
unfolding distinct member
distinct_middle t [] ys h = refl
distinct_middle t (x ∷ xs) ys h = elim (Bool-cases (t === x)) [
  | inl y ↦ absurd (
      ground
        (arith, member-append x xs (t ∷ ys), ===_refl t, ap (λ z. z === t) ((===_iff t x).0 y)))
  | inr n ↦ ground (arith, distinct_middle t xs ys (ground arith))
]

add_paths_new :
    (merged : List Text) (t : Text) (items : Items)
    → member t merged ≡ false
    → add_paths merged (cons (str t) items) ≡ add_paths (merged ++ (t ∷ [])) items
unfolding add_paths
add_paths_new merged t items h = rw h refl

add_paths_old :
    (merged : List Text) (t : Text)
    → member t merged ≡ true
    → add_paths merged (cons (str t) nil) ≡ merged
unfolding add_paths
add_paths_old merged t h = rw h refl

-- Texts that are all different come back as they are.
add_paths-texts :
    (merged ts : List Text)
    → distinct (merged ++ ts) ≡ true
    → add_paths merged (texts ts) ≡ merged ++ ts
unfolding add_paths texts
add_paths-texts merged [] h = sym (append_none merged)
add_paths-texts merged (t ∷ ts) h =
    add_paths_new merged t (texts ts) (distinct_middle t merged ts h)
    ∙ add_paths-texts (merged ++ (t ∷ [])) ts (ap distinct (append_one merged ts t) ∙ h)
    ∙ append_one merged ts t

lists_itself : (t : Text) → listed t (arr (cons (str t) nil)) ≡ true
unfolding listed item_of
lists_itself t = ground (arith, ===_refl t)

-- A list of one text that the merged paths have is merged again to no effect.
pub merge_skill_paths_again :
    (t : Text) (existing : Json)
    → merge_skill_paths
        (arr (texts (merge_skill_paths existing (arr (cons (str t) nil)))))
        (arr (cons (str t) nil))
      ≡ merge_skill_paths existing (arr (cons (str t) nil))
unfolding merge_skill_paths add_list
merge_skill_paths_again t existing =
    let required = arr (cons (str t) nil) in
    let paths = merge_skill_paths existing required in
    let (has_it, once) = merge_skill_paths-member t existing required in
    ap (λ ts. add_paths ts (cons (str t) nil)) (add_paths-texts [] paths once)
    ∙ add_paths_old paths t (ground (arith, has_it, lists_itself t))
