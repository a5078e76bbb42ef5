-- ===== src/Json.antt =====
-- Parsed JSON documents as Python holds them: null is None, and a number carries the text that
-- `str` gives of it.
use storageops.Base.{
  ℕ, ◌+◌, ◌/◌, ◌%◌, ◌==◌, ltb, if◌then◌else◌, Bool, true, false, not, ◌&&◌, ◌||◌, List, [], ◌∷◌,
  ◌++◌, Text, txt, ◌===◌, any,
}
use storageops.Base.Try.{Try, returns, raises}

mutual
  pub data Json : Type 0 where
    null : Json
    bool : Bool → Json
    num : Text → Json
    str : Text → Json
    arr : Items → Json
    obj : Fields → Json

  pub data Items : Type 0 where
    nil : Items
    cons : Json → Items → Items

  pub data Fields : Type 0 where
    end : Fields
    field : Text → Json → Fields → Fields

unfoldable pub list_of : Items → List Json
list_of nil = []
list_of (cons x xs) = x ∷ list_of xs

-- `d.get(k)`. A key that is missing and one that holds null both give None.
unfoldable pub get : Fields → Text → Json
get end k = null
get (field j v d) k = if j === k then v else get d k

-- `k in d`
unfoldable pub has : Fields → Text → Bool
has end k = false
has (field j v d) k = j === k || has d k

-- `d.get(k, default)`
unfoldable pub get_or : Fields → Text → Json → Json
unfolding get has
get_or d k default = if has d k then get d k else default

-- `d.values()`
unfoldable pub values : Fields → List Json
values end = []
values (field k v d) = v ∷ values d

unfoldable pub is_str : Text → Json → Bool
is_str t (str s) = s === t
is_str t _ = false

unfoldable pub is_empty : Fields → Bool
is_empty end = true
is_empty (field k v d) = false

-- `repr` of a text: single quotes unless the text holds some and no double ones.
abbrev quote_mark : Text → ℕ
quote_mark s = if any (λ c. c == 39) s && not (any (λ c. c == 34) s) then 34 else 39

hex_digit : ℕ → ℕ
hex_digit n = if ltb n 10 then n + 48 else n + 87

escape_code : ℕ → ℕ → Text
unfolding hex_digit
escape_code q c =
    if c == 92 || c == q
    then 92 ∷ c ∷ []
    else if c == 10
    then 92 ∷ 110 ∷ []
    else if c == 13
    then 92 ∷ 114 ∷ []
    else if c == 9
    then 92 ∷ 116 ∷ []
    else if ltb c 32 || c == 127
    then 92 ∷ 120 ∷ hex_digit (c / 16) ∷ hex_digit (c % 16) ∷ []
    else c ∷ []

escape : ℕ → Text → Text
unfolding escape_code
escape q [] = []
escape q (c ∷ s) = escape_code q c ++ escape q s

repr_text : Text → Text
unfolding escape any
repr_text s = let q = quote_mark s in q ∷ (escape q s ++ (q ∷ []))

abbrev repr_bool : Bool → Text
repr_bool true = txt "True"
repr_bool false = txt "False"

unfoldable mutual
  unfolding repr_text txt

  pub repr : Json → Text
  repr null = txt "None"
  repr (bool b) = repr_bool b
  repr (num t) = t
  repr (str s) = repr_text s
  repr (arr xs) = txt "[" ++ (repr_items xs ++ txt "]")
  repr (obj d) = txt "{" ++ (repr_fields d ++ txt "}")

  repr_items : Items → Text
  repr_items nil = []
  repr_items (cons x nil) = repr x
  repr_items (cons x (cons y xs)) = repr x ++ (txt ", " ++ repr_items (cons y xs))

  repr_fields : Fields → Text
  repr_fields end = []
  repr_fields (field k v end) = repr_text k ++ (txt ": " ++ repr v)
  repr_fields (field k v (field j w d)) =
      repr_text k ++ (txt ": " ++ (repr v ++ (txt ", " ++ repr_fields (field j w d))))

-- `str(v)`
unfoldable pub py_str : Json → Text
unfolding repr
py_str (str s) = s
py_str v = repr v

-- `_as_list`, which several of the scripts define alike.
unfoldable pub as_list : Json → List Json
unfolding list_of
as_list null = []
as_list (arr xs) = list_of xs
as_list v = v ∷ []

-- `[v for v in vs if isinstance(v, dict)]`
unfoldable pub keep_objects : List Json → List Fields
keep_objects [] = []
keep_objects (obj d ∷ vs) = d ∷ keep_objects vs
keep_objects (v ∷ vs) = keep_objects vs

-- `d.items()`
unfoldable pub items_of : Fields → List (Text × Json)
items_of end = []
items_of (field k v d) = (k, v) ∷ items_of d

-- `bool(v)`. A number is false where `str` writes it as a zero.
unfoldable pub truthy : Json → Bool
unfolding txt ◌===◌
truthy null = false
truthy (bool b) = b
truthy (num t) = not (t === txt "0" || t === txt "0.0" || t === txt "-0.0")
truthy (str s) = not (s === [])
truthy (arr nil) = false
truthy (arr (cons x xs)) = true
truthy (obj d) = not (is_empty d)

-- `d` where a `.get` is called on it.
unfoldable pub as_dict : Json → Try Fields
as_dict (obj d) = returns d
as_dict v = raises

abbrev pub chars : Text → List Json
chars [] = []
chars (c ∷ s) = str (c ∷ []) ∷ chars s

abbrev pub keys : Fields → List Json
keys end = []
keys (field k v d) = str k ∷ keys d

-- `for x in v`: the items of a list, the characters of a text, the keys of a dict.
unfoldable pub iterate : Json → Try (List Json)
unfolding list_of
iterate (arr xs) = returns (list_of xs)
iterate (str s) = returns (chars s)
iterate (obj d) = returns (keys d)
iterate v = raises

-- `for x in v or []`
unfoldable pub iterate_or_empty : Json → Try (List Json)
iterate_or_empty v = if truthy v then iterate v else returns []

-- `(v or {})`, on which a `.get` is called.
unfoldable pub dict_or_empty : Json → Try Fields
dict_or_empty v = if truthy v then as_dict v else returns end
