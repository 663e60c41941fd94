-- ===== src/Json.antt =====
-- Decoded JSON, as `encoding/json` hands it to Go: `interface{}`, `[]interface{}` and
-- `map[string]interface{}`, and Go's checked type assertions on them.
use forge_engine.Prelude.{
  ℕ, ◌≡◌, refl, ap, String, Bool, List, [], ◌∷◌, Option, none, some, if◌then◌else◌, ◌==◌,
}

mutual
  pub data Json : Type 0 where
    null : Json
    bool : Bool → Json
    num : ℕ → Json
    str : String → Json
    arr : Items → Json
    obj : Fields → Json

  pub data Items : Type 0 where
    nil : Items
    cons : Json → Items → Items

  pub data Fields : Type 0 where
    end : Fields
    field : String → Json → Fields → Fields

-- `m[key]`.
unfoldable pub get : String → Fields → Option Json
get key end = none
get key (field k v m) = if k == key then some v else get key m

-- `m[key] = v`: the new entry hides an older one.
unfoldable pub put : String → Json → Fields → Fields
put key v m = field key v m

-- `v.(string)`
unfoldable pub as_str : Option Json → Option String
as_str (some (str s)) = some s
as_str _ = none

-- `v.([]interface{})`
unfoldable pub as_arr : Option Json → Option Items
as_arr (some (arr xs)) = some xs
as_arr _ = none

-- `s, _ := v.(string)`: the zero value where the assertion fails.
unfoldable pub str_or_empty : Option Json → String
unfolding as_str
str_or_empty v = elim (as_str v) [ none ↦ "" | some s ↦ s ]

-- The members of an array that are strings.
unfoldable pub strings : Items → List String
strings nil = []
strings (cons (str s) xs) = s ∷ strings xs
strings (cons _ xs) = strings xs

-- The members of an array that are objects.
unfoldable pub objects : Items → List Fields
objects nil = []
objects (cons (obj m) xs) = m ∷ objects xs
objects (cons _ xs) = objects xs

-- `extractStringSlice`
unfoldable pub extract_string_slice : Option Json → List String
unfolding as_arr strings
extract_string_slice v = elim (as_arr v) [ none ↦ [] | some xs ↦ strings xs ]

unfoldable pub of_strings : List String → Items
of_strings [] = nil
of_strings (s ∷ ss) = cons (str s) (of_strings ss)

pub strings-of_strings : (ss : List String) → strings (of_strings ss) ≡ ss
unfolding strings of_strings
strings-of_strings [] = refl
strings-of_strings (s ∷ ss) = ap (◌∷◌ s) (strings-of_strings ss)
