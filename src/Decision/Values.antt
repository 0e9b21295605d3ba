-- ===== src/Decision/Values.antt =====
-- The JSON values of internal/decision, and the reads of them in request.go.
use flockd.Base.{
  ◌≡◌, refl, ap, Bool, true, false, String, List, [], ◌∷◌, Option, none, some, str_eq,
  if◌then◌else◌,
}

mutual
  pub data Json : Type 0 where
    null : Json
    -- a number or a Boolean, as written
    scalar : String → Json
    text : String → Json
    arr : Items → Json
    obj : Fields → Json

  pub data Items : Type 0 where
    no_items : Items
    item : Json → Items → Items

  pub data Fields : Type 0 where
    no_fields : Fields
    field : String → Json → Fields → Fields

-- `orderedObject`: the members in document order.
unfoldable pub members : Fields → List (String × Json)
members no_fields = []
members (field k v fs) = (k, v) ∷ members fs

unfoldable pub elements : Items → List Json
elements no_items = []
elements (item v vs) = v ∷ elements vs

abbrev pub ordered_object : Json → Option (List (String × Json))
ordered_object null = none
ordered_object (scalar s) = none
ordered_object (text s) = none
ordered_object (arr vs) = none
ordered_object (obj fs) = some (members fs)

-- The `json.Unmarshal` into a slice of raw values, of what `kind` calls an array.
abbrev pub array : Json → Option (List Json)
array null = none
array (scalar s) = none
array (text s) = none
array (arr vs) = some (elements vs)
array (obj fs) = none

-- `leaf`
abbrev pub is_leaf : Json → Bool
is_leaf null = false
is_leaf (scalar s) = false
is_leaf (text s) = true
is_leaf (arr vs) = true
is_leaf (obj fs) = true

abbrev pub is_null : Json → Bool
is_null null = true
is_null (scalar s) = false
is_null (text s) = false
is_null (arr vs) = false
is_null (obj fs) = false

abbrev pub is_empty_leaf : Json → Bool
is_empty_leaf null = false
is_empty_leaf (scalar s) = false
is_empty_leaf (text s) = str_eq s ""
is_empty_leaf (arr no_items) = true
is_empty_leaf (arr (item v vs)) = false
is_empty_leaf (obj no_fields) = true
is_empty_leaf (obj (field k v fs)) = false

-- A repeated field keeps its last value.
unfoldable pub last_field : String → List (String × Json) → Option Json
last_field k [] = none
last_field k ((j, v) ∷ ms) = elim (last_field k ms) [
  | some w ↦ some w
  | none ↦ if str_eq j k then some v else none
]

-- Absent, or null.
abbrev pub present : Option Json → Option Json
present none = none
present (some v) = if is_null v then none else some v

unfoldable pub of_members : List (String × Json) → Fields
of_members [] = no_fields
of_members ((k, v) ∷ ms) = field k v (of_members ms)

unfoldable pub of_elements : List Json → Items
of_elements [] = no_items
of_elements (v ∷ vs) = item v (of_elements vs)

pub members-of_members : (ms : List (String × Json)) → members (of_members ms) ≡ ms
unfolding members of_members
members-of_members [] = refl
members-of_members ((k, v) ∷ ms) = ap (λ r. (k, v) ∷ r) (members-of_members ms)

pub elements-of_elements : (vs : List Json) → elements (of_elements vs) ≡ vs
unfolding elements of_elements
elements-of_elements [] = refl
elements-of_elements (v ∷ vs) = ap (λ r. v ∷ r) (elements-of_elements vs)
