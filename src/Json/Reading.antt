-- ===== src/Json/Reading.antt =====
-- `isinstance` of what a dict or a list held. `none` is every value of another type.
use julius.Common.{String, Bool, true, false, Option, none, some, List, [], ◌∷◌, ◌==◌, string_eq}
use julius.Json.{ℤ, pos, Json, null, boolean, integer, real, text, array, object, Fields, values}

abbrev pub text? : Json → Option String
text? (text s) = some s
text? _ = none

abbrev pub list? : Json → Option (List Json)
list? (array vs) = some (values vs)
list? _ = none

abbrev pub dict? : Json → Option Fields
dict? (object fs) = some fs
dict? _ = none

-- `isinstance(value, int)` holds of True and False, which are the integers 1 and 0.
abbrev pub integer? : Json → Option ℤ
integer? (integer z) = some z
integer? (boolean true) = some (pos 1)
integer? (boolean false) = some (pos 0)
integer? _ = none

-- isinstance(value, (str, int, float, bool))
abbrev pub is_scalar : Json → Bool
is_scalar (text _) = true
is_scalar (integer _) = true
is_scalar (real _) = true
is_scalar (boolean _) = true
is_scalar _ = false

-- value == expected, for a text
abbrev pub is_text : String → Json → Bool
is_text s (text t) = t == s
is_text s _ = false

abbrev pub is_null : Json → Bool
is_null null = true
is_null _ = false

-- Lists and dicts have no hash, so that `value in a_set` raises a TypeError.
abbrev pub is_hashable : Json → Bool
is_hashable (array _) = false
is_hashable (object _) = false
is_hashable _ = true

-- What a test makes of each value of a list: `none` when it fails for one of them.
abbrev pub each? {ℓ} : {A : Type ℓ} → (Json → Option A) → List Json → Option (List A)
each? f [] = some []
each? f (v ∷ vs) = elim (f v) [
  | none ↦ none
  | some a ↦ elim (each? f vs) [ none ↦ none | some as' ↦ some (a ∷ as') ]
]

-- isinstance(value, list) and all(isinstance(item, …) for item in value)
abbrev pub list_of? {ℓ} : {A : Type ℓ} → (Json → Option A) → Json → Option (List A)
list_of? f v = elim (list? v) [ none ↦ none | some vs ↦ each? f vs ]

abbrev pub texts? : Json → Option (List String)
texts? = list_of? text?
