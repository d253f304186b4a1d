-- ===== src/Json/Printing.antt =====
-- What `asdict` and `json.dumps` make of texts and lists.
use julius.Common.{String, List, [], ◌∷◌, map}
use julius.Json.{Json, text, array, Items, none_left, item}

abbrev pub items_of : List Json → Items
items_of [] = none_left
items_of (v ∷ vs) = item v (items_of vs)

abbrev pub list_json : List Json → Json
list_json vs = array (items_of vs)

abbrev pub texts_json : List String → Json
texts_json ss = list_json (map text ss)
