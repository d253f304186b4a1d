-- ===== src/Json.antt =====
-- What `json.loads` returns, as julius/analysis reads it: the values, their `isinstance` tests, the
-- reading of a dict, and checks that raise. An integer is unbounded; a float is kept as its bits,
-- so what arithmetic says of it is a parameter. Reading the text of a JSON file is the standard
-- library's (`json`), and no part of this.
pub mod Reading
pub mod Printing
pub mod Checks
use julius.Common.{
  ℕ, suc, String, Bool, true, false, ◌&&◌, Option, none, some, List, [], ◌∷◌, all, elem, ◌==◌,
  string_eq, if◌then◌else◌,
}

pub data ℤ : Type 0 where
  pos negsuc : ℕ → ℤ

mutual
  pub data Json : Type 0 where
    null : Json
    boolean : Bool → Json
    integer : ℤ → Json
    real : ℕ → Json
    text : String → Json
    array : Items → Json
    object : Fields → Json

  pub data Items : Type 0 where
    none_left : Items
    item : Json → Items → Items

  pub data Fields : Type 0 where
    empty : Fields
    field : String → Json → Fields → Fields

abbrev pub values : Items → List Json
values none_left = []
values (item v vs) = v ∷ values vs

-- The keys of a dict.
abbrev pub keys : Fields → List String
keys empty = []
keys (field k v fs) = k ∷ keys fs

-- `raw.get(key)`: a missing key reads as None.
abbrev pub lookup : String → Fields → Json
lookup k empty = null
lookup k (field j v fs) = if j == k then v else lookup k fs

-- set(raw) == expected
abbrev pub has_only : List String → Fields → Bool
has_only expected fs = all (λ k. elem k expected) (keys fs) && all (λ k. elem k (keys fs)) expected
