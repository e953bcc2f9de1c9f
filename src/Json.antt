-- ===== src/Json.antt =====
-- The values that `JSON.parse` returns. Numbers are the non-negative whole ones; the fields of an
-- object stand in their order, and a key's first field is the one read.
use digital_thread.Shared.{ℕ, Bool, String, Option, none, some, List, [], ◌∷◌, ◌==◌, if◌then◌else◌}

mutual
  pub data Json : Type 0 where
    null : Json
    bool : Bool → Json
    num : ℕ → Json
    str : String → Json
    arr : Items → Json
    obj : Fields → Json

  pub data Items : Type 0 where
    nil : Items
    cons : Json → Items → Items

  pub data Fields : Type 0 where
    end : Fields
    field : String → Json → Fields → Fields

abbrev pub items : Items → List Json
items nil = []
items (cons v vs) = v ∷ items vs

unfoldable pub lookup_field : String → Fields → Option Json
lookup_field k end = none
lookup_field k (field j v fs) = if j == k then some v else lookup_field k fs

-- `raw?.k`: `undefined` on what is no object. (Strings and arrays have no key that is read here.)
unfoldable pub get_field : String → Json → Option Json
unfolding lookup_field
get_field k (obj fs) = lookup_field k fs
get_field k null = none
get_field k (bool b) = none
get_field k (num n) = none
get_field k (str s) = none
get_field k (arr vs) = none

-- `typeof v === 'string' ? v : undefined`
abbrev pub as_string : Option Json → Option String
as_string (some (str s)) = some s
as_string none = none
as_string (some null) = none
as_string (some (bool b)) = none
as_string (some (num n)) = none
as_string (some (arr vs)) = none
as_string (some (obj fs)) = none
