-- ===== src/Values.antt =====
-- Go's `interface{}` values, as YAML and the template engine make them, and `types.Vars`.
use gosible.Base.{Bool, Option, none, some, List, [], ◌∷◌}
use gosible.Base.Int.{ℤ}
use gosible.GoText.{Str}
use gosible.Dict.{Dict, lookup}

-- `map` is a yaml.MapSlice: pairs in order, whose keys may be any value.
mutual
  pub data Value : Type 0 where
    null : Value
    bool : Bool → Value
    int : ℤ → Value
    str : Str → Value
    list : Items → Value
    map : Fields → Value

  pub data Fields : Type 0 where
    end : Fields
    field : Value → Value → Fields → Fields

  pub data Items : Type 0 where
    nil : Items
    cons : Value → Items → Items

abbrev pub Vars : Type 0
Vars = Dict Value

unfoldable pub items_to_list : Items → List Value
items_to_list nil = []
items_to_list (cons v vs) = v ∷ items_to_list vs

unfoldable pub list_to_items : List Value → Items
list_to_items [] = nil
list_to_items (v ∷ vs) = cons v (list_to_items vs)

-- s, ok := v.(string)
abbrev pub as_string : Value → Option Str
as_string (str s) = some s
as_string _ = none

-- b, ok := v.(bool)
abbrev pub as_bool : Value → Option Bool
as_bool (bool b) = some b
as_bool _ = none

-- utils/types: GetOrDefault
unfoldable pub get_or_default : Vars → Str → Value → Value
get_or_default v key default = elim (lookup key v) [ none ↦ default | some x ↦ x ]
