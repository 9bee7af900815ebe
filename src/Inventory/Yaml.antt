-- ===== src/Inventory/Yaml.antt =====
-- inventory/yaml.go: an inventory from what the YAML library has read, typed and in order. A nested
-- map of the ordered data is a yaml.MapSlice and never a yaml.MapItem, so that case of `addGroups`
-- never comes up, and the children of the typed data, which only it reads, are left out.
pub mod Steps
pub mod Loading
pub mod Nested
use gosible.Base.{
  Bool, true, false, Option, none, some, List, [], ◌∷◌, ◌++◌, if◌then◌else◌, Outcome, ok, err,
  panic, ◌>>=◌,
}
use gosible.GoText.{Str, codes, str_eq}
use gosible.Dict.{Dict, lookup, keys, merge}
use gosible.Values.{Value, null, str, map, Fields, end, field, Vars}
use gosible.Inventory.{
  Inventory, new_data, group_at, host_at, put_group, put_host, group_by_name, add_vars_to_host,
}
use gosible.Inventory.Format.{InventoryError, all_name, format_and_validate}

pub record RawGroup : Type 0 where
  pub hosts : Dict Vars
  pub vars : Vars

-- the value of a key that is missing
abbrev pub empty_group : RawGroup
empty_group = record { hosts = []; vars = [] }

pub data YamlError : Type 0 where
  unexpected_type unexpected_key_type : YamlError
  invalid : InventoryError → YamlError

abbrev pub Load : Type 0 → Type 0
Load = Outcome YamlError

-- `for name, data := range hosts`
unfoldable pub add_hosts : Dict Vars → Inventory → Inventory
unfolding add_vars_to_host
add_hosts [] d = d
add_hosts ((name, data') ∷ hosts) d = add_hosts hosts (add_vars_to_host name data' d)

-- host.Groups = append(host.Groups, group)
unfoldable pub join_group : Str → List Str → Inventory → Inventory
unfolding host_at put_host
join_group group [] d = d
join_group group (h ∷ hs) d =
    let x = host_at d h in
    join_group group hs (put_host h (record x { groups = x.groups ++ group ∷ [] }) d)

-- the case `hosts`
unfoldable pub process_hosts : Str → RawGroup → Inventory → Inventory
unfolding add_hosts join_group
process_hosts group raw d =
    let d1 = add_hosts raw.hosts d in
    let g = group_at d1 group in
    join_group group (keys raw.hosts)
      (put_group group (record g { hosts = g.hosts ++ keys raw.hosts }) d1)

-- the case `vars`
unfoldable pub process_vars : Str → RawGroup → Inventory → Inventory
process_vars group raw d =
    let g = group_at d group in put_group group (record g { vars = merge g.vars raw.vars }) d

-- group.initialized = true
unfoldable pub initialize : Str → Inventory → Inventory
initialize name d =
    let d' = group_by_name name d in
    put_group name (record (group_at d' name) { initialized = true }) d'

-- `none` is a nil pointer, which is what a child that has a value is
unfoldable pub add_groups : Fields → Inventory → Load (Inventory × List (Option Str))
unfolding initialize
add_groups end d = ok (d, [])
add_groups (field (str key) null fs) d =
    add_groups fs (initialize key d) >>= λ r. ok (r.0, some key ∷ r.1)
add_groups (field (str key) v fs) d = add_groups fs d >>= λ r. ok (r.0, none ∷ r.1)
add_groups (field _ v fs) d = err unexpected_type

-- the pointers, if none is nil
unfoldable pub pointers : List (Option Str) → Option (List Str)
pointers [] = some []
pointers (none ∷ gs) = none
pointers (some g ∷ gs) = elim (pointers gs) [ none ↦ none | some names ↦ some (g ∷ names) ]

-- g.Parents = append(g.Parents, group)
unfoldable pub add_parent : Str → List Str → Inventory → Inventory
add_parent group [] d = d
add_parent group (n ∷ ns) d =
    let g = group_at d n in
    add_parent group ns (put_group n (record g { parents = g.parents ++ group ∷ [] }) d)

unfoldable pub adopt_children : Str → List Str → Inventory → Inventory
unfolding add_parent
adopt_children group names d =
    let g = group_at d group in
    add_parent group names (put_group group (record g { children = g.children ++ names }) d)

-- the case `children`; the loop over the parents panics at a nil pointer
unfoldable pub process_children : Str → Fields → Inventory → Load Inventory
unfolding add_groups pointers adopt_children
process_children group fs d = add_groups fs d >>= λ r. elim (pointers r.1) [
  | none ↦ panic
  | some names ↦ ok (adopt_children group names r.0)
]

unfoldable pub process_group_element : Value → Value → Str → RawGroup → Inventory → Load Inventory
unfolding process_hosts process_vars process_children
process_group_element (str key) (map fs) group raw d =
    if str_eq key (codes "hosts")
    then ok (process_hosts group raw d)
    else if str_eq key (codes "vars")
    then ok (process_vars group raw d)
    else if str_eq key (codes "children")
    then process_children group fs d
    else ok d
process_group_element _ _ group raw d = err unexpected_type

unfoldable pub process_elements : Fields → Str → RawGroup → Inventory → Load Inventory
unfolding process_group_element
process_elements end group raw d = ok d
process_elements (field k v fs) group raw d =
    process_group_element k v group raw d >>= λ d'. process_elements fs group raw d'

unfoldable pub add_group : RawGroup → Str → Value → Inventory → Load Inventory
unfolding process_elements initialize
add_group raw name (map fs) d = process_elements fs name raw (initialize name d)
add_group raw name null d = ok (initialize name d)
add_group raw name _ d = err unexpected_type

-- typedRaw[key]
abbrev pub raw_group : Dict RawGroup → Str → RawGroup
raw_group typed key = elim (lookup key typed) [ none ↦ empty_group | some raw ↦ raw ]

unfoldable pub add_all : Dict RawGroup → Fields → Inventory → Load Inventory
unfolding add_group
add_all typed end d = ok d
add_all typed (field (str key) v fs) d =
    add_group (raw_group typed key) key v d >>= λ d'. add_all typed fs d'
add_all typed (field _ v fs) d = err unexpected_key_type

abbrev pub checked : Outcome InventoryError Inventory → Load Inventory
checked (ok d) = ok d
checked (err e) = err (invalid e)
checked panic = panic

unfoldable pub get_data : Dict RawGroup → Fields → Load Inventory
unfolding add_all initialize
get_data typed ordered =
    add_all typed ordered (initialize all_name new_data) >>= λ d. checked (format_and_validate d)
