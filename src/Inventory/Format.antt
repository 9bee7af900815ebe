-- ===== src/Inventory/Format.antt =====
-- inventory/common.go: `formatAndValidate` and its steps. A loop over a map whose body writes to the
-- groups or hosts that it visits is a loop over the keys.
use gosible.Base.{
  ℕ, zero, suc, Bool, true, not, ◌&&◌, ◌||◌, List, [], ◌∷◌, ◌++◌, if◌then◌else◌, any_of, Outcome,
  ok, err, ◌>>◌, length, is_empty,
}
use gosible.GoText.{Str, codes, str_eq}
use gosible.Dict.{Dict, keys}
use gosible.Inventory.{
  Group, Inventory, group_at, host_at, put_group, put_host, group_by_name, slice_contains,
}

pub data InventoryError : Type 0 where
  not_initialized : Str → InventoryError
  circular : InventoryError

abbrev pub Checked : Type 0 → Type 0
Checked = Outcome InventoryError

abbrev pub all_name : Str
all_name = codes "all"

abbrev pub ungrouped_name : Str
ungrouped_name = codes "ungrouped"

unfoldable pub add_ungrouped_group : Inventory → Inventory
unfolding group_by_name put_group group_at
add_ungrouped_group d =
    let d1 = group_by_name ungrouped_name d in
    let d2 =
      put_group ungrouped_name (record (group_at d1 ungrouped_name) { initialized = true }) d1 in
    let d3 = group_by_name all_name d2 in
    let all = group_at d3 all_name in
    let ungrouped = group_at d3 ungrouped_name in
    let d4 =
      put_group ungrouped_name (record ungrouped { hosts = ungrouped.hosts ++ all.hosts }) d3 in
    put_group all_name (record (group_at d4 all_name) { hosts = [] }) d4

-- `allGroup.Children` and `group.Parents` are extended
unfoldable pub link : Str → Str → Inventory → Inventory
link parent name d =
    let p = group_at d parent in
    let d' = put_group parent (record p { children = p.children ++ name ∷ [] }) d in
    let g = group_at d' name in put_group name (record g { parents = g.parents ++ parent ∷ [] }) d'

-- the body of the loop over the groups
unfoldable pub adopt : Str → Inventory → Inventory
adopt name d =
    if is_empty (group_at d name).parents && not (str_eq name all_name)
    then link all_name name d
    else d

unfoldable pub adopt_all : List Str → Inventory → Inventory
adopt_all [] d = d
adopt_all (name ∷ names) d = adopt_all names (adopt name d)

unfoldable pub add_to_all_group : Inventory → Inventory
add_to_all_group d = let d' = group_by_name all_name d in adopt_all (keys d'.groups) d'

-- Each pointer once. The code takes them in the random order of a map; here the first of each stays.
unfoldable pub deduplicate_onto : List Str → List Str → List Str
unfolding slice_contains
deduplicate_onto seen [] = seen
deduplicate_onto seen (x ∷ xs) =
    deduplicate_onto (if slice_contains seen x then seen else seen ++ x ∷ []) xs

unfoldable pub deduplicate : List Str → List Str
unfolding deduplicate_onto
deduplicate xs = deduplicate_onto [] xs

unfoldable pub deduplicate_groups : List Str → Inventory → Inventory
unfolding deduplicate put_host host_at
deduplicate_groups [] d = d
deduplicate_groups (name ∷ names) d =
    let h = host_at d name in
    deduplicate_groups names (put_host name (record h { groups = deduplicate h.groups }) d)

unfoldable pub deduplicate_parents : List Str → Inventory → Inventory
unfolding deduplicate put_group group_at
deduplicate_parents [] d = d
deduplicate_parents (name ∷ names) d =
    let g = group_at d name in
    deduplicate_parents names (put_group name (record g { parents = deduplicate g.parents }) d)

unfoldable pub simplify : Inventory → Inventory
unfolding deduplicate_groups deduplicate_parents
simplify d = let d' = deduplicate_groups (keys d.hosts) d in deduplicate_parents (keys d'.groups) d'

-- `append(groups[:i], groups[i+1:]...)` at the first `all`
unfoldable pub remove_first : Str → List Str → List Str
remove_first x [] = []
remove_first x (y ∷ ys) = let rest = y ∷ remove_first x ys in if str_eq y x then ys else rest

unfoldable pub remove_all_from : List Str → Inventory → Inventory
unfolding remove_first put_host host_at
remove_all_from [] d = d
remove_all_from (name ∷ names) d =
    let h = host_at d name in
    remove_all_from names (put_host name (record h { groups = remove_first all_name h.groups }) d)

unfoldable pub remove_all_group_from_hosts : Inventory → Inventory
unfolding group_by_name remove_all_from
remove_all_group_from_hosts d =
    let d' = group_by_name all_name d in remove_all_from (keys d'.hosts) d'

unfoldable pub validate_group_initialization : Dict Group → Checked (Unit {0})
validate_group_initialization [] = ok tt
validate_group_initialization ((name, g) ∷ groups) =
    let rest = validate_group_initialization groups in
    if g.initialized then rest else err (not_initialized name)

-- `circularReference`; its recursion is on `maxDepth`
unfoldable pub circular_reference : ℕ → Inventory → List Str → Str → Bool
unfolding group_at
circular_reference zero d parents group = true
circular_reference (suc max_depth) d parents group =
    any_of (λ p. str_eq p group || circular_reference max_depth d (group_at d p).parents group)
      parents

unfoldable pub validate_references : Inventory → ℕ → Dict Group → Checked (Unit {0})
unfolding circular_reference
validate_references d max_depth [] = ok tt
validate_references d max_depth ((name, g) ∷ groups) =
    let rest = validate_references d max_depth groups in
    if circular_reference max_depth d g.parents name then err circular else rest

unfoldable pub validate_no_circular_references : Inventory → Checked (Unit {0})
unfolding validate_references
validate_no_circular_references d = validate_references d (length d.groups) d.groups

unfoldable pub validate : Inventory → Checked (Unit {0})
unfolding validate_group_initialization validate_no_circular_references
validate d = validate_group_initialization d.groups >> validate_no_circular_references d

unfoldable pub format : Inventory → Inventory
unfolding add_ungrouped_group add_to_all_group adopt_all adopt link put_group group_at group_by_name
    simplify remove_all_group_from_hosts
format d = remove_all_group_from_hosts (simplify (add_to_all_group (add_ungrouped_group d)))

-- the inventory as it is left, if it is valid
unfoldable pub format_and_validate : Inventory → Checked Inventory
unfolding format validate
format_and_validate d = let d' = format d in validate d' >> ok d'
