-- ===== src/Inventory/Yaml/Nested.antt =====
-- inventory/yaml.go: a child group that has a value of its own.
use gosible.Base.{
  ◌≡◌, refl, Bool, true, false, ◌&&◌, Option, none, some, List, [], ◌∷◌, arith, ok, panic, ap,
  ok-injective, >>=-eq-ok,
}
use gosible.GoText.{Str, str_eq, codes}
use gosible.Values.{map, Value, null, str, Fields, end, field}
use gosible.Dict.{Dict}
use gosible.Inventory.{Inventory, new_data}
use gosible.Inventory.Format.{all_name}
use gosible.Inventory.Yaml.{
  Load, initialize, add_groups, pointers, adopt_children, process_children, add_all,
  process_elements, get_data, RawGroup, process_group_element, add_group, raw_group,
}

abbrev pub are_texts : Fields → Bool
are_texts end = true
are_texts (field (str key) v fs) = are_texts fs
are_texts (field k v fs) = false

abbrev is_null : Value → Bool
is_null null = true
is_null v = false

abbrev pub are_empty : Fields → Bool
are_empty end = true
are_empty (field k v fs) = is_null v && are_empty fs

-- the pointers that the loop makes
add_groups-pointers :
    (fs : Fields) (d : Inventory)
    → are_texts fs ≡ true
    → (r : Inventory × List (Option Str)) × (add_groups fs d ≡ ok r)
      × ((are_empty fs ≡ false) → pointers r.1 ≡ none)
unfolding add_groups pointers
add_groups-pointers end d t = ((d, []), refl, λ e. absurd (ground (arith, e)))
add_groups-pointers (field (str key) null fs) d t =
    let (r, e, n) = add_groups-pointers fs (initialize key d) t in
    ((r.0, some key ∷ r.1), rw e refl, λ h. rw (n h) refl)
add_groups-pointers (field (str key) v fs) d t =
    let (r, e, n) = add_groups-pointers fs d t in ((r.0, none ∷ r.1), rw e refl, λ h. refl)
add_groups-pointers (field k v fs) d t = absurd (ground (arith, t))

-- The case `children` panics at a nil pointer, if a child has a value.
process_children-panic :
    (group : Str) (fs : Fields) (d : Inventory)
    → are_texts fs ≡ true
    → are_empty fs ≡ false
    → process_children group fs d ≡ panic
unfolding process_children
process_children-panic group fs d t h =
    let (r, e, n) = add_groups-pointers fs d t in rw e (nil_panic (pointers r.1) r.0 (n h))
  where
    nil_panic :
        (x : Option (List Str)) (d' : Inventory)
        → x ≡ none
        → ◌≡◌ {A = Load Inventory}
            (elim x [ none ↦ panic | some names ↦ ok (adopt_children group names d') ])
            panic
    nil_panic x d' e = rw e refl

-- one map's fields, and those of another after them
abbrev pub append : Fields → Fields → Fields
append end gs = gs
append (field k v fs) gs = field k v (append fs gs)

add_all-append :
    (typed : Dict RawGroup) (before rest : Fields) (d : Inventory) {d' : Inventory}
    → add_all typed before d ≡ ok d'
    → add_all typed (append before rest) d ≡ add_all typed rest d'
unfolding add_all
add_all-append typed end rest d e = ap (add_all typed rest) (ok-injective e)
add_all-append typed (field (str key) v fs) rest d e =
    let (m, p, q) =
      >>=-eq-ok (add_group (raw_group typed key) key v d) (λ m. add_all typed fs m) e in
    rw p (add_all-append typed fs rest m q)
add_all-append typed (field k v fs) rest d e = absurd (ground (arith, e))

process_elements-append :
    (before rest : Fields) (group : Str) (raw : RawGroup) (d : Inventory) {d' : Inventory}
    → process_elements before group raw d ≡ ok d'
    → process_elements (append before rest) group raw d ≡ process_elements rest group raw d'
unfolding process_elements
process_elements-append end rest group raw d e =
    ap (process_elements rest group raw) (ok-injective e)
process_elements-append (field k v fs) rest group raw d e =
    let (m, p, q) =
      >>=-eq-ok (process_group_element k v group raw d) (λ m. process_elements fs group raw m) e in
    rw p (process_elements-append fs rest group raw m q)

children_element-panic :
    (fs rest : Fields) (group : Str) (raw : RawGroup) (d : Inventory)
    → are_texts fs ≡ true
    → are_empty fs ≡ false
    → process_elements (field (str (codes "children")) (map fs) rest) group raw d ≡ panic
unfolding process_elements process_group_element str_eq
children_element-panic fs rest group raw d t h = rw (process_children-panic group fs d t h) refl

-- The loader panics if a group's `children` are a map whose keys are texts and of which one has a
-- value of its own, as every child with hosts has, and if the groups before this group and the
-- elements before its children are read without an error or a panic, whatever stands after them.
pub get_data-panic :
    (typed : Dict RawGroup) (group : Str) (before first fs rest more : Fields) {d d' : Inventory}
    → add_all typed before (initialize all_name new_data) ≡ ok d
    → process_elements first group (raw_group typed group) (initialize group d) ≡ ok d'
    → are_texts fs ≡ true
    → are_empty fs ≡ false
    → get_data typed (
        append before (
          field
            (str group)
            (map (append first (field (str (codes "children")) (map fs) rest)))
            more))
      ≡ panic
unfolding get_data add_all add_group
get_data-panic typed group before first fs rest more {d} {d'} e l t h =
    let children = field (str (codes "children")) (map fs) rest in
    let this = field (str group) (map (append first children)) more in
    rw (add_all-append typed before this (initialize all_name new_data) e) (
      rw
        (process_elements-append first children group (raw_group typed group) (initialize group d)
          l)
        (rw (children_element-panic fs rest group (raw_group typed group) d' t h) refl))
