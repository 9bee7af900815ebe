-- ===== src/Inventory/Yaml/Steps.antt =====
-- inventory/yaml.go: the links through the steps of the loader.
use gosible.Base.{◌≡◌, refl, false, ◌||◌, ◌&&◌, Option, none, some, List, [], ◌∷◌, ◌++◌, arith}
use gosible.GoText.{Str, str_eq}
use gosible.GoText.Laws.{str_eq_iff}
use gosible.Dict.{Dict, lookup, keys}
use gosible.Values.{Vars}
use gosible.Inventory.{
  Inventory, Host, group_at, put_group, put_host, add_vars_to_host, host_by_name, slice_contains,
  new_host,
}
use gosible.Inventory.Links.{
  IsLinked, group_at-put_group, put_group-IsLinked, group_by_name-IsLinked, put_host-IsLinked,
  slice_contains-concat,
}
use gosible.Inventory.Yaml.{
  RawGroup, add_hosts, join_group, process_hosts, initialize, add_parent, adopt_children,
}

slice_contains-append :
    (xs ys : List Str) (x : Str)
    → slice_contains (xs ++ ys) x ≡ (slice_contains xs x || slice_contains ys x)
unfolding slice_contains
slice_contains-append [] ys x = refl
slice_contains-append (z ∷ xs) ys x = ground (arith, slice_contains-append xs ys x)

slice_contains_cons :
    (n : Str) (ns : List Str) (c : Str)
    → slice_contains (n ∷ ns) c ≡ (str_eq n c || slice_contains ns c)
unfolding slice_contains
slice_contains_cons n ns c = refl

slice_contains_nil : (c : Str) → slice_contains [] c ≡ false
unfolding slice_contains
slice_contains_nil c = refl

-- Links agree, but for children of `group` that are still to get it as a parent.
record IsLinkedBut (group : Str) (pending : List Str) (d : Inventory) : Type 0 where
  links_or :
      (g c : Str)
      → slice_contains (group_at d g).children c
        ≡ (slice_contains (group_at d c).parents g || (str_eq group g && slice_contains pending c))

add_parent-IsLinked :
    (group : Str) (ns : List Str) (d : Inventory)
    → IsLinkedBut group ns d
    → IsLinked (add_parent group ns d)
unfolding add_parent
add_parent-IsLinked group [] d h = record {
  links = λ g c. ground (arith, h.links_or g c, slice_contains_nil c);
}
add_parent-IsLinked group (n ∷ ns) d h =
    let child = group_at d n in
    let child' = record child { parents = child.parents ++ group ∷ [] } in
    add_parent-IsLinked group ns (put_group n child' d) (record {
      links_or = λ g c. ground (
        arith,
        group_at-put_group n g child' d,
        group_at-put_group n c child' d,
        slice_contains-concat child.parents group g,
        slice_contains_cons n ns c,
        str_eq_iff n g,
        str_eq_iff n c,
        h.links_or g c,
      );
    })

pub adopt_children-IsLinked :
    (group : Str) (names : List Str) (d : Inventory)
    → IsLinked d
    → IsLinked (adopt_children group names d)
unfolding adopt_children
adopt_children-IsLinked group names d h =
    let g0 = group_at d group in
    let g1 = record g0 { children = g0.children ++ names } in
    add_parent-IsLinked group names (put_group group g1 d) (record {
      links_or = λ g c. ground (
        arith,
        group_at-put_group group g g1 d,
        group_at-put_group group c g1 d,
        slice_contains-append g0.children names c,
        str_eq_iff group g,
        str_eq_iff group c,
        h.links g c,
      );
    })

add_vars_to_host-IsLinked :
    (name : Str) (vars : Vars) (d : Inventory)
    → IsLinked d
    → IsLinked (add_vars_to_host name vars d)
unfolding add_vars_to_host host_by_name
add_vars_to_host-IsLinked name vars d h = put_host-IsLinked name _ _ (made (lookup name d.hosts))
  where
    made :
        (x : Option Host)
        → IsLinked (elim x [ none ↦ put_host name (new_host name) d | some y ↦ d ])
    made none = put_host-IsLinked name (new_host name) d h
    made (some y) = h

add_hosts-IsLinked : (hosts : Dict Vars) (d : Inventory) → IsLinked d → IsLinked (add_hosts hosts d)
unfolding add_hosts
add_hosts-IsLinked [] d h = h
add_hosts-IsLinked ((name, vars) ∷ hosts) d h =
    add_hosts-IsLinked hosts (add_vars_to_host name vars d)
      (add_vars_to_host-IsLinked name vars d h)

join_group-IsLinked :
    (group : Str) (hs : List Str) (d : Inventory) → IsLinked d → IsLinked (join_group group hs d)
unfolding join_group
join_group-IsLinked group [] d h = h
join_group-IsLinked group (x ∷ hs) d h =
    join_group-IsLinked group hs (put_host x _ d) (put_host-IsLinked x _ d h)

pub process_hosts-IsLinked :
    (group : Str) (raw : RawGroup) (d : Inventory)
    → IsLinked d
    → IsLinked (process_hosts group raw d)
unfolding process_hosts
process_hosts-IsLinked group raw d h = join_group-IsLinked group (keys raw.hosts) _ (
    put_group-IsLinked group _ (add_hosts raw.hosts d) refl (λ x. refl)
      (add_hosts-IsLinked raw.hosts d h))

pub initialize-IsLinked : (name : Str) (d : Inventory) → IsLinked d → IsLinked (initialize name d)
unfolding initialize
initialize-IsLinked name d h =
    put_group-IsLinked name _ _ refl (λ x. refl) (group_by_name-IsLinked name d h)
