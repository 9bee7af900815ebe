-- ===== src/Inventory/Yaml/Loading.antt =====
-- inventory/yaml.go: the links of the inventory that is read, and `GetHosts` on it.
use gosible.Base.{
  ℕ, suc, ◌≡◌, refl, Bool, true, false, Option, none, some, List, arith, if◌then◌else◌, Outcome, ok,
  err, panic, ◌>>=◌, >>=-eq-ok, ok-injective, subst, length, ap, ◌↔◌,
}
use gosible.GoText.{Str, codes, str_eq}
use gosible.Dict.{Dict, lookup, has}
use gosible.Values.{Value, null, str, map, Fields, end, field}
use gosible.Inventory.{Inventory, new_data, group_at, slice_contains, get_hosts}
use gosible.Inventory.Format.{InventoryError, all_name, format_and_validate}
use gosible.Inventory.Links.{IsLinked, put_group-IsLinked}
use gosible.Inventory.Membership.{InGroup}
use gosible.Inventory.Complete.{format_and_validate-get_hosts}
use gosible.Inventory.Yaml.{
  RawGroup, Load, process_hosts, process_vars, initialize, add_groups, pointers, adopt_children,
  process_children, process_group_element, process_elements, add_group, raw_group, add_all, checked,
  get_data,
}
use gosible.Inventory.Yaml.Steps.{
  adopt_children-IsLinked, process_hosts-IsLinked, initialize-IsLinked,
}

-- what is returned has the property
abbrev Gives : {A : Type 0} → (A → Type 0) → Load A → Type 0
Gives P (ok a) = P a
Gives P (err e) = Unit
Gives P panic = Unit

Gives-bind :
    {A B : Type 0} (P : A → Type 0) (Q : B → Type 0) (m : Load A) (f : A → Load B)
    → Gives P m
    → ((a : A) → P a → Gives Q (f a))
    → Gives Q (m >>= f)
Gives-bind P Q (ok a) f p k = k a p
Gives-bind P Q (err e) f p k = tt
Gives-bind P Q panic f p k = tt

abbrev First : Inventory × List (Option Str) → Type 0
First r = IsLinked r.0

add_groups-IsLinked : (fs : Fields) (d : Inventory) → IsLinked d → Gives First (add_groups fs d)
unfolding add_groups
add_groups-IsLinked end d h = h
add_groups-IsLinked (field (str key) null fs) d h =
    Gives-bind First First (add_groups fs (initialize key d)) _
      (add_groups-IsLinked fs (initialize key d) (initialize-IsLinked key d h)) (λ r p. p)
add_groups-IsLinked (field (str key) v fs) d h =
    Gives-bind First First (add_groups fs d) _ (add_groups-IsLinked fs d h) (λ r p. p)
add_groups-IsLinked (field k v fs) d h = tt

process_children-IsLinked :
    (group : Str) (fs : Fields) (d : Inventory)
    → IsLinked d
    → Gives IsLinked (process_children group fs d)
unfolding process_children
process_children-IsLinked group fs d h =
    Gives-bind First IsLinked (add_groups fs d) _ (add_groups-IsLinked fs d h)
      (λ r p. adopt r p (pointers r.1))
  where
    adopt :
        (r : Inventory × List (Option Str))
        → IsLinked r.0
        → (x : Option (List Str))
        → Gives IsLinked
            (elim x [ none ↦ panic | some names ↦ ok (adopt_children group names r.0) ])
    adopt r p none = tt
    adopt r p (some names) = adopt_children-IsLinked group names r.0 p

process_vars-IsLinked :
    (group : Str) (raw : RawGroup) (d : Inventory)
    → IsLinked d
    → IsLinked (process_vars group raw d)
unfolding process_vars
process_vars-IsLinked group raw d h = put_group-IsLinked group _ d refl (λ x. refl) h

element-IsLinked :
    (k v : Value) (group : Str) (raw : RawGroup) (d : Inventory)
    → IsLinked d
    → Gives IsLinked (process_group_element k v group raw d)
unfolding process_group_element
element-IsLinked (str key) (map fs) group raw d h =
    pick (str_eq key (codes "hosts")) (str_eq key (codes "vars")) (str_eq key (codes "children"))
  where
    pick :
        (a b c : Bool)
        → Gives IsLinked (
            if a
            then ok (process_hosts group raw d)
            else if b
            then ok (process_vars group raw d)
            else if c
            then process_children group fs d
            else ok d)
    pick true b c = process_hosts-IsLinked group raw d h
    pick false true c = process_vars-IsLinked group raw d h
    pick false false true = process_children-IsLinked group fs d h
    pick false false false = h
element-IsLinked k v group raw d h = tt

elements-IsLinked :
    (fs : Fields) (group : Str) (raw : RawGroup) (d : Inventory)
    → IsLinked d
    → Gives IsLinked (process_elements fs group raw d)
unfolding process_elements
elements-IsLinked end group raw d h = h
elements-IsLinked (field k v fs) group raw d h =
    Gives-bind IsLinked IsLinked (process_group_element k v group raw d) _
      (element-IsLinked k v group raw d h) (λ d' p. elements-IsLinked fs group raw d' p)

add_group-IsLinked :
    (raw : RawGroup) (name : Str) (v : Value) (d : Inventory)
    → IsLinked d
    → Gives IsLinked (add_group raw name v d)
unfolding add_group
add_group-IsLinked raw name (map fs) d h =
    elements-IsLinked fs name raw (initialize name d) (initialize-IsLinked name d h)
add_group-IsLinked raw name null d h = initialize-IsLinked name d h
add_group-IsLinked raw name v d h = tt

add_all-IsLinked :
    (typed : Dict RawGroup) (fs : Fields) (d : Inventory)
    → IsLinked d
    → Gives IsLinked (add_all typed fs d)
unfolding add_all
add_all-IsLinked typed end d h = h
add_all-IsLinked typed (field (str key) v fs) d h =
    Gives-bind IsLinked IsLinked (add_group (raw_group typed key) key v d) _
      (add_group-IsLinked (raw_group typed key) key v d h) (λ d' p. add_all-IsLinked typed fs d' p)
add_all-IsLinked typed (field k v fs) d h = tt

pub new_data-IsLinked : IsLinked new_data
unfolding group_at lookup slice_contains
new_data-IsLinked = record { links = λ g c. refl }

Gives-ok : {A : Type 0} (P : A → Type 0) (m : Load A) (a : A) → Gives P m → m ≡ ok a → P a
Gives-ok P m a g e = subst (Gives P) e g

checked-ok : (r : Outcome InventoryError Inventory) (d : Inventory) → checked r ≡ ok d → r ≡ ok d
checked-ok (ok d') d e = ap ok (ok-injective e)
checked-ok (err x) d e = absurd (ground (arith, e))
checked-ok panic d e = absurd (ground (arith, e))

-- An inventory that is read from YAML, whatever the file holds, is one on which `GetHosts` ends and
-- finds exactly the hosts of a group and of the groups below it.
pub get_data-get_hosts :
    (typed : Dict RawGroup) (ordered : Fields) (d : Inventory) (g h : Str)
    → get_data typed ordered ≡ ok d
    → (has h (get_hosts (suc (length d.groups)) d g) ≡ true) ↔ ((k : ℕ) × InGroup d h k g)
unfolding get_data
get_data-get_hosts typed ordered d g h e =
    let start = initialize all_name new_data in
    let (loaded, p, q) =
      >>=-eq-ok (add_all typed ordered start) (λ d. checked (format_and_validate d)) e in
    format_and_validate-get_hosts loaded g h
      (Gives-ok IsLinked (add_all typed ordered start) loaded
        (add_all-IsLinked typed ordered start
          (initialize-IsLinked all_name new_data new_data-IsLinked))
        p)
      (checked-ok (format_and_validate loaded) d q)
