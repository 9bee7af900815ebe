-- ===== src/Tests/Yaml.antt =====
-- Runs of inventory/yaml.go.
use gosible.Base.{◌≡◌, refl, ℕ, suc, true, [], ◌∷◌, ok, err, panic, length, ◌↔◌}
use gosible.GoText.{codes, str_eq}
use gosible.Dict.{Dict, has, keys, lookup, insert}
use gosible.Values.{str, null, map, Fields, field, end}
use gosible.Inventory.{Inventory, new_data, get_hosts}
use gosible.Inventory.Format.{format, validate, format_and_validate}
use gosible.Inventory.Membership.{InGroup}
use gosible.Inventory.Yaml.{
  RawGroup, Load, get_data, process_elements, add_all, raw_group, process_group_element, initialize,
}
use gosible.Inventory.Yaml.Loading.{get_data-get_hosts}
use gosible.Inventory.Yaml.Nested.{get_data-panic}

abbrev typed : Dict RawGroup
typed = (codes "web", record { hosts = (codes "h1", []) ∷ []; vars = [] }) ∷ []

abbrev ordered : Fields
ordered =
    field (str (codes "web"))
      (map (field (str (codes "hosts")) (map (field (str (codes "h1")) null end)) end)) end

abbrev or_new : Load Inventory → Inventory
or_new (ok d) = d
or_new (err e) = new_data
or_new panic = new_data

yaml_loaded : get_data typed ordered ≡ ok (or_new (get_data typed ordered))
unfolding get_data format_and_validate validate format keys lookup insert str_eq
yaml_loaded = refl

get_data-get_hosts_example :
    (has (codes "h1") (
        get_hosts
          (suc (length (or_new (get_data typed ordered)).groups))
          (or_new (get_data typed ordered))
          (codes "all"))
      ≡ true)
    ↔ ((k : ℕ) × InGroup (or_new (get_data typed ordered)) (codes "h1") k (codes "all"))
get_data-get_hosts_example =
    get_data-get_hosts typed ordered (or_new (get_data typed ordered)) (codes "all") (codes "h1")
      yaml_loaded

-- `children` after the hosts of the group
abbrev nested : Fields
nested =
    field (str (codes "web"))
      (map (
        field (str (codes "hosts")) (map (field (str (codes "h1")) null end))
          (field (str (codes "children")) (map (field (str (codes "api")) (map end) end)) end)))
      end

abbrev hosts_element : Fields
hosts_element = field (str (codes "hosts")) (map (field (str (codes "h1")) null end)) end

abbrev with_web : Load Inventory
with_web =
    process_elements hosts_element (codes "web") (raw_group typed (codes "web"))
      (initialize (codes "web") (initialize (codes "all") new_data))

web_loaded : with_web ≡ ok (or_new with_web)
unfolding process_elements process_group_element str_eq
web_loaded = refl

nothing_before :
    add_all typed end (initialize (codes "all") new_data) ≡ ok (initialize (codes "all") new_data)
unfolding add_all
nothing_before = refl

get_data-panic_example : get_data typed nested ≡ panic
get_data-panic_example =
    get_data-panic typed (codes "web") end hosts_element (field (str (codes "api")) (map end) end)
      end end nothing_before web_loaded refl refl
