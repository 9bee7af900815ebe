-- ===== src/Tests/Ini.antt =====
-- Runs of inventory/ini.go.
use gosible.Base.{
  suc, length, ◌≡◌, refl, Bool, true, false, arith, Outcome, ok, err, panic, ◌↔◌, ℕ, [], ◌∷◌, ◌++◌,
}
use gosible.GoText.{Str, codes, str_eq}
use gosible.GoText.Lines.{scan_lines}
use gosible.Dict.{has, keys, lookup, insert}
use gosible.Values.{str}
use gosible.Inventory.{Inventory, new_data, get_hosts}
use gosible.Inventory.Format.{format, validate, format_and_validate}
use gosible.Inventory.Membership.{InGroup}
use gosible.Inventory.Ini.{IniError, get_host_data, get_section_data, vars_section, unexpected_host}
use gosible.Inventory.Ini.States.{parse_ini}
use gosible.Inventory.Ini.Loading.{parse_ini-get_hosts}

abbrev newline : Str
newline = 10 ∷ []

abbrev sample_ini : Str
sample_ini = codes "[a]" ++ newline ++ codes "w p=1" ++ newline

abbrev or_empty : Outcome IniError Inventory → Inventory
or_empty (ok d) = d
or_empty (err e) = new_data
or_empty panic = new_data

abbrev sample_inventory : Inventory
sample_inventory = or_empty (parse_ini sample_ini)

abbrev is_loaded : Outcome IniError Inventory → Bool
is_loaded (ok d) = true
is_loaded (err e) = false
is_loaded panic = false

loaded_as : (r : Outcome IniError Inventory) → is_loaded r ≡ true → r ≡ ok (or_empty r)
loaded_as (ok d) h = refl
loaded_as (err e) h = absurd (ground (arith, h))
loaded_as panic h = absurd (ground (arith, h))

sample_is_loaded : is_loaded (parse_ini sample_ini) ≡ true
unfolding parse_ini format_and_validate validate format keys lookup insert str_eq scan_lines
sample_is_loaded = refl

ini_loaded : parse_ini sample_ini ≡ ok sample_inventory
ini_loaded = loaded_as (parse_ini sample_ini) sample_is_loaded

groups_of_sample : keys sample_inventory.groups ≡ codes "all" ∷ codes "a" ∷ codes "ungrouped" ∷ []
unfolding parse_ini format_and_validate validate format keys lookup insert str_eq scan_lines
groups_of_sample = refl

parse_ini-get_hosts_example :
    (has (codes "w") (get_hosts (suc (length sample_inventory.groups)) sample_inventory (codes "a"))
      ≡ true)
    ↔ ((k : ℕ) × InGroup sample_inventory (codes "w") k (codes "a"))
parse_ini-get_hosts_example =
    parse_ini-get_hosts sample_ini sample_inventory (codes "a") (codes "w") ini_loaded

quoted_value_of_host :
    get_host_data (codes "db name='a b' port=5")
    ≡ ok (codes "db", (codes "name", str (codes "'a b'")) ∷ (codes "port", str (codes "5")) ∷ [])
unfolding get_host_data str_eq
quoted_value_of_host = refl

no_host : get_host_data (codes "db name=") ≡ err unexpected_host
unfolding get_host_data
no_host = refl

section_of_vars : get_section_data (codes "[web:vars]") ≡ (codes "web", vars_section)
unfolding get_section_data
section_of_vars = refl
