-- ===== src/Inventory/Ini/States.antt =====
-- inventory/ini.go: how its lines change the inventory.
use gosible.Base.{true, List, [], ◌∷◌, if◌then◌else◌, is_empty, Outcome, ok, err, panic, ◌>>=◌}
use gosible.GoText.{Str, trim_space}
use gosible.GoText.Lines.{scan_lines}
use gosible.Dict.{insert}
use gosible.Values.{Vars, str}
use gosible.Inventory.{Inventory, new_data, new_group, group_at, put_group, group_by_name}
use gosible.Inventory.Format.{InventoryError, all_name, format_and_validate}
use gosible.Inventory.Yaml.{RawGroup, process_hosts, adopt_children, initialize}
use gosible.Inventory.Ini.{
  IniError, invalid_inventory, SectionType, hosts_section, vars_section, children_section,
  is_section, get_section_data, get_child, get_var, get_host_data,
}

-- stateStruct
pub record IniState : Type 0 where
  pub current : Str
  pub inventory : Inventory
  pub typ : SectionType

unfoldable pub new_state : IniState
unfolding put_group
new_state = record {
  current = all_name;
  inventory = put_group all_name (record (new_group all_name) { initialized = true }) new_data;
  typ = hosts_section;
}

-- A group of variables alone is not initialized.
unfoldable pub section_group : SectionType → Str → Inventory → Inventory
unfolding group_by_name initialize
section_group vars_section name d = group_by_name name d
section_group hosts_section name d = initialize name d
section_group children_section name d = initialize name d

unfoldable pub handle_section_line : Str → IniState → IniState
unfolding get_section_data section_group
handle_section_line line s = go (get_section_data line)
  where
    go : Str × SectionType → IniState
    go (name, typ) = record {
      current = name;
      inventory = section_group typ name s.inventory;
      typ = typ;
    }

-- a host with its variables, in the current group
abbrev pub one_host : Str → Vars → RawGroup
one_host name vars = record { hosts = (name, vars) ∷ []; vars = [] }

abbrev pub set_var : Str → Str × Str → Inventory → Inventory
unfolding group_at put_group insert
set_var group (name, value) d =
    put_group group
      (record (group_at d group) { vars = insert name (str value) (group_at d group).vars }) d

abbrev pub with_inventory : IniState → Inventory → IniState
with_inventory s d = record s { inventory = d }

-- The parents of the child and the children of the group are two fields, so that the order of their
-- two changes does not matter.
unfoldable pub handle_data : SectionType → Str → IniState → Outcome IniError IniState
unfolding get_host_data get_var get_child process_hosts adopt_children group_by_name set_var
handle_data hosts_section line s = get_host_data line >>= λ r.
    ok (with_inventory s (process_hosts s.current (one_host r.0 r.1) s.inventory))
handle_data vars_section line s =
    get_var line >>= λ r. ok (with_inventory s (set_var s.current r s.inventory))
handle_data children_section line s = get_child line >>= λ name.
    ok (with_inventory s (adopt_children s.current (name ∷ []) (group_by_name name s.inventory)))

unfoldable pub handle_line : Str → IniState → Outcome IniError IniState
unfolding handle_section_line handle_data is_section trim_space
handle_line line s =
    if is_empty (trim_space line)
    then ok s
    else if is_section (trim_space line)
    then ok (handle_section_line (trim_space line) s)
    else handle_data s.typ (trim_space line) s

unfoldable pub handle_lines : List Str → IniState → Outcome IniError IniState
unfolding handle_line
handle_lines [] s = ok s
handle_lines (line ∷ lines) s = handle_line line s >>= handle_lines lines

abbrev pub validated : Outcome InventoryError Inventory → Outcome IniError Inventory
validated (ok d) = ok d
validated (err e) = err (invalid_inventory e)
validated panic = panic

-- parseIni, from the text of the file
unfoldable pub parse_ini : Str → Outcome IniError Inventory
unfolding handle_lines new_state format_and_validate scan_lines
parse_ini text =
    handle_lines (scan_lines text) new_state >>= λ s. validated (format_and_validate s.inventory)
