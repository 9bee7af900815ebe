-- ===== src/Inventory/Ini/Loading.antt =====
-- inventory/ini.go: the links of the inventory that is read, and `GetHosts` on it.
use gosible.Base.{
  suc, ◌≡◌, refl, Bool, true, false, List, [], ◌∷◌, Outcome, ok, err, panic, ◌>>=◌, >>=-eq-ok,
  ok-injective, length, ap, ◌↔◌, ℕ, if◌then◌else◌, arith, is_empty, subst,
}
use gosible.GoText.{Str, trim_space}
use gosible.GoText.Lines.{scan_lines}
use gosible.Dict.{has, lookup}
use gosible.Inventory.{Inventory, get_hosts, new_data, new_group, group_at}
use gosible.Inventory.Format.{InventoryError, all_name, format_and_validate}
use gosible.Inventory.Links.{IsLinked, put_group-IsLinked, group_by_name-IsLinked}
use gosible.Inventory.Membership.{InGroup}
use gosible.Inventory.Complete.{format_and_validate-get_hosts}
use gosible.Inventory.Yaml.Loading.{new_data-IsLinked}
use gosible.Inventory.Yaml.Steps.{
  adopt_children-IsLinked, process_hosts-IsLinked, initialize-IsLinked,
}
use gosible.Inventory.Ini.{
  IniError, SectionType, hosts_section, vars_section, children_section, get_section_data,
  get_host_data, get_var, get_child, is_section,
}
use gosible.Inventory.Ini.States.{
  IniState, section_group, handle_section_line, handle_data, handle_line, handle_lines, parse_ini,
  new_state, one_host, validated,
}

section_group-IsLinked :
    (typ : SectionType) (name : Str) (d : Inventory)
    → IsLinked d
    → IsLinked (section_group typ name d)
unfolding section_group
section_group-IsLinked vars_section name d h = group_by_name-IsLinked name d h
section_group-IsLinked hosts_section name d h = initialize-IsLinked name d h
section_group-IsLinked children_section name d h = initialize-IsLinked name d h

-- where a state is returned, its links agree
abbrev Linked : Outcome IniError IniState → Type 0
Linked (ok s) = IsLinked s.inventory
Linked (err e) = Unit
Linked panic = Unit

bind-Linked :
    {A : Type 0} (m : Outcome IniError A) (f : A → Outcome IniError IniState)
    → ((a : A) → Linked (f a))
    → Linked (m >>= f)
bind-Linked (ok a) f k = k a
bind-Linked (err e) f k = tt
bind-Linked panic f k = tt

handle_data-Linked :
    (typ : SectionType) (line : Str) (s : IniState)
    → IsLinked s.inventory
    → Linked (handle_data typ line s)
unfolding handle_data
handle_data-Linked hosts_section line s h =
    bind-Linked (get_host_data line) _
      (λ r. process_hosts-IsLinked s.current (one_host r.0 r.1) s.inventory h)
handle_data-Linked vars_section line s h =
    bind-Linked (get_var line) _
      (λ r. put_group-IsLinked s.current _ s.inventory refl (λ x. refl) h)
handle_data-Linked children_section line s h = bind-Linked (get_child line) _ (λ name.
    adopt_children-IsLinked s.current (name ∷ []) _ (group_by_name-IsLinked name s.inventory h))

handle_line-Linked :
    (line : Str) (s : IniState) → IsLinked s.inventory → Linked (handle_line line s)
unfolding handle_line handle_section_line
handle_line-Linked line s h = pick (is_empty t) (is_section t)
  where
    t : Str
    t = trim_space line

    pick :
        (a b : Bool)
        → Linked
            (if a then ok s else if b then ok (handle_section_line t s) else handle_data s.typ t s)
    pick true b = h
    pick false true =
        section_group-IsLinked (get_section_data t).1 (get_section_data t).0 s.inventory h
    pick false false = handle_data-Linked s.typ t s h

Linked-bind :
    (r : Outcome IniError IniState) (f : IniState → Outcome IniError IniState)
    → Linked r
    → ((s : IniState) → IsLinked s.inventory → Linked (f s))
    → Linked (r >>= f)
Linked-bind (ok s) f h k = k s h
Linked-bind (err e) f h k = tt
Linked-bind panic f h k = tt

handle_lines-Linked :
    (lines : List Str) (s : IniState) → IsLinked s.inventory → Linked (handle_lines lines s)
unfolding handle_lines
handle_lines-Linked [] s h = h
handle_lines-Linked (line ∷ lines) s h =
    Linked-bind (handle_line line s) (handle_lines lines) (handle_line-Linked line s h)
      (λ s h. handle_lines-Linked lines s h)

new_state-IsLinked : IsLinked new_state.inventory
unfolding new_state group_at lookup
new_state-IsLinked =
    put_group-IsLinked all_name (record (new_group all_name) { initialized = true }) new_data refl
      (λ x. refl) new_data-IsLinked

validated-ok :
    (r : Outcome InventoryError Inventory) (d : Inventory) → validated r ≡ ok d → r ≡ ok d
validated-ok (ok d') d e = ap ok (ok-injective e)
validated-ok (err x) d e = absurd (ground (arith, e))
validated-ok panic d e = absurd (ground (arith, e))

-- On every inventory that the INI loader returns, whatever the text is, GetHosts of a group has exactly
-- the hosts of the group and of the groups below it, at the fuel of one more than the number of groups.
pub parse_ini-get_hosts :
    (text : Str) (d : Inventory) (g h : Str)
    → parse_ini text ≡ ok d
    → (has h (get_hosts (suc (length d.groups)) d g) ≡ true) ↔ ((k : ℕ) × InGroup d h k g)
unfolding parse_ini
parse_ini-get_hosts text d g h e =
    let (s, p, q) =
      >>=-eq-ok (handle_lines (scan_lines text) new_state)
        (λ s. validated (format_and_validate s.inventory)) e in
    format_and_validate-get_hosts s.inventory g h
      (subst Linked p (handle_lines-Linked (scan_lines text) new_state new_state-IsLinked))
      (validated-ok (format_and_validate s.inventory) d q)
