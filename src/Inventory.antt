-- ===== src/Inventory.antt =====
-- inventory/data_types.go and inventory/common.go: hosts and groups. A `*Group` or a `*Host` is made
-- by `groupByName` or `hostByName` alone, which store it under its name and never replace it, so a
-- pointer is modelled by that name, and what it points to is read from the two maps.
pub mod Membership
pub mod Format
pub mod Cycles
pub mod Links
pub mod Complete
pub mod Pattern
pub mod Yaml
pub mod Ini
use gosible.Base.{
  ℕ, zero, suc, Bool, true, false, not, ◌&&◌, ◌||◌, Option, none, some, List, [], ◌∷◌, ◌++◌,
  if◌then◌else◌, any_of, Outcome, ok, err, ◌>>=◌, length, is_empty,
}
use gosible.GoText.{Str, codes, str_eq}
use gosible.Dict.{Dict, lookup, insert, merge}
use gosible.Values.{Value, Vars}

pub record Host : Type 0 where
  pub name : Str
  pub vars : Vars
  pub groups : List Str

pub record Group : Type 0 where
  pub name : Str
  pub children : List Str
  pub hosts : List Str
  pub vars : Vars
  pub parents : List Str
  pub initialized : Bool

pub record Inventory : Type 0 where
  pub hosts : Dict Host
  pub groups : Dict Group

abbrev pub new_data : Inventory
new_data = record { hosts = []; groups = [] }

abbrev pub new_host : Str → Host
new_host name = record { name = name; vars = []; groups = [] }

abbrev pub new_group : Str → Group
new_group name = record {
  name = name;
  children = [];
  hosts = [];
  vars = [];
  parents = [];
  initialized = false;
}

-- what a pointer points to
unfoldable pub group_at : Inventory → Str → Group
group_at d name = elim (lookup name d.groups) [ none ↦ new_group name | some g ↦ g ]

unfoldable pub host_at : Inventory → Str → Host
host_at d name = elim (lookup name d.hosts) [ none ↦ new_host name | some h ↦ h ]

-- a write through a pointer
unfoldable pub put_group : Str → Group → Inventory → Inventory
put_group name g d = record d { groups = insert name g d.groups }

unfoldable pub put_host : Str → Host → Inventory → Inventory
put_host name h d = record d { hosts = insert name h d.hosts }

-- The group is made if it is not there; the pointer that is returned is the name.
unfoldable pub group_by_name : Str → Inventory → Inventory
unfolding put_group
group_by_name name d = elim (lookup name d.groups) [
  | none ↦ put_group name (new_group name) d
  | some g ↦ d
]

unfoldable pub host_by_name : Str → Inventory → Inventory
unfolding put_host
host_by_name name d = elim (lookup name d.hosts) [
  | none ↦ put_host name (new_host name) d
  | some h ↦ d
]

-- `for k, v := range vars { host.Vars[k] = v }`
unfoldable pub add_vars_to_host : Str → Vars → Inventory → Inventory
unfolding host_by_name put_host host_at
add_vars_to_host name vars d =
    let d' = host_by_name name d in
    let h = host_at d' name in put_host name (record h { vars = merge h.vars vars }) d'

-- slices.Contains
unfoldable pub slice_contains : List Str → Str → Bool
slice_contains l x = any_of (λ y. str_eq y x) l

-- `Group.AllVars`, on fuel for the depth of the recursion
unfoldable pub group_all_vars_onto : (Str → Vars) → List Str → Vars → Vars
group_all_vars_onto all [] vars = vars
group_all_vars_onto all (g ∷ gs) vars = group_all_vars_onto all gs (merge vars (all g))

unfoldable pub group_all_vars : ℕ → Inventory → Str → Vars
unfolding group_all_vars_onto group_at
group_all_vars zero d name = []
group_all_vars (suc n) d name =
    let g = group_at d name in merge (group_all_vars_onto (group_all_vars n d) g.parents []) g.vars

-- `Host.AllVars`
unfoldable pub host_all_vars : ℕ → Inventory → Host → Vars
unfolding group_all_vars_onto
host_all_vars n d h = merge (group_all_vars_onto (group_all_vars n d) h.groups []) h.vars

-- hosts[host.Name] = host, for the group's own hosts
unfoldable pub own_hosts : Inventory → List Str → Dict Host → Dict Host
unfolding host_at
own_hosts d [] hosts = hosts
own_hosts d (h ∷ hs) hosts = own_hosts d hs (insert h (host_at d h) hosts)

-- the same, for the hosts of each child
unfoldable pub children_hosts : (Str → Dict Host) → List Str → Dict Host → Dict Host
children_hosts get [] hosts = hosts
children_hosts get (c ∷ cs) hosts = children_hosts get cs (merge hosts (get c))

-- `Group.GetHosts`, on fuel for the depth of the recursion
unfoldable pub get_hosts : ℕ → Inventory → Str → Dict Host
unfolding own_hosts children_hosts group_at
get_hosts zero d name = []
get_hosts (suc n) d name =
    let g = group_at d name in children_hosts (get_hosts n d) g.children (own_hosts d g.hosts [])
