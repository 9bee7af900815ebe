-- ===== src/Variables/Manager.antt =====
-- vars/manager.go: the store of variables, and the variables of a play, a host and a task.
use gosible.Base.{Option, none, some, [], if◌then◌else◌, Outcome, ok, panic, ◌>>=◌, ◌||◌}
use gosible.GoText.{Str, codes, str_eq}
use gosible.Dict.{Dict, lookup, insert, delete}
use gosible.Values.{Value, Vars}
use gosible.Inventory.{Inventory}
use gosible.Variables.{combine_vars}

-- `none` is a nil map: it can be read, and a write panics.
abbrev pub HostMap : Type 0
HostMap = Option (Dict Vars)

pub record Manager : Type 0 where
  pub extra_vars : Vars
  pub inventory : Inventory
  pub host_vars : HostMap
  pub host_facts : HostMap
  pub host_non_persistent_facts : HostMap
  pub host_loop_vars : HostMap

-- what `once.Do` stores, and the manager that is returned: the one of the first call
unfoldable pub make_manager : Option Manager → Inventory → Manager
make_manager (some m) inv = m
make_manager none inv = record {
  extra_vars = [];
  inventory = inv;
  host_vars = none;
  host_facts = none;
  host_non_persistent_facts = none;
  host_loop_vars = some [];
}

pub data VarsError : Type 0 where
  missing_at_sign not_rendered : VarsError

abbrev pub Vary : Type 0 → Type 0
Vary = Outcome VarsError

-- m[host], with nothing for a host that is missing
unfoldable pub of_host : Str → HostMap → Option Vars
of_host host none = none
of_host host (some m) = lookup host m

abbrev pub or_nil : Option Vars → Vars
or_nil none = []
or_nil (some vars) = vars

-- m[host] = combineVars(m[host], facts)
unfoldable pub combine_into : Str → Vars → HostMap → Vary HostMap
unfolding combine_vars
combine_into host facts none = panic
combine_into host facts (some m) =
    ok (some (insert host (combine_vars (or_nil (lookup host m)) facts) m))

unfoldable pub delete_host_facts : Str → Manager → Manager
delete_host_facts host m = record m {
  host_facts = elim m.host_facts [ none ↦ none | some facts ↦ some (delete host facts) ];
}

unfoldable pub set_host_facts : Str → Vars → Manager → Vary Manager
unfolding combine_into
set_host_facts host facts m =
    combine_into host facts m.host_facts >>= λ x. ok (record m { host_facts = x })

unfoldable pub set_host_non_persistent_facts : Str → Vars → Manager → Vary Manager
unfolding combine_into
set_host_non_persistent_facts host facts m =
    combine_into host facts m.host_non_persistent_facts >>= λ x.
    ok (record m { host_non_persistent_facts = x })

unfoldable pub set_host_vars : Str → Vars → Manager → Vary Manager
unfolding combine_into
set_host_vars host facts m =
    combine_into host facts m.host_vars >>= λ x. ok (record m { host_vars = x })

-- `facts` is `none` for a nil map
unfoldable pub save_facts : Str → Option Vars → Str → Manager → Vary Manager
unfolding set_host_facts set_host_non_persistent_facts set_host_vars
save_facts bucket none host m = ok m
save_facts bucket (some facts) host m =
    if str_eq bucket [] || str_eq bucket (codes "ansible_facts")
    then set_host_facts host facts m
    else if str_eq bucket (codes "np_ansible_facts")
    then set_host_non_persistent_facts host facts m
    else if str_eq bucket (codes "host_vars")
    then set_host_vars host facts m
    else ok m

unfoldable pub write_loops : Dict Vars → Manager → Manager
write_loops loops m = record m { host_loop_vars = some loops }

unfoldable pub reset_loop_context : Str → Manager → Vary Manager
unfolding write_loops
reset_loop_context host m = elim m.host_loop_vars [
  | none ↦ panic
  | some loops ↦ ok (write_loops (insert host [] loops) m)
]

-- m.hostLoopVars[host]["item"] = loopItem: the inner map is nil where the host is missing
unfoldable pub set_loop_item : Value → Str → Manager → Vary Manager
unfolding write_loops
set_loop_item item host m = elim m.host_loop_vars [
  | none ↦ panic
  | some loops ↦ elim (lookup host loops) [
    | none ↦ panic
    | some vars ↦ ok (write_loops (insert host (insert (codes "item") item vars) loops) m)
  ]
]
