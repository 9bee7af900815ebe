-- ===== src/Tests/Variables.antt =====
-- Runs of vars/.
use gosible.Dict.{insert, merge, has}
use gosible.Inventory.{group_at}
use gosible.Variables.{combine_vars, set_magic_vars}
use gosible.Variables.Manager.{of_host, reset_loop_context, set_loop_item}
use gosible.Variables.Gather.{
  group_vars, combine_entries, precedence_entry, groups_inventory, play_vars, gather_task,
  task_vars, host_sources, task_env, get_vars,
}
use gosible.Dict.Laws.{or_else}
use gosible.Inventory.{new_group}
use gosible.Variables.Sorting.{IsOrdered, get_vars-IsOrdered}
use gosible.Variables.Groups.{last_group, groups_inventory-last_group}
use gosible.Base.{
  ◌≡◌, refl, true, none, some, List, [], ◌∷◌, if◌then◌else◌, ok, panic, ◌||◌, Bool-cases, inl, inr,
}
use gosible.GoText.{Str, codes, str_eq}
use gosible.Dict.{lookup, has}
use gosible.Dict.Laws.{IsUnique}
use gosible.Values.{str, Vars}
use gosible.Inventory.{Inventory, host_at}
use gosible.Variables.Manager.{Manager, make_manager, save_facts}
use gosible.Variables.Gather.{Settings, set_extra_vars, gather, last_sources}
use gosible.Variables.Invariant.{IsManager}
use gosible.Variables.Reachable.{Reachable, made, step, setting_extra, save_facts-panic}
use gosible.Variables.LoopItems.{HasLoopVars, only_item, set_loop_item-reset_loop_context}
use gosible.Variables.Layers.{Gathered, gather-Gathered}
use gosible.Tests.Playbook.{sample_templar}

abbrev pub sample_settings : Settings
sample_settings = record {
  variable_precedence = codes "groups_inventory" ∷ [];
  inject_facts_as_vars = true;
}

abbrev sample_inventory : Inventory
sample_inventory = record {
  hosts =
      (
        codes "h1",
        record { name = codes "h1"; vars = (codes "a", str (codes "host")) ∷ []; groups = [] },
      )
      ∷ [];
  groups = [];
}

sample-IsUnique : (host : Str) → IsUnique (host_at sample_inventory host).vars
unfolding host_at lookup has str_eq
sample-IsUnique host = elim (Bool-cases (str_eq (codes "h1") host)) [
  | inl e ↦ rw e (refl, tt)
  | inr e ↦ rw e tt
]

abbrev extra : List Str
extra = codes "a=extra" ∷ []

abbrev sample_manager : Manager
sample_manager = (set_extra_vars extra (make_manager none sample_inventory)).0

sample-Reachable : Reachable sample_inventory sample_manager
sample-Reachable = step made (setting_extra extra refl)

set_loop_item-reset_loop_context_example :
    (m1 : Manager) × (m2 : Manager) × (m3 : Manager) × (reset_loop_context
        (codes "h1")
        sample_manager
      ≡ ok m1)
    × (set_loop_item (str (codes "a")) (codes "h1") m1 ≡ ok m2)
    × (set_loop_item (str (codes "b")) (codes "h1") m2 ≡ ok m3)
    × HasLoopVars (codes "h1") [] sample_manager m1
    × HasLoopVars (codes "h1") (only_item (str (codes "a"))) sample_manager m2
    × HasLoopVars (codes "h1") (only_item (str (codes "b"))) sample_manager m3
set_loop_item-reset_loop_context_example =
    set_loop_item-reset_loop_context sample_inventory (codes "h1") (str (codes "a"))
      (str (codes "b")) sample-Reachable

save_facts-panic_example : save_facts (codes "host_vars") (some []) (codes "h1") sample_manager ≡ (
    if str_eq (codes "host_vars") []
      || str_eq (codes "host_vars") (codes "ansible_facts")
      || str_eq (codes "host_vars") (codes "np_ansible_facts")
      || str_eq (codes "host_vars") (codes "host_vars")
    then panic
    else ok sample_manager)
save_facts-panic_example =
    save_facts-panic sample_inventory (codes "host_vars") [] (codes "h1") sample-Reachable

abbrev plain_manager : Manager
plain_manager = record {
  extra_vars = (codes "a", str (codes "extra")) ∷ [];
  inventory = sample_inventory;
  host_vars = none;
  host_facts = none;
  host_non_persistent_facts = none;
  host_loop_vars = some [];
}

plain-IsManager : IsManager plain_manager
unfolding has lookup
plain-IsManager = ((refl, tt), tt, tt, tt, λ host. tt, sample-IsUnique)

abbrev gathered : Vars
gathered = (codes "a", str (codes "extra")) ∷ []

sample-gathered :
    gather sample_templar sample_settings plain_manager none (some (codes "h1")) none ≡ ok gathered
unfolding gather group_vars combine_entries precedence_entry groups_inventory str_eq play_vars
    gather_task task_vars last_sources of_host lookup insert merge combine_vars set_magic_vars
    host_sources task_env host_at group_at has
sample-gathered = refl

gather-Gathered_example :
    Gathered sample_settings plain_manager plain-IsManager sample_templar none
      (some (codes "h1"))
      none
      gathered
gather-Gathered_example =
    gather-Gathered sample_settings plain_manager plain-IsManager sample_templar none
      (some (codes "h1")) none gathered sample-gathered

abbrev unsorted_inventory : Inventory
unsorted_inventory = record {
  hosts =
      (codes "h1", record { name = codes "h1"; vars = []; groups = codes "web" ∷ codes "db" ∷ [] })
      ∷ [];
  groups = [];
}

abbrev unsorted_manager : Manager
unsorted_manager = make_manager none unsorted_inventory

get_vars-IsOrdered_example :
    IsOrdered
      (codes "h1")
      unsorted_manager
      (get_vars sample_templar sample_settings unsorted_manager none (some (codes "h1")) none).0
    × ((get_vars sample_templar sample_settings unsorted_manager none (some (codes "h1")) none).1
        ≡ gather sample_templar sample_settings
            (get_vars sample_templar sample_settings unsorted_manager none
              (some (codes "h1"))
              none).0
            none
            (some (codes "h1"))
            none)
get_vars-IsOrdered_example =
    get_vars-IsOrdered sample_templar sample_settings unsorted_manager none (codes "h1") none

abbrev with_groups : Inventory
with_groups = record {
  hosts = [];
  groups =
      (codes "db", record (new_group (codes "db")) { vars = (codes "a", str (codes "db")) ∷ [] })
      ∷ (
        codes "web",
        record (new_group (codes "web")) { vars = (codes "a", str (codes "web")) ∷ [] },
      )
      ∷ [];
}

groups-IsUnique : (g : Str) → IsUnique (group_at with_groups g).vars
unfolding group_at lookup has str_eq
groups-IsUnique g = elim (Bool-cases (str_eq (codes "db") g)) [
  | inl e ↦ rw e (refl, tt)
  | inr e ↦
      rw e (elim (Bool-cases (str_eq (codes "web") g)) [
        | inl e' ↦ rw e' (refl, tt)
        | inr e' ↦ rw e' tt
      ])
]

groups_inventory-last_group_example :
    lookup (codes "a") (groups_inventory with_groups (codes "db" ∷ codes "web" ∷ []) [])
    ≡ or_else
        (last_group with_groups (codes "a") (codes "db" ∷ codes "web" ∷ []))
        (lookup (codes "a") [])
groups_inventory-last_group_example =
    groups_inventory-last_group with_groups (codes "db" ∷ codes "web" ∷ []) [] (codes "a")
      groups-IsUnique tt
