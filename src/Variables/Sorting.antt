-- ===== src/Variables/Sorting.antt =====
-- vars/manager.go: the groups of the host in GetVars.
use gosible.Base.{◌≡◌, refl, ap, Option, some, arith, if◌then◌else◌, ◌∙◌, subst, sym}
use gosible.GoText.{Str, str_eq}
use gosible.GoText.Laws.{str_eq_iff, str_eq_refl}
use gosible.GoText.Sorting.{
  IsSorted, occurrences, sort_names-IsSorted, occurrences-sort_names, sort_names,
}
use gosible.Dict.Laws.{lookup-insert}
use gosible.Inventory.{Inventory, Host, host_at, put_host}
use gosible.Templating.{Templar}
use gosible.Playbook.{Task, Play}
use gosible.Variables.Manager.{Manager}
use gosible.Variables.Gather.{Settings, sort_host_groups, gather, get_vars}

-- the groups of the host are in order and the same ones, and all else is as before
pub record IsOrdered (host : Str) (m m' : Manager) : Type 0 where
  pub ascending : IsSorted (host_at m'.inventory host).groups
  pub same_groups :
      (x : Str)
      → occurrences x (host_at m'.inventory host).groups
        ≡ occurrences x (host_at m.inventory host).groups
  pub same_vars : (host_at m'.inventory host).vars ≡ (host_at m.inventory host).vars
  pub other_hosts :
      (j : Str)
      → host_at m'.inventory j
        ≡ (if str_eq host j then host_at m'.inventory host else host_at m.inventory j)
  pub inventory_groups : m'.inventory.groups ≡ m.inventory.groups
  pub other_fields : record m' { inventory = m.inventory } ≡ m

host_at-put_host :
    (n j : Str) (x : Host) (d : Inventory)
    → host_at (put_host n x d) j ≡ (if str_eq n j then x else host_at d j)
unfolding host_at put_host
host_at-put_host n j x d = ground (arith, lookup-insert n j x d.hosts, str_eq_iff n j)

sort_host_groups-IsOrdered :
    (host : Str) (m : Manager) → IsOrdered host m (sort_host_groups (some host) m)
unfolding sort_host_groups put_host
sort_host_groups-IsOrdered host m =
    let h = host_at m.inventory host in
    let h' = record h { groups = sort_names h.groups } in
    let own =
      (host_at-put_host host host h' m.inventory)
      ∙ ap (λ b. if b then h' else h) (str_eq_refl host) in
    record {
      ascending = subst (λ x. IsSorted x.groups) (sym own) (sort_names-IsSorted h.groups);
      same_groups = λ x. ap (λ y. occurrences x y.groups) own ∙ occurrences-sort_names x h.groups;
      same_vars = ap (λ x. x.vars) own;
      other_hosts = λ j.
          host_at-put_host host j h' m.inventory
          ∙ ap (λ x. if str_eq host j then x else host_at m.inventory j) (sym own);
      inventory_groups = refl;
      other_fields = refl;
    }

-- GetVars for a host puts the groups of the host in ascending order of their names, each as often as
-- before, changes nothing else of the manager, and gathers from the manager that it leaves.
pub get_vars-IsOrdered :
    (t : Templar) (s : Settings) (m : Manager) (play : Option Play) (host : Str)
    (task : Option Task)
    → IsOrdered host m (get_vars t s m play (some host) task).0
      × ((get_vars t s m play (some host) task).1
          ≡ gather t s (get_vars t s m play (some host) task).0 play (some host) task)
unfolding get_vars
get_vars-IsOrdered t s m play host task = (sort_host_groups-IsOrdered host m, refl)
