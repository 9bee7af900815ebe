-- ===== src/Executor/Meta.antt =====
-- plugins/meta/meta.go: the tasks whose action is `meta`.
pub mod Lookup
use gosible.Base.{
  Bool, true, false, Option, none, some, List, [], ◌∷◌, if◌then◌else◌, Outcome, ok, err, panic,
  any_of, all_of, ◌>>=◌, ◌&&◌,
}
use gosible.GoText.{Str, codes, str_eq}
use gosible.Dict.{Dict, lookup, delete, keys, values}
use gosible.Values.{Vars}
use gosible.Registry.{to_internal_fqcns}
use gosible.Playbook.{Task, Play, when_conditions_satisfied}
use gosible.Variables.Manager.{delete_host_facts, Vary}
use gosible.Variables.Gather.{get_vars}
use gosible.Executor.Connections.{ConnManager, close}
use gosible.Executor.World.{
  World, Outside, Exec, bind, lift, no_vars, no_condition, not_closed, unknown_meta, ExecError,
  continue,
}

pub data MetaTask : Type 0 where
  clear_facts clear_host_errors end_host end_play flush_handlers noop refresh_inventory
        reset_connection end_batch :
      MetaTask

abbrev pub meta_tasks : Dict MetaTask
meta_tasks =
    (codes "clear_facts", clear_facts)
    ∷ (codes "clear_host_errors", clear_host_errors)
    ∷ (codes "end_host", end_host)
    ∷ (codes "end_play", end_play)
    ∷ (codes "flush_handlers", flush_handlers)
    ∷ (codes "noop", noop)
    ∷ (codes "refresh_inventory", refresh_inventory)
    ∷ (codes "reset_connection", reset_connection)
    ∷ (codes "end_batch", end_batch)
    ∷ []

abbrev pub meta_names : List Str
meta_names = to_internal_fqcns (codes "meta")

unfoldable pub is_meta_task : Task → Bool
is_meta_task task = any_of (λ n. str_eq task.action.name n) meta_names

-- GetVars, with the groups that it sorts
unfoldable pub vars_for : Outside → Option Play → Option Str → Option Task → Exec Vars
vars_for o play host task w =
    let (m, r) = get_vars o.templar o.settings w.manager play host task in
    (record w { manager = m }, lift no_vars r)

unfoldable pub clear_all_facts : List Str → World → World
clear_all_facts [] w = w
clear_all_facts (h ∷ hs) w =
    clear_all_facts hs (record w { manager = delete_host_facts h w.manager })

unfoldable pub delete_hosts : List Str → World → World
delete_hosts [] w = w
delete_hosts (h ∷ hs) w =
    delete_hosts hs (record w { hosts = delete h w.hosts; conns = delete h w.conns })

-- `mgrs[host.Name].Close()` for each; a missing manager is a nil pointer
unfoldable pub close_each : Outside → List Str → World → Outcome ExecError Bool
close_each o [] w = ok true
close_each o (h ∷ hs) w = elim (lookup h w.conns) [
  | none ↦ panic
  | some cm ↦ close_each o hs w >>= λ rest. ok (close o.closes cm && rest)
]

unfoldable pub remove_hosts : Outside → List Str → Exec Unit
unfolding close_each delete_hosts
remove_hosts o hs w = elim (close_each o hs w) [
  | ok closed ↦ if closed then (delete_hosts hs w, ok tt) else (w, err not_closed)
  | err e ↦ (w, err e)
  | panic ↦ (w, panic)
]

-- the hosts on which the task's conditions hold
unfoldable pub hosts_to_remove : Outside → Play → Task → List Str → Exec (List Str)
unfolding vars_for
hosts_to_remove o play task [] w = (w, ok [])
hosts_to_remove o play task (h ∷ hs) w =
    continue (vars_for o (some play) (some h) (some task) w) (λ env w.
      continue (w, lift no_condition (when_conditions_satisfied o.templar env task.when_conditions))
        (λ holds w.
          continue (hosts_to_remove o play task hs w)
            (λ rest w. (w, ok (if holds then h ∷ rest else rest)))))

unfoldable pub run_meta : Outside → Play → Task → MetaTask → Exec Unit
unfolding remove_hosts hosts_to_remove clear_all_facts
run_meta o play task clear_facts w = (clear_all_facts (keys w.hosts) w, ok tt)
run_meta o play task end_host w =
    continue (hosts_to_remove o play task (keys w.hosts) w) (λ hs w. remove_hosts o hs w)
run_meta o play task end_play w = remove_hosts o (keys w.hosts) w
run_meta o play task reset_connection w =
    (w, if all_of (close o.closes) (values w.conns) then ok tt else err not_closed)
run_meta o play task _ w = (w, ok tt)

-- Execute: the sub-task is looked up by the name of the action
unfoldable pub execute : Outside → Play → Task → Exec Unit
unfolding run_meta
execute o play task w = elim (lookup task.action.name meta_tasks) [
  | none ↦ (w, err unknown_meta)
  | some sub ↦ run_meta o play task sub w
]
