-- ===== src/Executor/Plays.antt =====
-- executor/playbook_executor.go: tasks on hosts, the two strategies, plays and playbooks.
pub mod Conditions
pub mod Tasks
pub mod Safety
pub mod Loops
use gosible.Base.{
  Bool, true, false, not, Option, none, some, List, [], ◌∷◌, ◌++◌, if◌then◌else◌, Outcome, ok, err,
  panic, is_empty, ◌||◌, ℕ, length, ◌+◌,
}
use gosible.GoText.{Str, codes, str_eq}
use gosible.Dict.{Dict, lookup, insert, keys}
use gosible.Values.{Value, Vars}
use gosible.Inventory.{Inventory}
use gosible.Inventory.Pattern.{determine_hosts, PatternError, Hosts}
use gosible.Parallel.{is_error, combine}
use gosible.Playbook.{Task, Play, has_loop, when_conditions_satisfied, get_loop_items}
use gosible.Variables.{template_action_args}
use gosible.Variables.Manager.{save_facts, reset_loop_context, set_loop_item, Manager, Vary}
use gosible.Executor.Connections.{
  ConnManager, get_conn_for_task, update_opts, new_manager, close_conn_mgrs,
}
use gosible.Executor.World.{
  World, Outside, Exec, ExecError, Ran, continue, bind, lift, ActionResult, no_facts, facts, also,
  no_vars, no_template, no_conn, no_hosts, no_items, no_condition, unknown_strategy, attempt,
}
use gosible.Executor.Meta.{is_meta_task, execute, vars_for}

module _ (o : Outside) (play : Play) where
  -- a call of the manager
  abbrev pub manage : (Manager → Vary Manager) → Exec Unit
  manage f w = elim (f w.manager) [
    | ok m ↦ (record w { manager = m }, ok tt)
    | err e ↦ (w, err no_vars)
    | panic ↦ (w, panic)
  ]

  -- SaveFacts where there is an `InternalReturn`
  abbrev pub save_result : Str → ActionResult → Exec Unit
  save_result host no_facts w = (w, ok tt)
  save_result host (facts bucket fs) w = manage (save_facts bucket fs host) w

  abbrev pub remember : Str → Task → Vars → World → World
  remember host task env w = record w {
    ran = w.ran ++ record { host = host; task = task; env = env } ∷ [];
  }

  -- The result of the action is not looked at otherwise.
  unfoldable pub execute_action : Str → Task → Vars → Exec Unit
  execute_action host task env w =
      if o.find_action task.action.name
      then elim (template_action_args o.templar task.action.args env) [
        | ok args ↦
            save_result host (o.run_plugin task.action.name args env) (remember host task env w)
        | err e ↦ (w, err no_template)
        | panic ↦ (w, panic)
      ]
      else save_result host (o.run_module task env) (remember host task env w)

  unfoldable pub execute_action_if_when_satisfied : Str → Task → Exec Unit
  execute_action_if_when_satisfied host task w =
      continue (vars_for o (some play) (some host) (some task) w) (λ env w.
        continue
          (w, lift no_condition (when_conditions_satisfied o.templar env task.when_conditions))
          (λ holds w. if holds then execute_action host task env w else (w, ok tt)))

  unfoldable pub run_items : Str → Task → List Value → Exec Unit
  run_items host task [] w = (w, ok tt)
  run_items host task (item ∷ items) w = continue (manage (set_loop_item item host) w) (λ u w.
      continue (execute_action_if_when_satisfied host task w) (λ u w. run_items host task items w))

  unfoldable pub loop_body : Str → Task → Exec Unit
  loop_body host task w = continue (vars_for o (some play) (some host) (some task) w) (λ env w.
      continue (w, lift no_items (get_loop_items o.templar o.query env task))
        (λ items w. run_items host task items w))

  -- the deferred call, after a return or an error
  abbrev pub finally_reset : Str → World × Outcome ExecError Unit → World × Outcome ExecError Unit
  finally_reset host (w, panic) = (w, panic)
  finally_reset host (w, r) = continue (manage (reset_loop_context host) w) (λ u w. (w, r))

  unfoldable pub run_loop : Str → Task → Exec Unit
  run_loop host task w =
      continue (manage (reset_loop_context host) w)
        (λ u w. finally_reset host (loop_body host task w))

  unfoldable pub show_task_name_banner : Task → Exec Unit
  show_task_name_banner task w =
      continue (vars_for o (some play) none (some task) w)
        (λ env w. (w, if o.to_string task.name env then ok tt else err no_template))

  -- a missing manager is a nil pointer
  unfoldable pub setup_connection : Str → Task → Exec Unit
  setup_connection host task w =
      continue (vars_for o (some play) (some host) (some task) w) (λ opts w.
        elim (lookup host w.conns) [
          | none ↦ (w, panic)
          | some cm ↦
              let (cm', r) =
                get_conn_for_task o.become_defaults o.create task (update_opts opts cm) in
              continue (record w { conns = insert host cm' w.conns }, lift no_conn r)
                (λ c w. (w, ok tt))
        ])

  unfoldable pub execute_task_on_host : Str → Task → Exec Unit
  execute_task_on_host host task w = continue (show_task_name_banner task w) (λ u w.
      continue (setup_connection host task w) (λ u w.
        if has_loop task
        then run_loop host task w
        else execute_action_if_when_satisfied host task w))

  unfoldable pub execute_tasks_on_host : List Task → Str → Exec Unit
  execute_tasks_on_host [] host w = (w, ok tt)
  execute_tasks_on_host (task ∷ tasks) host w =
      if is_meta_task task
      then execute_tasks_on_host tasks host w
      else continue (execute_task_on_host host task w) (λ u w. execute_tasks_on_host tasks host w)

  -- ForAll: an error on a host does not keep the others from running, a panic ends the program
  unfoldable pub for_all_hosts : List Task → List Str → Exec (List (Option ExecError))
  for_all_hosts tasks [] w = (w, ok [])
  for_all_hosts tasks (h ∷ hs) w =
      attempt (execute_tasks_on_host tasks h w)
        (λ e w. continue (for_all_hosts tasks hs w) (λ es w. (w, ok (e ∷ es))))

  unfoldable pub execute_meta_tasks : List Task → Exec Unit
  execute_meta_tasks [] w = (w, ok tt)
  execute_meta_tasks (task ∷ tasks) w =
      if is_meta_task task
      then continue (execute o play task w) (λ u w. execute_meta_tasks tasks w)
      else execute_meta_tasks tasks w

  -- `errors.Combine()`, the latest first
  abbrev join_errors : ExecError → List ExecError → ExecError
  join_errors e [] = e
  join_errors e (e' ∷ es) = also e (join_errors e' es)

  abbrev pub combined : List ExecError → Outcome ExecError Unit
  combined [] = ok tt
  combined (e ∷ es) = err (join_errors e es)

  unfoldable pub execute_tasks : List Task → Exec Unit
  execute_tasks tasks w =
      continue (execute_meta_tasks tasks w) (λ u w.
        continue (for_all_hosts tasks (keys w.hosts) w) (λ es w. (w, combined (combine es))))

  unfoldable pub one_by_one : List Task → Exec Unit
  one_by_one [] w = (w, ok tt)
  one_by_one (task ∷ tasks) w = continue (execute_tasks (task ∷ []) w) (λ u w. one_by_one tasks w)

  unfoldable pub execute_strategy : Exec Unit
  execute_strategy w =
      if str_eq play.strategy_key (codes "linear")
      then one_by_one play.tasks w
      else if str_eq play.strategy_key (codes "free")
      then execute_tasks play.tasks w
      else (w, err unknown_strategy)

  unfoldable pub show_play_name_banner : Exec Unit
  show_play_name_banner w = continue (vars_for o (some play) none none w) (λ env w.
      (w, if is_empty play.name || o.to_string play.name env then ok tt else err no_template))

  -- the fuel of `determine_hosts` is the number of groups and one
  abbrev pub host_fuel : World → ℕ
  host_fuel w = length w.manager.inventory.groups + 1

  abbrev pub found_hosts : World → Outcome PatternError Hosts → World × Outcome ExecError Unit
  found_hosts w (ok hosts) = (record w { hosts = hosts }, ok tt)
  found_hosts w (err e) = (w, err no_hosts)
  found_hosts w panic = (w, panic)

  unfoldable pub determine_play_hosts : Exec Unit
  determine_play_hosts w =
      found_hosts w (determine_hosts (host_fuel w) w.manager.inventory play.hosts_pattern)

  unfoldable pub make_managers : List Str → Exec Unit
  make_managers [] w = (w, ok tt)
  make_managers (h ∷ hs) w =
      continue (vars_for o (some play) (some h) none w)
        (λ opts w. make_managers hs (record w { conns = insert h (new_manager h opts) w.conns }))

  unfoldable pub setup_connection_managers : Exec Unit
  setup_connection_managers w = make_managers (keys w.hosts) (record w { conns = [] })

  -- The deferred function closes the connections and writes to a variable that is not the result.
  unfoldable pub execute_play : Exec Unit
  execute_play w = continue (show_play_name_banner w) (λ u w.
      continue (determine_play_hosts w)
        (λ u w. continue (setup_connection_managers w) (λ u w. execute_strategy w)))

unfoldable pub execute_playbook : Outside → List Play → Exec Unit
execute_playbook o [] w = (w, ok tt)
execute_playbook o (play ∷ plays) w =
    continue (execute_play o play (record w { hosts = []; conns = [] }))
      (λ u w. execute_playbook o plays w)
