-- ===== src/Executor/Plays/Safety.antt =====
-- executor/playbook_executor.go: the actions that plays and playbooks run, and their conditions.
use gosible.Base.{
  Bool, true, false, Bool-cases, inl, inr, none, some, List, [], ◌∷◌, if◌then◌else◌, All, Outcome,
  ok, err, panic, subst, sym,
}
use gosible.GoText.{Str, codes, str_eq}
use gosible.Dict.{keys, insert}
use gosible.Inventory.Pattern.{Hosts, PatternError, determine_hosts}
use gosible.Playbook.{Task, Play}
use gosible.Executor.Connections.{new_manager}
use gosible.Executor.World.{World, Outside, ExecError, unknown_strategy}
use gosible.Executor.Meta.{vars_for, is_meta_task, execute}
use gosible.Executor.Meta.Lookup.{execute-unknown}
use gosible.Executor.Plays.{
  execute_task_on_host, execute_tasks_on_host, for_all_hosts, execute_meta_tasks, execute_tasks,
  one_by_one, execute_strategy, show_play_name_banner, determine_play_hosts, found_hosts, host_fuel,
  make_managers, setup_connection_managers, execute_play, execute_playbook,
}
use gosible.Executor.Plays.Conditions.{
  Safe, IsSatisfied, continue-keeps, attempt-keeps, vars_for-Safe,
}
use gosible.Executor.Plays.Tasks.{execute_task-Safe}

module _ (o : Outside) (play : Play) where
  tasks_on_host-Safe :
      (tasks : List Task) (host : Str) (w : World)
      → Safe o w
      → Safe o (execute_tasks_on_host o play tasks host w).0
  unfolding execute_tasks_on_host
  tasks_on_host-Safe [] host w s = s
  tasks_on_host-Safe (task ∷ tasks) host w s = elim (Bool-cases (is_meta_task task)) [
    | inl e ↦ rw e (tasks_on_host-Safe tasks host w s)
    | inr e ↦ rw e (
        continue-keeps (Safe o) (execute_task_on_host o play host task w) _
          (execute_task-Safe o play host task w s) (λ u w s. tasks_on_host-Safe tasks host w s))
  ]

  for_all_hosts-Safe :
      (tasks : List Task) (hosts : List Str) (w : World)
      → Safe o w
      → Safe o (for_all_hosts o play tasks hosts w).0
  unfolding for_all_hosts
  for_all_hosts-Safe tasks [] w s = s
  for_all_hosts-Safe tasks (h ∷ hs) w s =
      attempt-keeps (Safe o) (execute_tasks_on_host o play tasks h w) _
        (tasks_on_host-Safe tasks h w s)
        (λ e w s.
          continue-keeps (Safe o) (for_all_hosts o play tasks hs w) _
            (for_all_hosts-Safe tasks hs w s) (λ es w s. s))

  -- a meta task is never found, and changes nothing
  meta_tasks-Safe :
      (tasks : List Task) (w : World) → Safe o w → Safe o (execute_meta_tasks o play tasks w).0
  unfolding execute_meta_tasks
  meta_tasks-Safe [] w s = s
  meta_tasks-Safe (task ∷ tasks) w s = elim (Bool-cases (is_meta_task task)) [
    | inl e ↦ rw e (
        continue-keeps (Safe o) (execute o play task w) _
          (subst (λ (r : World × Outcome ExecError Unit). Safe o r.0)
            (sym (execute-unknown o play task w e)) s)
          (λ u w s. meta_tasks-Safe tasks w s))
    | inr e ↦ rw e (meta_tasks-Safe tasks w s)
  ]

  tasks-Safe : (tasks : List Task) (w : World) → Safe o w → Safe o (execute_tasks o play tasks w).0
  unfolding execute_tasks
  tasks-Safe tasks w s =
      continue-keeps (Safe o) (execute_meta_tasks o play tasks w) _ (meta_tasks-Safe tasks w s)
        (λ u w s.
          continue-keeps (Safe o) (for_all_hosts o play tasks (keys w.hosts) w) _
            (for_all_hosts-Safe tasks (keys w.hosts) w s) (λ es w s. s))

  one_by_one-Safe :
      (tasks : List Task) (w : World) → Safe o w → Safe o (one_by_one o play tasks w).0
  unfolding one_by_one
  one_by_one-Safe [] w s = s
  one_by_one-Safe (task ∷ tasks) w s =
      continue-keeps (Safe o) (execute_tasks o play (task ∷ []) w) _ (tasks-Safe (task ∷ []) w s)
        (λ u w s. one_by_one-Safe tasks w s)

  strategy-Safe : (w : World) → Safe o w → Safe o (execute_strategy o play w).0
  unfolding execute_strategy
  strategy-Safe w s =
      pick (str_eq play.strategy_key (codes "linear")) (str_eq play.strategy_key (codes "free"))
    where
      pick :
          (a b : Bool)
          → Safe o
              (if a
                then one_by_one o play play.tasks w
                else if b
                then execute_tasks o play play.tasks w
                else (w, err unknown_strategy)).0
      pick true b = one_by_one-Safe play.tasks w s
      pick false true = tasks-Safe play.tasks w s
      pick false false = s

  found_hosts-Safe :
      (w : World) (r : Outcome PatternError Hosts) → Safe o w → Safe o (found_hosts o play w r).0
  found_hosts-Safe w (ok hosts) s = s
  found_hosts-Safe w (err e) s = s
  found_hosts-Safe w panic s = s

  make_managers-Safe :
      (hosts : List Str) (w : World) → Safe o w → Safe o (make_managers o play hosts w).0
  unfolding make_managers
  make_managers-Safe [] w s = s
  make_managers-Safe (h ∷ hs) w s =
      continue-keeps (Safe o) (vars_for o (some play) (some h) none w) _
        (vars_for-Safe o (some play) (some h) none w s)
        (λ opts w s.
          make_managers-Safe hs (record w { conns = insert h (new_manager h opts) w.conns }) s)

  play-Safe : (w : World) → Safe o w → Safe o (execute_play o play w).0
  unfolding execute_play show_play_name_banner determine_play_hosts setup_connection_managers
  play-Safe w s =
      continue-keeps (Safe o) (show_play_name_banner o play w) _
        (continue-keeps (Safe o) (vars_for o (some play) none none w) _
          (vars_for-Safe o (some play) none none w s) (λ env w s. s))
        (λ u w s.
          continue-keeps (Safe o) (determine_play_hosts o play w) _
            (found_hosts-Safe w
              (determine_hosts (host_fuel o play w) w.manager.inventory play.hosts_pattern) s)
            (λ u w s.
              continue-keeps (Safe o) (setup_connection_managers o play w) _
                (make_managers-Safe (keys w.hosts) (record w { conns = [] }) s)
                (λ u w s. strategy-Safe w s)))

-- Whatever plays are executed, with either strategy and whatever fails, each action that has run did
-- so in variables in which all the conditions of its task are met, if that was so before.
pub execute_playbook-IsSatisfied :
    (o : Outside) (plays : List Play) (w : World)
    → All (IsSatisfied o) w.ran
    → All (IsSatisfied o) (execute_playbook o plays w).0.ran
unfolding execute_playbook
execute_playbook-IsSatisfied o [] w s = s
execute_playbook-IsSatisfied o (play ∷ plays) w s =
    continue-keeps (Safe o) (execute_play o play (record w { hosts = []; conns = [] }))
      (λ u w. execute_playbook o plays w) (play-Safe o play (record w { hosts = []; conns = [] }) s)
      (λ u w s. execute_playbook-IsSatisfied o plays w s)
