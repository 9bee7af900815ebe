-- ===== src/Executor/Plays/Tasks.antt =====
-- executor/playbook_executor.go: the actions that a task on a host runs, and their conditions.
use gosible.Base.{
  Bool, true, false, Option, none, some, List, [], ◌∷◌, if◌then◌else◌, Outcome, ok, err, panic,
}
use gosible.GoText.{Str}
use gosible.Values.{Value, Vars}
use gosible.Playbook.{Task, Play}
use gosible.Executor.World.{World, Outside, ExecError, continue, lift}
use gosible.Executor.Meta.{vars_for}
use gosible.Executor.Connections.{ConnManager, update_opts, get_conn_for_task}
use gosible.Playbook.{has_loop, get_loop_items}
use gosible.Dict.{lookup, insert}
use gosible.Variables.Manager.{set_loop_item, reset_loop_context}
use gosible.Executor.World.{no_items, no_conn}
use gosible.Executor.Plays.{
  manage, run_items, loop_body, finally_reset, run_loop, show_task_name_banner, setup_connection,
  execute_task_on_host, execute_action_if_when_satisfied,
}
use gosible.Executor.Plays.Conditions.{
  Safe, continue-keeps, vars_for-Safe, manage-Safe, execute_action_if-Safe,
}

module _ (o : Outside) (play : Play) where
  run_items-Safe :
      (host : Str) (task : Task) (items : List Value) (w : World)
      → Safe o w
      → Safe o (run_items o play host task items w).0
  unfolding run_items
  run_items-Safe host task [] w s = s
  run_items-Safe host task (item ∷ items) w s =
      continue-keeps (Safe o) (manage o play (set_loop_item item host) w) _
        (manage-Safe o play (set_loop_item item host) w s)
        (λ u w s.
          continue-keeps (Safe o) (execute_action_if_when_satisfied o play host task w) _
            (execute_action_if-Safe o play host task w s)
            (λ u w s. run_items-Safe host task items w s))

  loop_body-Safe :
      (host : Str) (task : Task) (w : World) → Safe o w → Safe o (loop_body o play host task w).0
  unfolding loop_body
  loop_body-Safe host task w s =
      continue-keeps (Safe o) (vars_for o (some play) (some host) (some task) w) _
        (vars_for-Safe o (some play) (some host) (some task) w s)
        (λ env w s.
          continue-keeps (Safe o) (w, lift no_items (get_loop_items o.templar o.query env task)) _ s
            (λ items w s. run_items-Safe host task items w s))

  finally_reset-Safe :
      (host : Str) (r : World × Outcome ExecError Unit)
      → Safe o r.0
      → Safe o (finally_reset o play host r).0
  finally_reset-Safe host (w, panic) s = s
  finally_reset-Safe host (w, ok u) s =
      continue-keeps (Safe o) (manage o play (reset_loop_context host) w) _
        (manage-Safe o play (reset_loop_context host) w s) (λ u w s. s)
  finally_reset-Safe host (w, err e) s =
      continue-keeps (Safe o) (manage o play (reset_loop_context host) w) _
        (manage-Safe o play (reset_loop_context host) w s) (λ u w s. s)

  run_loop-Safe :
      (host : Str) (task : Task) (w : World) → Safe o w → Safe o (run_loop o play host task w).0
  unfolding run_loop
  run_loop-Safe host task w s =
      continue-keeps (Safe o) (manage o play (reset_loop_context host) w) _
        (manage-Safe o play (reset_loop_context host) w s)
        (λ u w s.
          finally_reset-Safe host (loop_body o play host task w) (loop_body-Safe host task w s))

  banner-Safe :
      (task : Task) (w : World) → Safe o w → Safe o (show_task_name_banner o play task w).0
  unfolding show_task_name_banner
  banner-Safe task w s =
      continue-keeps (Safe o) (vars_for o (some play) none (some task) w) _
        (vars_for-Safe o (some play) none (some task) w s) (λ env w s. s)

  setup_connection-Safe :
      (host : Str) (task : Task) (w : World)
      → Safe o w
      → Safe o (setup_connection o play host task w).0
  unfolding setup_connection
  setup_connection-Safe host task w s =
      continue-keeps (Safe o) (vars_for o (some play) (some host) (some task) w) _
        (vars_for-Safe o (some play) (some host) (some task) w s)
        (λ opts w s. connect opts w s (lookup host w.conns))
    where
      connect :
          (opts : Vars) (w : World)
          → Safe o w
          → (x : Option ConnManager)
          → Safe o
              (elim x as (λ x. World × Outcome ExecError Unit) [
                | none ↦ (w, panic)
                | some cm ↦
                    let r =
                      get_conn_for_task o.become_defaults o.create task (update_opts opts cm) in
                    continue
                      (record w { conns = insert host r.0 w.conns }, lift no_conn r.1)
                      (λ c w. (w, ok tt))
              ]).0
      connect opts w s none = s
      connect opts w s (some cm) =
          continue-keeps (Safe o)
            (
              record w {
                conns =
                    insert host
                      (get_conn_for_task o.become_defaults o.create task (update_opts opts cm)).0
                      w.conns;
              },
              lift no_conn
                  (get_conn_for_task o.become_defaults o.create task (update_opts opts cm)).1,
            )
            (λ c w. (w, ok tt)) s (λ c w s. s)

  pub execute_task-Safe :
      (host : Str) (task : Task) (w : World)
      → Safe o w
      → Safe o (execute_task_on_host o play host task w).0
  unfolding execute_task_on_host
  execute_task-Safe host task w s =
      continue-keeps (Safe o) (show_task_name_banner o play task w) _ (banner-Safe task w s)
        (λ u w s.
          continue-keeps (Safe o) (setup_connection o play host task w) _
            (setup_connection-Safe host task w s) (λ u w s. pick (has_loop task) w s))
    where
      pick :
          (b : Bool) (w : World)
          → Safe o w
          → Safe o
              (if b
                then run_loop o play host task w
                else execute_action_if_when_satisfied o play host task w).0
      pick true w s = run_loop-Safe host task w s
      pick false w s = execute_action_if-Safe o play host task w s
