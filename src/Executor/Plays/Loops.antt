-- ===== src/Executor/Plays/Loops.antt =====
-- executor/playbook_executor.go: the loop of a task, and its deferred reset.
use gosible.Base.{◌≡◌, none, some, [], Outcome, ok, err, panic}
use gosible.GoText.{Str}
use gosible.Dict.{Dict, insert}
use gosible.Dict.Laws.{lookup-insert_self}
use gosible.Values.{Vars}
use gosible.Playbook.{Task, Play}
use gosible.Variables.Manager.{Manager, HostMap, Vary, of_host, reset_loop_context, write_loops}
use gosible.Executor.World.{World, Outside, ExecError, continue, no_vars}
use gosible.Executor.Plays.{manage, finally_reset, loop_body, run_loop}

-- the loop's variables of the host are empty, unless the program has ended
abbrev pub IsReset : Str → World × Outcome ExecError Unit → Type 0
IsReset host (w, ok u) = of_host host w.manager.host_loop_vars ≡ some []
IsReset host (w, err e) = of_host host w.manager.host_loop_vars ≡ some []
IsReset host (w, panic) = Unit

of_host-insert_self :
    (host : Str) (loops : Dict Vars) → of_host host (some (insert host [] loops)) ≡ some []
unfolding of_host
of_host-insert_self host loops = lookup-insert_self host [] loops

module _ (o : Outside) (play : Play) (host : Str) where
  -- a reset leads on to a state in which the variables are empty, or to a panic
  IsReset-then :
      (w : World) (k : Unit → World → World × Outcome ExecError Unit)
      → ((w : World) → of_host host w.manager.host_loop_vars ≡ some [] → IsReset host (k tt w))
      → IsReset host (continue (manage o play (reset_loop_context host) w) k)
  unfolding reset_loop_context
  IsReset-then w k f = go w.manager.host_loop_vars
    where
      go :
          (x : HostMap)
          → IsReset host (
              continue
                (elim (elim x as (λ x. Vary Manager) [
                  | none ↦ panic
                  | some loops ↦ ok (write_loops (insert host [] loops) w.manager)
                ])
                  as (λ x. World × Outcome ExecError Unit) [
                    | ok m ↦ (record w { manager = m }, ok tt)
                    | err e ↦ (w, err no_vars)
                    | panic ↦ (w, panic)
                  ])
                k)
      go none = tt
      go (some loops) =
          f (record w { manager = write_loops (insert host [] loops) w.manager })
            (of_host-insert_self host loops)

  finally_reset-IsReset :
      (r : World × Outcome ExecError Unit) → IsReset host (finally_reset o play host r)
  finally_reset-IsReset (w, panic) = tt
  finally_reset-IsReset (w, ok u) = IsReset-then w (λ u w. (w, ok tt)) (λ w e. e)
  finally_reset-IsReset (w, err e) = IsReset-then w (λ u w. (w, err e)) (λ w e. e)

  -- A loop ends with the loop's variables of its host reset, whether its items have all run, one has
  -- failed, or the items could not be found; only a panic ends it otherwise.
  pub run_loop-IsReset : (task : Task) (w : World) → IsReset host (run_loop o play host task w)
  unfolding run_loop
  run_loop-IsReset task w =
      IsReset-then w (λ u w. finally_reset o play host (loop_body o play host task w))
        (λ w e. finally_reset-IsReset (loop_body o play host task w))
