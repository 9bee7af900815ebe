-- ===== src/Executor/Plays/Conditions.antt =====
-- executor/playbook_executor.go: the record of the actions that have run, and their conditions.
use gosible.Base.{
  ◌≡◌, refl, Bool, true, false, Option, none, some, List, [], ◌∷◌, ◌++◌, if◌then◌else◌, All,
  Outcome, ok, err, panic,
}
use gosible.Templating.{TemplateError}
use gosible.GoText.{Str}
use gosible.Values.{Vars}
use gosible.Playbook.{Task, Play, Run, when_conditions_satisfied}
use gosible.Executor.World.{
  World, Outside, Exec, ExecError, Ran, continue, attempt, lift, ActionResult, no_facts, facts,
}
use gosible.Executor.Meta.{vars_for}
use gosible.Executor.Plays.{
  save_result, remember, execute_action, execute_action_if_when_satisfied, Vary, no_condition,
  Manager, no_vars, save_facts, manage, no_template, template_action_args,
}

-- the action ran in variables in which the conditions of its task are met
abbrev pub IsSatisfied : Outside → Ran → Type 0
IsSatisfied o r = when_conditions_satisfied o.templar r.env r.task.when_conditions ≡ ok true

module _ {A B : Type 0} (P : World → Type 0) where
  pub continue-keeps :
      (r : World × Outcome ExecError A) (f : A → Exec B)
      → P r.0
      → ((a : A) (w : World) → P w → P (f a w).0)
      → P (continue r f).0
  continue-keeps (w, ok a) f p k = k a w p
  continue-keeps (w, err e) f p k = p
  continue-keeps (w, panic) f p k = p

  pub attempt-keeps :
      (r : World × Outcome ExecError A) (f : Option ExecError → Exec B)
      → P r.0
      → ((e : Option ExecError) (w : World) → P w → P (f e w).0)
      → P (attempt r f).0
  attempt-keeps (w, ok a) f p k = k none w p
  attempt-keeps (w, err e) f p k = k (some e) w p
  attempt-keeps (w, panic) f p k = p

All-snoc :
    {A : Type 0} (P : A → Type 0) (xs : List A) (x : A) → All P xs → P x → All P (xs ++ x ∷ [])
All-snoc P [] x a p = (p, tt)
All-snoc P (y ∷ xs) x (q, a) p = (q, All-snoc P xs x a p)

module _ (o : Outside) where
  abbrev pub Safe : World → Type 0
  Safe w = All (IsSatisfied o) w.ran

  pub vars_for-Safe :
      (play : Option Play) (host : Option Str) (task : Option Task) (w : World)
      → Safe w
      → Safe (vars_for o play host task w).0
  unfolding vars_for
  vars_for-Safe play host task w s = s

  module _ (play : Play) where
    pub manage-Safe : (f : Manager → Vary Manager) (w : World) → Safe w → Safe (manage o play f w).0
    manage-Safe f w s = go (f w.manager)
      where
        go :
            (r : Vary Manager)
            → Safe
                (elim r as (λ r. World × Outcome ExecError Unit) [
                  | ok m ↦ (record w { manager = m }, ok tt)
                  | err e ↦ (w, err no_vars)
                  | panic ↦ (w, panic)
                ]).0
        go (ok m) = s
        go (err e) = s
        go panic = s

    save_result-Safe :
        (host : Str) (r : ActionResult) (w : World) → Safe w → Safe (save_result o play host r w).0
    save_result-Safe host no_facts w s = s
    save_result-Safe host (facts bucket fs) w s = manage-Safe (save_facts bucket fs host) w s

    execute_action-Safe :
        (host : Str) (task : Task) (env : Vars) (w : World)
        → when_conditions_satisfied o.templar env task.when_conditions ≡ ok true
        → Safe w
        → Safe (execute_action o play host task env w).0
    unfolding execute_action
    execute_action-Safe host task env w met s =
        pick (o.find_action task.action.name) (template_action_args o.templar task.action.args env)
      where
        ran : Safe (remember o play host task env w)
        ran = All-snoc (IsSatisfied o) w.ran _ s met

        plugin :
            (x : Outcome TemplateError Vars)
            → Safe
                (elim x as (λ x. World × Outcome ExecError Unit) [
                  | ok args ↦
                      save_result o play host
                        (o.run_plugin task.action.name args env)
                        (remember o play host task env w)
                  | err e ↦ (w, err no_template)
                  | panic ↦ (w, panic)
                ]).0
        plugin (ok args) = save_result-Safe host (o.run_plugin task.action.name args env) _ ran
        plugin (err e) = s
        plugin panic = s

        pick :
            (b : Bool) (x : Outcome TemplateError Vars)
            → Safe
                (if b
                  then elim x [
                    | ok args ↦
                        save_result o play host
                          (o.run_plugin task.action.name args env)
                          (remember o play host task env w)
                    | err e ↦ (w, err no_template)
                    | panic ↦ (w, panic)
                  ]
                  else save_result o play host
                      (o.run_module task env)
                      (remember o play host task env w)).0
        pick true x = plugin x
        pick false x = save_result-Safe host (o.run_module task env) _ ran

    pub execute_action_if-Safe :
        (host : Str) (task : Task) (w : World)
        → Safe w
        → Safe (execute_action_if_when_satisfied o play host task w).0
    unfolding execute_action_if_when_satisfied
    execute_action_if-Safe host task w s =
        continue-keeps Safe (vars_for o (some play) (some host) (some task) w) _
          (vars_for-Safe (some play) (some host) (some task) w s)
          (λ env w s.
            go env w s (when_conditions_satisfied o.templar env task.when_conditions) refl)
      where
        go :
            (env : Vars) (w : World)
            → Safe w
            → (x : Run Bool) → when_conditions_satisfied o.templar env task.when_conditions ≡ x
            → Safe
                (continue
                  (w, lift no_condition x)
                  (λ holds w.
                    if holds then execute_action o play host task env w else (w, ok tt))).0
        go env w s (ok true) e = execute_action-Safe host task env w e s
        go env w s (ok false) e = s
        go env w s (err a) e = s
        go env w s panic e = s
