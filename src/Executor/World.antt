-- ===== src/Executor/World.antt =====
-- executor/playbook_executor.go: what the executor keeps and shares, and calls that read and change
-- it. Goroutines of several hosts run one after another here, one of the schedules there are.
use gosible.Base.{ℕ, Bool, Option, none, some, List, Outcome, ok, err, panic}
use gosible.GoText.{Str}
use gosible.Dict.{Dict}
use gosible.Values.{Value, Vars}
use gosible.Templating.{Templar}
use gosible.Playbook.{Task, Run}
use gosible.Variables.Manager.{Manager}
use gosible.Variables.Gather.{Settings}
use gosible.Inventory.Pattern.{Hosts}
use gosible.Executor.Connections.{ConnManager, BecomeDefaults, Create}

-- an action that was run: on which host, for which task, in which variables
pub record Ran : Type 0 where
  pub host : Str
  pub task : Task
  pub env : Vars

-- `hosts` and `connectionManagers` are maps of the play that all its tasks share.
pub record World : Type 0 where
  pub manager : Manager
  pub hosts : Hosts
  pub conns : Dict ConnManager
  pub ran : List Ran

-- what a plugin or a module returns: no `InternalReturn` or an error, or a bucket and its facts
pub data ActionResult : Type 0 where
  no_facts : ActionResult
  facts : Str → Option Vars → ActionResult

-- The code that is not in the repository or runs on the remote host.
pub record Outside : Type 0 where
  pub templar : Templar
  pub settings : Settings
  pub become_defaults : BecomeDefaults
  pub create : Create
  -- which connections close with no error
  pub closes : ℕ → Bool
  -- `plugins.FindAction`
  pub find_action : Str → Bool
  -- `action.Run` on the templated arguments and the variables
  pub run_plugin : Str → Vars → Vars → ActionResult
  -- `moduleExecutor.ExecuteRemoteModuleTask`
  pub run_module : Task → Vars → ActionResult
  -- `lookup.Query`
  pub query : Vars → Str → List Value → Run (List Value)
  -- whether `template.TemplateToString` gives a text
  pub to_string : Str → Vars → Bool

pub data ExecError : Type 0 where
  no_vars no_template no_conn no_hosts no_items no_condition unknown_meta unknown_strategy
        not_closed :
      ExecError
  -- the text of an error, and of the errors before it
  also : ExecError → ExecError → ExecError

abbrev pub Exec : Type 0 → Type 0
Exec A = World → World × Outcome ExecError A

module _ {A B : Type 0} where
  abbrev pub continue : World × Outcome ExecError A → (A → Exec B) → World × Outcome ExecError B
  continue (w, ok a) f = f a w
  continue (w, err e) f = (w, err e)
  continue (w, panic) f = (w, panic)

  abbrev pub bind : Exec A → (A → Exec B) → Exec B
  bind m f w = continue (m w) f

abbrev pub lift : {A E : Type 0} → ExecError → Outcome E A → Outcome ExecError A
lift e (ok a) = ok a
lift e (err _) = err e
lift e panic = panic

module _ {A B : Type 0} where
  -- goes on after an error as well, but not after a panic
  abbrev pub attempt :
      World × Outcome ExecError A → (Option ExecError → Exec B) → World × Outcome ExecError B
  attempt (w, ok a) f = f none w
  attempt (w, err e) f = f (some e) w
  attempt (w, panic) f = (w, panic)
