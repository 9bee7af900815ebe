-- ===== src/Playbook/Parser.antt =====
-- playbook/parser.go: plays and tasks from the values that the YAML library has read.
pub mod Strategies
use gosible.Base.{
  Bool, true, false, not, ◌&&◌, ◌||◌, Option, none, some, List, [], ◌∷◌, ◌++◌, if◌then◌else◌, drop,
  length, Outcome, ok, err, panic, ◌>>=◌,
}
use gosible.GoText.{Str, codes, str_eq, has_prefix, trim_space}
use gosible.Dict.{insert}
use gosible.Values.{
  Value, str, list, map, Items, nil, cons, Fields, end, field, Vars, items_to_list,
}
use gosible.Playbook.{Action, Loop, With, Task, Play}
use gosible.Playbook.Arguments.{ResolveError, resolve_module_args}

pub data ParseError : Type 0 where
  bad_keyword bad_name bad_args bad_vars bad_loop bad_when bad_play_vars bad_strategy : ParseError
  unresolved : ResolveError → ParseError

abbrev pub Parse : Type 0 → Type 0
Parse = Outcome ParseError

-- the fields of rawPlay
pub record RawPlay : Type 0 where
  pub name : Str
  pub hosts : Str
  pub strategy : Str
  pub tasks : List Fields
  pub vars : Fields

unfoldable pub raw_fields : Fields → Vars → Option Vars
raw_fields end args = some args
raw_fields (field (str key) v fs) args = raw_fields fs (insert key v args)
raw_fields (field _ v fs) args = none

unfoldable pub parse_raw_args : Value → Option Vars
unfolding raw_fields
parse_raw_args (map fs) = raw_fields fs []
parse_raw_args _ = none

-- a text is a template, a list is the items
unfoldable pub parse_loop : Value → Parse Loop
parse_loop (str s) = ok (record { template = trim_space s; items = none })
parse_loop (list vs) = ok (record { template = []; items = some (items_to_list vs) })
parse_loop _ = err bad_loop

unfoldable pub when_items : Items → List Str → Parse (List Str)
when_items nil conditions = ok conditions
when_items (cons (str c) vs) conditions = when_items vs (conditions ++ trim_space c ∷ [])
when_items (cons _ vs) conditions = err bad_when

unfoldable pub parse_when : Value → List Str → Parse (List Str)
unfolding when_items
parse_when (str s) conditions = ok (conditions ++ trim_space s ∷ [])
parse_when (list vs) conditions = when_items vs conditions
parse_when _ conditions = err bad_when

unfoldable pub parse_name : Value → Parse Str
parse_name (str s) = ok s
parse_name _ = err bad_name

abbrev or_fail : {A : Type 0} → Option A → ParseError → Parse A
or_fail (some a) e = ok a
or_fail none e = err e

-- the `switch` of parseTaskKeyword
unfoldable pub parse_task_keyword : Task → Str → Value → Parse Task
unfolding parse_name parse_raw_args parse_loop parse_when
parse_task_keyword task original value =
    let keyword = if has_prefix original (codes "with_") then codes "with_" else original in
    if str_eq keyword (codes "name")
    then parse_name value >>= (λ s. ok (record task { name = s }))
    else if str_eq keyword (codes "args")
    then or_fail (parse_raw_args value) bad_args >>= (λ vs. ok (record task { args = vs }))
    else if str_eq keyword (codes "vars")
    then or_fail (parse_raw_args value) bad_vars
      >>= (λ vs. ok (record task { vars_templates = vs }))
    else if str_eq keyword (codes "loop")
    then parse_loop value >>= (λ l. ok (record task { loop = some l }))
    else if str_eq keyword (codes "when")
    then parse_when value task.when_conditions >>= (λ cs. ok (record task { when_conditions = cs }))
    else if str_eq keyword (codes "with_")
    then parse_loop value >>= (λ l. ok (record task {
      with_lookup = some (record { lookup_plugin_name = drop 5 original; loop = l });
    }))
    else ok (record task { keywords = insert keyword value task.keywords })

abbrev pub new_task : Task
new_task = record {
  name = [];
  args = [];
  vars_templates = [];
  keywords = [];
  action = record { name = []; args = []; delegate_to = [] };
  loop = none;
  with_lookup = none;
  when_conditions = [];
}

unfoldable pub parse_keywords : Fields → Task → Parse Task
unfolding parse_task_keyword
parse_keywords end task = ok task
parse_keywords (field (str keyword) value fs) task =
    parse_task_keyword task keyword value >>= λ task'. parse_keywords fs task'
parse_keywords (field _ value fs) task = err bad_keyword

abbrev from_resolve : Outcome ResolveError (Str × Vars) → Parse (Str × Vars)
from_resolve (ok found) = ok found
from_resolve (err e) = err (unresolved e)
from_resolve panic = panic

module _ (resolves : Str → Bool) where
  unfoldable pub parse_raw_task : Fields → Parse Task
  unfolding parse_keywords resolve_module_args
  parse_raw_task raw = parse_keywords raw new_task >>= λ task.
      from_resolve (resolve_module_args resolves task) >>= λ found.
      ok (record task { action = record { name = found.0; args = found.1; delegate_to = [] } })

  unfoldable pub parse_raw_tasks : List Fields → Parse (List Task)
  unfolding parse_raw_task
  parse_raw_tasks [] = ok []
  parse_raw_tasks (raw ∷ raws) =
      parse_raw_task raw >>= λ task. parse_raw_tasks raws >>= λ tasks. ok (task ∷ tasks)

  -- the setting DEFAULT_STRATEGY stands in for an empty strategy
  abbrev pub strategy_of : Str → Str → Str
  strategy_of default raw = let s = trim_space raw in if str_eq s [] then default else s

  unfoldable pub make_play : Str → RawPlay → List Task → Vars → Parse Play
  make_play default raw tasks vars =
      let s = strategy_of default raw.strategy in
      if not (str_eq s (codes "linear")) && not (str_eq s (codes "free"))
      then err bad_strategy
      else ok (record {
        name = trim_space raw.name;
        hosts_pattern = raw.hosts;
        vars_templates = vars;
        tasks = tasks;
        strategy_key = s;
      })

  -- The tasks are parsed first, but an error in the variables is the one that is returned.
  abbrev pub tasks_then_vars : Parse (List Task) → Option Vars → Parse (List Task × Vars)
  tasks_then_vars panic vars = panic
  tasks_then_vars (ok tasks) (some vars) = ok (tasks, vars)
  tasks_then_vars (ok tasks) none = err bad_play_vars
  tasks_then_vars (err e) (some vars) = err e
  tasks_then_vars (err e) none = err bad_play_vars

  unfoldable pub parse_raw_play : Str → RawPlay → Parse Play
  unfolding parse_raw_tasks make_play parse_raw_args
  parse_raw_play default raw =
      tasks_then_vars (parse_raw_tasks raw.tasks) (parse_raw_args (map raw.vars)) >>= λ parts.
      make_play default raw parts.0 parts.1

  unfoldable pub parse_raw_plays : Str → List RawPlay → Parse (List Play)
  unfolding parse_raw_play
  parse_raw_plays default [] = ok []
  parse_raw_plays default (raw ∷ raws) = parse_raw_play default raw >>= λ play.
      parse_raw_plays default raws >>= λ plays. ok (play ∷ plays)
