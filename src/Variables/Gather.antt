-- ===== src/Variables/Gather.antt =====
-- vars/manager.go: SetExtraVars, and GetVars with the sources that it combines, in their order. The
-- table of the sources' names, which only debug output reads, is left out.
use gosible.Base.{
  Bool, false, Option, none, some, List, [], ◌∷◌, if◌then◌else◌, Outcome, ok, err, panic, ◌>>=◌,
  ◌||◌, ◌==◌, any_of,
}
use gosible.GoText.{Str, codes, str_eq}
use gosible.GoText.Sorting.{sort_names}
use gosible.Dict.{has}
use gosible.Values.{map, end, Vars, get_or_default}
use gosible.Inventory.{Inventory, host_at, group_at, put_host}
use gosible.Templating.{Templar, TemplateError}
use gosible.Parsing.Splitter.{Split}
use gosible.Parsing.KeyValue.{Options, parse_key_value_pairs_string}
use gosible.Playbook.{Task, Play}
use gosible.Variables.{
  combine_vars, map_string_string_to_vars, template_vars_templates, set_magic_vars,
}
use gosible.Variables.Manager.{Manager, Vary, of_host, or_nil, not_rendered, missing_at_sign}

abbrev pub of_options : Option Options → Options
of_options none = []
of_options (some m) = m

abbrev pub from_pairs : Split (Option Options) → Manager → Manager × Vary Unit
from_pairs (ok pairs) m = (
  record m {
    extra_vars = combine_vars m.extra_vars (map_string_string_to_vars (of_options pairs));
  },
  ok tt,
)
from_pairs (err e) m = (m, ok tt)
from_pairs panic m = (m, panic)

-- one text of SetExtraVars; files and YAML are passed over with a warning
unfoldable pub set_extra_var : Str → Manager → Manager × Vary Unit
set_extra_var [] m = (m, ok tt)
set_extra_var (c ∷ ev) m =
    if c == 64
    then (m, ok tt)
    else if c == 46 || c == 47
    then (m, err missing_at_sign)
    else if c == 91 || c == 123
    then (m, ok tt)
    else from_pairs (parse_key_value_pairs_string (c ∷ ev) false) m

abbrev pub and_then : Manager × Vary Unit → (Manager → Manager × Vary Unit) → Manager × Vary Unit
and_then (m, ok u) k = k m
and_then (m, err e) k = (m, err e)
and_then (m, panic) k = (m, panic)

-- The manager keeps what was set before an error.
unfoldable pub set_extra_vars : List Str → Manager → Manager × Vary Unit
unfolding set_extra_var
set_extra_vars [] m = (m, ok tt)
set_extra_vars (ev ∷ evs) m = and_then (set_extra_var ev m) (λ m'. set_extra_vars evs m')

pub record Settings : Type 0 where
  pub variable_precedence : List Str
  pub inject_facts_as_vars : Bool

-- The groups are sorted in place, by their names.
unfoldable pub sort_host_groups : Option Str → Manager → Manager
sort_host_groups none m = m
sort_host_groups (some host) m =
    let h = host_at m.inventory host in
    record m { inventory = put_host host (record h { groups = sort_names h.groups }) m.inventory }

-- variables["groups_inventory"]
unfoldable pub groups_inventory : Inventory → List Str → Vars → Vars
unfolding combine_vars
groups_inventory d [] vars = vars
groups_inventory d (g ∷ gs) vars = groups_inventory d gs (combine_vars vars (group_at d g).vars)

-- the entries that stand for nothing yet
abbrev empty_entries : List Str
empty_entries =
    codes "all_plugins_inventory"
    ∷ codes "all_plugins_play"
    ∷ codes "groups_plugins_inventory"
    ∷ codes "groups_plugins_play"
    ∷ codes "plugins_by_groups"
    ∷ []

-- `variables[entry]`, called; `none` is an unknown entry. A nil `allGroup` panics.
unfoldable pub precedence_entry : Inventory → Str → Str → Vary (Option Vars)
unfolding groups_inventory
precedence_entry d host entry =
    if str_eq entry (codes "all_inventory")
    then if has (codes "all") d.groups then ok (some (group_at d (codes "all")).vars) else panic
    else if str_eq entry (codes "groups_inventory")
    then ok (some (groups_inventory d (host_at d host).groups []))
    else if any_of (λ e. str_eq entry e) empty_entries
    then ok (some [])
    else ok none

-- a source that is combined where it is there
abbrev pub combine_if : Vars → Option Vars → Vars
combine_if all_vars none = all_vars
combine_if all_vars (some vars) = combine_vars all_vars vars

unfoldable pub combine_entries : Inventory → Str → List Str → Vars → Vary Vars
unfolding precedence_entry
combine_entries d host [] all_vars = ok all_vars
combine_entries d host (entry ∷ entries) all_vars = precedence_entry d host entry >>= λ found.
    combine_entries d host entries (combine_if all_vars found)

unfoldable pub group_vars : Settings → Manager → Option Str → Vars → Vary Vars
unfolding combine_entries
group_vars s m none all_vars = ok all_vars
group_vars s m (some host) all_vars =
    combine_entries m.inventory host s.variable_precedence all_vars

abbrev pub inventory_vars : Manager → Option Str → Option Vars
inventory_vars m none = none
inventory_vars m (some host) = some (host_at m.inventory host).vars

-- the facts of the host, or their `ansible_local` alone
abbrev pub facts_injected : Settings → Vars → Vars
facts_injected s facts =
    if s.inject_facts_as_vars
    then facts
    else (codes "ansible_local", get_or_default facts (codes "ansible_local") (map end)) ∷ []

abbrev pub fact_vars : Settings → Manager → Option Str → Option Vars
fact_vars s m none = none
fact_vars s m (some host) = elim (of_host host m.host_facts) [
  | none ↦ none
  | some facts ↦ some (facts_injected s facts)
]

abbrev pub vars_of_host : Manager → Option Str → Option Vars
vars_of_host m none = none
vars_of_host m (some host) = of_host host m.host_vars

abbrev pub set_facts : Manager → Option Str → Option Vars
set_facts m none = none
set_facts m (some host) = of_host host m.host_non_persistent_facts

abbrev pub loop_vars : Manager → Option Str → Option Vars
loop_vars m none = none
loop_vars m (some host) = some (or_nil (of_host host m.host_loop_vars))

abbrev pub rendered : Outcome TemplateError Vars → Vary (Option Vars)
rendered (ok vars) = ok (some vars)
rendered (err e) = err not_rendered
rendered panic = panic

unfoldable pub play_vars : Templar → Option Play → Vars → Vary (Option Vars)
unfolding template_vars_templates
play_vars t none all_vars = ok none
play_vars t (some play) all_vars = rendered (template_vars_templates t play.vars_templates all_vars)

unfoldable pub task_vars : Templar → Option Task → Vars → Vary (Option Vars)
unfolding template_vars_templates
task_vars t none all_vars = ok none
task_vars t (some task) all_vars = rendered (template_vars_templates t task.vars_templates all_vars)

-- from the groups to the extra variables: what the templates of the play see
unfoldable pub host_sources : Settings → Manager → Option Str → Vars → Vars
unfolding combine_vars
host_sources s m host groups =
    combine_vars (combine_if (combine_if groups (inventory_vars m host)) (fact_vars s m host))
      m.extra_vars

-- what the templates of the task see: the extra variables come again over the play's
unfoldable pub task_env : Settings → Manager → Option Str → Vars → Option Vars → Vars
task_env s m host groups p = combine_vars (combine_if (host_sources s m host groups) p) m.extra_vars

-- from include_vars to the loop's variables
unfoldable pub last_sources : Manager → Option Str → Vars → Vars
last_sources m host task_env =
    let vars =
      combine_vars (combine_if (combine_if task_env (vars_of_host m host)) (set_facts m host))
        m.extra_vars in
    combine_if (combine_vars vars (set_magic_vars vars)) (loop_vars m host)

unfoldable pub gather_task : Templar → Manager → Option Str → Option Task → Vars → Vary Vars
gather_task t m host task env =
    task_vars t task env >>= λ q. ok (last_sources m host (combine_if env q))

-- GetVars on a manager whose host's groups are sorted
unfoldable pub gather :
    Templar → Settings → Manager → Option Play → Option Str → Option Task → Vary Vars
gather t s m play host task = group_vars s m host [] >>= λ groups.
    play_vars t play (host_sources s m host groups) >>= λ p.
    gather_task t m host task (task_env s m host groups p)

unfoldable pub get_vars :
    Templar → Settings → Manager → Option Play → Option Str → Option Task → Manager × Vary Vars
get_vars t s m play host task =
    let sorted = sort_host_groups host m in (sorted, gather t s sorted play host task)
