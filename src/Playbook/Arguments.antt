-- ===== src/Playbook/Arguments.antt =====
-- playbook/constants.go and playbook/module_args_resolver.go: which keyword of a task is its action,
-- and what arguments it gets.
pub mod Resolution
use gosible.Base.{
  Bool, true, false, not, ◌&&◌, ◌||◌, Option, none, some, List, [], ◌∷◌, ◌++◌, if◌then◌else◌,
  any_of, Outcome, ok, err, panic, ◌>>=◌, is_empty,
}
use gosible.GoText.{Str, codes, str_eq, has_prefix}
use gosible.Dict.{Dict, has, insert, merge}
use gosible.Values.{Value, null, str, map, Fields, end, field, Vars}
use gosible.Parsing.Splitter.{Split, SplitError}
use gosible.Parsing.KeyValue.{Options, parse_key_value_pairs_string}
use gosible.Playbook.{Task}

abbrev task_keywords : List Str
task_keywords =
    codes "action"
    ∷ codes "any_errors_fatal"
    ∷ codes "args"
    ∷ codes "async"
    ∷ codes "become"
    ∷ codes "become_exe"
    ∷ codes "become_flags"
    ∷ codes "become_method"
    ∷ codes "become_user"
    ∷ codes "changed_when"
    ∷ codes "check_mode"
    ∷ codes "collections"
    ∷ codes "connection"
    ∷ codes "debugger"
    ∷ codes "delay"
    ∷ codes "delegate_facts"
    ∷ codes "delegate_to"
    ∷ codes "diff"
    ∷ codes "environment"
    ∷ codes "failed_when"
    ∷ codes "ignore_errors"
    ∷ codes "ignore_unreachable"
    ∷ codes "local_action"
    ∷ codes "loop"
    ∷ codes "loop_control"
    ∷ codes "module_defaults"
    ∷ codes "name"
    ∷ codes "no_log"
    ∷ codes "notify"
    ∷ codes "poll"
    ∷ codes "port"
    ∷ codes "register"
    ∷ codes "remote_user"
    ∷ codes "retries"
    ∷ codes "run_once"
    ∷ codes "tags"
    ∷ codes "throttle"
    ∷ codes "timeout"
    ∷ codes "until"
    ∷ codes "vars"
    ∷ codes "when"
    ∷ []

abbrev module_require_args : List Str
module_require_args =
    codes "command"
    ∷ codes "win_command"
    ∷ codes "ansible.windows.win_command"
    ∷ codes "shell"
    ∷ codes "win_shell"
    ∷ codes "ansible.windows.win_shell"
    ∷ codes "raw"
    ∷ codes "script"
    ∷ []

unfoldable pub is_task_keyword : Str → Bool
is_task_keyword key = has_prefix key (codes "with_") || any_of (λ k. str_eq k key) task_keywords

unfoldable pub is_freeform_action : Str → Bool
is_freeform_action action = any_of (λ a. str_eq a action) module_require_args

pub data ResolveError : Type 0 where
  not_a_string unexpected_parameter multiple_actions no_action : ResolveError

abbrev pub Resolve : Type 0 → Type 0
Resolve = Outcome ResolveError

-- for k, v := range pairs { args[k] = v }
unfoldable pub string_vars : Options → Vars → Vars
string_vars [] args = args
string_vars ((k, v) ∷ pairs) args = string_vars pairs (insert k (str v) args)

-- the pairs of a MapSlice; the key `args` is passed over
unfoldable pub map_args : Fields → Vars → Resolve Vars
map_args end args = ok args
map_args (field (str key) v fs) args =
    map_args fs (if str_eq key (codes "args") then args else insert key v args)
map_args (field _ v fs) args = err not_a_string

-- `range` over the map that the parser returns; a nil map has no pairs
abbrev from_parse : Split (Option Options) → Resolve Vars
from_parse (ok (some pairs)) = ok (string_vars pairs [])
from_parse (ok none) = ok []
from_parse (err e) = ok []
from_parse panic = panic

unfoldable pub normalize_new_style_args : Str → Value → Resolve Vars
unfolding is_freeform_action map_args string_vars
normalize_new_style_args action (map fs) = map_args fs []
normalize_new_style_args action (str s) =
    from_parse (parse_key_value_pairs_string s (is_freeform_action action))
normalize_new_style_args action null = ok []
normalize_new_style_args action _ = err unexpected_parameter

-- every additional argument is a text
unfoldable pub string_args : Vars → Vars → Resolve Vars
string_args [] final_args = ok final_args
string_args ((k, str s) ∷ more) final_args = string_args more (insert k (str s) final_args)
string_args ((k, _) ∷ more) final_args = err not_a_string

unfoldable pub normalize_parameters : Str → Value → Vars → Resolve Vars
unfolding string_args normalize_new_style_args
normalize_parameters action value additional = string_args additional [] >>= λ final_args.
    normalize_new_style_args action value >>= λ args. ok (merge final_args args)

-- The keywords that are no attributes of tasks, in the map's order.
unfoldable pub action_candidates : Vars → Vars
action_candidates [] = []
action_candidates ((k, v) ∷ keywords) =
    let rest = action_candidates keywords in if is_task_keyword k then rest else (k, v) ∷ rest

-- The loop over the candidates. The first argument says which names `plugins.FindAction` or
-- `modules.FindModule` finds; the last two are `action` and `args` so far.
unfoldable pub try_candidates : (Str → Bool) → Vars → Vars → Str → Vars → Resolve (Str × Vars)
unfolding normalize_parameters
try_candidates resolves additional [] action args = ok (action, args)
try_candidates resolves additional ((k, v) ∷ candidates) action args =
    let skip = try_candidates resolves additional candidates action args in
    let take = λ (args' : Vars). try_candidates resolves additional candidates k args' in
    if not (resolves k)
    then skip
    else if not (is_empty action)
    then err multiple_actions
    else normalize_parameters k v additional >>= take

unfoldable pub resolve_module_args : (Str → Bool) → Task → Resolve (Str × Vars)
unfolding action_candidates try_candidates
resolve_module_args resolves task =
    try_candidates resolves task.args (action_candidates task.keywords) [] [] >>= λ found.
    if is_empty found.0 then err no_action else ok found
