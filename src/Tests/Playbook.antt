-- ===== src/Tests/Playbook.antt =====
-- Runs of playbook/.
use gosible.Base.{◌≡◌, refl, Bool, true, false, [], ◌∷◌, All, ok}
use gosible.GoText.{Str, codes, str_eq, has_prefix, trim_space}
use gosible.Dict.{has, insert, merge}
use gosible.Values.{null, bool, str, end, field}
use gosible.Templating.{Templar}
use gosible.Playbook.{
  Task, Play, condition_holds, when_conditions_satisfied, condition_text, condition_result,
}
use gosible.Playbook.Conditions.{when_conditions_satisfied_first}
use gosible.Playbook.Arguments.{is_task_keyword, resolve_module_args}
use gosible.Playbook.Arguments.Resolution.{actions_among, resolve_module_args_unique}
use gosible.Playbook.Parser.{RawPlay, new_task, parse_raw_plays}
use gosible.Playbook.Parser.Strategies.{HasStrategy, parse_raw_plays-HasStrategy}

-- an engine in which `x` is true and all else is false
abbrev pub sample_templar : Templar
sample_templar = record {
  is_template = λ s. has_prefix s (codes "{{");
  template = λ env s. ok (bool (str_eq s (codes "{{ x }}")));
}

x_holds : condition_holds sample_templar [] (codes "x") ≡ ok true
unfolding condition_holds condition_text condition_result has_prefix str_eq
x_holds = refl

y_fails : condition_holds sample_templar [] (codes "y") ≡ ok false
unfolding condition_holds condition_text condition_result has_prefix str_eq
y_fails = refl

when_conditions_satisfied_first_example :
    when_conditions_satisfied sample_templar [] (codes "x" ∷ codes "y" ∷ codes "z" ∷ []) ≡ ok false
when_conditions_satisfied_first_example =
    when_conditions_satisfied_first sample_templar [] (codes "x" ∷ []) (codes "y") (codes "z" ∷ [])
      (x_holds, tt) y_fails

abbrev ping_only : Str → Bool
ping_only name = str_eq name (codes "ping")

abbrev ping_task : Task
ping_task = record new_task { keywords = (codes "ping", null) ∷ (codes "tags", null) ∷ [] }

ping_not_empty : ping_only [] ≡ false
unfolding str_eq
ping_not_empty = refl

ping_resolved : resolve_module_args ping_only ping_task ≡ ok (codes "ping", [])
unfolding resolve_module_args str_eq is_task_keyword has_prefix merge
ping_resolved = refl

resolve_module_args_unique_example :
    (actions_among ping_only ping_task.keywords ≡ 1)
    × (ping_only (codes "ping") ≡ true)
    × (is_task_keyword (codes "ping") ≡ false)
    × (has (codes "ping") ping_task.keywords ≡ true)
resolve_module_args_unique_example =
    resolve_module_args_unique ping_only ping_task (codes "ping") [] ping_not_empty ping_resolved

abbrev raw_play : RawPlay
raw_play = record {
  name = codes "p";
  hosts = codes "all";
  strategy = codes " free ";
  tasks = field (str (codes "ping")) null end ∷ [];
  vars = end;
}

abbrev parsed_play : Play
parsed_play = record {
  name = codes "p";
  hosts_pattern = codes "all";
  vars_templates = [];
  tasks =
      record new_task {
        keywords = (codes "ping", null) ∷ [];
        action = record { name = codes "ping"; args = []; delegate_to = [] };
      }
      ∷ [];
  strategy_key = codes "free";
}

play_parsed : parse_raw_plays ping_only (codes "linear") (raw_play ∷ []) ≡ ok (parsed_play ∷ [])
unfolding parse_raw_plays str_eq has_prefix insert is_task_keyword trim_space merge
play_parsed = refl

parse_raw_plays-HasStrategy_example : All HasStrategy (parsed_play ∷ [])
parse_raw_plays-HasStrategy_example =
    parse_raw_plays-HasStrategy ping_only (codes "linear") (raw_play ∷ []) play_parsed
