-- ===== src/Tests/Executor.antt =====
-- Runs of executor/.
use gosible.Registry.{to_internal_fqcns}
use gosible.Base.{
  ◌≡◌, refl, ℕ, true, Option, none, some, List, [], ◌∷◌, All, any_of, ok, err, if◌then◌else◌, ◌%◌,
  ◌==◌,
}
use gosible.GoText.{codes, str_eq, contains_byte}
use gosible.Dict.{lookup, insert}
use gosible.Values.{str, bool}
use gosible.Inventory.{new_data, new_host}
use gosible.Parallel.{for_all, results_from}
use gosible.Parallel.Order.{for_all-map}
use mathlib.Core.List.{Permᴰ}
use gosible.Playbook.{Task, Play}
use gosible.Playbook.Parser.{new_task}
use gosible.Variables.Manager.{make_manager}
use gosible.Executor.Connections.{
  BecomeDefaults, Create, ConnManager, new_manager, update_opts, get_conn_for_task,
}
use gosible.Executor.Connections.Reuse.{get_conn_for_task-reuse}
use gosible.Executor.World.{World, Outside, no_facts, unknown_meta}
use gosible.Executor.Meta.{is_meta_task}
use gosible.Executor.Meta.Lookup.{execute_tasks-unknown}
use gosible.Executor.Plays.{execute_tasks, execute_playbook}
use gosible.Executor.Plays.Conditions.{IsSatisfied}
use gosible.Executor.Plays.{run_loop}
use gosible.Executor.Plays.Loops.{IsReset, run_loop-IsReset}
use gosible.Executor.Plays.Safety.{execute_playbook-IsSatisfied}
use gosible.Tests.Playbook.{sample_templar}
use gosible.Tests.Variables.{sample_settings}

abbrev odd_fails : ℕ → Option ℕ
odd_fails n = if n % 2 == 1 then some n else none

-- the last of three arrives first
abbrev last_first : List (ℕ × Option ℕ) → List (ℕ × Option ℕ)
last_first (x ∷ y ∷ z ∷ []) = z ∷ x ∷ y ∷ []
last_first xs = xs

for_all-map_example :
    for_all last_first (4 ∷ 5 ∷ 6 ∷ []) odd_fails ≡ some (none ∷ some 5 ∷ none ∷ [])
unfolding results_from
for_all-map_example =
    for_all-map last_first (4 ∷ 5 ∷ 6 ∷ []) odd_fails
      (Permᴰ.trans (Permᴰ.swap refl refl) (Permᴰ.cons refl (Permᴰ.swap refl refl)))

abbrev defaults : BecomeDefaults
defaults = record { default_become_user = codes "root"; default_become_method = codes "sudo" }

abbrev answers : ℕ → Create
answers c host vars args = some c

abbrev become_task : Task
become_task = record new_task { keywords = (codes "become", bool true) ∷ [] }

abbrev manager : ConnManager
manager = new_manager (codes "h1") []

abbrev connected : ConnManager
connected = record manager { become_conns = (codes "root", 7) ∷ [] }

first_connection : get_conn_for_task defaults (answers 7) become_task manager ≡ (connected, ok 7)
unfolding get_conn_for_task lookup str_eq insert
first_connection = refl

get_conn_for_task-reuse_example :
    get_conn_for_task defaults (answers 8) become_task (update_opts [] connected)
    ≡ (update_opts [] connected, ok 7)
get_conn_for_task-reuse_example =
    get_conn_for_task-reuse defaults (answers 7) (answers 8) become_task become_task [] manager
      connected 7 refl first_connection

abbrev sample_outside : Outside
sample_outside = record {
  templar = sample_templar;
  settings = sample_settings;
  become_defaults = defaults;
  create = answers 7;
  closes = λ c. true;
  find_action = λ name. true;
  run_plugin = λ name args env. no_facts;
  run_module = λ task env. no_facts;
  query = λ env name args. ok [];
  to_string = λ text env. true;
}

abbrev sample_play : Play
sample_play = record {
  name = [];
  hosts_pattern = codes "h1";
  vars_templates = [];
  tasks = record new_task { when_conditions = codes "x" ∷ [] } ∷ [];
  strategy_key = codes "free";
}

abbrev world : World
world = record {
  manager =
      make_manager none (record new_data { hosts = (codes "h1", new_host (codes "h1")) ∷ [] });
  hosts = [];
  conns = [];
  ran = [];
}

execute_playbook-IsSatisfied_example :
    All
      (IsSatisfied sample_outside)
      (execute_playbook sample_outside (sample_play ∷ []) world).0.ran
execute_playbook-IsSatisfied_example =
    execute_playbook-IsSatisfied sample_outside (sample_play ∷ []) world tt

abbrev meta_task : Task
meta_task = record new_task {
  action = record { name = codes "ansible.builtin.meta"; args = []; delegate_to = [] };
}

is_meta : any_of is_meta_task (meta_task ∷ []) ≡ true
unfolding is_meta_task str_eq to_internal_fqcns contains_byte
is_meta = refl

execute_tasks-unknown_example :
    execute_tasks sample_outside sample_play (meta_task ∷ []) world ≡ (world, err unknown_meta)
execute_tasks-unknown_example =
    execute_tasks-unknown sample_outside sample_play (meta_task ∷ []) world is_meta

abbrev looping_task : Task
looping_task = record new_task {
  loop = some (record { template = []; items = some (str (codes "a") ∷ str (codes "b") ∷ []) });
}

run_loop-IsReset_example :
    IsReset (codes "h1") (run_loop sample_outside sample_play (codes "h1") looping_task world)
run_loop-IsReset_example =
    run_loop-IsReset sample_outside sample_play (codes "h1") looping_task world
