-- ===== src/Executor/Meta/Lookup.antt =====
-- plugins/meta/meta.go: where a task named meta is looked up, and what execute makes of it.
use gosible.Base.{
  ◌≡◌, refl, true, none, List, [], ◌∷◌, arith, any_of, err, Bool-cases, ◌⊎◌, inl, subst, sym, inr,
}
use gosible.GoText.{Str, codes, str_eq}
use gosible.GoText.Laws.{str_eq_iff}
use gosible.Registry.{to_internal_fqcns}
use gosible.Dict.{lookup}
use gosible.Playbook.{Task, Play}
use gosible.Executor.World.{World, Outside, unknown_meta}
use gosible.Executor.Plays.{execute_meta_tasks, execute_tasks}
use gosible.Executor.Meta.{meta_tasks, meta_names, is_meta_task, execute, to_internal_fqcns}

named :
    (name : Str)
    → any_of (λ n. str_eq name n) meta_names ≡ true
    → (name ≡ codes "meta")
      ⊎ (name ≡ codes "ansible.builtin.meta")
      ⊎ (name ≡ codes "ansible.legacy.meta")
unfolding to_internal_fqcns
named name h = ground (
  arith,
  str_eq_iff name (codes "meta"),
  str_eq_iff name (codes "ansible.builtin.meta"),
  str_eq_iff name (codes "ansible.legacy.meta"),
)

lookup-meta_tasks :
    (name : Str) → any_of (λ n. str_eq name n) meta_names ≡ true → lookup name meta_tasks ≡ none
unfolding lookup to_internal_fqcns str_eq
lookup-meta_tasks name h = elim (named name h) [
  | inl e ↦ subst (λ n. lookup n meta_tasks ≡ none) (sym e) refl
  | inr (inl e) ↦ subst (λ n. lookup n meta_tasks ≡ none) (sym e) refl
  | inr (inr e) ↦ subst (λ n. lookup n meta_tasks ≡ none) (sym e) refl
]

-- The sub-task is looked up by the name of the action, and no sub-task has a name of meta.
pub execute-unknown :
    (o : Outside) (play : Play) (task : Task) (w : World)
    → is_meta_task task ≡ true
    → execute o play task w ≡ (w, err unknown_meta)
unfolding execute is_meta_task lookup str_eq
execute-unknown o play task w h = rw (lookup-meta_tasks task.action.name h) refl

pub execute_meta_tasks-unknown :
    (o : Outside) (play : Play) (tasks : List Task) (w : World)
    → any_of is_meta_task tasks ≡ true
    → execute_meta_tasks o play tasks w ≡ (w, err unknown_meta)
unfolding execute_meta_tasks
execute_meta_tasks-unknown o play [] w h = ground (arith, h)
execute_meta_tasks-unknown o play (task ∷ tasks) w h = elim (Bool-cases (is_meta_task task)) [
  | inl e ↦ rw e (rw (execute-unknown o play task w e) refl)
  | inr e ↦ rw e (execute_meta_tasks-unknown o play tasks w (rw e at h))
]

-- Tasks that have a meta task among them end in an error before a task is run on any host, whatever
-- the meta task: the sub-task is looked up by the action's name.
pub execute_tasks-unknown :
    (o : Outside) (play : Play) (tasks : List Task) (w : World)
    → any_of is_meta_task tasks ≡ true
    → execute_tasks o play tasks w ≡ (w, err unknown_meta)
unfolding execute_tasks
execute_tasks-unknown o play tasks w h = rw (execute_meta_tasks-unknown o play tasks w h) refl
