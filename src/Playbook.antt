-- ===== src/Playbook.antt =====
-- playbook/types/data_types.go: plays and tasks, `WhenConditionsSatisfied` and the items of a loop.
pub mod Conditions
pub mod Arguments
pub mod Parser
use gosible.Base.{
  Bool, true, false, not, ◌||◌, Option, none, some, List, [], ◌∷◌, ◌++◌, if◌then◌else◌, Outcome, ok,
  err, panic, ◌>>=◌,
}
use gosible.GoText.{Str, codes, str_eq, has_prefix}
use gosible.Values.{Value, null, bool, int, str, list, map, Vars, items_to_list}
use gosible.Templating.{Templar, TemplateError, template_failed}

pub record Action : Type 0 where
  pub name : Str
  pub args : Vars
  pub delegate_to : Str

-- `items == nil` says that the loop is a template
pub record Loop : Type 0 where
  pub template : Str
  pub items : Option (List Value)

pub record With : Type 0 where
  pub lookup_plugin_name : Str
  pub loop : Loop

pub record Task : Type 0 where
  pub name : Str
  pub args : Vars
  pub vars_templates : Vars
  pub keywords : Vars
  pub action : Action
  pub loop : Option Loop
  pub with_lookup : Option With
  pub when_conditions : List Str

pub record Play : Type 0 where
  pub name : Str
  pub hosts_pattern : Str
  pub vars_templates : Vars
  pub tasks : List Task
  pub strategy_key : Str

abbrev pub is_some {ℓ} : {A : Type ℓ} → Option A → Bool
is_some none = false
is_some (some a) = true

-- `IsTemplate` of a loop
abbrev pub loop_is_template : Loop → Bool
loop_is_template l = not (is_some l.items)

unfoldable pub has_loop : Task → Bool
has_loop t = is_some t.loop || is_some t.with_lookup

pub data TaskError : Type 0 where
  templating loop_not_list lookup_failed unexpected_condition : TaskError

abbrev pub Run : Type 0 → Type 0
Run = Outcome TaskError

-- an error of the engine, wrapped
abbrev pub wrap : {A : Type 0} → Outcome TemplateError A → Run A
wrap (ok a) = ok a
wrap (err e) = err templating
wrap panic = panic

module _ (t : Templar) where
  -- `{{ … }}` is put round a condition that does not begin so
  unfoldable pub condition_text : Str → Str
  condition_text c = if has_prefix c (codes "{{") then c else codes "{{ " ++ (c ++ codes " }}")

  -- the `switch` on the result; `False` and `True` are texts of the engine
  unfoldable pub condition_result : Value → Run Bool
  condition_result (bool b) = ok b
  condition_result (str s) =
      if str_eq s (codes "False")
      then ok false
      else if str_eq s (codes "True")
      then ok true
      else err unexpected_condition
  condition_result _ = err unexpected_condition

  -- one condition of the loop; what is no template is passed over
  unfoldable pub condition_holds : Vars → Str → Run Bool
  unfolding condition_text condition_result
  condition_holds env c =
      let text = condition_text c in
      if t.is_template text then wrap (t.template env text) >>= condition_result else ok true

  -- the conditions are ANDed; the first that fails ends the loop
  unfoldable pub when_conditions_satisfied : Vars → List Str → Run Bool
  unfolding condition_holds
  when_conditions_satisfied env [] = ok true
  when_conditions_satisfied env (c ∷ cs) =
      let rest = when_conditions_satisfied env cs in
      condition_holds env c >>= λ holds. if holds then rest else ok false

  -- an item that is a text with a template is rendered, any other is taken as it is
  unfoldable pub template_loop_item : Vars → Value → Run Value
  template_loop_item env (str s) = if t.is_template s then wrap (t.template env s) else ok (str s)
  template_loop_item env v = ok v

  unfoldable pub template_loop_items : Vars → List Value → Run (List Value)
  unfolding template_loop_item
  template_loop_items env [] = ok []
  template_loop_items env (v ∷ vs) =
      template_loop_item env v >>= λ v'. template_loop_items env vs >>= λ vs'. ok (v' ∷ vs')

  abbrev list_value : Value → Run (List Value)
  list_value (list vs) = ok (items_to_list vs)
  list_value _ = err loop_not_list

  -- `GetLoopItems` of a plain loop
  unfoldable pub loop_items : Vars → Loop → Run (List Value)
  unfolding template_loop_items
  loop_items env l = elim l.items [
    | none ↦ wrap (t.template env l.template) >>= list_value
    | some vs ↦ template_loop_items env vs
  ]

  -- the arguments of the lookup that `with_…` names
  unfoldable pub lookup_args : Vars → Loop → Run (List Value)
  unfolding template_loop_items
  lookup_args env l = elim l.items [
    | none ↦ wrap (t.template env l.template) >>= λ v. ok (v ∷ [])
    | some vs ↦ template_loop_items env vs
  ]

  -- `GetLoopItems`; the first parameter is `lookup.Query`, and a nil loop is a nil pointer
  unfoldable pub get_loop_items :
      (Vars → Str → List Value → Run (List Value)) → Vars → Task → Run (List Value)
  unfolding loop_items lookup_args
  get_loop_items query env task = elim task.with_lookup [
    | some w ↦ lookup_args env w.loop >>= query env w.lookup_plugin_name
    | none ↦ elim task.loop [ some l ↦ loop_items env l | none ↦ panic ]
  ]
