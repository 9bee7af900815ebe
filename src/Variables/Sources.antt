-- ===== src/Variables/Sources.antt =====
-- vars/manager.go: the keys of the maps that GetVars combines.
use gosible.Base.{
  ◌≡◌, refl, Bool, true, false, Option, none, some, List, [], ◌∷◌, arith, Outcome, ok, err, panic,
  subst, if◌then◌else◌, >>=-eq-ok, ok-injective,
}
use gosible.GoText.{Str, codes}
use gosible.Dict.{lookup, has}
use gosible.Dict.Laws.{IsUnique}
use gosible.Values.{Value, Vars, get_or_default, Fields}
use gosible.Inventory.{Inventory}
use gosible.Templating.{Templar, TemplateError}
use gosible.Playbook.{Task, Play}
use gosible.Variables.{template_vars_templates, template_vars_onto}
use gosible.Variables.Manager.{Manager, of_host, or_nil, HostMap}
use gosible.Variables.Gather.{
  Settings, combine_if, inventory_vars, fact_vars, vars_of_host, set_facts, loop_vars, group_vars,
  combine_entries, precedence_entry, play_vars, task_vars, rendered, facts_injected,
}
use gosible.Variables.Unique.{IsUniqueIf, combine_if-IsUnique, template_vars_onto-IsUnique}
use gosible.Variables.Invariant.{IsManager, IsHostMap}

-- the groups' variables are a stack of their own
pub combine_entries-IsUnique :
    (d : Inventory) (host : Str) (entries : List Str) (all_vars : Vars) {vars : Vars}
    → IsUnique all_vars
    → combine_entries d host entries all_vars ≡ ok vars
    → IsUnique vars
unfolding combine_entries
combine_entries-IsUnique d host [] all_vars u h = subst IsUnique (ok-injective h) u
combine_entries-IsUnique d host (entry ∷ entries) all_vars u h =
    let (found, p, q) =
      >>=-eq-ok (precedence_entry d host entry)
        (λ found. combine_entries d host entries (combine_if all_vars found)) h in
    combine_entries-IsUnique d host entries (combine_if all_vars found)
      (combine_if-IsUnique all_vars found u) q

pub group_vars-IsUnique :
    (s : Settings) (m : Manager) (host : Option Str) {groups : Vars}
    → group_vars s m host [] ≡ ok groups
    → IsUnique groups
unfolding group_vars
group_vars-IsUnique s m none h = subst IsUnique (ok-injective h) tt
group_vars-IsUnique s m (some host) h =
    combine_entries-IsUnique m.inventory host s.variable_precedence [] tt h

pub rendered-IsUnique :
    (t : Templar) (templates env : Vars) {x : Option Vars}
    → rendered (template_vars_templates t templates env) ≡ ok x
    → IsUniqueIf x
unfolding template_vars_templates
rendered-IsUnique t templates env {x = x} h =
    go (template_vars_onto t env [] templates)
      (λ vars. template_vars_onto-IsUnique t env [] templates tt) h
  where
    go :
        (r : Outcome TemplateError Vars)
        → ((vars : Vars) → r ≡ ok vars → IsUnique vars)
        → rendered r ≡ ok x
        → IsUniqueIf x
    go (ok vars) u e = subst IsUniqueIf (ok-injective e) (u vars refl)
    go (err a) u e = absurd (ground (arith, e))
    go panic u e = absurd (ground (arith, e))

pub play_vars-IsUnique :
    (t : Templar) (play : Option Play) (env : Vars) {x : Option Vars}
    → play_vars t play env ≡ ok x
    → IsUniqueIf x
unfolding play_vars
play_vars-IsUnique t none env h = subst IsUniqueIf (ok-injective h) tt
play_vars-IsUnique t (some play) env h = rendered-IsUnique t play.vars_templates env h

pub task_vars-IsUnique :
    (t : Templar) (task : Option Task) (env : Vars) {x : Option Vars}
    → task_vars t task env ≡ ok x
    → IsUniqueIf x
unfolding task_vars
task_vars-IsUnique t none env h = subst IsUniqueIf (ok-injective h) tt
task_vars-IsUnique t (some task) env h = rendered-IsUnique t task.vars_templates env h

pub of_host-IsUniqueIf : (host : Str) (d : HostMap) → IsHostMap d → IsUniqueIf (of_host host d)
unfolding of_host
of_host-IsUniqueIf host none h = tt
of_host-IsUniqueIf host (some d) h = h host

module _ (s : Settings) (m : Manager) (i : IsManager m) where
  pub inventory_vars-IsUniqueIf : (host : Option Str) → IsUniqueIf (inventory_vars m host)
  inventory_vars-IsUniqueIf none = tt
  inventory_vars-IsUniqueIf (some host) = let (u, v, f, n, l, inv) = i in inv host

  pub fact_vars-IsUniqueIf : (host : Option Str) → IsUniqueIf (fact_vars s m host)
  unfolding has lookup
  fact_vars-IsUniqueIf none = tt
  fact_vars-IsUniqueIf (some host) =
      let (u, v, f, n, l, inv) = i in
      go (of_host host m.host_facts) (of_host-IsUniqueIf host m.host_facts f)
    where
      inject :
          (b : Bool) (facts : Vars)
          → IsUnique facts
          → IsUnique (
              if b
              then facts
              else (
                codes "ansible_local",
                get_or_default facts (codes "ansible_local") (Value.map Fields.end),
              )
                ∷ [])
      inject true facts u = u
      inject false facts u = (refl, tt)

      go :
          (x : Option Vars)
          → IsUniqueIf x
          → IsUniqueIf (elim x [ none ↦ none | some facts ↦ some (facts_injected s facts) ])
      go none u = tt
      go (some facts) u = inject s.inject_facts_as_vars facts u

  pub host_lists-IsUniqueIf :
      (host : Option Str)
      → IsUniqueIf (vars_of_host m host)
        × IsUniqueIf (set_facts m host)
        × IsUniqueIf (loop_vars m host)
  host_lists-IsUniqueIf none = (tt, tt, tt)
  host_lists-IsUniqueIf (some host) =
      let (u, v, f, n, l, inv) = i in
      (
        of_host-IsUniqueIf host m.host_vars v,
        of_host-IsUniqueIf host m.host_non_persistent_facts n,
        nil (of_host host m.host_loop_vars) (of_host-IsUniqueIf host m.host_loop_vars l),
      )
    where
      nil : (x : Option Vars) → IsUniqueIf x → IsUnique (or_nil x)
      nil none u = tt
      nil (some vars) u = u
