-- ===== src/Variables/Unique.antt =====
-- vars/utils.go and vars/manager.go: the keys of a map that is combined, rendered or stored.
use gosible.Base.{
  ◌≡◌, refl, Option, none, some, List, [], ◌∷◌, arith, ok, >>=-eq-ok, subst, ok-injective,
}
use gosible.GoText.{Str}
use gosible.Dict.{Dict, lookup, insert, merge}
use gosible.Dict.Laws.{IsUnique, or_else, insert-IsUnique, merge-IsUnique, lookup-merge}
use gosible.Values.{Value, Vars, str}
use gosible.Templating.{Templar}
use gosible.Variables.{
  combine_vars, set_magic_var, set_magic_vars_onto, set_magic_vars, magic_variable_mapping,
  template_value, template_vars_onto, map_string_string_onto,
}
use gosible.Variables.Gather.{combine_if}
use gosible.Parsing.KeyValue.{Options}

abbrev pub IsUniqueIf : Option Vars → Type 0
IsUniqueIf none = Unit
IsUniqueIf (some vars) = IsUnique vars

abbrev pub lookup_if : Str → Option Vars → Option Value
lookup_if j none = none
lookup_if j (some vars) = lookup j vars

pub combine_vars-IsUnique : (a b : Vars) → IsUnique (combine_vars a b)
unfolding combine_vars
combine_vars-IsUnique a b = merge-IsUnique (merge [] a) b (merge-IsUnique [] a tt)

lookup_nil : (j : Str) → lookup {V = Value} j [] ≡ none
unfolding lookup
lookup_nil j = refl

-- The second map wins.
pub lookup-combine_vars :
    (j : Str) (a b : Vars)
    → IsUnique a
    → IsUnique b
    → lookup j (combine_vars a b) ≡ or_else (lookup j b) (lookup j a)
unfolding combine_vars
lookup-combine_vars j a b ua ub =
    ground (arith, lookup-merge j (merge [] a) b ub, lookup-merge j [] a ua, lookup_nil j)

pub combine_if-IsUnique : (a : Vars) (x : Option Vars) → IsUnique a → IsUnique (combine_if a x)
combine_if-IsUnique a none u = u
combine_if-IsUnique a (some b) u = combine_vars-IsUnique a b

pub lookup-combine_if :
    (j : Str) (a : Vars) (x : Option Vars)
    → IsUnique a
    → IsUniqueIf x
    → lookup j (combine_if a x) ≡ or_else (lookup_if j x) (lookup j a)
lookup-combine_if j a none ua ux = refl
lookup-combine_if j a (some b) ua ub = lookup-combine_vars j a b ua ub

set_magic_var-IsUnique :
    (src : Vars) (attr : Str) (names : List Str) (res : Vars)
    → IsUnique res
    → IsUnique (set_magic_var src attr names res)
unfolding set_magic_var
set_magic_var-IsUnique src attr [] res u = u
set_magic_var-IsUnique src attr (name ∷ names) res u =
    set_magic_var-IsUnique src attr names _ (step (lookup name src))
  where
    step : (x : Option Value) → IsUnique (elim x [ none ↦ res | some v ↦ insert attr v res ])
    step none = u
    step (some v) = insert-IsUnique attr v res u

set_magic_vars_onto-IsUnique :
    (src : Vars) (mapping : Dict (List Str)) (res : Vars)
    → IsUnique res
    → IsUnique (set_magic_vars_onto src mapping res)
unfolding set_magic_vars_onto
set_magic_vars_onto-IsUnique src [] res u = u
set_magic_vars_onto-IsUnique src ((attr, names) ∷ mapping) res u =
    set_magic_vars_onto-IsUnique src mapping _ (set_magic_var-IsUnique src attr names res u)

pub set_magic_vars-IsUnique : (src : Vars) → IsUnique (set_magic_vars src)
unfolding set_magic_vars
set_magic_vars-IsUnique src = set_magic_vars_onto-IsUnique src magic_variable_mapping [] tt

pub template_vars_onto-IsUnique :
    (t : Templar) (env templated templates : Vars) {vars : Vars}
    → IsUnique templated
    → template_vars_onto t env templated templates ≡ ok vars
    → IsUnique vars
unfolding template_vars_onto
template_vars_onto-IsUnique t env templated [] u h = subst IsUnique (ok-injective h) u
template_vars_onto-IsUnique t env templated ((key, v) ∷ templates) u h =
    let (x, p, q) =
      >>=-eq-ok (template_value t env v)
        (λ x. template_vars_onto t env (insert key x templated) templates) h in
    template_vars_onto-IsUnique t env (insert key x templated) templates
      (insert-IsUnique key x templated u) q

pub map_string_string_onto-IsUnique :
    (result : Vars) (m : Options) → IsUnique result → IsUnique (map_string_string_onto result m)
unfolding map_string_string_onto
map_string_string_onto-IsUnique result [] u = u
map_string_string_onto-IsUnique result ((k, v) ∷ m) u =
    map_string_string_onto-IsUnique (insert k (str v) result) m (insert-IsUnique k (str v) result u)
