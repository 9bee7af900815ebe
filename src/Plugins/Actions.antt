-- ===== src/Plugins/Actions.antt =====
-- plugins/action/setFact/set_fact.go: the facts that the action sets, and their bucket. Of the return
-- value that is all; an error is the one that it is marked with.
use gosible.Base.{
  Bool, true, false, Option, some, [], ◌∷◌, if◌then◌else◌, is_empty, Outcome, ok, err, panic, ◌>>=◌,
}
use gosible.GoText.{Str, codes}
use gosible.Dict.{lookup, insert}
use gosible.Values.{Value, Vars}
use gosible.Templating.{TemplateError, Templar}

pub data SetFactError : Type 0 where
  no_arguments : SetFactError
  not_templated : TemplateError → SetFactError
  invalid_key : SetFactError

pub record SetFacts : Type 0 where
  pub ansible_facts : Vars
  pub fact_bucket : Str

-- isValidAnsibleFactName
unfoldable pub is_valid_ansible_fact_name : Str → Bool
is_valid_ansible_fact_name name = true

abbrev pub is_cacheable : Option Value → Bool
is_cacheable (some (Value.bool b)) = b
is_cacheable _ = false

unfoldable pub facts_bucket : Vars → Str
unfolding lookup
facts_bucket args =
    if is_cacheable (lookup (codes "cacheable") args)
    then codes "np_ansible_facts"
    else codes "ansible_facts"

abbrev pub fact_key : Outcome TemplateError Value → Outcome SetFactError Str
fact_key (ok (Value.str key)) = ok key
fact_key (ok _) = err invalid_key
fact_key (err e) = err (not_templated e)
fact_key panic = panic

module _ (t : Templar) (env : Vars) where
  -- The key that is stored is the one before it is templated, and the value is not templated.
  unfoldable pub collect_facts : Vars → Vars → Outcome SetFactError Vars
  unfolding insert is_valid_ansible_fact_name
  collect_facts facts [] = ok facts
  collect_facts facts ((k, v) ∷ args) = fact_key (t.template env k) >>= λ key.
      if is_valid_ansible_fact_name k
      then collect_facts (insert k v facts) args
      else err invalid_key

  -- Run
  unfoldable pub run_set_fact : Vars → Outcome SetFactError SetFacts
  unfolding collect_facts facts_bucket
  run_set_fact args =
      if is_empty args
      then err no_arguments
      else collect_facts [] args >>= λ facts.
          ok (record { ansible_facts = facts; fact_bucket = facts_bucket args })
