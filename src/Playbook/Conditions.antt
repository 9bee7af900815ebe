-- ===== src/Playbook/Conditions.antt =====
-- What `WhenConditionsSatisfied` decides.
use gosible.Base.{◌≡◌, true, false, List, [], ◌∷◌, ◌++◌, All, arith, ok}
use gosible.GoText.{Str}
use gosible.Values.{Vars}
use gosible.Templating.{Templar}
use gosible.Playbook.{condition_holds, when_conditions_satisfied}

module _ (t : Templar) (env : Vars) where
  abbrev pub Holds : Str → Type 0
  Holds c = condition_holds t env c ≡ ok true

  -- The first condition that does not hold decides, and what follows is never evaluated: the outcome
  -- is that of this condition alone.
  pub when_conditions_satisfied_first :
      (before : List Str) (c : Str) (after : List Str)
      → All Holds before
      → condition_holds t env c ≡ ok false
      → when_conditions_satisfied t env (before ++ c ∷ after) ≡ ok false
  unfolding when_conditions_satisfied
  when_conditions_satisfied_first [] c after h e = ground arith
  when_conditions_satisfied_first (b ∷ before) c after h e =
      ground (arith, h.0, when_conditions_satisfied_first before c after h.1)
