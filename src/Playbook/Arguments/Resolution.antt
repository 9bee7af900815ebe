-- ===== src/Playbook/Arguments/Resolution.antt =====
-- playbook/module_args_resolver.go: the keyword of a task that is its action.
use gosible.Base.{
  ℕ, ◌+◌, ◌≡◌, refl, Bool, true, false, not, ◌&&◌, [], ◌∷◌, arith, if◌then◌else◌, ok, err, is_empty,
  Bool-cases, inl, inr, >>=-eq-ok, ap, ◌∙◌,
}
use gosible.GoText.{Str, str_eq}
use gosible.GoText.Laws.{str_eq_iff}
use gosible.Dict.{has, lookup}
use gosible.Values.{Value, Vars}
use gosible.Playbook.{Task}
use gosible.Playbook.Arguments.{
  Resolve, is_task_keyword, normalize_parameters, action_candidates, try_candidates,
  resolve_module_args, no_action,
}

-- how many keywords name an action
abbrev pub actions_among : (Str → Bool) → Vars → ℕ
actions_among resolves [] = 0
actions_among resolves ((k, v) ∷ vars) =
    (if not (is_task_keyword k) && resolves k then 1 else 0) + actions_among resolves vars

abbrev count : (Str → Bool) → Vars → ℕ
count resolves [] = 0
count resolves ((k, v) ∷ vars) = (if resolves k then 1 else 0) + count resolves vars

only_found :
    (found : Str × Vars) (action : Str) (args : Vars)
    → ◌≡◌ {A = Resolve (Str × Vars)}
        (if is_empty found.0 then err no_action else ok found)
        (ok (action, args))
    → (is_empty action ≡ false) × (◌≡◌ {A = Resolve (Str × Vars)} (ok found) (ok (action, args)))
only_found (a, as') action args h = ground arith

module _ (resolves : Str → Bool) (additional : Vars) where
  -- After the action is found, no other may come.
  try_candidates_found :
      (cs : Vars) (action : Str) (args : Vars) (a : Str) (as' : Vars)
      → is_empty action ≡ false
      → try_candidates resolves additional cs action args ≡ ok (a, as')
      → (count resolves cs ≡ 0) × (a ≡ action)
  unfolding try_candidates
  try_candidates_found [] action args a as' n h = (refl, cc)
  try_candidates_found ((k, v) ∷ cs) action args a as' n h = elim (Bool-cases (resolves k)) [
    | inl e ↦ ground (arith, rw (e, n) at h)
    | inr e ↦ ground (arith, e, try_candidates_found cs action args a as' n (rw e at h))
  ]

  is_action-nonempty : (k : Str) → resolves [] ≡ false → resolves k ≡ true → is_empty k ≡ false
  is_action-nonempty [] z e = cc
  is_action-nonempty (c ∷ k) z e = refl

  -- Before, exactly one is found, if the empty name is none.
  try_candidates_first :
      (cs : Vars) (a : Str) (as' : Vars)
      → resolves [] ≡ false
      → is_empty a ≡ false
      → try_candidates resolves additional cs [] [] ≡ ok (a, as')
      → (count resolves cs ≡ 1) × (resolves a ≡ true) × (has a cs ≡ true)
  unfolding try_candidates has lookup
  try_candidates_first [] a as' z n h = ground arith
  try_candidates_first ((k, v) ∷ cs) a as' z n h = elim (Bool-cases (resolves k)) [
    | inl e ↦
        let (args, p, q) =
          >>=-eq-ok (normalize_parameters k v additional)
            (λ args'. try_candidates resolves additional cs k args') (rw e at h) in
        let (none_left, same) = try_candidates_found cs k args a as' (is_action-nonempty k z e) q in
        ground (arith, e, none_left, same, str_eq_iff k a)
    | inr e ↦ ground (arith, e, try_candidates_first cs a as' z n (rw e at h))
  ]

module _ (resolves : Str → Bool) where
  count_step :
      (k : Str) (v : Value) (t : Bool) (cs : Vars) {n : ℕ}
      → count resolves cs ≡ n
      → count resolves (if t then cs else (k, v) ∷ cs) ≡ (if not t && resolves k then 1 else 0) + n
  count_step k v true cs h = ground arith
  count_step k v false cs h = ground arith

  count-action_candidates :
      (keywords : Vars)
      → count resolves (action_candidates keywords) ≡ actions_among resolves keywords
  unfolding action_candidates
  count-action_candidates [] = refl
  count-action_candidates ((k, v) ∷ keywords) =
      count_step k v (is_task_keyword k) (action_candidates keywords)
        (count-action_candidates keywords)

  str_eq-≡ : (k a : Str) → str_eq k a ≡ true → k ≡ a
  str_eq-≡ k a e = ground (arith, str_eq_iff k a)

  has_step :
      (k : Str) (v : Value) (a : Str) (t u : Bool) (cs keywords : Vars)
      → (str_eq k a ≡ true → t ≡ u)
      → has a cs ≡ (not u && has a keywords)
      → has a (if t then cs else (k, v) ∷ cs) ≡ (not u && has a ((k, v) ∷ keywords))
  unfolding has lookup
  has_step k v a true u cs keywords same h = ground arith
  has_step k v a false u cs keywords same h = ground arith

  has-action_candidates :
      (a : Str) (keywords : Vars)
      → has a (action_candidates keywords) ≡ (not (is_task_keyword a) && has a keywords)
  unfolding action_candidates has lookup
  has-action_candidates a [] = ground arith
  has-action_candidates a ((k, v) ∷ keywords) =
      has_step k v a (is_task_keyword k) (is_task_keyword a) (action_candidates keywords) keywords
        (λ e. ap is_task_keyword (str_eq-≡ k a e)) (has-action_candidates a keywords)

  -- An action that is resolved is a keyword of the task, no attribute of tasks, names an action or
  -- a module, and is the only such keyword. The empty name names none.
  pub resolve_module_args_unique :
      (task : Task) (action : Str) (args : Vars)
      → resolves [] ≡ false
      → resolve_module_args resolves task ≡ ok (action, args)
      → (actions_among resolves task.keywords ≡ 1)
        × (resolves action ≡ true)
        × (is_task_keyword action ≡ false)
        × (has action task.keywords ≡ true)
  unfolding resolve_module_args
  resolve_module_args_unique task action args z h =
      let (found, p, q) =
        >>=-eq-ok (try_candidates resolves task.args (action_candidates task.keywords) [] [])
          (λ found. if is_empty found.0 then err no_action else ok found) h in
      let (n, same) = only_found found action args q in
      let (one, r, there) =
        try_candidates_first resolves task.args (action_candidates task.keywords) action args z n
          (p ∙ same) in
      ground (
        arith,
        one,
        r,
        there,
        count-action_candidates task.keywords,
        has-action_candidates action task.keywords,
      )
