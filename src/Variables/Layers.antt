-- ===== src/Variables/Layers.antt =====
-- The precedence of the sources in GetVars.
use gosible.Variables.Stack.{
  AllUnique, Combines, topmost, stack, stack-IsUnique, lookup-stack, hidden,
}
use gosible.Variables.Sources.{
  group_vars-IsUnique, play_vars-IsUnique, task_vars-IsUnique, inventory_vars-IsUniqueIf,
  fact_vars-IsUniqueIf, host_lists-IsUniqueIf,
}
use gosible.Base.{
  ◌≡◌, refl, Option, some, List, [], ◌∷◌, ok, subst, ◌>>=◌, >>=-eq-ok, ok-injective, ◌∙◌, ap,
}
use gosible.GoText.{Str}
use gosible.Dict.{lookup}
use gosible.Dict.Laws.{IsUnique, or_else}
use gosible.Values.{Vars}
use gosible.Templating.{Templar}
use gosible.Playbook.{Task, Play}
use gosible.Variables.{set_magic_vars}
use gosible.Variables.Manager.{Manager}
use gosible.Variables.Gather.{
  Settings, combine_if, inventory_vars, fact_vars, vars_of_host, set_facts, loop_vars, group_vars,
  play_vars, task_vars, host_sources, last_sources, gather, task_env, gather_task, get_vars,
  sort_host_groups,
}
use gosible.Variables.Unique.{
  IsUniqueIf, lookup_if, combine_if-IsUnique, lookup-combine_if, set_magic_vars-IsUnique,
}
use gosible.Variables.Invariant.{IsManager}
use gosible.Inventory.{Inventory, host_at}
use gosible.Variables.Reachable.{Reachable, step, gathering, Reachable-IsManager}

module _ (s : Settings) (m : Manager) (i : IsManager m) where
  -- what the templates of the play see
  abbrev sources : Option Str → List (Option Vars)
  sources host = some m.extra_vars ∷ fact_vars s m host ∷ inventory_vars m host ∷ []

  abbrev task_sources : Option Str → Option Vars → List (Option Vars)
  task_sources host p = some m.extra_vars ∷ p ∷ sources host

  abbrev all_sources : Option Str → Option Vars → Option Vars → List (Option Vars)
  all_sources host p q =
      some m.extra_vars ∷ set_facts m host ∷ vars_of_host m host ∷ q ∷ task_sources host p

  sources-AllUnique : (host : Option Str) → AllUnique (sources host)
  sources-AllUnique host =
      (i.0, (fact_vars-IsUniqueIf s m i host, (inventory_vars-IsUniqueIf s m i host, tt)))

  all_sources-AllUnique :
      (host : Option Str) (p q : Option Vars)
      → IsUniqueIf p
      → IsUniqueIf q
      → AllUnique (all_sources host p q)
  all_sources-AllUnique host p q up uq =
      let (v, n, l) = host_lists-IsUniqueIf s m i host in
      (i.0, (n, (v, (uq, (i.0, (up, sources-AllUnique host))))))

  -- the sources of one call of GetVars, the extra variables once
  abbrev pub below_extra : Option Str → Vars → Option Vars → Option Vars → List (Option Vars)
  below_extra host groups p q =
      set_facts m host
      ∷ vars_of_host m host
      ∷ q
      ∷ p
      ∷ fact_vars s m host
      ∷ inventory_vars m host
      ∷ some groups
      ∷ []

  abbrev pub Gathered : Templar → Option Play → Option Str → Option Task → Vars → Type 0
  Gathered t play host task vars =
      (groups known : Vars) × (p q : Option Vars) × (group_vars s m host [] ≡ ok groups)
      × (play_vars t play (host_sources s m host groups) ≡ ok p)
      × (task_vars t task (task_env s m host groups p) ≡ ok q)
      × Combines (some m.extra_vars ∷ below_extra host groups p q) known
      × Combines
          (loop_vars m host
            ∷ some (set_magic_vars known)
            ∷ some m.extra_vars
            ∷ below_extra host groups p q)
          vars

  gather_task-cases :
      (t : Templar) (host : Option Str) (task : Option Task) (env : Vars) {vars : Vars}
      → gather_task t m host task env ≡ ok vars
      → (q : Option Vars) × (task_vars t task env ≡ ok q)
        × (last_sources m host (combine_if env q) ≡ vars)
  unfolding gather_task
  gather_task-cases t host task env h =
      let (q, tasked, made) =
        >>=-eq-ok (task_vars t task env) (λ q. ok (last_sources m host (combine_if env q))) h in
      (q, tasked, ok-injective made)

  known_vars-Combines :
      (host : Option Str) (groups : Vars) (p q : Option Vars)
      → IsUnique groups
      → IsUniqueIf p
      → IsUniqueIf q
      → Combines
          (some m.extra_vars ∷ below_extra host groups p q)
          (stack groups (all_sources host p q))
  known_vars-Combines host groups p q u up uq j =
      lookup-stack groups (all_sources host p q) u (all_sources-AllUnique host p q up uq) j
      ∙ hidden (lookup j m.extra_vars) (lookup_if j (set_facts m host))
          (lookup_if j (vars_of_host m host)) (lookup_if j q) (lookup_if j p)
          (topmost j (fact_vars s m host ∷ inventory_vars m host ∷ some groups ∷ []))

  last_sources-Combines :
      (host : Option Str) (groups : Vars) (p q : Option Vars)
      → IsUnique groups
      → IsUniqueIf p
      → IsUniqueIf q
      → Combines
          (loop_vars m host
            ∷ some (set_magic_vars (stack groups (all_sources host p q)))
            ∷ some m.extra_vars
            ∷ below_extra host groups p q)
          (last_sources m host (combine_if (task_env s m host groups p) q))
  unfolding last_sources task_env host_sources
  last_sources-Combines host groups p q u up uq j =
      let known = stack groups (all_sources host p q) in
      let magic = some (set_magic_vars known) in
      let (v, n, l) = host_lists-IsUniqueIf s m i host in
      lookup-combine_if j (combine_if known magic) (loop_vars m host)
        (combine_if-IsUnique known magic (stack-IsUnique groups (all_sources host p q) u)) l
      ∙ ap (or_else (lookup_if j (loop_vars m host))) (
          lookup-combine_if j known magic (stack-IsUnique groups (all_sources host p q) u)
            (set_magic_vars-IsUnique known)
          ∙ ap (or_else (lookup_if j magic)) (known_vars-Combines host groups p q u up uq j))

  -- GetVars combines its sources in the order of precedence: a name has the value of the loop's
  -- variables, else of the magic variables, of the extra variables, of the facts set, of the host's
  -- stored variables, of the task's rendered variables, of the play's, of the facts, of the
  -- inventory's host and of its groups, if no map of the manager holds a key twice.
  pub gather-Gathered :
      (t : Templar) (play : Option Play) (host : Option Str) (task : Option Task) (vars : Vars)
      → gather t s m play host task ≡ ok vars
      → Gathered t play host task vars
  unfolding gather
  gather-Gathered t play host task vars h =
      let (groups, g, h1) =
        >>=-eq-ok (group_vars s m host [])
          (λ groups. play_vars t play (host_sources s m host groups) >>= λ p.
            gather_task t m host task (task_env s m host groups p))
          h in
      let (p, played, h2) =
        >>=-eq-ok (play_vars t play (host_sources s m host groups))
          (λ p. gather_task t m host task (task_env s m host groups p)) h1 in
      let (q, tasked, made) = gather_task-cases t host task (task_env s m host groups p) h2 in
      let u = group_vars-IsUnique s m host g in
      let up = play_vars-IsUnique t play (host_sources s m host groups) played in
      let uq = task_vars-IsUnique t task (task_env s m host groups p) tasked in
      (
        groups,
        stack groups (all_sources host p q),
        p,
        q,
        g,
        played,
        tasked,
        known_vars-Combines host groups p q u up uq,
        subst
            (Combines (
              loop_vars m host
              ∷ some (set_magic_vars (stack groups (all_sources host p q)))
              ∷ some m.extra_vars
              ∷ below_extra host groups p q))
            made (last_sources-Combines host groups p q u up uq),
      )

-- The same for GetVars in every state that the manager's calls lead to, if no variables of a host of
-- the inventory hold a key twice.
get_vars-Gathered :
    (t : Templar) (s : Settings) (inv : Inventory) {m : Manager} (play : Option Play)
    (host : Option Str) (task : Option Task) (vars : Vars)
    (u : (j : Str) → IsUnique (host_at inv j).vars) (r : Reachable inv m)
    → (get_vars t s m play host task).1 ≡ ok vars
    → Gathered s
        (sort_host_groups host m)
        (Reachable-IsManager inv u (step r (gathering host refl)))
        t
        play
        host
        task
        vars
unfolding get_vars
get_vars-Gathered t s inv {m} play host task vars u r e =
    gather-Gathered s (sort_host_groups host m)
      (Reachable-IsManager inv u (step r (gathering host refl))) t play host task vars e
