-- ===== src/Variables/Invariant.antt =====
-- vars/manager.go: the keys of the maps of variables that the manager stores.
use gosible.Base.{
  if◌then◌else◌, ◌≡◌, Bool, true, false, Option, none, some, [], arith, ok, panic, >>=-eq-ok, subst,
  ok-injective, ◌||◌,
}
use gosible.GoText.{Str, codes, str_eq}
use gosible.Dict.{Dict, lookup, insert, delete}
use gosible.Dict.Laws.{IsUnique, insert-IsUnique, lookup-insert, lookup-delete}
use gosible.Values.{Value, Vars}
use gosible.Inventory.{host_at}
use gosible.Variables.Manager.{
  Manager, HostMap, Vary, or_nil, combine_into, delete_host_facts, set_host_facts, set_host_vars,
  set_host_non_persistent_facts, save_facts, reset_loop_context, set_loop_item, write_loops,
}
use gosible.Variables.Unique.{IsUniqueIf, combine_vars-IsUnique}

abbrev pub IsHostMap : HostMap → Type 0
IsHostMap none = Unit
IsHostMap (some d) = (host : Str) → IsUniqueIf (lookup host d)

abbrev pub IsManager : Manager → Type 0
IsManager m =
    IsUnique m.extra_vars
    × IsHostMap m.host_vars
    × IsHostMap m.host_facts
    × IsHostMap m.host_non_persistent_facts
    × IsHostMap m.host_loop_vars
    × ((host : Str) → IsUnique (host_at m.inventory host).vars)

insert-IsHostMap :
    (host : Str) (vars : Vars) (d : Dict Vars)
    → IsUnique vars
    → IsHostMap (some d)
    → IsHostMap (some (insert host vars d))
insert-IsHostMap host vars d u h j = rw (lookup-insert host j vars d) (step (str_eq host j))
  where
    step : (b : Bool) → IsUniqueIf (if b then some vars else lookup j d)
    step true = u
    step false = h j

delete-IsHostMap :
    (host : Str) (d : Dict Vars) → IsHostMap (some d) → IsHostMap (some (delete host d))
delete-IsHostMap host d h j = rw (lookup-delete host j d) (step (str_eq host j))
  where
    step : (b : Bool) → IsUniqueIf (if b then none else lookup j d)
    step true = tt
    step false = h j

combine_into-IsHostMap :
    (host : Str) (facts : Vars) (hm : HostMap) {x : HostMap}
    → IsHostMap hm
    → combine_into host facts hm ≡ ok x
    → IsHostMap x
unfolding combine_into
combine_into-IsHostMap host facts none h e = absurd (ground (arith, e))
combine_into-IsHostMap host facts (some d) h e =
    subst IsHostMap (ok-injective e)
      (insert-IsHostMap host _ d (combine_vars-IsUnique (or_nil (lookup host d)) facts) h)

module _ (m : Manager) (i : IsManager m) where
  pub set_host_facts-IsManager :
      (host : Str) (facts : Vars) {m' : Manager}
      → set_host_facts host facts m ≡ ok m'
      → IsManager m'
  unfolding set_host_facts
  set_host_facts-IsManager host facts h =
      let (x, p, q) =
        >>=-eq-ok (combine_into host facts m.host_facts) (λ x. ok (record m { host_facts = x }))
          h in
      let (u, v, f, n, l, inv) = i in
      subst IsManager (ok-injective q)
        (u, v, combine_into-IsHostMap host facts m.host_facts f p, n, l, inv)

  pub set_host_non_persistent_facts-IsManager :
      (host : Str) (facts : Vars) {m' : Manager}
      → set_host_non_persistent_facts host facts m ≡ ok m'
      → IsManager m'
  unfolding set_host_non_persistent_facts
  set_host_non_persistent_facts-IsManager host facts h =
      let (x, p, q) =
        >>=-eq-ok (combine_into host facts m.host_non_persistent_facts)
          (λ x. ok (record m { host_non_persistent_facts = x })) h in
      let (u, v, f, n, l, inv) = i in
      subst IsManager (ok-injective q)
        (u, v, f, combine_into-IsHostMap host facts m.host_non_persistent_facts n p, l, inv)

  pub set_host_vars-IsManager :
      (host : Str) (facts : Vars) {m' : Manager} → set_host_vars host facts m ≡ ok m' → IsManager m'
  unfolding set_host_vars
  set_host_vars-IsManager host facts h =
      let (x, p, q) =
        >>=-eq-ok (combine_into host facts m.host_vars) (λ x. ok (record m { host_vars = x })) h in
      let (u, v, f, n, l, inv) = i in
      subst IsManager (ok-injective q)
        (u, combine_into-IsHostMap host facts m.host_vars v p, f, n, l, inv)

  pub save_facts-IsManager :
      (bucket : Str) (facts : Option Vars) (host : Str) {m' : Manager}
      → save_facts bucket facts host m ≡ ok m'
      → IsManager m'
  unfolding save_facts
  save_facts-IsManager bucket none host h = subst IsManager (ok-injective h) i
  save_facts-IsManager bucket (some facts) host {m' = m'} h =
      step (str_eq bucket [] || str_eq bucket (codes "ansible_facts"))
        (str_eq bucket (codes "np_ansible_facts")) (str_eq bucket (codes "host_vars")) h
    where
      step :
          (a b c : Bool)
          → (if a
              then set_host_facts host facts m
              else if b
              then set_host_non_persistent_facts host facts m
              else if c
              then set_host_vars host facts m
              else ok m)
            ≡ ok m'
          → IsManager m'
      step true b c e = set_host_facts-IsManager host facts e
      step false true c e = set_host_non_persistent_facts-IsManager host facts e
      step false false true e = set_host_vars-IsManager host facts e
      step false false false e = subst IsManager (ok-injective e) i

  pub delete_host_facts-IsManager : (host : Str) → IsManager (delete_host_facts host m)
  unfolding delete_host_facts
  delete_host_facts-IsManager host =
      let (u, v, f, n, l, inv) = i in (u, v, step m.host_facts f, n, l, inv)
    where
      step :
          (x : HostMap)
          → IsHostMap x
          → IsHostMap (elim x [ none ↦ none | some facts ↦ some (delete host facts) ])
      step none f = tt
      step (some d) f = delete-IsHostMap host d f

  write_loops-IsManager :
      (loops : Dict Vars) → IsHostMap (some loops) → IsManager (write_loops loops m)
  unfolding write_loops
  write_loops-IsManager loops h = let (u, v, f, n, l, inv) = i in (u, v, f, n, h, inv)

  pub reset_loop_context-IsManager :
      (host : Str) {m' : Manager} → reset_loop_context host m ≡ ok m' → IsManager m'
  unfolding reset_loop_context
  reset_loop_context-IsManager host {m' = m'} h =
      let (u, v, f, n, l, inv) = i in step m.host_loop_vars l h
    where
      step :
          (x : HostMap)
          → IsHostMap x
          → ◌≡◌ {A = Vary Manager}
              (elim x [ none ↦ panic | some loops ↦ ok (write_loops (insert host [] loops) m) ])
              (ok m')
          → IsManager m'
      step none l h = absurd (ground (arith, h))
      step (some d) l h =
          subst IsManager (ok-injective h)
            (write_loops-IsManager (insert host [] d) (insert-IsHostMap host [] d tt l))

  pub set_loop_item-IsManager :
      (item : Value) (host : Str) {m' : Manager} → set_loop_item item host m ≡ ok m' → IsManager m'
  unfolding set_loop_item
  set_loop_item-IsManager item host {m' = m'} h =
      let (u, v, f, n, l, inv) = i in step m.host_loop_vars l h
    where
      write :
          (loops : Dict Vars) (x : Option Vars)
          → IsHostMap (some loops)
          → IsUniqueIf x
          → ◌≡◌ {A = Vary Manager}
              (elim x [
                | none ↦ panic
                | some vars ↦
                    ok (write_loops (insert host (insert (codes "item") item vars) loops) m)
              ])
              (ok m')
          → IsManager m'
      write loops none l u h = absurd (ground (arith, h))
      write loops (some vars) l u h = subst IsManager (ok-injective h) (
          write_loops-IsManager (insert host (insert (codes "item") item vars) loops) (
            insert-IsHostMap host (insert (codes "item") item vars) loops
              (insert-IsUnique (codes "item") item vars u) l))

      step :
          (x : HostMap)
          → IsHostMap x
          → ◌≡◌ {A = Vary Manager}
              (elim x [
                | none ↦ panic
                | some loops ↦ elim (lookup host loops) [
                  | none ↦ panic
                  | some vars ↦
                      ok (write_loops (insert host (insert (codes "item") item vars) loops) m)
                ]
              ])
              (ok m')
          → IsManager m'
      step none l h = absurd (ground (arith, h))
      step (some d) l h = write d (lookup host d) l (l host) h
