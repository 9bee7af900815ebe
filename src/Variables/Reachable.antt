-- ===== src/Variables/Reachable.antt =====
-- The managers that the calls of the executor lead to: the step relation of vars/manager.go.
use gosible.GoText.Laws.{str_eq_iff}
use gosible.Parsing.Splitter.{Split}
use gosible.Parsing.KeyValue.{parse_key_value_pairs_string}
use gosible.Base.{
  ◌≡◌, refl, Bool, true, false, Option, none, some, List, [], ◌∷◌, arith, ok, err, panic, subst,
  if◌then◌else◌, ◌||◌, ok-injective, sym, ◌∙◌, ◌==◌,
}
use gosible.GoText.{Str, codes, str_eq}
use gosible.Dict.{lookup}
use gosible.Dict.Laws.{IsUnique, lookup-insert}
use gosible.Values.{Value, Vars}
use gosible.Inventory.{Inventory, host_at, put_host}
use gosible.Variables.{combine_vars, map_string_string_to_vars, Options}
use gosible.Variables.Manager.{
  Manager, Vary, make_manager, combine_into, set_host_facts, set_host_vars,
  set_host_non_persistent_facts, delete_host_facts, save_facts, reset_loop_context, set_loop_item,
  write_loops, missing_at_sign,
}
use gosible.Variables.Gather.{
  sort_host_groups, set_extra_var, set_extra_vars, from_pairs, and_then, of_options,
}
use gosible.Variables.Unique.{IsUniqueIf, combine_vars-IsUnique}
use gosible.Variables.Invariant.{
  IsManager, delete_host_facts-IsManager, save_facts-IsManager, reset_loop_context-IsManager,
  set_loop_item-IsManager,
}

-- A call that returns. GetVars only sorts the groups of its host, and SetExtraVars keeps what it did
-- where it ends in an error.
pub data Step (m m' : Manager) : Type 0 where
  setting_extra : (evs : List Str) → (set_extra_vars evs m).0 ≡ m' → Step m m'
  deleting : (host : Str) → delete_host_facts host m ≡ m' → Step m m'
  saving :
      (bucket : Str) (facts : Option Vars) (host : Str)
      → save_facts bucket facts host m ≡ ok m'
      → Step m m'
  resetting : (host : Str) → reset_loop_context host m ≡ ok m' → Step m m'
  looping : (item : Value) (host : Str) → set_loop_item item host m ≡ ok m' → Step m m'
  gathering : (host : Option Str) → sort_host_groups host m ≡ m' → Step m m'

pub data Reachable (inv : Inventory) : Manager → Type 0 where
  made : Reachable inv (make_manager none inv)
  step : {m m' : Manager} → Reachable inv m → Step m m' → Reachable inv m'

and_then-keeps :
    (P : Manager → Type 0) (r : Manager × Vary Unit) (k : Manager → Manager × Vary Unit)
    → P r.0
    → ((m : Manager) → P m → P (k m).0)
    → P (and_then r k).0
and_then-keeps P (m, ok u) k p f = f m p
and_then-keeps P (m, err e) k p f = p
and_then-keeps P (m, panic) k p f = p

-- What setting the extra variables to a combination keeps, SetExtraVars keeps.
pub set_extra_vars-keeps :
    (P : Manager → Type 0)
    → ((m : Manager) (vars : Vars)
        → P m
        → P (record m { extra_vars = combine_vars m.extra_vars vars }))
    → (evs : List Str) (m : Manager) → P m
    → P (set_extra_vars evs m).0
unfolding set_extra_vars set_extra_var
set_extra_vars-keeps P f [] m p = p
set_extra_vars-keeps P f (ev ∷ evs) m p =
    and_then-keeps P (set_extra_var ev m) (λ m'. set_extra_vars evs m') (one ev)
      (set_extra_vars-keeps P f evs)
  where
    pairs : (r : Split (Option Options)) → P (from_pairs r m).0
    pairs (ok o) = f m (map_string_string_to_vars (of_options o)) p
    pairs (err e) = p
    pairs panic = p

    pick :
        (a b c : Bool) (r : Manager × Vary Unit)
        → P r.0
        → P
            (if a
              then (m, ok tt)
              else if b
              then (m, err missing_at_sign)
              else if c
              then (m, ok tt)
              else r).0
    pick true b c r q = p
    pick false true c r q = p
    pick false false true r q = p
    pick false false false r q = q

    one : (ev : Str) → P (set_extra_var ev m).0
    one [] = p
    one (c ∷ ev) =
        pick (c == 64) (c == 46 || c == 47) (c == 91 || c == 123)
          (from_pairs (parse_key_value_pairs_string (c ∷ ev) false) m)
          (pairs (parse_key_value_pairs_string (c ∷ ev) false))

-- the write through a pointer to a host
host_vars-put_host :
    (host j : Str) (groups : List Str) (d : Inventory)
    → (host_at (put_host host (record (host_at d host) { groups = groups }) d) j).vars
      ≡ (host_at d j).vars
unfolding host_at put_host
host_vars-put_host host j groups d = ground (
  arith,
  lookup-insert host j (record (host_at d host) { groups = groups }) d.hosts,
  str_eq_iff host j,
)

sort_host_groups-IsManager :
    (host : Option Str) (m : Manager) → IsManager m → IsManager (sort_host_groups host m)
unfolding sort_host_groups
sort_host_groups-IsManager none m i = i
sort_host_groups-IsManager (some host) m i =
    let (u, v, f, n, l, inv) = i in
    (u, v, f, n, l, λ j. subst IsUnique (sym (host_vars-put_host host j _ m.inventory)) (inv j))

after : (m : Manager) {m' : Manager} → IsManager m → Step m m' → IsManager m'
after m i (setting_extra evs e) = subst IsManager e (
    set_extra_vars-keeps IsManager
      (λ m vars (u, v, f, n, l, inv). (combine_vars-IsUnique m.extra_vars vars, v, f, n, l, inv))
      evs m i)
after m i (deleting host e) = subst IsManager e (delete_host_facts-IsManager m i host)
after m i (saving bucket facts host e) = save_facts-IsManager m i bucket facts host e
after m i (resetting host e) = reset_loop_context-IsManager m i host e
after m i (looping item host e) = set_loop_item-IsManager m i item host e
after m i (gathering host e) = subst IsManager e (sort_host_groups-IsManager host m i)

none_unique : (host : Str) → IsUniqueIf (lookup host [])
unfolding lookup
none_unique host = tt

-- Whatever calls are made on a fresh manager, no key stands twice in any map of variables, if none
-- does in the inventory's.
pub Reachable-IsManager :
    (inv : Inventory) {m : Manager}
    → ((host : Str) → IsUnique (host_at inv host).vars)
    → Reachable inv m
    → IsManager m
unfolding make_manager
Reachable-IsManager inv u made = (tt, tt, tt, tt, λ host. none_unique host, u)
Reachable-IsManager inv u (step {m = m} r s) = after m (Reachable-IsManager inv u r) s

abbrev HasNilMaps : Manager → Type 0
HasNilMaps m = (m.host_vars ≡ none) × (m.host_facts ≡ none) × (m.host_non_persistent_facts ≡ none)

save_facts_nil :
    (m : Manager) (bucket : Str) (facts : Vars) (host : Str)
    → HasNilMaps m
    → save_facts bucket (some facts) host m ≡ (
        if str_eq bucket []
          || str_eq bucket (codes "ansible_facts")
          || str_eq bucket (codes "np_ansible_facts")
          || str_eq bucket (codes "host_vars")
        then panic
        else ok m)
unfolding save_facts set_host_facts set_host_vars set_host_non_persistent_facts combine_into
save_facts_nil m bucket facts host (v, f, n) =
    pick (str_eq bucket []) (str_eq bucket (codes "ansible_facts"))
      (str_eq bucket (codes "np_ansible_facts")) (str_eq bucket (codes "host_vars"))
  where
    pick :
        (a b c d : Bool)
        → ◌≡◌ {A = Vary Manager}
            (if a || b
              then set_host_facts host facts m
              else if c
              then set_host_non_persistent_facts host facts m
              else if d
              then set_host_vars host facts m
              else ok m)
            (if a || b || c || d then panic else ok m)
    pick a b c d = rw (v, f, n) (ground arith)

after_nil : (m : Manager) {m' : Manager} → HasNilMaps m → Step m m' → HasNilMaps m'
unfolding reset_loop_context set_loop_item write_loops sort_host_groups delete_host_facts save_facts
after_nil m i (setting_extra evs e) =
    subst HasNilMaps e (set_extra_vars-keeps HasNilMaps (λ m vars i. i) evs m i)
after_nil m i (deleting host e) = subst HasNilMaps e (let (v, f, n) = i in (v, rw f refl, n))
after_nil m i (saving bucket none host e) = subst HasNilMaps (ok-injective e) i
after_nil m {m' = m'} i (saving bucket (some facts) host e) =
    kept
      (str_eq bucket []
        || str_eq bucket (codes "ansible_facts")
        || str_eq bucket (codes "np_ansible_facts")
        || str_eq bucket (codes "host_vars"))
      (sym (save_facts_nil m bucket facts host i) ∙ e)
  where
    kept : (b : Bool) → ◌≡◌ {A = Vary Manager} (if b then panic else ok m) (ok m') → HasNilMaps m'
    kept true h = absurd (ground (arith, h))
    kept false h = subst HasNilMaps (ok-injective h) i
after_nil m {m' = m'} i (resetting host e) = ground (arith, e, i)
after_nil m {m' = m'} i (looping item host e) = ground (arith, e, i)
after_nil m i (gathering none e) = subst HasNilMaps e i
after_nil m i (gathering (some host) e) = subst HasNilMaps e i

Reachable-HasNilMaps : (inv : Inventory) {m : Manager} → Reachable inv m → HasNilMaps m
unfolding make_manager
Reachable-HasNilMaps inv made = (refl, refl, refl)
Reachable-HasNilMaps inv (step {m = m} r s) = after_nil m (Reachable-HasNilMaps inv r) s

-- The maps of facts are never allocated: storing facts in any of the three buckets panics, in every
-- state that calls lead to, and for another bucket nothing is stored.
pub save_facts-panic :
    (inv : Inventory) {m : Manager} (bucket : Str) (facts : Vars) (host : Str)
    → Reachable inv m
    → save_facts bucket (some facts) host m ≡ (
        if str_eq bucket []
          || str_eq bucket (codes "ansible_facts")
          || str_eq bucket (codes "np_ansible_facts")
          || str_eq bucket (codes "host_vars")
        then panic
        else ok m)
save_facts-panic inv {m = m} bucket facts host r =
    save_facts_nil m bucket facts host (Reachable-HasNilMaps inv r)
