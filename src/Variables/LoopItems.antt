-- ===== src/Variables/LoopItems.antt =====
-- The loop variables of vars/manager.go: ResetLoopContext and SetLoopItem.
use gosible.Base.{
  ◌≡◌, refl, Bool, true, false, Option, none, some, [], ◌∷◌, arith, ok, panic, subst, sym, ◌∙◌, ap,
  if◌then◌else◌, ◌||◌, ok-injective,
}
use gosible.GoText.{Str, codes, str_eq}
use gosible.Dict.{Dict, lookup, insert}
use gosible.Dict.Laws.{lookup-insert, lookup-insert_self}
use gosible.Values.{Value, Vars}
use gosible.Inventory.{Inventory}
use gosible.Variables.Manager.{
  Manager, HostMap, Vary, make_manager, of_host, delete_host_facts, reset_loop_context,
  set_loop_item, write_loops, save_facts,
}
use gosible.Variables.Gather.{sort_host_groups}
use gosible.Variables.Reachable.{
  Step, Reachable, made, step, setting_extra, deleting, saving, resetting, looping, gathering,
  set_extra_vars-keeps, save_facts-panic,
}

-- the map of the loop variables is allocated
abbrev HasLoops : Manager → Type 0
HasLoops m = (loops : Dict Vars) × (m.host_loop_vars ≡ some loops)

reset_some :
    (m : Manager) (host : Str) {loops : Dict Vars}
    → m.host_loop_vars ≡ some loops
    → reset_loop_context host m ≡ ok (write_loops (insert host [] loops) m)
unfolding reset_loop_context
reset_some m host l = rw l refl

write_same :
    (m : Manager) {loops : Dict Vars} → m.host_loop_vars ≡ some loops → write_loops loops m ≡ m
unfolding write_loops
write_same m l = ap {B = Manager} (λ x. record m { host_loop_vars = x }) (sym l)

set_written :
    (m : Manager) (item : Value) (host : Str) (loops : Dict Vars) {vars : Vars}
    → lookup host loops ≡ some vars
    → set_loop_item item host (write_loops loops m)
      ≡ ok (write_loops (insert host (insert (codes "item") item vars) loops) m)
unfolding set_loop_item write_loops
set_written m item host loops v = rw (set_loop_item, v) refl

set_loop_item-HasLoops :
    (m : Manager) {m' : Manager} (item : Value) (host : Str)
    → set_loop_item item host m ≡ ok m'
    → HasLoops m'
unfolding set_loop_item write_loops
set_loop_item-HasLoops m {m'} item host = allocated m.host_loop_vars
  where
    stored :
        (loops : Dict Vars) (x : Option Vars)
        → ◌≡◌ {A = Vary Manager}
            (elim x [
              | none ↦ panic
              | some vars ↦ ok (write_loops (insert host (insert (codes "item") item vars) loops) m)
            ])
            (ok m')
        → HasLoops m'
    stored loops none e = absurd (ground (arith, e))
    stored loops (some vars) e = subst HasLoops (ok-injective e) (_, refl)

    allocated :
        (x : HostMap)
        → ◌≡◌ {A = Vary Manager}
            (elim x [
              | none ↦ panic
              | some loops ↦ elim (lookup host loops) [
                | none ↦ panic
                | some vars ↦
                    ok (write_loops (insert host (insert (codes "item") item vars) loops) m)
              ]
            ])
            (ok m')
        → HasLoops m'
    allocated none e = absurd (ground (arith, e))
    allocated (some loops) e = stored loops (lookup host loops) e

after : (inv : Inventory) {m m' : Manager} → Reachable inv m → HasLoops m → Step m m' → HasLoops m'
unfolding delete_host_facts sort_host_groups save_facts reset_loop_context set_loop_item write_loops
after inv {m} r i (setting_extra evs e) =
    subst HasLoops e (set_extra_vars-keeps HasLoops (λ m vars i. i) evs m i)
after inv r i (deleting host e) = subst HasLoops e i
after inv r i (saving bucket none host e) = subst HasLoops (ok-injective e) i
after inv {m} {m'} r i (saving bucket (some facts) host e) =
    kept
      (str_eq bucket []
        || str_eq bucket (codes "ansible_facts")
        || str_eq bucket (codes "np_ansible_facts")
        || str_eq bucket (codes "host_vars"))
      (sym (save_facts-panic inv bucket facts host r) ∙ e)
  where
    kept : (b : Bool) → ◌≡◌ {A = Vary Manager} (if b then panic else ok m) (ok m') → HasLoops m'
    kept true h = absurd (ground (arith, h))
    kept false h = subst HasLoops (ok-injective h) i
after inv {m} r (loops, l) (resetting host e) =
    subst HasLoops (ok-injective (sym (reset_some m host l) ∙ e)) (insert host [] loops, refl)
after inv {m} r i (looping item host e) = set_loop_item-HasLoops m item host e
after inv r i (gathering none e) = subst HasLoops e i
after inv r i (gathering (some host) e) = subst HasLoops e i

Reachable-HasLoops : (inv : Inventory) {m : Manager} → Reachable inv m → HasLoops m
unfolding make_manager
Reachable-HasLoops inv made = ([], refl)
Reachable-HasLoops inv (step r s) = after inv r (Reachable-HasLoops inv r) s

-- the loop variables of the host are these, and nothing else differs
abbrev pub HasLoopVars : Str → Vars → Manager → Manager → Type 0
HasLoopVars host vars m m' =
    (record m' { host_loop_vars = m.host_loop_vars } ≡ m)
    × ((j : Str)
        → of_host j m'.host_loop_vars
          ≡ (if str_eq host j then some vars else of_host j m.host_loop_vars))

written :
    (host : Str) (vars : Vars) (loops : Dict Vars) (m : Manager)
    → HasLoopVars host vars (write_loops loops m) (write_loops (insert host vars loops) m)
unfolding write_loops of_host
written host vars loops m = (refl, λ j. lookup-insert host j vars loops)

again :
    (b : Bool) (vars old : Option Vars) (x : Option Vars)
    → (if b then vars else if b then old else x) ≡ (if b then vars else x)
again true vars old x = refl
again false vars old x = refl

HasLoopVars-trans :
    (host : Str) (vars old : Vars) (m m1 m2 : Manager)
    → HasLoopVars host old m m1
    → HasLoopVars host vars m1 m2
    → HasLoopVars host vars m m2
HasLoopVars-trans host vars old m m1 m2 (r, f) (q, g) = (
  ap {A = Manager} {B = Manager} (λ x. record x { host_loop_vars = m.host_loop_vars }) q ∙ r,
  λ j.
      g j
      ∙ ap (λ x. if str_eq host j then some vars else x) (f j)
      ∙ again (str_eq host j) (some vars) (some old) (of_host j m.host_loop_vars),
)

abbrev pub only_item : Value → Vars
only_item item = (codes "item", item) ∷ []

-- In every state that the manager's calls lead to, ResetLoopContext and two calls of SetLoopItem
-- after it do not panic: they leave the host first with no loop variables, then with the one item and
-- then with the other as its only loop variable, and change nothing else of the manager.
pub set_loop_item-reset_loop_context :
    (inv : Inventory) {m : Manager} (host : Str) (item next : Value)
    → Reachable inv m
    → (m1 : Manager) × (m2 : Manager) × (m3 : Manager) × (reset_loop_context host m ≡ ok m1)
      × (set_loop_item item host m1 ≡ ok m2)
      × (set_loop_item next host m2 ≡ ok m3)
      × HasLoopVars host [] m m1
      × HasLoopVars host (only_item item) m m2
      × HasLoopVars host (only_item next) m m3
unfolding insert str_eq
set_loop_item-reset_loop_context inv {m} host item next r =
    let (loops, l) = Reachable-HasLoops inv r in
    let one = only_item item in
    let loops1 = insert host [] loops in
    let loops2 = insert host one loops1 in
    let m1 = write_loops loops1 m in
    let m2 = write_loops loops2 m in
    let m3 = write_loops (insert host (only_item next) loops2) m in
    let first = subst (λ x. HasLoopVars host [] x m1) (write_same m l) (written host [] loops m) in
    let second = HasLoopVars-trans host one [] m m1 m2 first (written host one loops1 m) in
    (
      m1,
      m2,
      m3,
      reset_some m host l,
      set_written m item host loops1 (lookup-insert_self host [] loops),
      set_written m next host loops2 (lookup-insert_self host one loops1),
      first,
      second,
      HasLoopVars-trans host (only_item next) one m m2 m3 second
          (written host (only_item next) loops2 m),
    )
