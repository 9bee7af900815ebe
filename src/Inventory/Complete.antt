-- ===== src/Inventory/Complete.antt =====
-- inventory/common.go: `GetHosts` on an inventory that `formatAndValidate` has accepted.
use gosible.Base.{
  ℕ, suc, ◌<◌, ◌≡◌, ◌↔◌, refl, true, arith, length, ok, ◌>>◌, err, panic, subst, sym, ◌∙◌,
}
use gosible.GoText.{Str}
use gosible.Dict.{has}
use gosible.Inventory.{Inventory, group_at, slice_contains, get_hosts}
use gosible.Inventory.Format.{Checked, format, validate, format_and_validate}
use gosible.Inventory.Membership.{InGroup, direct, nested, get_hosts-InGroup, InGroup-get_hosts}
use gosible.Inventory.Cycles.{ParentChain, stop, up, validate-ParentChain}
use gosible.Inventory.Links.{IsLinked, format-IsLinked}

-- one more step at the top of a chain
ParentChain-snoc :
    {d : Inventory} {n : ℕ} {g p a : Str}
    → ParentChain d n g p
    → slice_contains (group_at d p).parents a ≡ true
    → ParentChain d (suc n) g a
ParentChain-snoc stop h = up h stop
ParentChain-snoc (up m c) h = up m (ParentChain-snoc c h)

-- The group that holds the host itself, with the chain of parents up to `g`.
InGroup-ParentChain :
    {d : Inventory} {h : Str} {k : ℕ} {g : Str}
    → IsLinked d
    → InGroup d h k g
    → (c : Str) × ParentChain d k c g
InGroup-ParentChain linked (direct {g} e) = (g, stop)
InGroup-ParentChain linked (nested {g = g} {c = c} e i) =
    let (leaf, chain) = InGroup-ParentChain linked i in
    (leaf, ParentChain-snoc chain (sym (linked.links g c) ∙ e))

-- A group with a parent is in the inventory.
has-parent :
    (d : Inventory) (g p : Str)
    → slice_contains (group_at d g).parents p ≡ true
    → has g d.groups ≡ true
unfolding group_at has slice_contains
has-parent d g p h = ground arith

depth_bound :
    {d : Inventory} {h : Str} {k : ℕ} {g : Str}
    → IsLinked d
    → validate d ≡ ok tt
    → InGroup d h k g
    → k < suc (length d.groups)
depth_bound {d} linked v i = bound (InGroup-ParentChain linked i).1
  where
    bound : {k : ℕ} {c g : Str} → ParentChain d k c g → k < suc (length d.groups)
    bound stop = omega arith
    bound (up {g = c} {p = p} m chain) =
        let (l, far) = validate-ParentChain v (has-parent d c p m) (up m chain) in omega arith

-- On a valid inventory whose links agree, one more level than there are groups is deep enough:
-- `GetHosts` then has a host exactly if it is in the group or in a group below it.
get_hosts_complete :
    (d : Inventory) (g h : Str)
    → IsLinked d
    → validate d ≡ ok tt
    → (has h (get_hosts (suc (length d.groups)) d g) ≡ true) ↔ ((k : ℕ) × InGroup d h k g)
get_hosts_complete d g h linked v = (
  λ e. let (k, l, i) = get_hosts-InGroup _ d h g e in (k, i),
  λ found. InGroup-get_hosts _ found.1 (depth_bound linked v found.1),
)

then-ok :
    (r : Checked (Unit {0})) (x : Inventory) {y : Inventory}
    → (r >> ok x) ≡ ok y
    → (r ≡ ok tt) × (x ≡ y)
then-ok (ok u) x h = (refl, cc)
then-ok (err e) x h = cc
then-ok panic x h = cc

-- An inventory that the loader accepts, from links that agree, is one on which `GetHosts` ends and
-- finds exactly the hosts of the group and of the groups below it.
pub format_and_validate-get_hosts :
    (d : Inventory) {d' : Inventory} (g h : Str)
    → IsLinked d
    → format_and_validate d ≡ ok d'
    → (has h (get_hosts (suc (length d'.groups)) d' g) ≡ true) ↔ ((k : ℕ) × InGroup d' h k g)
format_and_validate-get_hosts d {d'} g h linked e =
    let (accepted, same) =
      then-ok (validate (format d)) (format d) {y = d'} (unfold format_and_validate in e) in
    subst
      (λ x. (has h (get_hosts (suc (length x.groups)) x g) ≡ true) ↔ ((k : ℕ) × InGroup x h k g))
      same (get_hosts_complete (format d) g h (format-IsLinked d linked) accepted)
