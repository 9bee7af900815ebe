-- ===== src/Inventory/Cycles.antt =====
-- inventory/common.go: `validateNoCircularReferences` against chains of parents.
use gosible.Base.{
  ℕ, zero, suc, ◌≤◌, ◌<◌, ◌≡◌, ◌≢◌, Bool, true, false, some, List, [], ◌∷◌, arith, any_of, or_false,
  length, ok,
}
use gosible.GoText.{Str, str_eq}
use gosible.GoText.Laws.{str_eq_iff}
use gosible.Dict.{Dict, lookup, has}
use gosible.Dict.Laws.{has-lookup}
use gosible.Inventory.{Group, Inventory, group_at, slice_contains}
use gosible.Inventory.Format.{circular_reference, validate_references, validate}

-- a chain of `n` steps from a group to one of its parents, and so on up
pub data ParentChain (d : Inventory) : ℕ → Str → Str → Type 0 where
  stop : {g : Str} → ParentChain d zero g g
  up :
      {n : ℕ} {g p a : Str}
      → slice_contains (group_at d g).parents p ≡ true
      → ParentChain d n p a
      → ParentChain d (suc n) g a

any_of-false :
    (f : Str → Bool) (xs : List Str) (x : Str)
    → any_of f xs ≡ false
    → slice_contains xs x ≡ true
    → f x ≡ false
unfolding slice_contains
any_of-false f [] x h k = cc
any_of-false f (y ∷ ys) x h k = ground (arith, str_eq_iff y x, any_of-false f ys x)

-- If the search says no, each chain above `parents` is shorter than the bound and misses `group`.
circular_reference_sound :
    (n : ℕ) (d : Inventory) (parents : List Str) (group : Str)
    → circular_reference n d parents group ≡ false
    → {k : ℕ} {p a : Str} → slice_contains parents p ≡ true
    → ParentChain d k p a
    → (k < n) × (a ≢ group)
unfolding circular_reference
circular_reference_sound zero d ps g h m c = cc
circular_reference_sound (suc n) d ps g h {p = p} m stop =
    let here =
      or_false (str_eq p g) (circular_reference n d (group_at d p).parents g)
        (any_of-false _ ps p h m) in
    (omega arith, λ e. ground (arith, here.0, str_eq_iff p g))
circular_reference_sound (suc n) d ps g h {p = p} m (up m' c) =
    let here =
      or_false (str_eq p g) (circular_reference n d (group_at d p).parents g)
        (any_of-false _ ps p h m) in
    let (l, far) = circular_reference_sound n d (group_at d p).parents g here.1 m' c in
    (omega arith, far)

validate_references-at :
    (d : Inventory) (n : ℕ) (groups : Dict Group) (name : Str) (g : Group)
    → validate_references d n groups ≡ ok tt
    → lookup name groups ≡ some g
    → circular_reference n d g.parents name ≡ false
unfolding validate_references lookup
validate_references-at d n [] name g h e = cc
validate_references-at d n ((j, x) ∷ groups) name g h e =
    ground (arith, str_eq_iff j name, validate_references-at d n groups name g)

validate-circular_reference :
    (d : Inventory) (g : Str)
    → validate d ≡ ok tt
    → has g d.groups ≡ true
    → circular_reference (length d.groups) d (group_at d g).parents g ≡ false
unfolding validate has group_at
validate-circular_reference d g v there =
    let (x, e) = has-lookup g d.groups there in
    ground (arith, e, validate_references-at d (length d.groups) d.groups g x)

-- In a valid inventory a chain of parents that begins at a group is no longer than there are groups,
-- and never comes back to that group.
pub validate-ParentChain :
    {d : Inventory} {k : ℕ} {g a : Str}
    → validate d ≡ ok tt
    → has g d.groups ≡ true
    → ParentChain d (suc k) g a
    → (suc k ≤ length d.groups) × (a ≢ g)
validate-ParentChain {d} {g = g} v there (up m c) =
    circular_reference_sound (length d.groups) d (group_at d g).parents g
      (validate-circular_reference d g v there) m c
