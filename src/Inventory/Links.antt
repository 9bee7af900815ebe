-- ===== src/Inventory/Links.antt =====
-- inventory/common.go: children and parents through the formatting steps.
use gosible.Base.{
  ◌≡◌, refl, ◌∙◌, Bool, true, false, ◌||◌, List, [], ◌∷◌, ◌++◌, arith, if◌then◌else◌, Bool-cases,
  inl, inr,
}
use gosible.GoText.{Str, str_eq}
use gosible.GoText.Laws.{str_eq_iff}
use gosible.Dict.{keys}
use gosible.Dict.Laws.{lookup-insert}
use gosible.Inventory.{
  Host, Group, Inventory, new_group, group_at, put_group, put_host, group_by_name, slice_contains,
}
use gosible.Inventory.Format.{
  all_name, add_ungrouped_group, link, adopt, adopt_all, add_to_all_group, deduplicate,
  deduplicate_onto, deduplicate_groups, deduplicate_parents, simplify, remove_all_from,
  remove_all_group_from_hosts, format,
}

-- a group has a child exactly if the child has it as a parent
pub record IsLinked (d : Inventory) : Type 0 where
  pub links :
      (g c : Str)
      → slice_contains (group_at d g).children c ≡ slice_contains (group_at d c).parents g

pub group_at-put_group :
    (n m : Str) (g : Group) (d : Inventory)
    → group_at (put_group n g d) m ≡ (if str_eq n m then g else group_at d m)
unfolding group_at put_group
group_at-put_group n m g d = ground (arith, lookup-insert n m g d.groups, str_eq_iff n m)

pub group_at-group_by_name :
    (n m : Str) (d : Inventory) → group_at (group_by_name n d) m ≡ group_at d m
unfolding group_at group_by_name put_group
group_at-group_by_name n m d =
    ground (arith, lookup-insert n m (new_group n) d.groups, str_eq_iff n m)

pub slice_contains-concat :
    (xs : List Str) (y x : Str)
    → slice_contains (xs ++ y ∷ []) x ≡ (slice_contains xs x || str_eq y x)
unfolding slice_contains
slice_contains-concat [] y x = ground arith
slice_contains-concat (z ∷ xs) y x = ground (arith, slice_contains-concat xs y x)

absorb :
    (seen : List Str) (y x : Str) (b : Bool)
    → slice_contains seen y ≡ true
    → (slice_contains seen x || b) ≡ (slice_contains seen x || (str_eq y x || b))
absorb seen y x b h = ground (arith, str_eq_iff y x)

regroup :
    (seen : List Str) (y x : Str) (b : Bool)
    → (slice_contains (seen ++ y ∷ []) x || b) ≡ (slice_contains seen x || (str_eq y x || b))
regroup seen y x b = ground (arith, slice_contains-concat seen y x)

slice_contains-deduplicate_onto :
    (seen xs : List Str) (x : Str)
    → slice_contains (deduplicate_onto seen xs) x ≡ (slice_contains seen x || slice_contains xs x)
unfolding deduplicate_onto
slice_contains-deduplicate_onto seen [] x = unfold slice_contains in ground arith
slice_contains-deduplicate_onto seen (y ∷ ys) x = elim (Bool-cases (slice_contains seen y)) [
  | inl old ↦ rw old (slice_contains-deduplicate_onto seen ys x ∙ absorb seen y x _ old)
  | inr new ↦ rw new (
      slice_contains-deduplicate_onto (seen ++ y ∷ []) ys x
      ∙ regroup seen y x (slice_contains ys x))
]

-- `deduplicate` keeps exactly the members.
pub slice_contains-deduplicate :
    (xs : List Str) (x : Str) → slice_contains (deduplicate xs) x ≡ slice_contains xs x
unfolding deduplicate
slice_contains-deduplicate xs x =
    slice_contains-deduplicate_onto [] xs x ∙ (unfold slice_contains in refl)

-- A write that leaves children and parents as they were.
pub put_group-IsLinked :
    (n : Str) (g : Group) (d : Inventory)
    → g.children ≡ (group_at d n).children
    → ((x : Str) → slice_contains g.parents x ≡ slice_contains (group_at d n).parents x)
    → IsLinked d
    → IsLinked (put_group n g d)
put_group-IsLinked n g d c p h = record {
  links = λ a b. ground (
    arith,
    group_at-put_group n a g d,
    group_at-put_group n b g d,
    str_eq_iff n a,
    str_eq_iff n b,
    p a,
    h.links a b,
  );
}

pub group_by_name-IsLinked : (n : Str) (d : Inventory) → IsLinked d → IsLinked (group_by_name n d)
group_by_name-IsLinked n d h = record {
  links = λ a b. rw (group_at-group_by_name n a d, group_at-group_by_name n b d) (h.links a b);
}

-- Two groups that are linked stay so, and every other link is kept.
pub link-IsLinked : (p n : Str) (d : Inventory) → IsLinked d → IsLinked (link p n d)
unfolding link
link-IsLinked p n d h =
    let parent = group_at d p in
    let parent' = record parent { children = parent.children ++ n ∷ [] } in
    let d' = put_group p parent' d in
    let child = group_at d' n in
    let child' = record child { parents = child.parents ++ p ∷ [] } in
    record {
      links = λ a b. ground (
        arith,
        group_at-put_group p a parent' d,
        group_at-put_group p b parent' d,
        group_at-put_group p n parent' d,
        group_at-put_group n a child' d',
        group_at-put_group n b child' d',
        slice_contains-concat parent.children n b,
        slice_contains-concat child.parents p a,
        str_eq_iff p a,
        str_eq_iff n b,
        str_eq_iff p b,
        str_eq_iff n a,
        str_eq_iff p n,
        h.links a b,
      );
    }

IsLinked-if : (b : Bool) (d e : Inventory) → IsLinked d → IsLinked e → IsLinked (if b then d else e)
IsLinked-if true d e h k = h
IsLinked-if false d e h k = k

adopt-IsLinked : (n : Str) (d : Inventory) → IsLinked d → IsLinked (adopt n d)
unfolding adopt
adopt-IsLinked n d h = IsLinked-if _ (link all_name n d) d (link-IsLinked all_name n d h) h

adopt_all-IsLinked : (ns : List Str) (d : Inventory) → IsLinked d → IsLinked (adopt_all ns d)
unfolding adopt_all
adopt_all-IsLinked [] d h = h
adopt_all-IsLinked (n ∷ ns) d h = adopt_all-IsLinked ns (adopt n d) (adopt-IsLinked n d h)

add_to_all_group-IsLinked : (d : Inventory) → IsLinked d → IsLinked (add_to_all_group d)
unfolding add_to_all_group
add_to_all_group-IsLinked d h =
    adopt_all-IsLinked _ (group_by_name all_name d) (group_by_name-IsLinked all_name d h)

add_ungrouped_group-IsLinked : (d : Inventory) → IsLinked d → IsLinked (add_ungrouped_group d)
unfolding add_ungrouped_group
add_ungrouped_group-IsLinked d h =
    put_group-IsLinked _ _ _ refl (λ x. refl)
      (put_group-IsLinked _ _ _ refl (λ x. refl)
        (group_by_name-IsLinked _ _
          (put_group-IsLinked _ _ _ refl (λ x. refl) (group_by_name-IsLinked _ d h))))

-- hosts are no part of the links
pub put_host-IsLinked :
    (n : Str) (x : Host) (d : Inventory) → IsLinked d → IsLinked (put_host n x d)
unfolding put_host group_at
put_host-IsLinked n x d h = record { links = h.links }

deduplicate_groups-IsLinked :
    (ns : List Str) (d : Inventory) → IsLinked d → IsLinked (deduplicate_groups ns d)
unfolding deduplicate_groups
deduplicate_groups-IsLinked [] d h = h
deduplicate_groups-IsLinked (n ∷ ns) d h =
    deduplicate_groups-IsLinked ns _ (put_host-IsLinked n _ d h)

deduplicate_parents-IsLinked :
    (ns : List Str) (d : Inventory) → IsLinked d → IsLinked (deduplicate_parents ns d)
unfolding deduplicate_parents
deduplicate_parents-IsLinked [] d h = h
deduplicate_parents-IsLinked (n ∷ ns) d h =
    deduplicate_parents-IsLinked ns _
      (put_group-IsLinked n _ d refl (slice_contains-deduplicate (group_at d n).parents) h)

simplify-IsLinked : (d : Inventory) → IsLinked d → IsLinked (simplify d)
unfolding simplify
simplify-IsLinked d h =
    deduplicate_parents-IsLinked (keys (deduplicate_groups (keys d.hosts) d).groups) _
      (deduplicate_groups-IsLinked (keys d.hosts) d h)

remove_all_from-IsLinked :
    (ns : List Str) (d : Inventory) → IsLinked d → IsLinked (remove_all_from ns d)
unfolding remove_all_from
remove_all_from-IsLinked [] d h = h
remove_all_from-IsLinked (n ∷ ns) d h = remove_all_from-IsLinked ns _ (put_host-IsLinked n _ d h)

remove_all_group_from_hosts-IsLinked :
    (d : Inventory) → IsLinked d → IsLinked (remove_all_group_from_hosts d)
unfolding remove_all_group_from_hosts
remove_all_group_from_hosts-IsLinked d h =
    remove_all_from-IsLinked (keys (group_by_name all_name d).hosts) _
      (group_by_name-IsLinked all_name d h)

-- If a group has a child exactly if the child has it as a parent, then this is so after the
-- formatting steps too.
pub format-IsLinked : (d : Inventory) → IsLinked d → IsLinked (format d)
unfolding format
format-IsLinked d h =
    remove_all_group_from_hosts-IsLinked _
      (simplify-IsLinked _ (add_to_all_group-IsLinked _ (add_ungrouped_group-IsLinked d h)))
