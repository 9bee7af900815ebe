-- ===== src/Variables/Groups.antt =====
-- vars/manager.go: the variables that the groups of a host give.
use gosible.Base.{◌≡◌, refl, ◌∙◌, Option, none, some, List, [], ◌∷◌, ap}
use gosible.GoText.{Str}
use gosible.Dict.{lookup}
use gosible.Dict.Laws.{IsUnique, or_else}
use gosible.Values.{Value, Vars}
use gosible.Inventory.{Inventory, group_at}
use gosible.Variables.{combine_vars}
use gosible.Variables.Gather.{groups_inventory}
use gosible.Variables.Unique.{combine_vars-IsUnique, lookup-combine_vars}

-- the value in the last of the groups that has the name
abbrev pub last_group : Inventory → Str → List Str → Option Value
last_group d j [] = none
last_group d j (g ∷ gs) = or_else (last_group d j gs) (lookup j (group_at d g).vars)

or_else-or_else : (a b c : Option Value) → or_else a (or_else b c) ≡ or_else (or_else a b) c
or_else-or_else none b c = refl
or_else-or_else (some v) b c = refl

-- A name has the value of the last group that has it, else the value that it had before, if no
-- group's variables hold a key twice.
pub groups_inventory-last_group :
    (d : Inventory) (gs : List Str) (vars : Vars) (j : Str)
    → ((g : Str) → IsUnique (group_at d g).vars)
    → IsUnique vars
    → lookup j (groups_inventory d gs vars) ≡ or_else (last_group d j gs) (lookup j vars)
unfolding groups_inventory
groups_inventory-last_group d [] vars j u v = refl
groups_inventory-last_group d (g ∷ gs) vars j u v =
    let both = combine_vars vars (group_at d g).vars in
    groups_inventory-last_group d gs both j u (combine_vars-IsUnique vars (group_at d g).vars)
    ∙ ap (or_else (last_group d j gs)) (lookup-combine_vars j vars (group_at d g).vars v (u g))
    ∙ or_else-or_else (last_group d j gs) (lookup j (group_at d g).vars) (lookup j vars)
