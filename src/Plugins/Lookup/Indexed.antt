-- ===== src/Plugins/Lookup/Indexed.antt =====
-- What the plugins items and indexed_items list.
use gosible.Base.{
  ℕ, zero, suc, ◌+◌, ◌≡◌, refl, ap, ◌∙◌, arith, List, [], ◌∷◌, Option, none, some, ok, get_elem?,
}
use gosible.Base.Int.{pos}
use gosible.Values.{Value, list, int, cons, nil, items_to_list, list_to_items}
use gosible.Plugins.Lookup.{
  VarArgs, items_onto, index_from, run_plain_items, run_indexed_items, Answer,
}

-- an index and what stands there
abbrev pub pair_at : ℕ → Value → Value
pair_at i v = list (cons (int (pos i)) (cons v nil))

items_to_list-list_to_items : (vs : List Value) → items_to_list (list_to_items vs) ≡ vs
unfolding items_to_list list_to_items
items_to_list-list_to_items [] = refl
items_to_list-list_to_items (v ∷ vs) = ap (λ t. v ∷ t) (items_to_list-list_to_items vs)

abbrev pub paired : ℕ → Option Value → Option Value
paired i none = none
paired i (some v) = some (pair_at i v)

get_elem?-index_from :
    (k i : ℕ) (vs : List Value) → get_elem? (index_from k vs) i ≡ paired (k + i) (get_elem? vs i)
unfolding index_from
get_elem?-index_from k i [] = refl
get_elem?-index_from k zero (v ∷ vs) = ap (λ (j : ℕ). some (pair_at j v)) (omega arith)
get_elem?-index_from k (suc i) (v ∷ vs) =
    get_elem?-index_from (suc k) i vs ∙ ap (λ (j : ℕ). paired j (get_elem? vs i)) (omega arith)

-- an item of the list that a plugin returns
abbrev pub item_at : Answer Value → ℕ → Option Value
unfolding items_to_list
item_at (ok (list vs)) i = get_elem? (items_to_list vs) i
item_at _ i = none

-- indexed_items lists each item of items with its index before it, and no others.
pub run_indexed_items-run_plain_items :
    (va : VarArgs) (i : ℕ)
    → item_at (run_indexed_items va) i ≡ paired i (item_at (run_plain_items va) i)
unfolding run_indexed_items run_plain_items item_at
run_indexed_items-run_plain_items va i =
    rw (items_to_list-list_to_items (index_from 0 (items_onto [] va.args))) (
      rw (items_to_list-list_to_items (items_onto [] va.args)) (
        get_elem?-index_from 0 i (items_onto [] va.args)
        ∙ ap (λ (j : ℕ). paired j (get_elem? (items_onto [] va.args) i)) (omega arith)))
