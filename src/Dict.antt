-- ===== src/Dict.antt =====
-- Go's maps with string keys, as association lists. A key stands once in a map that is built by
-- `insert`; `range` visits the entries in the order of the list, one of the orders that Go may take.
pub mod Laws
use gosible.Base.{Bool, true, false, Option, none, some, List, [], ◌∷◌, map, if◌then◌else◌}
use gosible.GoText.{Str, str_eq}

abbrev pub Dict {ℓ} : Type ℓ → Type ℓ
Dict V = List (Str × V)

module _ {ℓ} {V : Type ℓ} where
  -- v, ok := m[k]
  unfoldable pub lookup : Str → Dict V → Option V
  lookup k [] = none
  lookup k ((j, v) ∷ m) = if str_eq j k then some v else lookup k m

  unfoldable pub has : Str → Dict V → Bool
  unfolding lookup
  has k m = elim (lookup k m) [ none ↦ false | some _ ↦ true ]

  -- m[k] = v
  unfoldable pub insert : Str → V → Dict V → Dict V
  insert key value [] = (key, value) ∷ []
  insert key value ((j, w) ∷ rest) =
      if str_eq j key then (j, value) ∷ rest else (j, w) ∷ insert key value rest

  -- delete(m, k); no key stands twice, and all that are equal to `k` go
  unfoldable pub delete : Str → Dict V → Dict V
  delete k [] = []
  delete k ((j, w) ∷ m) = let rest = delete k m in if str_eq j k then rest else (j, w) ∷ rest

  -- for k, v := range new { base[k] = v }
  unfoldable pub merge : Dict V → Dict V → Dict V
  unfolding insert
  merge base [] = base
  merge base ((k, v) ∷ new) = merge (insert k v base) new

-- utils/maps: Keys
unfoldable pub keys {ℓ} : {V : Type ℓ} → Dict V → List Str
keys [] = []
keys ((k, v) ∷ m) = k ∷ keys m

-- utils/maps: Values
unfoldable pub values {ℓ} : {V : Type ℓ} → Dict V → List V
values [] = []
values ((k, v) ∷ m) = v ∷ values m
