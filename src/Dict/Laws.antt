-- ===== src/Dict/Laws.antt =====
-- Laws of the maps.
use gosible.Base.{
  ◌≡◌, refl, false, Option, none, some, [], ◌∷◌, arith, if◌then◌else◌, ◌||◌, not, any_of, ◌&&◌,
  true,
}
use gosible.GoText.{Str, str_eq}
use gosible.GoText.Laws.{str_eq_iff, str_eq_refl}
use gosible.Dict.{keys, Dict, lookup, has, insert, delete, merge}

-- `new`'s entry if it has one, else `base`'s
abbrev pub or_else {ℓ} : {A : Type ℓ} → Option A → Option A → Option A
or_else (some a) b = some a
or_else none b = b

-- no key stands twice
abbrev pub IsUnique {ℓ} : {V : Type ℓ} → Dict V → Type 0
IsUnique [] = Unit
IsUnique ((k, v) ∷ m) = (has k m ≡ false) × IsUnique m

module _ {ℓ} {V : Type ℓ} where
  pub lookup-insert :
      (key j : Str) (value : V) (m : Dict V)
      → lookup j (insert key value m) ≡ (if str_eq key j then some value else lookup j m)
  unfolding lookup insert
  lookup-insert key j value [] = refl
  lookup-insert key j value ((i, w) ∷ rest) =
      ground
        (arith, str_eq_iff i key, str_eq_iff key j, str_eq_iff i j, lookup-insert key j value rest)

  pub lookup-insert_self : (k : Str) (v : V) (m : Dict V) → lookup k (insert k v m) ≡ some v
  lookup-insert_self k v m = simp (lookup-insert, str_eq_refl)

  pub lookup-delete :
      (k j : Str) (m : Dict V) → lookup j (delete k m) ≡ (if str_eq k j then none else lookup j m)
  unfolding lookup delete
  lookup-delete k j [] = ground arith
  lookup-delete k j ((i, w) ∷ m) =
      ground (arith, str_eq_iff k j, str_eq_iff i k, str_eq_iff i j, lookup-delete k j m)

  pub insert-IsUnique : (k : Str) (v : V) (m : Dict V) → IsUnique m → IsUnique (insert k v m)
  unfolding has lookup insert
  insert-IsUnique k v [] h = (refl, tt)
  insert-IsUnique k v ((j, w) ∷ m) h =
      ground (arith, insert-IsUnique k v m, lookup-insert k j v m, str_eq_iff j k, str_eq_iff k j)

  pub merge-IsUnique : (base new : Dict V) → IsUnique base → IsUnique (merge base new)
  unfolding merge
  merge-IsUnique base [] h = h
  merge-IsUnique base ((k, v) ∷ new) h =
      merge-IsUnique (insert k v base) new (insert-IsUnique k v base h)

  -- The later map wins, key by key.
  pub lookup-merge :
      (j : Str) (base new : Dict V)
      → IsUnique new
      → lookup j (merge base new) ≡ or_else (lookup j new) (lookup j base)
  unfolding has lookup merge
  lookup-merge j base [] h = refl
  lookup-merge j base ((k, v) ∷ new) (fresh, h) =
      ground
        (arith, lookup-merge j (insert k v base) new h, lookup-insert k j v base, str_eq_iff k j)

  pub has-insert : (k j : Str) (v : V) (m : Dict V) → has j (insert k v m) ≡ (str_eq k j || has j m)
  unfolding has
  has-insert k j v m = ground (arith, lookup-insert k j v m)

  pub has-delete : (k j : Str) (m : Dict V) → has j (delete k m) ≡ (not (str_eq k j) && has j m)
  unfolding has
  has-delete k j m = ground (arith, lookup-delete k j m)

  pub has-merge : (j : Str) (base new : Dict V) → has j (merge base new) ≡ (has j new || has j base)
  unfolding has lookup merge
  has-merge j base [] = refl
  has-merge j base ((k, v) ∷ new) =
      ground (arith, has-merge j (insert k v base) new, lookup-insert k j v base, str_eq_iff k j)

  -- A key is among the keys exactly if the map has it.
  pub any_of-keys : (j : Str) (m : Dict V) → any_of (λ k. str_eq k j) (keys m) ≡ has j m
  unfolding has lookup keys
  any_of-keys j [] = refl
  any_of-keys j ((k, v) ∷ m) = ground (arith, any_of-keys j m)

  pub has-lookup : (k : Str) (m : Dict V) → has k m ≡ true → (v : V) × (lookup k m ≡ some v)
  unfolding has
  has-lookup k m h = ground arith
