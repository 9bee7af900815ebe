-- ===== src/Utilities/Slices/Laws.antt =====
-- What Equal tells of two slices.
use gosible.Base.{
  ◌≡◌, refl, true, List, [], ◌∷◌, ◌++◌, arith, ok, ◌↔◌, subst, sym, Bool-cases, inl, inr,
}
use gosible.GoText.{Str, str_eq}
use gosible.GoText.Laws.{str_eq_iff, str_eq_refl}
use gosible.Utilities.Slices.{equal}

equal_prefix : (xs ys : List Str) → equal xs (xs ++ ys) ≡ ok true
unfolding equal
equal_prefix [] ys = refl
equal_prefix (x ∷ xs) ys = rw (str_eq_refl x) (equal_prefix xs ys)

same_head : (x y : Str) → str_eq y x ≡ true → y ≡ x
same_head x y e = ground (arith, str_eq_iff y x)

cons_same : {x y : Str} {xs ys : List Str} → y ≡ x → ys ≡ xs → (y ∷ ys) ≡ (x ∷ xs)
cons_same e h = cc

prefix_of : (xs ys : List Str) → equal xs ys ≡ ok true → (rest : List Str) × (ys ≡ xs ++ rest)
unfolding equal
prefix_of [] ys h = (ys, refl)
prefix_of (x ∷ xs) [] h = absurd (ground (arith, h))
prefix_of (x ∷ xs) (y ∷ ys) h = elim (Bool-cases (str_eq y x)) [
  | inl e ↦
      let (rest, same) = prefix_of xs ys (rw e at h) in (rest, cons_same (same_head x y e) same)
  | inr e ↦ absurd (ground (arith, rw e at h))
]

-- Equal holds exactly if the first slice is the beginning of the second, whose further elements are
-- not looked at.
pub equal-append :
    (slice slice2 : List Str)
    → (equal slice slice2 ≡ ok true) ↔ ((rest : List Str) × (slice2 ≡ slice ++ rest))
equal-append slice slice2 = (
  prefix_of slice slice2,
  λ (rest, e). subst (λ s. equal slice s ≡ ok true) (sym e) (equal_prefix slice rest),
)
