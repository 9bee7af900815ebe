-- ===== src/GoText/Sorting.antt =====
-- Go's `sort` package, as far as the program uses it: sort.Slice on names. Names that compare as
-- equal are equal, so that every sort gives the same list.
use gosible.Base.{
  ℕ, ◌+◌, ◌≡◌, refl, true, false, Bool-cases, inl, inr, List, [], ◌∷◌, arith, if◌then◌else◌,
}
use gosible.GoText.{Str, str_eq, str_lt}

unfoldable insert_sorted : Str → List Str → List Str
insert_sorted name [] = name ∷ []
insert_sorted name (n ∷ ns) =
    let rest = insert_sorted name ns in if str_lt name n then name ∷ n ∷ ns else n ∷ rest

unfoldable pub sort_names : List Str → List Str
unfolding insert_sorted
sort_names [] = []
sort_names (n ∷ ns) = insert_sorted n (sort_names ns)

-- no name is less than the one before it
abbrev pub IsFrom : Str → List Str → Type 0
IsFrom a [] = Unit
IsFrom a (b ∷ ns) = str_lt b a ≡ false

abbrev pub IsSorted : List Str → Type 0
IsSorted [] = Unit
IsSorted (a ∷ ns) = IsFrom a ns × IsSorted ns

-- how often a name stands in a list
abbrev pub occurrences : Str → List Str → ℕ
occurrences x [] = 0
occurrences x (n ∷ ns) = (if str_eq n x then 1 else 0) + occurrences x ns

str_lt_not : (a b : Str) → str_lt a b ≡ true → str_lt b a ≡ false
unfolding str_lt
str_lt_not [] [] h = refl
str_lt_not [] (d ∷ b) h = refl
str_lt_not (c ∷ a) [] h = ground (arith, h)
str_lt_not (c ∷ a) (d ∷ b) h = ground (arith, h, str_lt_not a b)

insert_sorted-IsFrom :
    (a name : Str) (ns : List Str)
    → str_lt name a ≡ false
    → IsFrom a ns
    → IsFrom a (insert_sorted name ns)
unfolding insert_sorted
insert_sorted-IsFrom a name [] h k = h
insert_sorted-IsFrom a name (n ∷ ns) h k = elim (Bool-cases (str_lt name n)) [
  | inl e ↦ rw e h
  | inr e ↦ rw e k
]

insert_sorted-IsSorted :
    (name : Str) (ns : List Str) → IsSorted ns → IsSorted (insert_sorted name ns)
unfolding insert_sorted
insert_sorted-IsSorted name [] s = (tt, tt)
insert_sorted-IsSorted name (n ∷ ns) (f, s) = elim (Bool-cases (str_lt name n)) [
  | inl e ↦ rw e (str_lt_not name n e, (f, s))
  | inr e ↦ rw e (insert_sorted-IsFrom n name ns e f, insert_sorted-IsSorted name ns s)
]

occurrences-insert_sorted :
    (x name : Str) (ns : List Str)
    → occurrences x (insert_sorted name ns) ≡ occurrences x (name ∷ ns)
unfolding insert_sorted
occurrences-insert_sorted x name [] = refl
occurrences-insert_sorted x name (n ∷ ns) = elim (Bool-cases (str_lt name n)) [
  | inl e ↦ rw e refl
  | inr e ↦ rw e (ground (arith, occurrences-insert_sorted x name ns))
]

pub sort_names-IsSorted : (ns : List Str) → IsSorted (sort_names ns)
unfolding sort_names
sort_names-IsSorted [] = tt
sort_names-IsSorted (n ∷ ns) = insert_sorted-IsSorted n (sort_names ns) (sort_names-IsSorted ns)

pub occurrences-sort_names :
    (x : Str) (ns : List Str) → occurrences x (sort_names ns) ≡ occurrences x ns
unfolding sort_names
occurrences-sort_names x [] = refl
occurrences-sort_names x (n ∷ ns) =
    ground (arith, occurrences-insert_sorted x n (sort_names ns), occurrences-sort_names x ns)
