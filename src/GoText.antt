-- ===== src/GoText.antt =====
-- Go's `strings` package, as far as the program uses it: a Go string is the list of its bytes.
pub mod Laws
pub mod Numbers
pub mod Lines
pub mod Sorting
use Prim.Native.Char.{code}
use gosible.Base.{
  ℕ, zero, suc, ◌-◌, ◌+◌, String, Bool, true, false, ◌&&◌, ◌||◌, Option, none, some, List, [], ◌∷◌,
  ◌++◌, ◌==◌, leb, if◌then◌else◌, length,
}

abbrev pub Str : Type 0
Str = List ℕ

-- a literal; every literal of the program that is modelled is ASCII
abbrev pub codes : String → Str
codes String.[] = []
codes (String.◌∷◌ c s) = code c ∷ codes s

-- `a == b`
unfoldable pub str_eq : Str → Str → Bool
str_eq [] [] = true
str_eq (x ∷ xs) (y ∷ ys) = x == y && str_eq xs ys
str_eq _ _ = false

-- `a < b`, byte by byte
unfoldable pub str_lt : Str → Str → Bool
str_lt [] [] = false
str_lt [] (y ∷ ys) = true
str_lt (x ∷ xs) [] = false
str_lt (x ∷ xs) (y ∷ ys) = if x == y then str_lt xs ys else leb x y

-- strings.HasPrefix(s, p)
unfoldable pub has_prefix : Str → Str → Bool
has_prefix s [] = true
has_prefix [] (y ∷ p) = false
has_prefix (x ∷ s) (y ∷ p) = x == y && has_prefix s p

-- strings.Contains(s, sub)
unfoldable pub contains : Str → Str → Bool
unfolding has_prefix
contains [] sub = has_prefix [] sub
contains (x ∷ s) sub = has_prefix (x ∷ s) sub || contains s sub

-- strings.Contains(s, c), for one byte
unfoldable pub contains_byte : ℕ → Str → Bool
contains_byte c [] = false
contains_byte c (x ∷ s) = x == c || contains_byte c s

-- strings.Index(s, c), for one byte; `none` is -1
unfoldable pub index_byte : ℕ → Str → Option ℕ
index_byte c [] = none
index_byte c (x ∷ s) =
    if x == c then some 0 else elim (index_byte c s) [ none ↦ none | some i ↦ some (i + 1) ]

-- Non-overlapping occurrences of `sub`; the first argument says how many bytes of the last
-- occurrence are still to be passed.
count_from : ℕ → Str → Str → ℕ
unfolding has_prefix
count_from k [] sub = 0
count_from (suc k) (x ∷ s) sub = count_from k s sub
count_from zero (x ∷ s) sub =
    let after = count_from (length sub - 1) s sub in
    let next = count_from zero s sub in if has_prefix (x ∷ s) sub then suc after else next

-- strings.Count(s, sub), for `sub` that is not empty
unfoldable pub count : Str → Str → ℕ
unfolding count_from
count s sub = count_from zero s sub

replace_from : ℕ → Str → Str → Str → Str
unfolding has_prefix
replace_from k [] old new = []
replace_from (suc k) (x ∷ s) old new = replace_from k s old new
replace_from zero (x ∷ s) old new =
    let after = replace_from (length old - 1) s old new in
    let next = replace_from zero s old new in
    if has_prefix (x ∷ s) old then new ++ after else x ∷ next

-- strings.ReplaceAll(s, old, new), for `old` that is not empty
unfoldable pub replace_all : Str → Str → Str → Str
unfolding replace_from
replace_all s old new = replace_from zero s old new

abbrev pub push_first : ℕ → List Str → List Str
push_first x [] = (x ∷ []) ∷ []
push_first x (p ∷ ps) = (x ∷ p) ∷ ps

-- strings.Split(s, c), for a separator of one byte
unfoldable pub split : ℕ → Str → List Str
split c [] = [] ∷ []
split c (x ∷ s) = let rest = split c s in if x == c then [] ∷ rest else push_first x rest

-- strings.Join(parts, sep)
unfoldable pub join : Str → List Str → Str
join sep [] = []
join sep (p ∷ []) = p
join sep (p ∷ q ∷ ps) = p ++ (sep ++ join sep (q ∷ ps))

-- unicode.IsSpace on ASCII
abbrev pub is_space : ℕ → Bool
is_space c = c == 32 || (leb 9 c && leb c 13)

unfoldable pub trim_left : Str → Str
trim_left [] = []
trim_left (x ∷ s) = let rest = trim_left s in if is_space x then rest else x ∷ s

abbrev push_kept : ℕ → Str → Str
push_kept x [] = if is_space x then [] else x ∷ []
push_kept x (y ∷ s) = x ∷ y ∷ s

unfoldable pub trim_right : Str → Str
trim_right [] = []
trim_right (x ∷ s) = push_kept x (trim_right s)

-- strings.TrimSpace(s)
unfoldable pub trim_space : Str → Str
unfolding trim_left trim_right
trim_space s = trim_right (trim_left s)
