-- ===== src/Utilities/Version.antt =====
-- utils/version/loose.go: versions as lists of numbers.
pub mod Order
use gosible.Base.{
  zero, suc, ℕ, ◌+◌, ◌*◌, ◌-◌, ◌^◌, ltb, leb, ◌==◌, ◌&&◌, ◌||◌, not, Bool, true, false, Option,
  none, some, List, [], ◌∷◌, if◌then◌else◌, length, is_empty, Outcome, ok, err, panic, ◌>>=◌, suc,
}
use gosible.Base.Int.{ℤ, pos, negsuc, lt_ℤ}
use gosible.GoText.{Str, split}

abbrev pub Loose : Type 0
Loose = List ℤ

pub data VersionError : Type 0 where
  not_a_number : VersionError

-- the value of decimal digits, onto `n`
unfoldable pub digits_onto : ℕ → Str → Option ℕ
digits_onto n [] = some n
digits_onto n (c ∷ s) =
    let rest = digits_onto (n * 10 + (c - 48)) s in if leb 48 c && leb c 57 then rest else none

abbrev pub in_range : Bool → ℕ → Option ℤ
in_range true n = if leb n (2 ^ 63) then some (if n == 0 then pos 0 else negsuc (n - 1)) else none
in_range false n = if ltb n (2 ^ 63) then some (pos n) else none

abbrev pub signed : Bool → Str → Option ℤ
signed negative s =
    if is_empty s
    then none
    else elim (digits_onto 0 s) [ none ↦ none | some n ↦ in_range negative n ]

-- strconv.ParseInt(s, 10, 64)
unfoldable pub parse_int : Str → Option ℤ
unfolding digits_onto
parse_int [] = none
parse_int (c ∷ s) =
    if c == 45 then signed true s else if c == 43 then signed false s else signed false (c ∷ s)

-- l[i] = v
unfoldable pub write_at : ℕ → ℤ → Loose → Outcome VersionError Loose
write_at i v [] = panic
write_at zero v (x ∷ l) = ok (v ∷ l)
write_at (suc i) v (x ∷ l) = write_at i v l >>= λ l'. ok (x ∷ l')

-- the value that is written where the text is no number is 0, and the loop ends
abbrev pub value_or_zero : Option ℤ → ℤ
value_or_zero none = pos 0
value_or_zero (some v) = v

abbrev pub go_on : Option ℤ → Outcome VersionError Loose → Outcome VersionError Loose
go_on none rest = err not_a_number
go_on (some v) rest = rest

unfoldable pub parse_parts : List Str → ℕ → Loose → Outcome VersionError Loose
unfolding parse_int write_at
parse_parts [] i l = ok l
parse_parts (p ∷ ps) i l = write_at i (value_or_zero (parse_int p)) l >>= λ l'.
    go_on (parse_int p) (parse_parts ps (i + 1) l')

-- The list is made with the capacity of the parts, and length 0.
unfoldable pub new_loose : Str → Outcome VersionError Loose
unfolding parse_parts
new_loose s = parse_parts (split b'.' s) 0 []

unfoldable pub compare_loose : Loose → Loose → ℤ
compare_loose [] [] = pos 0
compare_loose [] (q ∷ m) = negsuc 0
compare_loose (p ∷ l) [] = pos 1
compare_loose (p ∷ l) (q ∷ m) =
    let rest = compare_loose l m in if lt_ℤ q p then pos 1 else if lt_ℤ p q then negsuc 0 else rest
