-- ===== src/GoText/Numbers.antt =====
-- strconv.ParseInt(s, 0, 64), the verb %d, and the wrap-around of int64.
use gosible.Base.{
  ℕ, zero, suc, ◌+◌, ◌-◌, ◌*◌, ◌/◌, ◌%◌, ◌^◌, Bool, true, false, not, ◌&&◌, ◌||◌, Option, none,
  some, [], ◌∷◌, ◌==◌, ltb, leb, if◌then◌else◌,
}
use gosible.Base.Int.{ℤ, pos, negsuc}
use gosible.GoText.{Str}

abbrev pub lower : ℕ → ℕ
lower c = if leb b'A' c && leb c b'Z' then c + 32 else c

abbrev pub is_digit : ℕ → Bool
is_digit c = leb b'0' c && leb c b'9'

abbrev pub is_hex_digit : ℕ → Bool
is_hex_digit c = is_digit c || (leb b'a' (lower c) && leb (lower c) b'f')

abbrev pub is_base_letter : ℕ → Bool
is_base_letter c = lower c == b'b' || (lower c == b'o' || lower c == b'x')

-- the value of a digit or letter; 36 where it is none
abbrev pub digit_value : ℕ → ℕ
digit_value c =
    if is_digit c
    then c - 48
    else if leb b'a' (lower c) && leb (lower c) b'z'
    then lower c - 87
    else 36

-- The digits in a base, onto `n`; underscores are passed over.
unfoldable pub digits_in : ℕ → ℕ → Str → Option ℕ
digits_in base n [] = some n
digits_in base n (c ∷ s) =
    let skipped = digits_in base n s in
    let rest = digits_in base (n * base + digit_value c) s in
    if c == b'_' then skipped else if ltb (digit_value c) base then rest else none

-- the base that a text names, and its digits
abbrev pub base_and_digits : Str → ℕ × Str
base_and_digits (c ∷ d ∷ e ∷ s) =
    if not (c == b'0')
    then (10, c ∷ d ∷ e ∷ s)
    else if lower d == b'b'
    then (2, e ∷ s)
    else if lower d == b'o'
    then (8, e ∷ s)
    else if lower d == b'x'
    then (16, e ∷ s)
    else (8, d ∷ e ∷ s)
base_and_digits (c ∷ s) = if c == b'0' then (8, s) else (10, c ∷ s)
base_and_digits [] = (10, [])

-- Underscores stand between digits or after a prefix. `before` is the last kind of byte: a digit
-- `0`, an underscore, or another.
unfoldable pub underscores_from : Bool → ℕ → Str → Bool
underscores_from hex before [] = not (before == b'_')
underscores_from hex before (c ∷ s) =
    let digit = underscores_from hex b'0' s in
    let underscore = underscores_from hex b'_' s in
    let other = underscores_from hex b'!' s in
    if is_digit c || (hex && is_hex_digit c)
    then digit
    else if c == b'_'
    then before == b'0' && underscore
    else not (before == b'_') && other

abbrev pub underscore_ok : Str → Bool
unfolding underscores_from
underscore_ok (c ∷ d ∷ s) =
    if c == b'0' && is_base_letter d
    then underscores_from (lower d == b'x') b'0' s
    else underscores_from false b'^' (c ∷ d ∷ s)
underscore_ok s = underscores_from false b'^' s

abbrev pub parse_magnitude : Str → Option ℕ
unfolding digits_in underscore_ok
parse_magnitude [] = none
parse_magnitude (c ∷ s) =
    let (base, digits) = base_and_digits (c ∷ s) in
    if underscore_ok (c ∷ s) then digits_in base 0 digits else none

abbrev pub signed64 : Bool → Option ℕ → Option ℤ
signed64 negative none = none
signed64 true (some n) =
    if leb n (2 ^ 63) then some (if n == 0 then pos 0 else negsuc (n - 1)) else none
signed64 false (some n) = if ltb n (2 ^ 63) then some (pos n) else none

-- `none` is each of the errors, of syntax and of range.
unfoldable pub parse_int_any_base : Str → Option ℤ
unfolding parse_magnitude
parse_int_any_base [] = none
parse_int_any_base (c ∷ s) =
    if c == b'-'
    then signed64 true (parse_magnitude s)
    else if c == b'+'
    then signed64 false (parse_magnitude s)
    else signed64 false (parse_magnitude (c ∷ s))

-- Decimal digits onto `s`; a number has no more digits than it is large, if it is not 0.
unfoldable pub digits_of : ℕ → ℕ → Str → Str
digits_of zero n s = s
digits_of (suc fuel) n s =
    let rest = digits_of fuel (n / 10) ((48 + n % 10) ∷ s) in
    if ltb n 10 then (48 + n) ∷ s else rest

unfoldable pub decimal : ℤ → Str
unfolding digits_of
decimal (pos n) = digits_of (suc n) n []
decimal (negsuc n) = b'-' ∷ digits_of (suc (suc n)) (suc n) []

-- the int64 whose bits are the lowest 64 of a number
abbrev pub wrap64 : ℤ → ℤ
wrap64 z = from_bits (bits z)
  where
    from_bits : ℕ → ℤ
    from_bits w = if ltb w (2 ^ 63) then pos w else negsuc (2 ^ 64 - w - 1)

    bits : ℤ → ℕ
    bits (pos n) = n % 2 ^ 64
    bits (negsuc n) = 2 ^ 64 - 1 - n % 2 ^ 64
