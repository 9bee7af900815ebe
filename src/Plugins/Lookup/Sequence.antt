-- ===== src/Plugins/Lookup/Sequence.antt =====
-- plugins/lookup/sequence/sequence.go. Its numbers are int64, so sums and products wrap around.
pub mod Counting
pub mod Backwards
use gosible.Base.{
  ℕ, zero, suc, Bool, true, false, not, ◌&&◌, ◌||◌, Option, none, some, List, [], ◌∷◌, ◌++◌, ◌==◌,
  if◌then◌else◌, is_empty, any_of, all_of, Outcome, ok, err, panic, ◌>>=◌, map, ◌/◌, ltb,
}
use gosible.Base.Int.{ℤ, pos, negsuc, lt_ℤ, eq_ℤ, ◌+ℤ◌, ◌-ℤ◌, ◌*ℤ◌, pos_part, neg_part}
use gosible.GoText.{Str, codes, count, contains, join, replace_all}
use gosible.GoText.Numbers.{lower, is_hex_digit, parse_int_any_base, decimal, wrap64}
use gosible.Dict.{Dict, lookup, delete, keys}
use gosible.Parsing.KeyValue.{parse_key_value_pairs_string}

pub record Seq : Type 0 where
  pub start : ℤ
  pub count : ℤ
  pub end : ℤ
  pub stride : ℤ
  pub format_string : Str

pub data SequenceError : Type 0 where
  not_an_integer : Str → Str → SequenceError
  unrecognized_arguments : Str → SequenceError
  no_count_or_end : SequenceError
  both_count_and_end : SequenceError
  count_backwards : SequenceError
  count_forward : SequenceError
  bad_formatting : Str → SequenceError

abbrev pub Result : Type 0 → Type 0
Result A = Outcome SequenceError A

unfoldable pub reset : Seq
reset = record {
  start = pos 1;
  count = negsuc 0;
  end = negsuc 0;
  stride = pos 1;
  format_string = codes "%d";
}

abbrev parse_field : Str → Str → Result ℤ
unfolding parse_int_any_base
parse_field name text = elim (parse_int_any_base text) [
  | none ↦ err (not_an_integer name text)
  | some n ↦ ok n
]

-- One of the four numbers, if the arguments have it; Go visits the four in any order.
abbrev take_number : Str → (ℤ → Seq → Seq) → Seq × Dict Str → Result (Seq × Dict Str)
unfolding parse_field lookup delete
take_number name set (s, args) = elim (lookup name args) [
  | none ↦ ok (s, args)
  | some r ↦ parse_field name r >>= λ n. ok (set n s, delete name args)
]

abbrev take_format : Seq × Dict Str → Seq × Dict Str
unfolding lookup delete
take_format (s, args) = elim (lookup (codes "format") args) [
  | none ↦ (s, args)
  | some f ↦ (record s { format_string = f }, delete (codes "format") args)
]

abbrev no_more : Seq × Dict Str → Result Seq
unfolding join keys
no_more (s, []) = ok s
no_more (s, a ∷ args) = err (unrecognized_arguments (join (codes ",") (keys (a ∷ args))))

unfoldable pub parse_kv_args : Dict Str → Seq → Result Seq
unfolding take_number take_format no_more
parse_kv_args args s =
    take_number (codes "start") (λ n s. record s { start = n }) (s, args)
    >>= take_number (codes "count") (λ n s. record s { count = n })
    >>= take_number (codes "end") (λ n s. record s { end = n })
    >>= take_number (codes "stride") (λ n s. record s { stride = n })
    >>= λ r. no_more (take_format r)

-- what `shortcut` finds: the texts of the start, the end, the stride and the format, or empty ones
pub record Shortcut : Type 0 where
  pub start : Str
  pub end : Str
  pub stride : Str
  pub format_string : Str

abbrev is_num_byte : ℕ → Bool
is_num_byte c = is_hex_digit c || lower c == b'x'

-- `[0-9a-f]+`, in either case
abbrev is_hex : Str → Bool
is_hex s = not (is_empty s) && all_of is_hex_digit s

-- `0?x?[0-9a-f]+`
abbrev is_num : Str → Bool
is_num [] = false
is_num (c ∷ []) = is_hex_digit c
is_num (c ∷ d ∷ s) =
    if lower c == b'x'
    then is_hex (d ∷ s)
    else if c == b'0' && lower d == b'x'
    then is_hex s
    else is_hex (c ∷ d ∷ s)

-- the longest beginning of hexadecimal digits and x, and what is left
unfoldable pub span_num : Str → Str × Str
span_num [] = ([], [])
span_num (c ∷ s) =
    let (n, rest) = span_num s in if is_num_byte c then (c ∷ n, rest) else ([], c ∷ s)

-- What stands after a number is none of its bytes, so that the group takes the longest beginning.
unfoldable pub match_num : Str → Option (Str × Str)
unfolding span_num
match_num s = let (n, rest) = span_num s in if is_num n then some (n, rest) else none

-- `(:(.+))?$`, where a dot is no newline
abbrev match_format : Shortcut → Str → Option Shortcut
match_format m [] = some m
match_format m (c ∷ format) =
    if c == b':' && (not (is_empty format) && not (any_of (λ x. x == b'\n') format))
    then some (record m { format_string = format })
    else none

-- `(/num)?`
abbrev match_stride : Shortcut → Str → Option Shortcut
unfolding match_num
match_stride m [] = some m
match_stride m (c ∷ s) =
    if c == b'/'
    then elim (match_num s) [
      | none ↦ none
      | some (stride, rest) ↦ match_format (record m { stride = stride }) rest
    ]
    else match_format m (c ∷ s)

abbrev match_end : Str → Str → Option Shortcut
unfolding match_stride match_num
match_end first [] = some (record { start = []; end = first; stride = []; format_string = [] })
match_end first (c ∷ s) =
    if c == b'-'
    then elim (match_num s) [
      | none ↦ none
      | some (end, rest) ↦
          match_stride (record { start = first; end = end; stride = []; format_string = [] }) rest
    ]
    else match_stride (record { start = []; end = first; stride = []; format_string = [] }) (c ∷ s)

-- shortcut.FindStringSubmatch(term)
unfoldable pub find_shortcut : Str → Option Shortcut
unfolding match_end match_num
find_shortcut term = elim (match_num term) [
  | none ↦ none
  | some (first, rest) ↦ match_end first rest
]

abbrev set_number : Str → (ℤ → Seq → Seq) → Str → Seq → Result Seq
unfolding parse_field
set_number name set [] s = ok s
set_number name set (c ∷ text) s = parse_field name (c ∷ text) >>= λ n. ok (set n s)

abbrev set_format : Str → Seq → Seq
set_format [] s = s
set_format (c ∷ format) s = record s { format_string = c ∷ format }

-- `none` where the term is no shortcut
unfoldable pub parse_simple_args : Str → Seq → Result (Option Seq)
unfolding find_shortcut set_number
parse_simple_args term s = elim (find_shortcut term) [
  | none ↦ ok none
  | some m ↦
      set_number (codes "start") (λ n s. record s { start = n }) m.start s
      >>= set_number (codes "end") (λ n s. record s { end = n }) m.end
      >>= set_number (codes "stride") (λ n s. record s { stride = n }) m.stride
      >>= λ s. ok (some (set_format m.format_string s))
]

abbrev pub is_unset : ℤ → Bool
is_unset n = eq_ℤ n (negsuc 0)

unfoldable pub count_to_end : Seq → Seq
unfolding ◌+ℤ◌ ◌-ℤ◌ ◌*ℤ◌
count_to_end s =
    if is_unset s.count
    then s
    else if eq_ℤ s.count (pos 0)
    then record s { start = pos 0; end = pos 0; stride = pos 0 }
    else record s { end = wrap64 (wrap64 (s.start +ℤ wrap64 (s.count *ℤ s.stride)) -ℤ pos 1) }

unfoldable pub check_direction : Seq → Result Seq
unfolding count contains
check_direction s =
    if lt_ℤ (pos 0) s.stride && lt_ℤ s.end s.start
    then err count_backwards
    else if lt_ℤ s.stride (pos 0) && lt_ℤ s.start s.end
    then err count_forward
    else if not (count s.format_string (codes "%") == 1)
        || not (contains s.format_string (codes "%d"))
    then err (bad_formatting s.format_string)
    else ok s

unfoldable pub sanity_check : Seq → Result Seq
unfolding count_to_end check_direction
sanity_check s =
    if is_unset s.count && is_unset s.end
    then err no_count_or_end
    else if not (is_unset s.count) && not (is_unset s.end)
    then err both_count_and_end
    else check_direction (count_to_end s)

-- `fmt.Sprintf(format, i)`, for a format whose one `%` stands in a `%d`
unfoldable pub sprintf : Str → ℤ → Str
unfolding replace_all decimal
sprintf format i = replace_all format (codes "%d") (decimal i)

-- the loop's condition
abbrev pub goes_on : ℤ → ℤ → ℤ → Bool
goes_on i end stride = (lt_ℤ (pos 0) stride && lt_ℤ i end) || (lt_ℤ stride (pos 0) && lt_ℤ end i)

-- The loop's numbers. `none` is out of fuel, since a sum that wraps around may go on for ever.
unfoldable pub count_on : ℕ → ℤ → ℤ → ℤ → Option (List ℤ)
unfolding ◌+ℤ◌
count_on zero i end stride = none
count_on (suc fuel) i end stride =
    if goes_on i end stride
    then elim (count_on fuel (wrap64 (i +ℤ stride)) end stride) [
      | none ↦ none
      | some numbers ↦ some (i ∷ numbers)
    ]
    else some []

unfoldable pub end_of_loop : Seq → ℤ
unfolding ◌+ℤ◌ ◌-ℤ◌
end_of_loop s = if lt_ℤ s.stride (pos 1) then wrap64 (s.end -ℤ pos 1) else wrap64 (s.end +ℤ pos 1)

-- `(end-s.start)/s.stride` is below 0: the two have different signs, and the first is no smaller.
abbrev pub is_negative_quotient : ℤ → ℤ → Bool
is_negative_quotient (pos n) (negsuc m) = not (n == 0) && not (lt_ℤ (pos n) (pos (suc m)))
is_negative_quotient (negsuc n) (pos m) = not (lt_ℤ (pos (suc n)) (pos m))
is_negative_quotient _ _ = false

-- the quotient, where it is not negative
abbrev pub capacity : ℤ → ℤ → ℕ
capacity (pos n) (pos m) = n / m
capacity (negsuc n) (negsuc m) = suc n / suc m
capacity _ _ = 0

-- A negative capacity is a panic, and so are a stride of 0 and a capacity of more than `room`, the
-- largest that `make` accepts for texts, which is below 2 ^ 63.
unfoldable pub generate_sequence : ℕ → ℕ → Seq → Option (Result (List Str))
unfolding count_on ◌-ℤ◌ sprintf
generate_sequence room fuel s =
    let distance = wrap64 (end_of_loop s -ℤ s.start) in
    if eq_ℤ s.stride (pos 0)
      || is_negative_quotient distance s.stride
      || ltb room (capacity distance s.stride)
    then some panic
    else elim (count_on fuel s.start (end_of_loop s) s.stride) [
      | none ↦ none
      | some numbers ↦ some (ok (map (sprintf s.format_string) numbers))
    ]

abbrev or_kv_args : Str → Option Seq → Result Seq
unfolding parse_key_value_pairs_string parse_kv_args reset
or_kv_args term (some s) = ok s
or_kv_args term none = elim (parse_key_value_pairs_string term false) [
  | panic ↦ panic
  | err e ↦ parse_kv_args [] reset
  | ok none ↦ parse_kv_args [] reset
  | ok (some args) ↦ parse_kv_args args reset
]

-- the sequence that a term describes
unfoldable pub read_sequence : Str → Result Seq
unfolding parse_simple_args or_kv_args reset sanity_check
read_sequence term = parse_simple_args term reset >>= or_kv_args term >>= sanity_check

unfoldable pub items_of : ℕ → ℕ → Result Seq → Option (Result (List Str))
unfolding generate_sequence
items_of room fuel panic = some panic
items_of room fuel (err e) = some (err e)
items_of room fuel (ok s) =
    if eq_ℤ s.stride (pos 0) then some (ok []) else generate_sequence room fuel s

-- Run, on the terms' texts; the fuel is for each term's loop.
unfoldable pub run_sequence : ℕ → ℕ → List Str → List Str → Option (Result (List Str))
unfolding read_sequence items_of
run_sequence room fuel [] result = some (ok result)
run_sequence room fuel (term ∷ terms) result = elim (items_of room fuel (read_sequence term)) [
  | none ↦ none
  | some panic ↦ some panic
  | some (err e) ↦ some (err e)
  | some (ok items) ↦ run_sequence room fuel terms (result ++ items)
]
