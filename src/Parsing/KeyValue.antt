-- ===== src/Parsing/KeyValue.antt =====
-- parsing/splitter.go: `ParseKeyValuePairsString`.
pub mod Equals
pub mod RoundTrip
use gosible.Base.{
  ℕ, ◌+◌, Bool, true, false, not, ◌&&◌, ◌||◌, Option, none, some, List, [], ◌∷◌, ◌++◌, ◌==◌,
  if◌then◌else◌, Outcome, ok, err, panic, ◌>>=◌, take, drop, any_of, is_empty,
}
use gosible.GoText.{Str, codes, str_eq, contains_byte, replace_all, trim_space}
use gosible.Dict.{Dict, insert}
use gosible.Parsing.Quoting.{backslash, unquote}
use gosible.Parsing.Splitter.{Split, split_args, join_args}

abbrev pub equals_sign : ℕ
equals_sign = 61

abbrev ignored_from_raw_params : List Str
ignored_from_raw_params =
    codes "creates"
    ∷ codes "removes"
    ∷ codes "chdir"
    ∷ codes "executable"
    ∷ codes "warn"
    ∷ codes "stdin"
    ∷ codes "stdin_add_newline"
    ∷ codes "strip_empty_ends"
    ∷ []

unfoldable pub is_ignored_from_raw_params : Str → Bool
is_ignored_from_raw_params k = any_of (λ x. str_eq k x) ignored_from_raw_params

unfoldable pub decode_escapes : Str → Str
decode_escapes x =
    replace_all (replace_all (replace_all x (codes "\\\\") (codes "\\")) (codes "\\'") (codes "'"))
      (codes "\\\"") (codes "\"")

-- The search over `x[pos:]`, with `x[pos-1]` at hand: the first `=` that no backslash precedes.
unfoldable pub search_equals : ℕ → ℕ → Str → Option ℕ
search_equals before pos [] = none
search_equals before pos (c ∷ rest) =
    let later = search_equals c (pos + 1) rest in
    if c == equals_sign && not (before == backslash) then some pos else later

-- The search starts at offset 1. `none` is -1; the caller then adds the text to the raw parameters.
unfoldable pub find_unescaped_equals_sign_pos : Str → Option ℕ
unfolding search_equals
find_unescaped_equals_sign_pos [] = none
find_unescaped_equals_sign_pos (c ∷ x) = search_equals c 1 x

abbrev pub Options : Type 0
Options = Dict Str

-- `options` and `rawParams`
pub record Parsed : Type 0 where
  pub options : Options
  pub raw_params : List Str

abbrev pub add_raw : Str → Parsed → Parsed
add_raw raw p = record p { raw_params = p.raw_params ++ raw ∷ [] }

-- `k := x[:pos]; v := x[pos+1:]`
unfoldable pub add_pair : Bool → Str → Str → ℕ → Parsed → Parsed
unfolding is_ignored_from_raw_params
add_pair check_raw raw_arg x pos p =
    if check_raw && not (is_ignored_from_raw_params (take pos x))
    then add_raw raw_arg p
    else record p {
      options =
          insert (trim_space (take pos x)) (unquote (trim_space (drop (pos + 1) x))) p.options;
    }

-- the loop's body, for `x := decodeEscapes(rawArg)`
unfoldable pub add_decoded : Bool → Str → Str → Parsed → Parsed
unfolding find_unescaped_equals_sign_pos add_pair
add_decoded check_raw raw_arg x p =
    if contains_byte equals_sign x
    then elim (find_unescaped_equals_sign_pos x) [
      | none ↦ add_raw (replace_all x (codes "\\=") (codes "=")) p
      | some pos ↦ add_pair check_raw raw_arg x pos p
    ]
    else add_raw raw_arg p

unfoldable pub add_arg : Bool → Str → Parsed → Parsed
unfolding decode_escapes add_decoded
add_arg check_raw raw_arg p = add_decoded check_raw raw_arg (decode_escapes raw_arg) p

unfoldable pub add_args : Bool → List Str → Parsed → Parsed
unfolding add_arg
add_args check_raw [] p = p
add_args check_raw (a ∷ as') p = add_args check_raw as' (add_arg check_raw a p)

abbrev pub with_raw_params : Parsed → Options
with_raw_params p =
    if is_empty p.raw_params
    then p.options
    else insert (codes "_raw_params") (join_args p.raw_params) p.options

-- `none` is the nil map that is returned when the split fails.
abbrev pub from_split : Bool → Split (List Str) → Split (Option Options)
from_split check_raw (ok vargs) =
    ok
      (some (with_raw_params (add_args check_raw vargs (record { options = []; raw_params = [] }))))
from_split check_raw (err e) = ok none
from_split check_raw panic = panic

unfoldable pub parse_key_value_pairs_string : Str → Bool → Split (Option Options)
unfolding add_args
parse_key_value_pairs_string args check_raw = from_split check_raw (split_args args)
