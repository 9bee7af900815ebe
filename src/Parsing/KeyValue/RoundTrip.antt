-- ===== src/Parsing/KeyValue/RoundTrip.antt =====
-- Key/value texts that are parsed back.
use gosible.Base.{
  ℕ, ◌+◌, ◌≡◌, ◌≢◌, refl, ◌∙◌, ap, true, false, some, List, [], ◌∷◌, ◌++◌, map, arith, All, length,
  is_empty, ok,
}
use gosible.GoText.{Str, codes, contains_byte, trim_space}
use gosible.GoText.Laws.{replace_all_absent, take-append, drop-append, contains_byte-append}
use gosible.Dict.{insert, merge}
use gosible.Parsing.Quoting.{unquote}
use gosible.Parsing.Splitter.{join_args}
use gosible.Parsing.Splitter.RoundTrip.{IsWord, split_args-join_args}
use gosible.Parsing.KeyValue.{
  Parsed, decode_escapes, search_equals, find_unescaped_equals_sign_pos, add_arg, add_decoded,
  add_args, add_pair, parse_key_value_pairs_string,
}

-- `k=v`
abbrev pub pair_text : Str × Str → Str
pair_text (k, v) = k ++ 61 ∷ v

-- A pair that is one word: the key is not empty and has no equals sign, and neither part begins or
-- ends with white space.
pub record IsPair (p : Str × Str) : Type 0 where
  pub word : IsWord (pair_text p)
  pub key_nonempty : is_empty p.0 ≡ false
  pub key_plain : contains_byte 61 p.0 ≡ false
  pub key_trimmed : trim_space p.0 ≡ p.0
  pub value_trimmed : trim_space p.1 ≡ p.1

decode_escapes_word : (x : Str) → contains_byte 92 x ≡ false → decode_escapes x ≡ x
unfolding decode_escapes
decode_escapes_word x h = rw (
  replace_all_absent 92 x (codes "\\\\") (codes "\\") h (unfold contains_byte in refl),
  replace_all_absent 92 x (codes "\\'") (codes "'") h (unfold contains_byte in refl),
  replace_all_absent 92 x (codes "\\\"") (codes "\"") h (unfold contains_byte in refl),
)

-- No quote at the first byte.
unquote_plain : (v : Str) → contains_byte 34 v ≡ false → contains_byte 39 v ≡ false → unquote v ≡ v
unfolding unquote contains_byte
unquote_plain [] h k = refl
unquote_plain (c ∷ v) h k = ground arith

search_equals_key :
    (before pos : ℕ) (k v : Str)
    → before ≢ 92
    → contains_byte 92 k ≡ false
    → contains_byte 61 k ≡ false
    → search_equals before pos (k ++ 61 ∷ v) ≡ some (pos + length k)
unfolding search_equals contains_byte
search_equals_key before pos [] v n h e = ground arith
search_equals_key before pos (c ∷ k) v n h e = ground (arith, search_equals_key c (pos + 1) k v)

find_equals_key :
    (k v : Str)
    → is_empty k ≡ false
    → contains_byte 92 k ≡ false
    → contains_byte 61 k ≡ false
    → find_unescaped_equals_sign_pos (k ++ 61 ∷ v) ≡ some (length k)
unfolding find_unescaped_equals_sign_pos contains_byte
find_equals_key [] v n h e = cc
find_equals_key (c ∷ k) v n h e = ground (arith, search_equals_key c 1 k v)

contains_byte_pair :
    (c : ℕ) (k v : Str)
    → contains_byte c (k ++ 61 ∷ v) ≡ false
    → (contains_byte c k ≡ false) × (contains_byte c v ≡ false)
contains_byte_pair c k v h =
    let e = contains_byte-append c k (61 ∷ v) in unfold contains_byte in ground (arith, e)

contains_byte_equals : (k v : Str) → contains_byte 61 (k ++ 61 ∷ v) ≡ true
unfolding contains_byte
contains_byte_equals [] v = refl
contains_byte_equals (c ∷ k) v = ground (arith, contains_byte_equals k v)

add_pair_word :
    (k v raw : Str) (q : Parsed)
    → trim_space k ≡ k
    → trim_space v ≡ v
    → unquote v ≡ v
    → add_pair false raw (k ++ 61 ∷ v) (length k) q ≡ record q { options = insert k v q.options }
unfolding add_pair
add_pair_word k v raw q hk hv u = ground (arith, take-append k (61 ∷ v), drop-append k 61 v)

add_decoded_pair :
    (k v : Str) (q : Parsed)
    → IsPair (k, v)
    → add_decoded false (k ++ 61 ∷ v) (k ++ 61 ∷ v) q ≡ record q { options = insert k v q.options }
unfolding add_decoded
add_decoded_pair k v q h =
    let w = h.word in
    let slash = contains_byte_pair 92 k v w.no_backslash in
    let plain =
      unquote_plain v (contains_byte_pair 34 k v w.no_double).1
        (contains_byte_pair 39 k v w.no_single).1 in
    rw (contains_byte_equals k v, find_equals_key k v h.key_nonempty slash.0 h.key_plain)
      (add_pair_word k v (k ++ 61 ∷ v) q h.key_trimmed h.value_trimmed plain)

add_arg_pair :
    (p : Str × Str) (q : Parsed)
    → IsPair p
    → add_arg false (pair_text p) q ≡ record q { options = insert p.0 p.1 q.options }
unfolding add_arg
add_arg_pair (k, v) q h =
    ap (λ x. add_decoded false (k ++ 61 ∷ v) x q)
      (decode_escapes_word (k ++ 61 ∷ v) h.word.no_backslash)
    ∙ add_decoded_pair k v q h

add_args_pairs :
    (ps : List (Str × Str)) (q : Parsed)
    → All IsPair ps
    → add_args false (map pair_text ps) q ≡ record q { options = merge q.options ps }
unfolding add_args merge
add_args_pairs [] q h = refl
add_args_pairs (p ∷ ps) q h =
    ap (add_args false (map pair_text ps)) (add_arg_pair p q h.0)
    ∙ (add_args_pairs ps (record q { options = insert p.0 p.1 q.options }) h.1)

pairs_are_words : (ps : List (Str × Str)) → All IsPair ps → All IsWord (map pair_text ps)
pairs_are_words [] h = tt
pairs_are_words (p ∷ ps) h = (h.0.word, pairs_are_words ps h.1)

-- With checkRaw off, pairs written `k=v` and joined by spaces are parsed into the map of these pairs,
-- in which a later pair replaces an earlier one with its key, if no pair has a space, newline, quote,
-- backslash or brace, no key is empty or has an equals sign, and neither keys nor values have white
-- space at their ends.
pub parse_key_value_pairs_string-join_args :
    (ps : List (Str × Str))
    → All IsPair ps
    → parse_key_value_pairs_string (join_args (map pair_text ps)) false ≡ ok (some (merge [] ps))
unfolding parse_key_value_pairs_string
parse_key_value_pairs_string-join_args ps h = rw (
  split_args-join_args (map pair_text ps) (pairs_are_words ps h),
  add_args_pairs ps (record { options = []; raw_params = [] }) h,
)
