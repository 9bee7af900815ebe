-- ===== src/Tests/Parsing.antt =====
-- Tests of parsing/.
use gosible.Parsing.Splitter.RoundTrip.{IsWord, split_args-join_args}
use gosible.Parsing.Splitter.Safety.{split_args-no_panic, split_args-two_spaces}
use gosible.Parsing.KeyValue.{find_unescaped_equals_sign_pos}
use gosible.Parsing.KeyValue.RoundTrip.{IsPair, pair_text, parse_key_value_pairs_string-join_args}
use gosible.Parsing.KeyValue.Equals.{Finds, find_unescaped_equals_sign_pos-Finds}
use gosible.Registry.{find, register}
use gosible.Registry.Names.{find-register}
use gosible.Dict.{merge}
use gosible.Base.{
  ◌≡◌, refl, true, false, some, [], ◌∷◌, ok, err, panic, List, All, map, no_panic, if◌then◌else◌,
  ◌||◌, not, ◌&&◌, arith,
}
use gosible.GoText.{codes, str_eq, split, contains_byte, trim_space, count, replace_all, Str}
use gosible.Dict.{insert}
use gosible.Parsing.Quoting.{unquote}
use gosible.Parsing.Splitter.{step_token, get_quote_state, split_args, join_args, unbalanced}
use gosible.Parsing.KeyValue.{parse_key_value_pairs_string}

split_quotes :
    split_args (codes "a=b c=\"foo  bar\"") ≡ ok (codes "a=b" ∷ codes "c=\"foo  bar\"" ∷ [])
unfolding split_args step_token get_quote_state split str_eq count
split_quotes = refl

split_blocks :
    split_args (codes "a {{ x\ny }} b") ≡ ok (codes "a" ∷ codes "{{ x\ny }}" ∷ codes "b" ∷ [])
unfolding split_args step_token get_quote_state split str_eq count
split_blocks = refl

split_unbalanced : split_args (codes "a='b") ≡ err unbalanced
unfolding split_args step_token get_quote_state split str_eq count
split_unbalanced = refl

split_blank : split_args (codes "  ") ≡ panic
unfolding split_args step_token get_quote_state split str_eq count
split_blank = refl

join_lines : join_args (codes "a\n" ∷ codes "b" ∷ codes "c" ∷ []) ≡ codes "a\nb c"
unfolding join_args
join_lines = refl

parse_pairs :
    parse_key_value_pairs_string (codes "echo a=\"1 2\" b") false
    ≡ ok (some ((codes "a", codes "1 2") ∷ (codes "_raw_params", codes "echo b") ∷ []))
unfolding parse_key_value_pairs_string split_args step_token get_quote_state split str_eq count
    join_args contains_byte trim_space replace_all insert unquote
parse_pairs = refl

abbrev words : List Str
words = codes "echo" ∷ codes "a=b" ∷ []

words-IsWord : All IsWord words
unfolding contains_byte
words-IsWord = (
  record {
    nonempty = refl;
    no_space = refl;
    no_newline = refl;
    no_double = refl;
    no_single = refl;
    no_backslash = refl;
    no_open = refl;
    no_close = refl;
  },
  (
    record {
      nonempty = refl;
      no_space = refl;
      no_newline = refl;
      no_double = refl;
      no_single = refl;
      no_backslash = refl;
      no_open = refl;
      no_close = refl;
    },
    tt,
  ),
)

split_args-join_args_example : split_args (join_args words) ≡ ok words
split_args-join_args_example = split_args-join_args words words-IsWord

abbrev pairs : List (Str × Str)
pairs = (codes "a", codes "b") ∷ (codes "a", codes "c") ∷ []

pairs-IsPair : All IsPair pairs
unfolding contains_byte trim_space
pairs-IsPair = (
  record {
    word = record {
      nonempty = refl;
      no_space = refl;
      no_newline = refl;
      no_double = refl;
      no_single = refl;
      no_backslash = refl;
      no_open = refl;
      no_close = refl;
    };
    key_nonempty = refl;
    key_plain = refl;
    key_trimmed = refl;
    value_trimmed = refl;
  },
  (
    record {
      word = record {
        nonempty = refl;
        no_space = refl;
        no_newline = refl;
        no_double = refl;
        no_single = refl;
        no_backslash = refl;
        no_open = refl;
        no_close = refl;
      };
      key_nonempty = refl;
      key_plain = refl;
      key_trimmed = refl;
      value_trimmed = refl;
    },
    tt,
  ),
)

parse_key_value_pairs_string-join_args_example :
    parse_key_value_pairs_string (join_args (map pair_text pairs)) false
    ≡ ok (some (merge [] pairs))
parse_key_value_pairs_string-join_args_example =
    parse_key_value_pairs_string-join_args pairs pairs-IsPair

split_args-no_panic_example : no_panic (split_args (codes "a='b")) ≡ true
split_args-no_panic_example =
    split_args-no_panic 97 (codes "='b") (λ e. omega (arith, e)) (λ e. omega (arith, e))
      (λ e. omega (arith, e))

split_args-two_spaces_example : split_args (codes "  a=b") ≡ panic
split_args-two_spaces_example = split_args-two_spaces (codes "a=b")

find_unescaped_equals_sign_pos-Finds_example :
    Finds 1 (codes "a\\=b=c") (find_unescaped_equals_sign_pos (codes "a\\=b=c"))
find_unescaped_equals_sign_pos-Finds_example =
    find_unescaped_equals_sign_pos-Finds (codes "a\\=b=c")

find-register_example :
    find (register (codes "ping") (codes "module") []) (codes "ansible.builtin.ping") ≡ (
      if str_eq (codes "ping") (codes "ansible.builtin.ping")
        || (not (contains_byte b'.' (codes "ping"))
            && (str_eq (codes "ansible.builtin.ping") (codes "ansible.builtin.ping")
                || str_eq (codes "ansible.legacy.ping") (codes "ansible.builtin.ping")))
      then some (codes "module")
      else find [] (codes "ansible.builtin.ping"))
find-register_example =
    find-register (codes "ping") (codes "module") [] (codes "ansible.builtin.ping")
