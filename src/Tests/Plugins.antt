-- ===== src/Tests/Plugins.antt =====
-- Runs of plugins/.
use gosible.Base.{
  if◌then◌else◌, panic, ltb, ◌≡◌, refl, ok, err, some, none, true, false, arith, [], ◌∷◌, ◌+◌, map,
  List, ◌<◌,
}
use gosible.Base.Int.{pos, negsuc, ◌-ℤ◌}
use gosible.GoText.{codes, count, contains, split, str_eq, contains_byte, trim_space}
use gosible.Values.{str}
use gosible.Dict.{insert}
use gosible.Parsing.Quoting.{unquote}
use gosible.Parsing.Splitter.{get_quote_state, split_args, step_token}
use gosible.Plugins.Lookup.{VarArgs, run_plain_items, run_indexed_items}
use gosible.Plugins.Lookup.Indexed.{item_at, paired, run_indexed_items-run_plain_items}
use gosible.Plugins.Lookup.Sequence.{run_sequence, items_of, sanity_check, sprintf, end_of_loop}
use gosible.Plugins.Lookup.Sequence.Counting.{
  In64, counted, IsFormat, progression, generate_sequence-count,
}
use gosible.Plugins.Lookup.Sequence.Backwards.{generate_sequence_backwards}

by_key :
    run_sequence 1000 9 (codes "start=1 end=7 stride=2" ∷ []) []
    ≡ some (ok (codes "1" ∷ codes "3" ∷ codes "5" ∷ codes "7" ∷ []))
unfolding run_sequence split_args split step_token str_eq get_quote_state contains_byte insert
    trim_space unquote end_of_loop
by_key = refl

by_shortcut :
    run_sequence 1000 9 (codes "0x0f-0x11:h%d" ∷ []) []
    ≡ some (ok (codes "h15" ∷ codes "h16" ∷ codes "h17" ∷ []))
unfolding run_sequence end_of_loop
by_shortcut = refl

two_too_many :
    run_sequence 1000 9 (codes "start=5 count=2 stride=-1" ∷ []) []
    ≡ some (ok (codes "5" ∷ codes "4" ∷ codes "3" ∷ codes "2" ∷ []))
unfolding run_sequence split_args split step_token str_eq get_quote_state contains_byte insert
    trim_space unquote end_of_loop
two_too_many = refl

formatted : IsFormat (codes "%d")
unfolding count contains
formatted = (refl, refl)

generate_sequence-count_example :
    items_of 1000 9 (sanity_check (counted (pos 4) 3 (pos 2) (codes "%d")))
    ≡ some (
        if ltb 1000 3
        then panic
        else ok (map (sprintf (codes "%d")) (progression 3 (pos 4) (pos 2))))
unfolding gosible.Base.Int.◌+ℤ◌
generate_sequence-count_example =
    generate_sequence-count (pos 4) 2 1 (codes "%d") (omega arith) (omega arith) (omega arith) 1000
      9 formatted (omega arith)

arguments : VarArgs
arguments = record { args = str (codes "a") ∷ str (codes "b") ∷ []; kw_args = []; env = [] }

run_indexed_items-run_plain_items_example :
    item_at (run_indexed_items arguments) 1 ≡ paired 1 (item_at (run_plain_items arguments) 1)
run_indexed_items-run_plain_items_example = run_indexed_items-run_plain_items arguments 1

end_in_range : In64 (pos 5 -ℤ pos 4)
unfolding ◌-ℤ◌
end_in_range = omega arith

generate_sequence_backwards_example :
    items_of 1000 9 (sanity_check (counted (pos 5) 2 (negsuc 0) (codes "%d")))
    ≡ some (
        if ltb 1000 4
        then panic
        else ok (map (sprintf (codes "%d")) (progression 4 (pos 5) (negsuc 0))))
generate_sequence_backwards_example =
    generate_sequence_backwards (pos 5) 1 (codes "%d") (omega arith) (omega arith) end_in_range 1000
      9 formatted (omega arith)
