-- ===== src/Modules/Service/Regexps.antt =====
-- modules/service/linux_service.go: what its regular expressions find, on ASCII.
use gosible.Base.{
  ℕ, zero, suc, ◌+◌, Bool, true, false, not, ◌&&◌, ◌||◌, Option, none, some, [], ◌∷◌, ◌++◌, ◌==◌,
  if◌then◌else◌, length, drop, leb,
}
use gosible.GoText.{Str, codes, has_prefix}
use gosible.GoText.Numbers.{lower}

-- `\s`
abbrev pub is_blank : ℕ → Bool
is_blank c = c == b' ' || (leb 9 c && (leb c 13 && not (c == 11)))

-- the text up to the last closing parenthesis of its line, with it
unfoldable pub up_to_last_paren : Str → Option Str
up_to_last_paren [] = none
up_to_last_paren (c ∷ s) =
    let rest = up_to_last_paren s in
    if c == b'\n'
    then none
    else elim rest [ none ↦ if c == b')' then some (c ∷ []) else none | some t ↦ some (c ∷ t) ]

-- versionRe.Find: `\(upstart (.*)\)`
unfoldable pub find_upstart : Str → Option Str
unfolding has_prefix up_to_last_paren
find_upstart [] = none
find_upstart (c ∷ s) =
    let next = find_upstart s in
    if has_prefix (c ∷ s) (codes "(upstart ")
    then elim (up_to_last_paren (drop 9 (c ∷ s))) [
      | none ↦ next
      | some t ↦ some (codes "(upstart " ++ t)
    ]
    else next

-- the length of the white space at the beginning
unfoldable pub blanks : Str → ℕ
blanks [] = 0
blanks (c ∷ s) = let rest = blanks s in if is_blank c then suc rest else 0

-- the offset of the last end of line within the white space at the beginning, if there is one
unfoldable pub last_line_end : Str → Option ℕ
last_line_end [] = none
last_line_end (c ∷ s) =
    let rest = last_line_end s in
    if not (is_blank c)
    then none
    else elim rest [ none ↦ if c == b'\n' then some 0 else none | some i ↦ some (suc i) ]

-- a beginning in lower or upper case
unfoldable pub has_prefix_fold : Str → Str → Bool
has_prefix_fold s [] = true
has_prefix_fold [] (y ∷ p) = false
has_prefix_fold (x ∷ s) (y ∷ p) = lower x == lower y && has_prefix_fold s p

abbrev after_word : ℕ → Str → Option ℕ
unfolding blanks last_line_end
after_word n rest =
    if blanks rest == length rest
    then some (n + length rest)
    else elim (last_line_end rest) [ none ↦ none | some i ↦ some (n + i) ]

-- how much `(?im)^word\s*$` takes at the beginning of a line; white space may reach over lines
unfoldable pub match_line : Str → Str → Option ℕ
unfolding has_prefix_fold after_word
match_line word s =
    if has_prefix_fold s word then after_word (length word) (drop (length word) s) else none

-- ReplaceAll with nothing; `k` bytes of the last match are still to be passed
unfoldable pub remove_lines : ℕ → Bool → Str → Str → Str
unfolding match_line
remove_lines k at_start word [] = []
remove_lines (suc k) at_start word (c ∷ s) = remove_lines k (c == b'\n') word s
remove_lines zero at_start word (c ∷ s) =
    let kept = c ∷ remove_lines zero (c == b'\n') word s in
    let removed : ℕ → Str = λ k. remove_lines k (c == b'\n') word s in
    if not at_start then kept else elim (match_line word (c ∷ s)) as (λ _. Str) [
      | none ↦ kept
      | some zero ↦ kept
      | some (suc k) ↦ removed k
    ]

-- Match
unfoldable pub has_line : Bool → Str → Str → Bool
unfolding match_line
has_line at_start word [] = false
has_line at_start word (c ∷ s) =
    let rest = has_line (c == b'\n') word s in
    if not at_start then rest else elim (match_line word (c ∷ s)) [ none ↦ rest | some k ↦ true ]
